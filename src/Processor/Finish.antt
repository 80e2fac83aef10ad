-- ===== src/Processor/Finish.antt =====
-- What the results of the stores that left do to the reorder buffer.
use native.Mathlib.Decide.{ℕ_discrete}
use ooo_superscalar_risc_sim.Common.{
  ◌==◌, ◌||◌, ◌&&◌, Bool, true, false, ap₂, ne→==, ==_iff, get_or-set_self, get_or-set_ne, ℕ, ◌<◌,
  ◌≡◌, ◌∙◌, refl, sym, ap, subst, inl, inr, Option, none, some, List, [], ◌∷◌, arith,
}
use ooo_superscalar_risc_sim.Common.Int.{eq_ℤ, ℤ, pos, Word}
use ooo_superscalar_risc_sim.LoadStoreQueue.{update_first}
use ooo_superscalar_risc_sim.Rob.{RobEntry, blank, ReorderBuffer, write_result}
use ooo_superscalar_risc_sim.Rob.Invariant.{
  slot, is_busy, IsValid, completed, write_result_cases, completed-IsValid,
}
use ooo_superscalar_risc_sim.Processor.{has_rob_id, rob_write, Core, completed_info}
use ooo_superscalar_risc_sim.Processor.Stores.{finish_stores}
use ooo_superscalar_risc_sim.Processor.Loop.{AllIn, holds}

-- Is slot `i` done after a result for each of the tags?
abbrev pub done_after : ReorderBuffer → List ℤ → ℕ → Bool
done_after r tags i = (slot r i).done || (is_busy r i && holds tags (pos i))

-- A write to a slot in range succeeds, and does what it should to every slot.
abbrev Written : ℕ → ReorderBuffer → Option ReorderBuffer → Type 0
Written i r o =
    (r' : ReorderBuffer) × (o ≡ some r')
    × IsValid r'
    × (r'.capacity ≡ r.capacity)
    × ((j : ℕ) → is_busy r' j ≡ is_busy r j)
    × ((j : ℕ) → (slot r' j).done ≡ ((slot r j).done || (is_busy r j && j == i)))

or_idle : (d : Bool) → d ≡ (d || false)
or_idle true = refl
or_idle false = refl

done-completed :
    {r : ReorderBuffer} (i : ℕ) (x : Word)
    → IsValid r
    → i < r.capacity
    → is_busy r i ≡ true
    → (j : ℕ)
    → (is_busy (completed r i x) j ≡ is_busy r j)
      × ((slot (completed r i x) j).done ≡ ((slot r j).done || (is_busy r j && j == i)))
done-completed {r} i x v inside busy j = elim (ℕ_discrete j i) [
  | yes e ↦
      let written =
        get_or-set_self r.buffer i (record (slot r i) { value = x; done = true }) blank
          (rw v.sized inside) in
      let b : is_busy (completed r i x) j ≡ is_busy r j = ground (arith, written, e, busy) in
      (b, ground (arith, written, e, busy))
  | no n ↦
      let same =
        get_or-set_ne r.buffer i j (record (slot r i) { value = x; done = true }) blank
          (λ e. n (sym e)) in
      (
        ap (λ (t : RobEntry). t.busy) same,
        ap (λ (t : RobEntry). t.done) same
            ∙ or_idle (slot r j).done
            ∙ ap (λ b. (slot r j).done || b)
                (and_idle (is_busy r j) ∙ ap (λ b. is_busy r j && b) (sym (ne→== j i n))),
      )
]
  where
    and_idle : (b : Bool) → false ≡ (b && false)
    and_idle true = refl
    and_idle false = refl

done-free : (d b t : Bool) → (t ≡ true → b ≡ false) → d ≡ (d || (b && t))
done-free d true false h = or_idle d
done-free d false false h = or_idle d
done-free d b true h = simp (h refl) (or_idle d)

rob_write-Written :
    {r : ReorderBuffer} (i : ℕ) (x : Word)
    → IsValid r
    → i < r.capacity
    → Written i r (rob_write r (pos i) x)
rob_write-Written {r} i x v inside =
    let e : rob_write r (pos i) x ≡ write_result r i x = ground (arith, v.sized) in
    subst (Written i r) (sym e) (elim (write_result_cases i x v inside) [
      | inl (busy, h) ↦ (
        completed r i x,
        h,
        completed-IsValid i x v inside,
        refl,
        λ j. (done-completed i x v inside busy j).0,
        λ j. (done-completed i x v inside busy j).1,
      )
      | inr (free, h) ↦ (
        r,
        h,
        v,
        refl,
        λ j. refl,
        λ j.
            done-free (slot r j).done (is_busy r j) (j == i)
              (λ t. ap (is_busy r) ((==_iff j i).0 t) ∙ free),
      )
    ])

-- One tag and then the others are the tags.
done_step : (d b t h : Bool) → ((d || (b && t)) || (b && h)) ≡ (d || (b && (t || h)))
done_step true b t h = refl
done_step false true t h = refl
done_step false false t h = refl

abbrev pub Finished : Core → List ℤ → Option Core → Type 0
Finished c tags o =
    (c' : Core) × (o ≡ some c')
    × IsValid c'.rob
    × (c'.lsq ≡ c.lsq)
    × ((j : ℕ) → (slot c'.rob j).done ≡ done_after c.rob tags j)

pub finish_stores-Finished :
    (c : Core) (tags : List ℤ)
    → IsValid c.rob
    → AllIn c.rob.capacity tags
    → Finished c tags (finish_stores c tags)
unfolding finish_stores
finish_stores-Finished c [] v a =
    (c, refl, v, refl, λ j. done-free (slot c.rob j).done (is_busy c.rob j) false (λ t. cc))
finish_stores-Finished c (tag ∷ tags) v ((i, e, lt), a) =
    let (r, w, v', same, busy, done) = rob_write-Written i 0 v lt in
    let next : Core = record c {
      rob = r;
      inst_table = update_first (has_rob_id tag) completed_info c.inst_table;
    } in
    let (c', ends, valid, kept, marked) =
      finish_stores-Finished next tags v' (subst (λ n. AllIn n tags) (sym same) a) in
    (
      c',
      ap
            (λ (o : Option ReorderBuffer). elim o [
              | none ↦ none
              | some rob ↦
                  finish_stores
                    (record c {
                      rob = rob;
                      inst_table = update_first (has_rob_id tag) completed_info c.inst_table;
                    })
                    tags
            ])
            (ap (λ t. rob_write c.rob t 0) e ∙ w)
          ∙ ends,
      valid,
      kept,
      λ j.
          marked j
          ∙ ap₂ (λ x y. x || (y && holds tags (pos j))) (done j) (busy j)
          ∙ done_step (slot c.rob j).done (is_busy c.rob j) (j == i) (holds tags (pos j))
          ∙ ap
              (λ t.
                (slot c.rob j).done || (is_busy c.rob j && (eq_ℤ (pos j) t || holds tags (pos j))))
              (sym e),
    )
