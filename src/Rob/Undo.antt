-- ===== src/Rob/Undo.antt =====
-- `undispatch` takes back the youngest entry, and refuses any other.
use native.Mathlib.Nat.{mod-lt}
use native.Mathlib.Decide.{ℕ_discrete, dec_lt}
use ooo_superscalar_risc_sim.Common.{
  ℕ, ◌+◌, ◌-◌, ◌%◌, ◌<◌, ◌≡◌, ◌≢◌, ◌∙◌, refl, sym, ap, Bool, true, false, ◌&&◌, arith, ltb, ◌==◌,
  get_or, set, take, length-set, get_elem?-eq-get_or, get_or-set_self, get_or-set_ne, if◌then◌else◌,
}
use ooo_superscalar_risc_sim.Common.Circular.{
  window_congr, take-window, distance_add, distance_inj, mod_back,
}
use ooo_superscalar_risc_sim.Rob.{ReorderBuffer, blank, freed, last, undispatch, age_from_head}
use ooo_superscalar_risc_sim.Rob.Invariant.{slot, is_busy, IsValid}
use ooo_superscalar_risc_sim.Rob.Contents.{view, seen, contents, place_ne}

-- The slot of the youngest entry.
abbrev pub youngest : ReorderBuffer → ℕ
youngest r = (r.head + (r.active_count - 1)) % r.capacity

module _ {r : ReorderBuffer} (v : IsValid r) (left : 0 < r.active_count) where
  pub youngest-last : last r ≡ youngest r
  youngest-last =
      let e : r.active_count ≡ r.active_count - 1 + 1 = omega arith in
      ap (λ t. (t + r.capacity - 1) % r.capacity)
        (v.tail_at ∙ ap (λ t. (r.head + t) % r.capacity) e)
      ∙ mod_back r.capacity r.head (r.active_count - 1) v.head_in (omega (arith, v.fits))

  youngest-lt : youngest r < r.capacity
  youngest-lt = mod-lt (r.head + (r.active_count - 1)) (omega (arith, v.head_in))

  age_youngest : age_from_head r (youngest r) ≡ r.active_count - 1
  age_youngest =
      distance_add r.capacity r.head v.head_in (r.active_count - 1) (omega (arith, v.fits))

  youngest_busy : is_busy r (youngest r) ≡ true
  youngest_busy = v.live (youngest r) youngest-lt ∙ rw age_youngest (ground arith)

  abbrev undone : ReorderBuffer
  undone = record r {
    buffer = set r.buffer (youngest r) (freed (slot r (youngest r)));
    tail = youngest r;
    active_count = r.active_count - 1;
  }

  undone-IsValid : IsValid undone
  undone-IsValid = record {
    sized = length-set r.buffer (youngest r) (freed (slot r (youngest r))) ∙ v.sized;
    head_in = v.head_in;
    tail_at = refl;
    fits = omega (arith, v.fits);
    live = live';
  }
    where
      far : (i : ℕ) → i < r.capacity → i ≢ youngest r → age_from_head r i ≢ r.active_count - 1
      far i lt ne e = ne (
          distance_inj r.capacity r.head v.head_in i (youngest r) lt youngest-lt
            (e ∙ sym age_youngest))

      live' :
          (i : ℕ)
          → i < r.capacity
          → (get_or undone.buffer i blank).busy ≡ ltb (age_from_head r i) (r.active_count - 1)
      live' i lt = elim (ℕ_discrete i (youngest r)) [
        | yes e ↦
            rw
              (
                e,
                age_youngest,
                get_or-set_self r.buffer (youngest r) (freed (slot r (youngest r))) blank
                    (rw v.sized youngest-lt),
              )
              (ground arith)
        | no ne ↦
            rw
              (
                get_or-set_ne r.buffer (youngest r) i (freed (slot r (youngest r))) blank
                    (λ e. ne (sym e)),
                v.live i lt,
              )
              (ground (arith, far i lt ne))
      ]

  contents-undone : contents undone ≡ take (r.active_count - 1) (contents r)
  contents-undone =
      window_congr (seen undone.buffer) (seen r.buffer) r.capacity r.head (r.active_count - 1) kept
      ∙ sym (
          take-window (seen r.buffer) r.capacity r.head (r.active_count - 1) r.active_count
            (omega arith))
    where
      kept :
          (k : ℕ)
          → k < r.active_count - 1
          → seen undone.buffer ((r.head + k) % r.capacity)
            ≡ seen r.buffer ((r.head + k) % r.capacity)
      kept k lt = ap view (
          get_or-set_ne r.buffer (youngest r) ((r.head + k) % r.capacity)
            (freed (slot r (youngest r))) blank
            (place_ne v (r.active_count - 1) k (omega (arith, v.fits)) (omega (arith, v.fits))
              (omega arith)))

  undispatch-youngest : undispatch r (youngest r) ≡ (true, undone)
  unfolding undispatch
  undispatch-youngest = ground (
    arith,
    youngest-last,
    get_elem?-eq-get_or r.buffer (youngest r) blank (rw v.sized youngest-lt),
    youngest_busy,
  )

-- `undispatch` at a tag: of a non-empty buffer it drops the youngest instruction if the tag is that
-- one's, and refuses every other tag; an empty buffer it refuses. The invariant is kept.
pub undispatch_refines :
    {r : ReorderBuffer} (id : ℕ)
    → IsValid r
    → (ok : Bool) × (r' : ReorderBuffer) × (undispatch r id ≡ (ok, r'))
      × IsValid r'
      × (ok ≡ (ltb 0 r.active_count && (id == youngest r)))
      × (contents r' ≡ (if ok then take (r.active_count - 1) (contents r) else contents r))
undispatch_refines {r} id v = elim (dec_lt 0 r.active_count) [
  | no empty ↦ (false, r, unfold undispatch in ground arith, v, ground arith, refl)
  | yes left ↦ elim (ℕ_discrete id (youngest r)) [
    | yes e ↦ (
      true,
      undone v left,
      rw e (undispatch-youngest v left),
      undone-IsValid v left,
      ground arith,
      contents-undone v left,
    )
    | no ne ↦
        (false, r, unfold undispatch in ground (arith, youngest-last v left), v, ground arith, refl)
  ]
]
