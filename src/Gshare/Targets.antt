-- ===== src/Gshare/Targets.antt =====
-- What a prediction can be: the target of the branch's own last taken outcome, or the next instruction.
use native.Mathlib.Nat.{div-div-eq-div-mul, pow-suc, div-le_self, mod-add-div'}
use ooo_superscalar_risc_sim.Common.{
  ℕ, suc, ◌+◌, ◌*◌, ◌/◌, ◌%◌, ◌^◌, ◌≤◌, ◌<◌, ◌≡◌, ◌≢◌, ◌∙◌, refl, sym, ap, ap₂, arith, Bool, true,
  false, ◌&&◌, Option, none, some, List, [], ◌∷◌, ◌==◌, ◌>>=◌, get_or, set, replicate,
  if◌then◌else◌, get_or-replicate, get_or-set_self, get_or-set_ne, Bool-cases, ==_iff, eq→==, ne→==,
  inl, inr,
}
use ooo_superscalar_risc_sim.Gshare.{
  BtbEntry, no_entry, Gshare, init, pht_index, btb_index, btb_tag, verdict, predict, update,
}
use ooo_superscalar_risc_sim.Gshare.Range.{
  IsValid, init-IsValid, btb_index_lem, btb_index-lt, predict_lem, btb_after, after, update_lem,
  after-IsValid,
}

-- An outcome that the predictor is trained on.
pub record Outcome : Type 0 where
  pub pc : ℕ
  pub taken : Bool
  pub target : ℕ

-- The predictor after the outcomes, the latest at the front.
abbrev pub train : ℕ → ℕ → List Outcome → Option Gshare
train n m [] = some (init n m)
train n m (o ∷ os) = train n m os >>= λ p. update p o.pc o.taken o.target

-- The same instruction word: addresses that differ in the two lowest digits only.
abbrev pub same_slot : ℕ → ℕ → Bool
same_slot a b = a / 4 == b / 4

-- Where the branch at `pc` went when it was last taken.
abbrev pub last_target : ℕ → List Outcome → Option ℕ
last_target pc [] = none
last_target pc (o ∷ os) =
    let rest = last_target pc os in if o.taken && same_slot o.pc pc then some o.target else rest

-- Every entry that `pc` hits holds the last target of `pc`.
abbrev pub Remembers : Gshare → List Outcome → Type 0
Remembers p os =
    (pc : ℕ)
    → pc < 2 ^ 32
    → (get_or p.btb (btb_index p pc) no_entry).valid ≡ true
    → (get_or p.btb (btb_index p pc) no_entry).tag ≡ btb_tag p pc
    → last_target pc os ≡ some (get_or p.btb (btb_index p pc) no_entry).target_addr

-- Addresses are 32-bit.
abbrev pub AllWords : List Outcome → Type 0
AllWords [] = Unit
AllWords (o ∷ os) = (o.pc < 2 ^ 32) × AllWords os

plus_two : (j : ℕ) → 2 ^ (j + 2) ≡ 2 ^ suc (suc j)
plus_two j = ap (λ (t : ℕ). 2 ^ t) (omega arith)

module _ (p : Gshare) (ok : IsValid p) where
  tag_lem : (pc : ℕ) → pc < 2 ^ 32 → btb_tag p pc ≡ pc / 4 / 2 ^ ok.j
  unfolding btb_tag
  tag_lem pc small =
      let e : 2 ^ (ok.j + 2) ≡ 4 * 2 ^ ok.j =
        omega (arith, pow-suc 2 ok.j, pow-suc 2 (suc ok.j), plus_two ok.j) in
      let q : pc / 2 ^ (ok.j + 2) ≡ pc / 4 / 2 ^ ok.j =
        ap (λ (t : ℕ). pc / t) e ∙ sym (div-div-eq-div-mul pc 4 (2 ^ ok.j)) in
      rw (ok.btb_width, q) (omega (arith, div-le_self (pc / 4) (2 ^ ok.j)))

  -- An index and a tag are one word of memory.
  one_slot :
      (a b : ℕ)
      → a < 2 ^ 32
      → b < 2 ^ 32
      → btb_index p a ≡ btb_index p b
      → btb_tag p a ≡ btb_tag p b
      → a / 4 ≡ b / 4
  one_slot a b ha hb e f =
      let r : a / 4 % 2 ^ ok.j ≡ b / 4 % 2 ^ ok.j =
        sym (btb_index_lem p ok a) ∙ e ∙ btb_index_lem p ok b in
      let q : a / 4 / 2 ^ ok.j ≡ b / 4 / 2 ^ ok.j = sym (tag_lem a ha) ∙ f ∙ tag_lem b hb in
      sym (mod-add-div' (a / 4) (2 ^ ok.j))
      ∙ ap₂ (λ (x y : ℕ). x + y * 2 ^ ok.j) r q
      ∙ mod-add-div' (b / 4) (2 ^ ok.j)

  -- A taken branch's entry is the one of its own address, and other entries stay.
  remember_taken :
      (a target pc : ℕ) (os : List Outcome)
      → a < 2 ^ 32
      → pc < 2 ^ 32
      → Remembers p os
      → let e = get_or (btb_after p a true target) (btb_index p pc) no_entry in
        e.valid ≡ true
        → e.tag ≡ btb_tag p pc
        → (if same_slot a pc then some target else last_target pc os) ≡ some e.target_addr
  remember_taken a target pc os ha hpc known hit same =
      elim (Bool-cases (btb_index p a == btb_index p pc)) [
        | inl t ↦ written ((==_iff (btb_index p a) (btb_index p pc)).0 t)
        | inr f ↦ kept (ground arith)
      ]
    where
      new : BtbEntry
      new = record { valid = true; tag = btb_tag p a; target_addr = target }

      written :
          btb_index p a ≡ btb_index p pc
          → (if same_slot a pc then some target else last_target pc os)
            ≡ some (get_or (btb_after p a true target) (btb_index p pc) no_entry).target_addr
      written e =
          let entry : get_or (btb_after p a true target) (btb_index p pc) no_entry ≡ new =
            ap (λ i. get_or (set p.btb (btb_index p a) new) i no_entry) (sym e)
            ∙ get_or-set_self p.btb (btb_index p a) new no_entry (btb_index-lt p ok a) in
          rw (eq→== (a / 4) (pc / 4) (one_slot a pc ha hpc e (sym (ap (λ x. x.tag) entry) ∙ same)))
            (ap (λ x. some x.target_addr) (sym entry))

      kept :
          btb_index p a ≢ btb_index p pc
          → (if same_slot a pc then some target else last_target pc os)
            ≡ some (get_or (btb_after p a true target) (btb_index p pc) no_entry).target_addr
      kept ne =
          let entry : get_or (btb_after p a true target) (btb_index p pc) no_entry
              ≡ get_or p.btb (btb_index p pc) no_entry =
            get_or-set_ne p.btb (btb_index p a) (btb_index p pc) new no_entry ne in
          let other : (a / 4 == pc / 4) ≡ false = ne→== (a / 4) (pc / 4) (λ s. ne (
            btb_index_lem p ok a ∙ ap (λ (t : ℕ). t % 2 ^ ok.j) s ∙ sym (btb_index_lem p ok pc))) in
          rw other (
            known pc hpc (sym (ap (λ x. x.valid) entry) ∙ hit) (sym (ap (λ x. x.tag) entry) ∙ same)
            ∙ ap (λ x. some x.target_addr) (sym entry))

  remember-update :
      (a : ℕ) (taken : Bool) (target : ℕ) (os : List Outcome)
      → a < 2 ^ 32
      → Remembers p os
      → Remembers (after p a taken target) (record { pc = a; taken = taken; target = target } ∷ os)
  unfolding btb_index btb_tag
  remember-update a false target os small known pc hpc hit same = known pc hpc hit same
  remember-update a true target os small known pc hpc hit same =
      remember_taken a target pc os small hpc known hit same

init-Remembers : (n m : ℕ) → Remembers (init n m) []
unfolding init
init-Remembers n m pc hpc hit same =
    let none_valid : (get_or (replicate m no_entry) (btb_index (init n m) pc) no_entry).valid
        ≡ false =
      ap (λ e. e.valid) (get_or-replicate m (btb_index (init n m) pc) no_entry) in
    absurd (cc)

-- Training never reaches outside a table, and the trained predictor remembers.
train_lem :
    (n m : ℕ)
    → 1 ≤ n
    → n < 2 ^ 31
    → 1 ≤ m
    → m < 2 ^ 31
    → (os : List Outcome) → AllWords os
    → (p : Gshare) × (train n m os ≡ some p) × IsValid p × Remembers p os
train_lem n m hn hn' hm hm' [] all =
    (init n m, refl, init-IsValid n m hn hn' hm hm', init-Remembers n m)
train_lem n m hn hn' hm hm' (o ∷ os) (small, all) =
    let (p, e, ok, known) = train_lem n m hn hn' hm hm' os all in
    (
      after p o.pc o.taken o.target,
      rw (e) (update_lem p ok o.pc o.taken o.target),
      after-IsValid p ok o.pc o.taken o.target,
      remember-update p ok o.pc o.taken o.target os small known,
    )

-- What `predict` says of a predictor that remembers.
verdict_lem :
    (p : Gshare) (os : List Outcome) (pc counter : ℕ)
    → pc < 2 ^ 32
    → Remembers p os
    → (taken : Bool) × (target : ℕ) × (verdict p pc counter (get_or p.btb (btb_index p pc) no_entry)
        ≡ (taken, target))
      × ((if taken then last_target pc os else some (pc + 4)) ≡ some target)
verdict_lem p os pc counter small known =
    ((verdict p pc counter e).0, (verdict p pc counter e).1, refl, ground (arith, known pc small))
  where
    e : BtbEntry
    e = get_or p.btb (btb_index p pc) no_entry

-- Whatever the table sizes (1 to 2^31 - 1) and the outcomes it is trained on at 32-bit addresses,
-- no access leaves a table, every two-bit counter is at most 3, and a prediction is either "not
-- taken" with the next address, or "taken" with the target of the last taken outcome of that very
-- instruction word: aliasing branches never supply their own target.
pub predict-train :
    (n m : ℕ)
    → 1 ≤ n
    → n < 2 ^ 31
    → 1 ≤ m
    → m < 2 ^ 31
    → (os : List Outcome) → AllWords os
    → (pc : ℕ) → pc < 2 ^ 32
    → (p : Gshare) × (taken : Bool) × (target : ℕ) × (train n m os ≡ some p)
      × ((i : ℕ) → get_or p.pht i 0 ≤ 3)
      × (predict p pc ≡ some (taken, target))
      × ((if taken then last_target pc os else some (pc + 4)) ≡ some target)
predict-train n m hn hn' hm hm' os all pc small =
    let (p, e, ok, known) = train_lem n m hn hn' hm hm' os all in
    let counter : ℕ = get_or p.pht (pht_index p pc p.ghr) 0 in
    let (taken, target, v, right) = verdict_lem p os pc counter small known in
    (p, taken, target, e, ok.counters, predict_lem p ok pc ∙ ap some v, right)
