-- ===== src/Rat/Laws.antt =====
-- Renaming, commit and the scrubbing restore of the register alias table.
use ooo_superscalar_risc_sim.Common.{
  Option, Bool, true, false, ◌||◌, ◌≢◌, ◌↔◌, ◌∙◌, sym, ap, ne→==, ℕ, zero, suc, ◌<◌, ◌≡◌, refl,
  none, some, List, [], ◌∷◌, map, arith, if◌then◌else◌, ◌==◌, length, get_or, length-set,
  get_or-set_self, get_or-set_ne, ◌&&◌,
}
use ooo_superscalar_risc_sim.Common.Int.{ℤ, pos, negsuc}
use native.Mathlib.Decide.{ℕ_discrete}
use ooo_superscalar_risc_sim.Rat.{
  RatMap, RegisterAliasTable, lookup, rename, is_tag, clear_entry, commit, restore_state_scrub,
  scrub_entry, contains,
}

pub record IsValid (t : RegisterAliasTable) : Type 0 where
  pub sized : length t.rat ≡ t.num_logical_regs

pub rename-IsValid :
    {t : RegisterAliasTable} (reg : ℤ) (id : ℕ) → IsValid t → IsValid (rename t reg id)
unfolding rename
rename-IsValid {t} (pos r) id v = ground (arith, length-set t.rat r (some id))
rename-IsValid {t} (negsuc r) id v = v

pub length-clear_entry : (m : RatMap) (r id : ℕ) → length (clear_entry m r id) ≡ length m
unfolding clear_entry
length-clear_entry m r id = ground (arith, length-set m r none)

pub commit-IsValid :
    {t : RegisterAliasTable} (reg : ℤ) (id : ℕ) → IsValid t → IsValid (commit t reg id)
unfolding commit
commit-IsValid {t} (pos r) id v = ground (arith, length-set t.rat r none)
commit-IsValid {t} (negsuc r) id v = v

-- A register is mapped to its latest rename, and no other register's mapping moves.
pub lookup-rename :
    {t : RegisterAliasTable} (r q id : ℕ)
    → IsValid t
    → r < t.num_logical_regs
    → lookup (rename t (pos r) id) (pos q) ≡ (if q == r then some id else lookup t (pos q))
unfolding lookup rename
lookup-rename {t} r q id v lt = elim (ℕ_discrete q r) [
  | yes e ↦ rw e (ground (arith, get_or-set_self t.rat r (some id) none (rw v.sized lt)))
  | no ne ↦ ground (arith, get_or-set_ne t.rat r q (some id) none (λ e. ne (ground (arith, e))))
]

pub get_or-clear_entry :
    (m : RatMap) (r q id : ℕ)
    → r < length m
    → get_or (clear_entry m r id) q none
      ≡ (if q == r && is_tag (get_or m q none) id then none else get_or m q none)
unfolding clear_entry
get_or-clear_entry m r q id lt = elim (ℕ_discrete q r) [
  | yes e ↦ rw e (ground (arith, get_or-set_self m r none none lt))
  | no ne ↦ ground (arith, get_or-set_ne m r q none none (λ e. ne (ground (arith, e))))
]

-- A commit frees a register only from the committing instruction: a younger rename stays.
pub lookup-commit :
    {t : RegisterAliasTable} (r q id : ℕ)
    → IsValid t
    → r < t.num_logical_regs
    → lookup (commit t (pos r) id) (pos q)
      ≡ (if q == r && is_tag (lookup t (pos q)) id then none else lookup t (pos q))
unfolding lookup commit
lookup-commit {t} r q id v lt = elim (ℕ_discrete q r) [
  | yes e ↦ rw e (ground (arith, get_or-set_self t.rat r none none (rw v.sized lt)))
  | no ne ↦ ground (arith, get_or-set_ne t.rat r q none none (λ e. ne (ground (arith, e))))
]

get_or-scrub_map :
    (freed : List ℕ) (xs : RatMap) (q : ℕ)
    → get_or (map (scrub_entry freed) xs) q none ≡ scrub_entry freed (get_or xs q none)
get_or-scrub_map freed [] q = refl
get_or-scrub_map freed (x ∷ xs) zero = refl
get_or-scrub_map freed (x ∷ xs) (suc q) = get_or-scrub_map freed xs q

restored :
    (t : RegisterAliasTable) (state : RatMap) (freed : List ℕ) (q : ℕ)
    → length state ≡ t.num_logical_regs
    → q < t.num_logical_regs
    → lookup (restore_state_scrub t state freed) (pos q)
      ≡ (if q == 0 then none else scrub_entry freed (get_or state q none))
unfolding lookup restore_state_scrub
restored t [] freed q e lt = ground arith
restored t (x ∷ xs) freed zero e lt = ground arith
restored t (x ∷ xs) freed (suc q) e lt = ground (arith, get_or-scrub_map freed xs q)

-- The tag is none of the list.
abbrev pub Absent : ℕ → List ℕ → Type 0
Absent a [] = Unit
Absent a (x ∷ xs) = (a ≢ x) × Absent a xs

contains-Absent : (a : ℕ) (xs : List ℕ) → (contains xs a ≡ false) ↔ Absent a xs
unfolding contains
contains-Absent a [] = (λ h. tt, λ h. refl)
contains-Absent a (x ∷ xs) = go (ℕ_discrete a x) (contains-Absent a xs)
  where
    go :
        Dec (a ≡ x)
        → ((contains xs a ≡ false) ↔ Absent a xs)
        → ((a == x || contains xs a) ≡ false) ↔ ((a ≢ x) × Absent a xs)
    go (yes e) ih = (λ h. absurd (ground (arith, e)), λ h. absurd (h.0 e))
    go (no n) ih = simp (ne→== a x n) (λ h. (n, ih.0 h), λ h. ih.1 h.1)

scrub_entry_iff :
    (freed : List ℕ) (o : Option ℕ) (tag : ℕ)
    → (scrub_entry freed o ≡ some tag) ↔ ((o ≡ some tag) × Absent tag freed)
scrub_entry_iff freed none tag = (λ h. cc, λ h. cc)
scrub_entry_iff freed (some t) tag = go (contains freed t) refl
  where
    same : some t ≡ some tag → t ≡ tag
    same h = ap (λ (o : Option ℕ). elim o [ none ↦ t | some x ↦ x ]) h

    go :
        (b : Bool)
        → contains freed t ≡ b
        → ((if b then none else some t) ≡ some tag) ↔ ((some t ≡ some tag) × Absent tag freed)
    go true e = (
      λ h. cc,
      λ h.
          let f : contains freed t ≡ false =
            ap (contains freed) (same h.0) ∙ (contains-Absent tag freed).1 h.1 in
          cc,
    )
    go false e =
        (λ h. (h, (contains-Absent tag freed).0 (ap (contains freed) (sym (same h)) ∙ e)), λ h. h.0)

-- After the scrubbing restore a register is mapped to a tag exactly if it is not register 0, the snapshot
-- maps it to the tag, and the tag is none of the freed ones.
pub lookup-restore_state_scrub :
    (t : RegisterAliasTable) (state : RatMap) (freed : List ℕ) (q tag : ℕ)
    → length state ≡ t.num_logical_regs
    → q < t.num_logical_regs
    → (lookup (restore_state_scrub t state freed) (pos q) ≡ some tag)
      ↔ ((0 < q) × (get_or state q none ≡ some tag) × Absent tag freed)
lookup-restore_state_scrub t state freed q tag e lt = rw (restored t state freed q e lt) (go q)
  where
    go :
        (q : ℕ)
        → ((if q == 0 then none else scrub_entry freed (get_or state q none)) ≡ some tag)
          ↔ ((0 < q) × (get_or state q none ≡ some tag) × Absent tag freed)
    go zero = (λ h. cc, λ h. absurd (omega (arith, h.0)))
    go (suc q) =
        let (there, back) = scrub_entry_iff freed (get_or state (suc q) none) tag in
        let e : (suc q == 0) ≡ false = ground arith in
        simp e
          (λ h. (omega arith, (there h).0, (there h).1), λ (_, held, absent). back (held, absent))
