-- ===== src/Rob/Squash.antt =====
-- Early recovery: `squashYoungerThan` keeps the instructions up to the mispredicted one, and its
-- asserts hold.
use native.Mathlib.Nat.{mod-lt, mod-add-mod}
use native.Mathlib.Numerals.{add-one}
use ooo_superscalar_risc_sim.Common.{
  ℕ, zero, suc, ◌+◌, ◌%◌, ◌<◌, ◌≡◌, ◌∙◌, refl, sym, ap, ap₂, Bool, true, ◌&&◌, some, List, [], ◌∷◌,
  arith, ltb, ltb→lt, length, get_or, get_elem?-eq-get_or, if◌then◌else◌,
}
use ooo_superscalar_risc_sim.Common.Circular.{window_congr, take-window, distance_add, add_distance}
use ooo_superscalar_risc_sim.Common.Tally.{tally, tally-window}
use ooo_superscalar_risc_sim.Rob.{
  RobEntry, ReorderBuffer, blank, freed, age_from_head, is_younger, squash_from, busy_count,
  squash_younger_than, check_invariant,
}
use ooo_superscalar_risc_sim.Rob.Invariant.{slot, is_busy, IsValid, tail-lt}
use ooo_superscalar_risc_sim.Rob.Contents.{view, seen, contents, length-contents}
use ooo_superscalar_risc_sim.Rob.InOrder.{keep_through}

-- The busy slots of a list, counted by index.
busy_count-tally :
    (es : List RobEntry) (f : ℕ → Bool) (i : ℕ)
    → ((k : ℕ) → k < length es → (get_or es k blank).busy ≡ f (i + k))
    → busy_count es ≡ tally f i (length es)
unfolding busy_count tally
busy_count-tally [] f i h = refl
busy_count-tally (e ∷ es) f i h =
    let start : i + 0 ≡ i = omega arith in
    ap₂ ◌+◌ (ap (λ (b : Bool). if b then 1 else 0) (rw start at (h 0 (omega arith)))) (
      busy_count-tally es f (i + 1) (λ k lt.
        let shift : i + 1 + k ≡ i + suc k = omega arith in rw shift (h (suc k) (omega arith))))

pub busy_count-IsValid : {r : ReorderBuffer} → IsValid r → busy_count r.buffer ≡ r.active_count
busy_count-IsValid {r} v =
    busy_count-tally r.buffer (λ i. ltb (age_from_head r i) r.active_count) 0
      (λ k lt. let e : 0 + k ≡ k = omega arith in rw e (v.live k (rw (← v.sized) lt)))
    ∙ rw v.sized (tally-window r.capacity r.head r.active_count v.head_in v.fits)

-- A valid buffer passes its own self-check.
pub check_invariant-IsValid : {r : ReorderBuffer} → IsValid r → check_invariant r ≡ true
unfolding check_invariant
check_invariant-IsValid v = ground (arith, busy_count-IsValid v, tail-lt v)

-- What the loop leaves in slot `i`.
abbrev squashed_slot : ReorderBuffer → ℕ → ℕ → RobEntry → RobEntry
squashed_slot r tag i e = if e.busy && is_younger r i tag then freed e else e

length-squash_from :
    (r : ReorderBuffer) (tag i : ℕ) (es : List RobEntry)
    → length (squash_from r tag i es).1 ≡ length es
unfolding squash_from
length-squash_from r tag i [] = refl
length-squash_from r tag i (e ∷ es) = ground (arith, length-squash_from r tag (i + 1) es)

get_or-squash_from :
    (r : ReorderBuffer) (tag i k : ℕ) (es : List RobEntry)
    → k < length es
    → get_or (squash_from r tag i es).1 k blank ≡ squashed_slot r tag (i + k) (get_or es k blank)
unfolding squash_from
get_or-squash_from r tag i k [] lt = absurd (omega arith)
get_or-squash_from r tag i zero (e ∷ es) lt =
    let start : i + 0 ≡ i = omega arith in rw start (ground arith)
get_or-squash_from r tag i (suc k) (e ∷ es) lt =
    let shift : i + 1 + k ≡ i + suc k = omega arith in
    ground (arith, rw shift at (get_or-squash_from r tag (i + 1) k es (omega arith)))

-- Every freed slot was busy.
squash_from_balance :
    (r : ReorderBuffer) (tag i : ℕ) (es : List RobEntry)
    → (squash_from r tag i es).0 + busy_count (squash_from r tag i es).1 ≡ busy_count es
unfolding squash_from busy_count
squash_from_balance r tag i [] = refl
squash_from_balance r tag i (e ∷ es) = ground (arith, squash_from_balance r tag (i + 1) es)

module _ {r : ReorderBuffer} (v : IsValid r) (tag : ℕ) (inside : tag < r.capacity)
    (in_flight : is_busy r tag ≡ true) where
  abbrev squashed_slots : List RobEntry
  squashed_slots = (squash_from r tag 0 r.buffer).1

  -- The buffer after the recovery.
  abbrev squashed : ReorderBuffer
  squashed = record r {
    buffer = squashed_slots;
    tail = (tag + 1) % r.capacity;
    active_count = age_from_head r tag + 1;
  }

  within : age_from_head r tag < r.active_count
  within = ltb→lt _ _ (sym (v.live tag inside) ∙ in_flight)

  slot_after :
      (i : ℕ) → i < r.capacity → get_or squashed_slots i blank ≡ squashed_slot r tag i (slot r i)
  slot_after i lt =
      let e : 0 + i ≡ i = omega arith in
      rw e at (get_or-squash_from r tag 0 i r.buffer (rw v.sized lt))

  live_after :
      (i : ℕ)
      → i < r.capacity
      → (get_or squashed_slots i blank).busy ≡ ltb (age_from_head r i) (age_from_head r tag + 1)
  live_after i lt = rw (slot_after i lt) (ground (arith, v.live i lt, within))

  mod-add-mod' : (tag + 1) % r.capacity ≡ (r.head + age_from_head r tag + 1) % r.capacity
  mod-add-mod' =
      ap (λ t. (t + 1) % r.capacity) (sym (add_distance r.capacity r.head v.head_in tag inside))
      ∙ mod-add-mod (r.head + age_from_head r tag) r.capacity 1

  squashed-IsValid : IsValid squashed
  squashed-IsValid = record {
    sized = length-squash_from r tag 0 r.buffer ∙ v.sized;
    head_in = v.head_in;
    tail_at = mod-add-mod' ∙ ap (λ t. t % r.capacity) (omega arith);
    fits = omega (arith, within, v.fits);
    live = live_after;
  }

  survivors_counted : busy_count squashed_slots ≡ age_from_head r tag + 1
  survivors_counted = busy_count-IsValid squashed-IsValid

  -- The survivors are the instructions up to the one at the tag.
  contents-squashed : contents squashed ≡ keep_through (age_from_head r tag) (contents r)
  contents-squashed = rw add-one (
      window_congr (seen squashed_slots) (seen r.buffer) r.capacity r.head
        (suc (age_from_head r tag)) kept
      ∙ sym (
          take-window (seen r.buffer) r.capacity r.head (suc (age_from_head r tag)) r.active_count
            within))
    where
      kept :
          (k : ℕ)
          → k < suc (age_from_head r tag)
          → seen squashed_slots ((r.head + k) % r.capacity)
            ≡ seen r.buffer ((r.head + k) % r.capacity)
      kept k lt =
          let at : ℕ = (r.head + k) % r.capacity in
          let older : squashed_slot r tag at (slot r at) ≡ slot r at =
            ground
              (arith, distance_add r.capacity r.head v.head_in k (omega (arith, within, v.fits))) in
          ap view (slot_after at (mod-lt (r.head + k) (omega (arith, v.head_in))) ∙ older)

-- Recovery at an in-flight tag fails no assertion, keeps the invariant, keeps exactly the
-- instructions up to the one at the tag, in order and unchanged, and counts the others.
pub squash_refines :
    {r : ReorderBuffer} (tag : ℕ)
    → IsValid r
    → tag < r.capacity
    → is_busy r tag ≡ true
    → (n : ℕ) × (r' : ReorderBuffer) × (squash_younger_than r tag ≡ some (n, r'))
      × IsValid r'
      × (contents r' ≡ keep_through (age_from_head r tag) (contents r))
      × (n + length (contents r') ≡ length (contents r))
unfolding squash_younger_than
squash_refines {r} tag v inside in_flight = (
  (squash_from r tag 0 r.buffer).0,
  squashed v tag inside in_flight,
  ground (
    arith,
    get_elem?-eq-get_or r.buffer tag blank (rw v.sized inside),
    survivors_counted v tag inside in_flight,
  ),
  squashed-IsValid v tag inside in_flight,
  contents-squashed v tag inside in_flight,
  rw (length-contents (squashed v tag inside in_flight), length-contents r)
      (omega (
        arith,
        squash_from_balance r tag 0 r.buffer,
        survivors_counted v tag inside in_flight,
        busy_count-IsValid v,
      )),
)
