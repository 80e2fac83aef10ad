-- ===== src/Cdb/Loop.antt =====
-- The grant loop: each granted lane requests, is in range and is granted once; no more lanes than the
-- bus is wide; and no slot of the bus stays idle while a lane requests.
use native.Mathlib.Nat.{mod-lt}
use native.Mathlib.Decide.{ℕ_discrete}
use ooo_superscalar_risc_sim.Common.{
  ℕ, zero, suc, ◌+◌, ◌%◌, ◌≤◌, ◌<◌, ◌≡◌, refl, ap, Bool, true, false, not, ◌&&◌, Option, none, some,
  List, [], ◌∷◌, arith, length, get_or, set, if◌then◌else◌, ◌⊎◌, inl, inr,
}
use ooo_superscalar_risc_sim.Common.Circular.{distance, add_distance, distance-lt}
use ooo_superscalar_risc_sim.Cdb.{find_from, Grants, grant_loop}

-- A lane that the inner loop would take.
abbrev pub open_at : (ℕ → Bool) → List Bool → ℕ → Bool
open_at req selected i = req i && not (get_or selected i false)

module _ (req : ℕ → Bool) (n rr : ℕ) (selected : List Bool) where
  -- What the inner loop finds from `offset` on.
  pub data Finds (offset left : ℕ) : Option ℕ → Type 0 where
    nothing :
        ((j : ℕ) → offset ≤ j → j < offset + left → open_at req selected ((rr + j) % n) ≡ false)
        → Finds offset left none
    at :
        (k : ℕ)
        → offset ≤ k
        → k < offset + left
        → open_at req selected ((rr + k) % n) ≡ true
        → ((j : ℕ) → offset ≤ j → j < k → open_at req selected ((rr + j) % n) ≡ false)
        → Finds offset left (some ((rr + k) % n))

  pub find_from-Finds :
      (offset left : ℕ) → Finds offset left (find_from req selected n rr offset left)
  unfolding find_from
  find_from-Finds offset zero = nothing (λ j a b. absurd (omega arith))
  find_from-Finds offset (suc left) =
      go (find_from req selected n rr (offset + 1) left) (open_at req selected ((rr + offset) % n))
        refl (find_from-Finds (offset + 1) left)
    where
      go :
          (rest : Option ℕ) (b : Bool)
          → open_at req selected ((rr + offset) % n) ≡ b
          → Finds (offset + 1) left rest
          → Finds offset (suc left) (if b then some ((rr + offset) % n) else rest)
      go rest true e f = at offset (omega arith) (omega arith) e (λ j a b. absurd (omega arith))
      go _ false e (nothing h) = nothing (λ j a b. elim (ℕ_discrete j offset) [
        | yes p ↦ rw p e
        | no p ↦ h j (omega arith) (omega arith)
      ])
      go _ false e (at k lo hi found before) = at k (omega arith) (omega arith) found (λ j a b.
          elim (ℕ_discrete j offset) [
            | yes p ↦ rw p e
            | no p ↦ before j (omega arith) (omega arith)
          ])

-- Granted one after the other: in range, requesting, and not selected before.
abbrev pub Sound : (ℕ → Bool) → ℕ → List Bool → List ℕ → Type 0
Sound req n selected [] = Unit {0}
Sound req n selected (i ∷ is) =
    (i < n)
    × (req i ≡ true)
    × (get_or selected i false ≡ false)
    × Sound req n (set selected i true) is

-- The flags after the grants.
abbrev pub mark : List Bool → List ℕ → List Bool
mark selected [] = selected
mark selected (i ∷ is) = mark (set selected i true) is

pub record Outcome (req : ℕ → Bool) (n slots : ℕ) (selected : List Bool) (g : Grants) : Type 0 where
  pub bounded : length g.granted ≤ slots
  pub sound : Sound req n selected g.granted
  pub marked : g.selected ≡ mark selected g.granted
  pub in_range : g.rr_ptr < n
  -- A slot stays idle only if every requesting lane is served.
  pub busy :
      (length g.granted ≡ slots)
      ⊎ ((i : ℕ) → i < n → req i ≡ true → get_or g.selected i false ≡ true)

module _ (req : ℕ → Bool) (n : ℕ) (some_lane : 0 < n) where
  abbrev loop : ℕ → List Bool → ℕ → Grants
  loop = grant_loop req n

  pub loop_stops :
      (slots : ℕ) (selected : List Bool) (rr : ℕ)
      → find_from req selected n rr 0 n ≡ none
      → loop (suc slots) selected rr ≡ record { granted = []; selected = selected; rr_ptr = rr }
  unfolding grant_loop
  loop_stops slots selected rr e = rw (e, grant_loop) refl

  pub loop_grants :
      (slots : ℕ) (selected : List Bool) (rr idx : ℕ)
      → find_from req selected n rr 0 n ≡ some idx
      → loop (suc slots) selected rr ≡ (
          let g = loop slots (set selected idx true) ((idx + 1) % n) in
          record { granted = idx ∷ g.granted; selected = g.selected; rr_ptr = g.rr_ptr })
  unfolding grant_loop
  loop_grants slots selected rr idx e = rw (e, grant_loop) refl

  -- Where nothing is found from a pointer in range, no lane is open.
  pub none_open :
      (selected : List Bool) (rr : ℕ)
      → rr < n
      → ((j : ℕ) → 0 ≤ j → j < 0 + n → open_at req selected ((rr + j) % n) ≡ false)
      → (i : ℕ) → i < n
      → open_at req selected i ≡ false
  none_open selected rr lt h i a =
      rw (add_distance n rr lt i a) at
        (h (distance n rr i) (omega arith) (omega (arith, distance-lt n rr lt i)))

  served : (a b : Bool) → (a && not b) ≡ false → a ≡ true → b ≡ true
  served a b h k = ground arith

  pub loop-Outcome :
      (slots : ℕ) (selected : List Bool) (rr : ℕ)
      → rr < n
      → Outcome req n slots selected (loop slots selected rr)
  loop-Outcome zero selected rr lt =
      unfold grant_loop in
      record { bounded = omega arith; sound = tt; marked = refl; in_range = lt; busy = inl refl }
  loop-Outcome (suc slots) selected rr lt =
      go (find_from req selected n rr 0 n) refl (find_from-Finds req n rr selected 0 n) (λ idx.
        loop-Outcome slots (set selected idx true) ((idx + 1) % n) (mod-lt (idx + 1) some_lane))
    where
      go :
          (o : Option ℕ)
          → find_from req selected n rr 0 n ≡ o
          → Finds req n rr selected 0 n o
          → ((idx : ℕ)
              → Outcome req n slots
                  (set selected idx true)
                  (loop slots (set selected idx true) ((idx + 1) % n)))
          → Outcome req n (suc slots) selected (loop (suc slots) selected rr)
      go _ e (nothing h) ih = rw (loop_stops slots selected rr e) (record {
        bounded = omega arith;
        sound = tt;
        marked = refl;
        in_range = lt;
        busy =
            inr (λ i a r.
              served (req i) (get_or selected i false) (none_open selected rr lt h i a) r);
      })
      go _ e (at k lo hi found before) ih =
          let idx : ℕ = (rr + k) % n in
          rw (loop_grants slots selected rr idx e) (record {
            bounded = omega (arith, (ih idx).bounded);
            sound = (
              mod-lt (rr + k) some_lane,
              ground (arith, found),
              ground (arith, found),
              (ih idx).sound,
            );
            marked = (ih idx).marked;
            in_range = (ih idx).in_range;
            busy = elim (ih idx).busy [ inl full ↦ inl (ap suc full) | inr all ↦ inr all ];
          })
