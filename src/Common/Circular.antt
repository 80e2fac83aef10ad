-- ===== src/Common/Circular.antt =====
-- Circular buffers: the slots from an index on, going round at the capacity.
use Prim.Native.Nat.{ℕ, zero, suc, ◌+◌, ◌-◌, ◌%◌, ◌≤◌, ◌<◌}
use mathlib.Core.Path.{◌≡◌, refl, sym, ◌∙◌, ap, ap₂}
use mathlib.Core.Logic.{◌≢◌}
use mathlib.Core.List.{List, [], ◌∷◌, ◌++◌}
use mathlib.Core.Option.{some}
use native.Mathlib.Nat.{mod-add-mod, mod-eq_of_lt, mod-eq-sub-mod, mod-lt, add-zero}
use native.Mathlib.Decide.{dec_lt}
use native.Mathlib.Omega.{arith}
use native.Mathlib.Numerals.{add-one}
use ooo_superscalar_risc_sim.Common.Lists.{
  length, take, get_elem?, get_or, set, get_or-set_self, get_or-set_ne,
}

module _ {ℓ} {A : Type ℓ} (read : ℕ → A) (cap : ℕ) where
  -- The `n` slots from index `h` on.
  abbrev pub window : ℕ → ℕ → List A
  window h zero = []
  window h (suc n) = read (h % cap) ∷ window (h + 1) n

module _ {ℓ} {A : Type ℓ} where
  pub length-window : (f : ℕ → A) (cap h n : ℕ) → length (window f cap h n) ≡ n
  length-window f cap h zero = refl
  length-window f cap h (suc n) = ap suc (length-window f cap (h + 1) n)

  pub window_congr :
      (f g : ℕ → A) (cap h n : ℕ)
      → ((k : ℕ) → k < n → f ((h + k) % cap) ≡ g ((h + k) % cap))
      → window f cap h n ≡ window g cap h n
  window_congr f g cap h zero e = refl
  window_congr f g cap h (suc n) e = ap₂ ◌∷◌ first (
      window_congr f g cap (h + 1) n
        (λ k lt. ap f (shift k) ∙ e (suc k) (omega arith) ∙ ap g (back k)))
    where
      shift : (k : ℕ) → (h + 1 + k) % cap ≡ (h + suc k) % cap
      shift k = ap (λ t. t % cap) (omega arith)

      back : (k : ℕ) → (h + suc k) % cap ≡ (h + 1 + k) % cap
      back k = ap (λ t. t % cap) (omega arith)

      same : h + 0 ≡ h
      same = omega arith

      first : f (h % cap) ≡ g (h % cap)
      first = rw same at (e 0 (omega arith))

  -- One slot more is one entry more at the end.
  pub window_snoc :
      (f : ℕ → A) (cap h n : ℕ)
      → window f cap h (suc n) ≡ window f cap h n ++ f ((h + n) % cap) ∷ []
  window_snoc f cap h zero = ap (λ t. f (t % cap) ∷ []) (omega arith)
  window_snoc f cap h (suc n) =
      ap (λ t. f (h % cap) ∷ t)
        (window_snoc f cap (h + 1) n
          ∙ ap (λ t. window f cap (h + 1) n ++ f (t % cap) ∷ []) (omega arith))

  window_shift :
      (f : ℕ → A) (cap n a b : ℕ)
      → ((k : ℕ) → (a + k) % cap ≡ (b + k) % cap)
      → window f cap a n ≡ window f cap b n
  window_shift f cap zero a b e = refl
  window_shift f cap (suc n) a b e =
      ap₂ ◌∷◌ (ap f (simp add-zero at (e 0)))
        (window_shift f cap n (a + 1) (b + 1) (λ k. left k ∙ e (suc k) ∙ right k))
    where
      left : (k : ℕ) → (a + 1 + k) % cap ≡ (a + suc k) % cap
      left k = ap (λ t. t % cap) (omega arith)

      right : (k : ℕ) → (b + suc k) % cap ≡ (b + 1 + k) % cap
      right k = ap (λ t. t % cap) (omega arith)

  -- The head may be reduced.
  pub window-mod : (f : ℕ → A) (cap h n : ℕ) → window f cap (h % cap) n ≡ window f cap h n
  window-mod f cap h n = window_shift f cap n (h % cap) h (mod-add-mod h cap)

  pub take-window :
      (f : ℕ → A) (cap h k n : ℕ) → k ≤ n → take k (window f cap h n) ≡ window f cap h k
  take-window f cap h zero n e = refl
  take-window f cap h (suc k) zero e = absurd (omega arith)
  take-window f cap h (suc k) (suc n) e =
      ap (λ t. f (h % cap) ∷ t) (take-window f cap (h + 1) k n (omega arith))

  pub get_elem?-window :
      (f : ℕ → A) (cap h n k : ℕ)
      → k < n
      → get_elem? (window f cap h n) k ≡ some (f ((h + k) % cap))
  get_elem?-window f cap h zero k e = absurd (omega arith)
  get_elem?-window f cap h (suc n) zero e = ap (λ t. some (f (t % cap))) (omega arith)
  get_elem?-window f cap h (suc n) (suc k) e =
      get_elem?-window f cap (h + 1) n k (omega arith) ∙ ap (λ t. some (f (t % cap))) (omega arith)

-- How far slot `i` stands from the head, going forward.
abbrev pub distance : ℕ → ℕ → ℕ → ℕ
distance cap h i = (i + cap - h) % cap

pub mod_high : (cap x : ℕ) → cap ≤ x → x < cap + cap → x % cap ≡ x - cap
mod_high cap x lo hi = mod-eq-sub-mod lo ∙ mod-eq_of_lt (omega arith)

module _ (cap h : ℕ) (inside : h < cap) where
  pub distance_ahead : (i : ℕ) → h ≤ i → i < cap → distance cap h i ≡ i - h
  distance_ahead i ge lt = mod_high cap (i + cap - h) (omega arith) (omega arith) ∙ omega arith

  pub distance_behind : (i : ℕ) → i < h → distance cap h i ≡ i + cap - h
  distance_behind i lt = mod-eq_of_lt (omega arith)

  -- The distance of the slot that stands `k` places from the head is `k`.
  pub distance_add : (k : ℕ) → k < cap → distance cap h ((h + k) % cap) ≡ k
  distance_add k lt = elim (dec_lt (h + k) cap) [
    | yes p ↦ rw (mod-eq_of_lt p) (distance_ahead (h + k) (omega arith) p ∙ omega arith)
    | no p ↦
        rw (mod_high cap (h + k) (omega arith) (omega arith))
          (distance_behind (h + k - cap) (omega arith) ∙ omega arith)
  ]

  -- Going that far from the head comes back to the slot.
  pub add_distance : (i : ℕ) → i < cap → (h + distance cap h i) % cap ≡ i
  add_distance i lt = elim (dec_lt i h) [
    | yes p ↦
        rw (distance_behind i p)
          (mod_high cap (h + (i + cap - h)) (omega arith) (omega arith) ∙ omega arith)
    | no p ↦
        rw (distance_ahead i (omega arith) lt)
          (let e : h + (i - h) ≡ i = omega arith in rw e (mod-eq_of_lt lt))
  ]

  pub distance-lt : (i : ℕ) → distance cap h i < cap
  distance-lt i = mod-lt (i + cap - h) (omega arith)

  pub distance_inj : (i j : ℕ) → i < cap → j < cap → distance cap h i ≡ distance cap h j → i ≡ j
  distance_inj i j a b e = sym (add_distance i a) ∙ ap (λ t. (h + t) % cap) e ∙ add_distance j b

-- One step of the head brings every slot but the old head one nearer.
pub distance-next :
    (cap h i : ℕ)
    → h < cap
    → i < cap
    → i ≢ h
    → distance cap ((h + 1) % cap) i + 1 ≡ distance cap h i
distance-next cap h i inside lt ne = elim (dec_lt (h + 1) cap) [
  | yes p ↦ rw (mod-eq_of_lt p) (moved p)
  | no p ↦
      rw
        (
          mod_high cap (h + 1) (omega arith) (omega arith),
          distance_ahead cap (h + 1 - cap) (omega arith) i (omega arith) lt,
          distance_behind cap h inside i (omega arith),
        )
        (omega arith)
]
  where
    moved : h + 1 < cap → distance cap (h + 1) i + 1 ≡ distance cap h i
    moved p = elim (dec_lt i h) [
      | yes q ↦
          rw (distance_behind cap (h + 1) p i (omega arith), distance_behind cap h inside i q)
            (omega arith)
      | no q ↦
          rw
            (
              distance_ahead cap (h + 1) p i (omega arith) lt,
              distance_ahead cap h inside i (omega arith) lt,
            )
            (omega arith)
    ]

-- The slot that the head has just left is the farthest.
pub distance-next_self : (cap h : ℕ) → h < cap → distance cap ((h + 1) % cap) h ≡ cap - 1
distance-next_self cap h inside = elim (dec_lt (h + 1) cap) [
  | yes p ↦ rw (mod-eq_of_lt p, distance_behind cap (h + 1) p h (omega arith)) (omega arith)
  | no p ↦
      rw
        (
          mod_high cap (h + 1) (omega arith) (omega arith),
          distance_ahead cap (h + 1 - cap) (omega arith) h (omega arith) inside,
        )
        (omega arith)
]

-- One step back from the end of `n + 1` slots.
pub mod_back :
    (cap h n : ℕ) → h < cap → n < cap → ((h + (n + 1)) % cap + cap - 1) % cap ≡ (h + n) % cap
mod_back cap h n a b = elim (dec_lt (h + n) cap) [
  | yes p ↦ elim (dec_lt (h + (n + 1)) cap) [
    | yes q ↦
        rw
          (
            mod-eq_of_lt q,
            mod_high cap (h + (n + 1) + cap - 1) (omega arith) (omega arith),
            mod-eq_of_lt p,
          )
          (omega arith)
    | no q ↦
        rw
          (
            mod_high cap (h + (n + 1)) (omega arith) (omega arith),
            mod-eq_of_lt {n = h + (n + 1) - cap + cap - 1} {m = cap} (omega arith),
            mod-eq_of_lt p,
          )
          (omega arith)
  ]
  | no p ↦ elim (dec_lt (h + (n + 1)) (cap + cap)) [
    | yes q ↦
        rw
          (
            mod_high cap (h + (n + 1)) (omega arith) q,
            mod_high cap (h + (n + 1) - cap + cap - 1) (omega arith) (omega arith),
            mod_high cap (h + n) (omega arith) (omega arith),
          )
          (omega arith)
    | no q ↦ absurd (omega arith)
  ]
]

pub distance_self : (cap h : ℕ) → h < cap → distance cap h h ≡ 0
distance_self cap h inside = distance_ahead cap h inside h (omega arith) inside ∙ omega arith

-- Moving the head past a nearer slot brings a slot that much nearer.
pub distance-skip :
    (cap h i k : ℕ)
    → h < cap
    → i < cap
    → k < distance cap h i
    → distance cap (((h + k) % cap + 1) % cap) i + (k + 1) ≡ distance cap h i
distance-skip cap h i k inside lt near =
    ap (λ t. t + (k + 1))
      (ap (distance cap h') (sym reach) ∙ distance_add cap h' in' d (omega (arith, room)))
    ∙ omega arith
  where
    h' : ℕ
    h' = ((h + k) % cap + 1) % cap

    d : ℕ
    d = distance cap h i - (k + 1)

    room : distance cap h i < cap
    room = distance-lt cap h inside i

    in' : h' < cap
    in' = mod-lt ((h + k) % cap + 1) (omega arith)

    reach : (h' + d) % cap ≡ i
    reach =
        mod-add-mod ((h + k) % cap + 1) cap d
        ∙ ap (λ t. t % cap) (omega arith)
        ∙ mod-add-mod (h + k) cap (1 + d)
        ∙ ap (λ t. t % cap) (omega arith)
        ∙ add_distance cap h inside i lt

-- A write behind the `n` entries of a ring is one entry more at the end.
pub window-set_end {ℓ} :
    {A : Type ℓ} (xs : List A) (d v : A) (h n : ℕ)
    → h < length xs
    → n < length xs
    → window (λ k. get_or (set xs ((h + n) % length xs) v) k d) (length xs) h (n + 1)
      ≡ window (λ k. get_or xs k d) (length xs) h n ++ v ∷ []
window-set_end {A = A} xs d v h n inside room =
    ap (window after (length xs) h) (add-one n)
    ∙ window_snoc after (length xs) h n
    ∙ ap₂ (λ l x. l ++ x ∷ [])
        (window_congr after (λ k. get_or xs k d) (length xs) h n
          (λ k lt. get_or-set_ne xs at ((h + k) % length xs) v d (apart k lt)))
        (get_or-set_self xs at v d (mod-lt (h + n) (omega arith)))
  where
    at : ℕ
    at = (h + n) % length xs

    after : ℕ → A
    after k = get_or (set xs at v) k d

    apart : (k : ℕ) → k < n → at ≢ (h + k) % length xs
    apart k lt e = absurd (
        omega (
          arith,
          distance_add (length xs) h inside n room,
          distance_add (length xs) h inside k (omega arith),
          ap (distance (length xs) h) e,
        ))
