-- ===== src/Common/Search.antt =====
-- The first position of a list whose element passes a test, and sums over a list.
use Prim.Native.Nat.{ℕ, zero, suc, ◌+◌, ◌<◌}
use mathlib.Core.Path.{◌≡◌, refl}
use mathlib.Core.Bool.{Bool, true, false}
use mathlib.Core.List.{List, [], ◌∷◌, ◌++◌}
use mathlib.Core.Option
use mathlib.Core.Option.{Option, none, some}
use native.Mathlib.Omega.{arith}
use ooo_superscalar_risc_sim.Common.Tests.{if◌then◌else◌}
use ooo_superscalar_risc_sim.Common.Lists.{length, get_or, set}

module _ {ℓ} {A : Type ℓ} where
  unfoldable pub find_index : (A → Bool) → List A → Option ℕ
  find_index p [] = none
  find_index p (x ∷ xs) =
      let rest = Option.map suc (find_index p xs) in if p x then some 0 else rest

  -- What is found is in range and passes, and nothing before it does.
  pub find_index-some :
      (p : A → Bool) (xs : List A) (d : A) (i : ℕ)
      → find_index p xs ≡ some i
      → (i < length xs) × (p (get_or xs i d) ≡ true) × ((j : ℕ) → j < i → p (get_or xs j d) ≡ false)
  unfolding find_index
  find_index-some p [] d i h = cc
  find_index-some p (x ∷ xs) d i h =
      go (λ k. find_index-some p xs d k) (p x) refl i h (find_index p xs) refl
    where
      go :
          ((k : ℕ)
            → find_index p xs ≡ some k
            → (k < length xs)
              × (p (get_or xs k d) ≡ true)
              × ((j : ℕ) → j < k → p (get_or xs j d) ≡ false))
          → (b : Bool) → p x ≡ b
          → (i : ℕ) → (if b then some 0 else Option.map suc (find_index p xs)) ≡ some i
          → (o : Option ℕ) → find_index p xs ≡ o
          → (i < suc (length xs))
            × (p (get_or (x ∷ xs) i d) ≡ true)
            × ((j : ℕ) → j < i → p (get_or (x ∷ xs) j d) ≡ false)
      go ih true e zero h o eo = (omega arith, e, λ j l. absurd (omega arith))
      go ih true e (suc i) h o eo = absurd (ground arith)
      go ih false e i h none eo = absurd (ground (arith, eo))
      go ih false e zero h (some k) eo = absurd (ground (arith, eo))
      go ih false e (suc i) h (some k) eo =
          let (a, b, c) = ih i (ground (arith, eo)) in (omega arith, b, before c)
        where
          before :
              ((j : ℕ) → j < i → p (get_or xs j d) ≡ false)
              → (j : ℕ) → j < suc i
              → p (get_or (x ∷ xs) j d) ≡ false
          before c zero l = e
          before c (suc j) l = c j (omega arith)

  -- Nothing is found only if no element passes.
  pub find_index-none :
      (p : A → Bool) (xs : List A) (d : A) (j : ℕ)
      → find_index p xs ≡ none
      → j < length xs
      → p (get_or xs j d) ≡ false
  unfolding find_index
  find_index-none p [] d j h l = absurd (omega arith)
  find_index-none p (x ∷ xs) d j h l =
      go (λ k. find_index-none p xs d k) (p x) refl j l h (find_index p xs) refl
    where
      go :
          ((k : ℕ) → find_index p xs ≡ none → k < length xs → p (get_or xs k d) ≡ false)
          → (b : Bool) → p x ≡ b
          → (j : ℕ) → j < suc (length xs)
          → (if b then some 0 else Option.map suc (find_index p xs)) ≡ none
          → (o : Option ℕ) → find_index p xs ≡ o
          → p (get_or (x ∷ xs) j d) ≡ false
      go ih true e j l h o eo = absurd (ground arith)
      go ih false e zero l h o eo = e
      go ih false e (suc j) l h none eo = ih j eo (omega arith)
      go ih false e (suc j) l h (some k) eo = absurd (ground (arith, eo))

  -- A write that keeps what `f` reads at its position keeps it everywhere.
  pub get_or-set_keeps {κ} :
      {B : Type κ} (f : A → B) (xs : List A) (i j : ℕ) (v d : A)
      → f v ≡ f (get_or xs i d)
      → f (get_or (set xs i v) j d) ≡ f (get_or xs j d)
  get_or-set_keeps f [] i j v d e = refl
  get_or-set_keeps f (x ∷ xs) zero zero v d e = e
  get_or-set_keeps f (x ∷ xs) zero (suc j) v d e = refl
  get_or-set_keeps f (x ∷ xs) (suc i) zero v d e = refl
  get_or-set_keeps f (x ∷ xs) (suc i) (suc j) v d e = get_or-set_keeps f xs i j v d e

  -- The sum of a weight over a list.
  unfoldable pub sum_of : (A → ℕ) → List A → ℕ
  sum_of f [] = 0
  sum_of f (x ∷ xs) = f x + sum_of f xs

  pub sum_of-append : (f : A → ℕ) (xs ys : List A) → sum_of f (xs ++ ys) ≡ sum_of f xs + sum_of f ys
  unfolding sum_of
  sum_of-append f [] ys = omega arith
  sum_of-append f (x ∷ xs) ys = omega (arith, sum_of-append f xs ys)

  -- A write in range exchanges one weight.
  pub sum_of-set :
      (f : A → ℕ) (xs : List A) (i : ℕ) (v d : A)
      → i < length xs
      → sum_of f (set xs i v) + f (get_or xs i d) ≡ sum_of f xs + f v
  unfolding sum_of
  sum_of-set f [] i v d h = absurd (omega arith)
  sum_of-set f (x ∷ xs) zero v d h = omega arith
  sum_of-set f (x ∷ xs) (suc i) v d h = omega (arith, sum_of-set f xs i v d (omega arith))

  -- A write of the same weight keeps the sum.
  pub sum_of-set_same :
      (f : A → ℕ) (xs : List A) (i : ℕ) (v d : A)
      → f v ≡ f (get_or xs i d)
      → sum_of f (set xs i v) ≡ sum_of f xs
  unfolding sum_of
  sum_of-set_same f [] i v d h = refl
  sum_of-set_same f (x ∷ xs) zero v d h = omega (arith, h)
  sum_of-set_same f (x ∷ xs) (suc i) v d h = omega (arith, sum_of-set_same f xs i v d h)
