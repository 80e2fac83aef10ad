-- ===== src/Engine/InFlight.antt =====
-- The operations that a unit or the engine holds, youngest first, and what each operation does to them.
use ooo_superscalar_risc_sim.Common.{
  ℕ, zero, suc, ◌-◌, ◌≤◌, ◌<◌, ◌≡◌, ◌∙◌, refl, ap, arith, Bool, true, false, ◌&&◌, List, [], ◌∷◌,
  ◌++◌, if◌then◌else◌, length, get_or, set, take, drop, length-set,
}
use ooo_superscalar_risc_sim.Engine.{
  Stage, no_stage, ExecutionUnit, output, output_valid, shift_from, advance,
}

-- The valid stages from the issue side to the output.
abbrev pub in_flight : List Stage → List Stage
in_flight [] = []
in_flight (s ∷ ss) = let rest = in_flight ss in if s.valid then s ∷ rest else rest

-- A unit has a stage for each cycle of its latency, and one at least.
abbrev pub IsPipe : ExecutionUnit → Type 0
IsPipe u = (length u.pipe ≡ u.latency) × (1 ≤ u.latency)

shift_step :
    (i : ℕ) (p : List Stage)
    → suc i < length p
    → let q : List Stage = set p (suc i) (get_or p i no_stage) in
      take i q ++ drop (suc i) q ≡ take (suc i) p ++ drop (suc (suc i)) p
shift_step i [] h = absurd (omega arith)
shift_step zero (x ∷ []) h = absurd (omega arith)
shift_step zero (x ∷ y ∷ ys) h = refl
shift_step (suc i) (x ∷ xs) h = ap (λ t. x ∷ t) (shift_step i xs (omega arith))

-- The loop moves every stage up to `i` by one and empties the front.
pub shift_from_lem :
    (i : ℕ) (p : List Stage) → i < length p → shift_from i p ≡ no_stage ∷ take i p ++ drop (suc i) p
unfolding shift_from
shift_from_lem i [] h = absurd (omega arith)
shift_from_lem zero (x ∷ xs) h = refl
shift_from_lem (suc i) (x ∷ xs) h =
    let p : List Stage = x ∷ xs in
    let q : List Stage = set p (suc i) (get_or p i no_stage) in
    shift_from_lem i q (rw (length-set p (suc i) (get_or p i no_stage)) (omega arith))
    ∙ ap (λ t. no_stage ∷ t) (shift_step i p h)

take_all : (n : ℕ) (p : List Stage) → length p ≡ suc n → drop (suc n) p ≡ []
take_all n [] h = refl
take_all zero (x ∷ []) h = refl
take_all zero (x ∷ y ∷ ys) h = absurd (omega arith)
take_all (suc n) (x ∷ xs) h = take_all n xs (omega arith)

append_nil : (xs : List Stage) → xs ++ [] ≡ xs
append_nil [] = refl
append_nil (x ∷ xs) = ap (λ t. x ∷ t) (append_nil xs)

pub shift-pipe : (n : ℕ) (p : List Stage) → length p ≡ suc n → shift_from n p ≡ no_stage ∷ take n p
shift-pipe n p h =
    shift_from_lem n p (omega arith)
    ∙ ap (λ t. no_stage ∷ take n p ++ t) (take_all n p h)
    ∙ ap (λ t. no_stage ∷ t) (append_nil (take n p))

pub length-take_pred : (n : ℕ) (p : List Stage) → length p ≡ suc n → length (take n p) ≡ n
length-take_pred n [] h = absurd (omega arith)
length-take_pred zero (x ∷ xs) h = refl
length-take_pred (suc n) (x ∷ xs) h = ap suc (length-take_pred n xs (omega arith))

-- Without its last stage a pipe holds what it held but the output.
in_flight-take_pred :
    (n : ℕ) (p : List Stage)
    → length p ≡ suc n
    → (get_or p n no_stage).valid ≡ false
    → in_flight (take n p) ≡ in_flight p
in_flight-take_pred n [] h e = absurd (omega arith)
in_flight-take_pred zero (x ∷ []) h e = rw e refl
in_flight-take_pred zero (x ∷ y ∷ ys) h e = absurd (omega arith)
in_flight-take_pred (suc n) (x ∷ xs) h e =
    ap (λ t. if x.valid then x ∷ t else t) (in_flight-take_pred n xs (omega arith) e)

-- What leaves the unit in a cycle.
abbrev pub leaving : Bool → ExecutionUnit → List Stage
leaving granted u = if output_valid u && granted then output u ∷ [] else []

pub in_flight-set_last :
    (n : ℕ) (p : List Stage)
    → length p ≡ suc n
    → (get_or p n no_stage).valid ≡ true
    → in_flight (set p n no_stage) ++ get_or p n no_stage ∷ [] ≡ in_flight p
in_flight-set_last n [] h e = absurd (omega arith)
in_flight-set_last zero (x ∷ []) h e = rw e refl
in_flight-set_last zero (x ∷ y ∷ ys) h e = absurd (omega arith)
in_flight-set_last (suc n) (x ∷ xs) h e = go x.valid refl (in_flight-set_last n xs (omega arith) e)
  where
    go :
        (v : Bool)
        → x.valid ≡ v
        → in_flight (set xs n no_stage) ++ get_or xs n no_stage ∷ [] ≡ in_flight xs
        → in_flight (x ∷ set xs n no_stage) ++ get_or xs n no_stage ∷ [] ≡ in_flight (x ∷ xs)
    go true v ih = simp v (ap (λ t. x ∷ t) ih)
    go false v ih = rw v ih

pub in_flight-advance :
    (r : Bool) (u : ExecutionUnit)
    → IsPipe u
    → (in_flight (advance r u).pipe ≡ in_flight u.pipe) × IsPipe (advance r u)
unfolding advance
in_flight-advance false u pipe = (refl, pipe)
in_flight-advance true u (len, big) = go (output_valid u) refl
  where
    n : ℕ
    n = u.latency - 1

    long : length u.pipe ≡ suc n
    long = omega (arith, len, big)

    go :
        (v : Bool)
        → output_valid u ≡ v
        → (in_flight (advance true u).pipe ≡ in_flight u.pipe) × IsPipe (advance true u)
    go true v = rw v (refl, (len, big))
    go false v =
        rw (v, shift-pipe n u.pipe long)
          (
            in_flight-take_pred n u.pipe long (
                ap (λ t. (get_or u.pipe t no_stage).valid) {y = length u.pipe - 1}
                  (omega (arith, long))
                ∙ v),
            (omega (arith, length-take_pred n u.pipe long, big), big),
          )
