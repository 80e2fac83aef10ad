-- ===== src/DispatchReg/Prefix.antt =====
-- The register holds a program-order prefix of a bundle: lanes leave from the front, the others
-- compact toward lane 0.
use ooo_superscalar_risc_sim.Common.{
  ℕ, zero, suc, ◌+◌, ◌-◌, ◌≤◌, ◌<◌, ◌≡◌, ◌∙◌, inl, inr, refl, sym, ap, arith, Bool, true, false,
  not, some, List, [], ◌∷◌, if◌then◌else◌, ltb, ◌==◌, length, get_or, replicate, tabulate, drop,
  Bool-cases, ltb→lt, ltb→le, length-replicate, length-tabulate, get_or-replicate, get_or-tabulate,
  min, none, ==_iff, le→leb,
}
use ooo_superscalar_risc_sim.Types.{FetchedInstruction, default_instruction}
use ooo_superscalar_risc_sim.DispatchReg.{
  DispatchReg, flush, count_from, count, can_capture, source_valid, accept_prefix, fill, capture,
}

-- The register holds the instructions `xs`, in lanes 0, 1, ….
pub record Holds (r : DispatchReg) (xs : List FetchedInstruction) : Type 0 where
  pub fits : length xs ≤ r.width
  pub flags : length r.valid ≡ r.width
  pub lanes : length r.slots ≡ r.width
  pub dense : (i : ℕ) → get_or r.valid i false ≡ ltb i (length xs)
  pub held :
      (i : ℕ)
      → i < length xs
      → get_or r.slots i default_instruction ≡ get_or xs i default_instruction
  pub busy : r.holding ≡ not (length xs == 0)

count_from_lem :
    (valid : List Bool) (m : ℕ)
    → ((i : ℕ) → get_or valid i false ≡ ltb i m)
    → (i n : ℕ) → count_from valid i n ≡ min n (m - i)
unfolding count_from
count_from_lem valid m dense i zero = ground arith
count_from_lem valid m dense i (suc n) =
    ground (arith, dense i, count_from_lem valid m dense (i + 1) n)

pub count_lem : (r : DispatchReg) (xs : List FetchedInstruction) → Holds r xs → count r ≡ length xs
count_lem r xs h = count_from_lem r.valid (length xs) h.dense 0 r.width ∙ omega (arith, h.fits)

length-drop : (n : ℕ) (xs : List FetchedInstruction) → length (drop n xs) ≡ length xs - n
length-drop zero xs = omega arith
length-drop (suc n) [] = omega arith
length-drop (suc n) (x ∷ xs) = omega (arith, length-drop n xs)

get_or-drop :
    (n : ℕ) (xs : List FetchedInstruction) (i : ℕ) (d : FetchedInstruction)
    → get_or (drop n xs) i d ≡ get_or xs (i + n) d
get_or-drop zero xs i d = ap (λ k. get_or xs k d) (omega arith)
get_or-drop (suc n) [] i d = refl
get_or-drop (suc n) (x ∷ xs) i d =
    get_or-drop n xs i d
    ∙ ap (λ k. get_or (x ∷ xs) k d) (let e : suc (i + n) ≡ i + suc n = omega arith in e)

get_or_beyond {ℓ} : {A : Type ℓ} (xs : List A) (i : ℕ) (d : A) → length xs ≤ i → get_or xs i d ≡ d
get_or_beyond [] i d h = refl
get_or_beyond (x ∷ xs) zero d h = absurd (omega arith)
get_or_beyond (x ∷ xs) (suc i) d h = get_or_beyond xs i d (omega arith)

module _ (r : DispatchReg) (xs : List FetchedInstruction) (h : Holds r xs) (n : ℕ) where
  valid_after :
      (i : ℕ) → get_or (tabulate (source_valid r n) 0 r.width) i false ≡ ltb i (length xs - n)
  valid_after i = elim (Bool-cases (ltb i r.width)) [
    | inl t ↦
        get_or-tabulate (source_valid r n) 0 r.width i false (ltb→lt i r.width t)
        ∙ ground (arith, h.dense (i + n), h.fits)
    | inr f ↦
        get_or_beyond (tabulate (source_valid r n) 0 r.width) i false
          (omega (arith, ltb→le i r.width f, length-tabulate (source_valid r n) 0 r.width))
        ∙ ground (arith, h.fits, ltb→le i r.width f)
  ]

  slots_after : List FetchedInstruction
  slots_after =
      tabulate
        (λ i.
          if source_valid r n i
          then get_or r.slots (i + n) default_instruction
          else default_instruction)
        0 r.width

  held_after :
      (i : ℕ)
      → i < length xs - n
      → get_or slots_after i default_instruction ≡ get_or (drop n xs) i default_instruction
  unfolding slots_after
  held_after i lt =
      get_or-tabulate
        (λ k.
          if source_valid r n k
          then get_or r.slots (k + n) default_instruction
          else default_instruction)
        0 r.width i default_instruction (omega (arith, h.fits))
      ∙ rw (start, source)
          (h.held (i + n) (omega arith) ∙ sym (get_or-drop n xs i default_instruction))
    where
      start : 0 + i ≡ i
      start = omega arith

      source : source_valid r n i ≡ true
      source = ground (arith, h.dense (i + n), h.fits)

  -- Rename accepts the first `n` of the instructions held: the others remain, in order, and the
  -- register can capture again exactly if none remains.
  pub accept_prefix_refines :
      n ≤ length xs
      → (r' : DispatchReg) × (accept_prefix r n ≡ some r')
        × Holds r' (drop n xs)
        × (can_capture r' ≡ (length xs == n))
  unfolding accept_prefix slots_after
  accept_prefix_refines le = elim (Bool-cases (n == 0)) [
    | inl t ↦ (r, ground (arith, count_lem r xs h), rw ((==_iff n 0).0 t) h, ground (arith, h.busy))
    | inr f ↦ (
      record r {
        valid = tabulate (source_valid r n) 0 r.width;
        slots = slots_after;
        holding = not (length xs - n == 0);
      },
      rw (le→leb n (count r) (omega (arith, count_lem r xs h)), f, remaining) refl,
      record {
        fits = omega (arith, h.fits, length-drop n xs);
        flags = length-tabulate (source_valid r n) 0 r.width;
        lanes =
            length-tabulate
              (λ i.
                if source_valid r n i
                then get_or r.slots (i + n) default_instruction
                else default_instruction)
              0 r.width;
        dense = λ i. rw (length-drop n xs) (valid_after i);
        held = λ i lt. held_after i (omega (arith, length-drop n xs));
        busy = rw (length-drop n xs) refl;
      },
      ground arith,
    )
  ]
    where
      remaining : count_from (tabulate (source_valid r n) 0 r.width) 0 r.width ≡ length xs - n
      remaining =
          count_from_lem (tabulate (source_valid r n) 0 r.width) (length xs - n) valid_after 0
            r.width
          ∙ omega (arith, h.fits)

fill_lem :
    (xs : List FetchedInstruction) (w : ℕ)
    → length xs ≤ w
    → let (valid, slots) = fill xs (replicate w false) (replicate w default_instruction) in
      (length valid ≡ w)
      × (length slots ≡ w)
      × ((i : ℕ) → get_or valid i false ≡ ltb i (length xs))
      × ((i : ℕ)
          → i < length xs
          → get_or slots i default_instruction ≡ get_or xs i default_instruction)
unfolding fill
fill_lem [] w le = (
  length-replicate w false,
  length-replicate w default_instruction,
  λ i. get_or-replicate w i false ∙ ground arith,
  λ i lt. absurd (omega arith),
)
fill_lem (x ∷ xs) zero le = absurd (omega arith)
fill_lem (x ∷ xs) (suc w) le =
    let (a, b, dense, held) = fill_lem xs w (omega arith) in
    (ap suc a, ap suc b, shifted_dense dense, shifted_held held)
  where
    shifted_dense :
        ((i : ℕ)
          → get_or (fill xs (replicate w false) (replicate w default_instruction)).0 i false
            ≡ ltb i (length xs))
        → (i : ℕ)
        → get_or (true ∷ (fill xs (replicate w false) (replicate w default_instruction)).0) i false
          ≡ ltb i (suc (length xs))
    shifted_dense dense zero = ground arith
    shifted_dense dense (suc i) = dense i ∙ ground arith

    shifted_held :
        ((i : ℕ)
          → i < length xs
          → get_or
              (fill xs (replicate w false) (replicate w default_instruction)).1
              i
              default_instruction
            ≡ get_or xs i default_instruction)
        → (i : ℕ) → i < suc (length xs)
        → get_or
            (x ∷ (fill xs (replicate w false) (replicate w default_instruction)).1)
            i
            default_instruction
          ≡ get_or (x ∷ xs) i default_instruction
    shifted_held held zero lt = refl
    shifted_held held (suc i) lt = held i (omega arith)

-- A register that holds nothing captures any bundle no wider than itself, and then holds exactly
-- that bundle.
pub capture_refines :
    (r : DispatchReg) (bundle : List FetchedInstruction)
    → Holds r []
    → length bundle ≤ r.width
    → (r' : DispatchReg) × (capture r bundle ≡ some r') × Holds r' bundle
unfolding capture flush
capture_refines r bundle h le =
    let (a, b, dense, held) = fill_lem bundle r.width le in
    (
      record r {
        valid = (fill bundle (flush r).valid (flush r).slots).0;
        slots = (fill bundle (flush r).valid (flush r).slots).1;
        holding = ltb 0 (length bundle);
      },
      ground (arith, h.busy),
      record { fits = le; flags = a; lanes = b; dense = dense; held = held; busy = ground arith },
    )

-- While an instruction is held, every bundle is refused.
pub capture_busy :
    (r : DispatchReg) (xs bundle : List FetchedInstruction)
    → Holds r xs
    → 0 < length xs
    → capture r bundle ≡ none
unfolding capture
capture_busy r xs bundle h lt = ground (arith, h.busy)
