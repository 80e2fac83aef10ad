-- ===== src/DispatchReg.antt =====
-- src/dispatch_reg.cpp and include/dispatch_reg.hpp: the register between decode and rename. A failed
-- assert is `none`; printState is left out.
pub mod Prefix
mod Tests
use ooo_superscalar_risc_sim.Common.{
  ℕ, zero, suc, ◌+◌, Bool, true, false, not, ◌&&◌, Option, none, some, List, [], ◌∷◌, if◌then◌else◌,
  ltb, leb, ◌==◌, length, get_elem?, get_or, replicate, tabulate,
}
use ooo_superscalar_risc_sim.Common.Int.{ℤ, index}
use ooo_superscalar_risc_sim.Types.{FetchedInstruction, default_instruction}

pub record DispatchReg : Type 0 where
  pub width : ℕ
  pub holding : Bool
  pub valid : List Bool
  pub slots : List FetchedInstruction

unfoldable pub init : ℕ → Option DispatchReg
init width =
    if ltb 0 width
    then some (record {
      width = width;
      holding = false;
      valid = replicate width false;
      slots = replicate width default_instruction;
    })
    else none

unfoldable pub flush : DispatchReg → DispatchReg
flush r = record r {
  holding = false;
  valid = replicate r.width false;
  slots = replicate r.width default_instruction;
}

-- The loop of `count` from lane `i`, `n` lanes to go.
unfoldable pub count_from : List Bool → ℕ → ℕ → ℕ
count_from valid i zero = 0
count_from valid i (suc n) =
    let rest = count_from valid (i + 1) n in if get_or valid i false then rest + 1 else rest

abbrev pub count : DispatchReg → ℕ
count r = count_from r.valid 0 r.width

abbrev pub empty : DispatchReg → Bool
empty r = count r == 0

abbrev pub can_capture : DispatchReg → Bool
can_capture r = not r.holding

unfoldable pub lane_valid : DispatchReg → ℤ → Bool
lane_valid r i = elim (index i r.width) [ none ↦ false | some k ↦ get_or r.valid k false ]

-- The assert wants a valid lane.
unfoldable pub lane : DispatchReg → ℕ → Option FetchedInstruction
lane r i = if ltb i r.width && get_or r.valid i false then get_elem? r.slots i else none

-- Whether lane `i` takes over a valid lane when `n` lanes leave.
abbrev pub source_valid : DispatchReg → ℕ → ℕ → Bool
source_valid r n i = ltb (i + n) r.width && get_or r.valid (i + n) false

unfoldable pub accept_prefix : DispatchReg → ℕ → Option DispatchReg
accept_prefix r n =
    if leb n (count r)
    then if n == 0
      then some r
      else (let valid = tabulate (source_valid r n) 0 r.width in
          some (record r {
            valid = valid;
            slots =
                tabulate
                  (λ i.
                    if source_valid r n i
                    then get_or r.slots (i + n) default_instruction
                    else default_instruction)
                  0 r.width;
            holding = not (count_from valid 0 r.width == 0);
          }))
    else none

-- The flags and the lanes that `capture` writes, over the flushed ones.
unfoldable pub fill :
    List FetchedInstruction
    → List Bool
    → List FetchedInstruction
    → List Bool × List FetchedInstruction
fill [] valid slots = (valid, slots)
fill (x ∷ xs) [] slots = ([], slots)
fill (x ∷ xs) (b ∷ valid) [] = (b ∷ valid, [])
fill (x ∷ xs) (b ∷ valid) (s ∷ slots) =
    let (valid', slots') = fill xs valid slots in (true ∷ valid', x ∷ slots')

unfoldable pub capture : DispatchReg → List FetchedInstruction → Option DispatchReg
capture r bundle =
    if can_capture r && leb (length bundle) r.width
    then (let (valid, slots) = fill bundle (flush r).valid (flush r).slots in
        some (record r { valid = valid; slots = slots; holding = ltb 0 (length bundle) }))
    else none
