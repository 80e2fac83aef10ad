-- ===== src/Gshare.antt =====
-- src/gshare_predictor.cpp and include/gshare_predictor.hpp: the direction predictor and the branch
-- target buffer. An access outside a table is `none`; printState is left out.
pub mod Range
pub mod Targets
mod Tests
use Prim.Native.Nat.{bit_and, bit_or, bit_xor}
use ooo_superscalar_risc_sim.Common.{
  ℕ, zero, suc, ◌+◌, ◌-◌, ◌*◌, ◌/◌, ◌%◌, ◌^◌, Bool, true, false, ◌&&◌, Option, none, some, List,
  if◌then◌else◌, ltb, leb, ◌==◌, ◌>>=◌, get_elem?, set, replicate,
}
use ooo_superscalar_risc_sim.Common.Signed.{word_mod}

pub record BtbEntry : Type 0 where
  pub valid : Bool
  pub tag : ℕ
  pub target_addr : ℕ

abbrev pub no_entry : BtbEntry
no_entry = record { valid = false; tag = 0; target_addr = 0 }

pub record Gshare : Type 0 where
  pub pht : List ℕ
  pub btb : List BtbEntry
  pub ghr : ℕ
  pub pht_size : ℕ
  pub btb_size : ℕ
  pub ghr_w : ℕ
  pub btb_idx_w : ℕ
  pub ghr_mask : ℕ
  pub btb_idx_mask : ℕ

-- The loop of `clog2_pow2`: `v` and `w` as they change, `v` iterations being enough.
unfoldable pub clog2_loop : ℕ → ℕ → ℕ → ℕ
clog2_loop zero v w = w
clog2_loop (suc fuel) v w =
    let rest = clog2_loop fuel (v / 2) (w + 1) in if ltb 1 v then rest else w

abbrev pub clog2_pow2 : ℕ → ℕ
clog2_pow2 n = clog2_loop n n 0

abbrev pub low_mask : ℕ → ℕ
low_mask w = if leb 32 w then word_mod - 1 else 2 ^ w - 1

unfoldable pub init : ℕ → ℕ → Gshare
init pht_size btb_size =
    let w = clog2_pow2 pht_size in
    let i = clog2_pow2 btb_size in
    record {
      pht = replicate pht_size 1;
      btb = replicate btb_size no_entry;
      ghr = 0;
      pht_size = pht_size;
      btb_size = btb_size;
      ghr_w = w;
      btb_idx_w = i;
      ghr_mask = low_mask w;
      btb_idx_mask = low_mask i;
    }

unfoldable pub pht_index : Gshare → ℕ → ℕ → ℕ
pht_index p pc hist = bit_xor (bit_and (pc / 2 ^ 2) p.ghr_mask) (bit_and hist p.ghr_mask)

unfoldable pub btb_index : Gshare → ℕ → ℕ
btb_index p pc = bit_and (pc / 2 ^ 2) p.btb_idx_mask

unfoldable pub btb_tag : Gshare → ℕ → ℕ
btb_tag p pc = pc / 2 ^ (p.btb_idx_w + 2) % word_mod

-- Whether the branch is predicted taken, and where to.
abbrev pub verdict : Gshare → ℕ → ℕ → BtbEntry → Bool × ℕ
verdict p pc counter e =
    let taken = leb 2 counter && (e.valid && e.tag == btb_tag p pc) in
    (taken, if taken then e.target_addr else (pc + 4) % 2 ^ 64)

unfoldable pub predict : Gshare → ℕ → Option (Bool × ℕ)
predict p pc = do
  counter ← get_elem? p.pht (pht_index p pc p.ghr)
  e ← get_elem? p.btb (btb_index p pc)
  some (verdict p pc counter e)

abbrev pub count_up : ℕ → ℕ
count_up c = if ltb c 3 then c + 1 else c

abbrev pub count_down : ℕ → ℕ
count_down c = if ltb 0 c then c - 1 else c

-- The branch target buffer after the update; only a taken branch writes it.
unfoldable pub update_btb : Gshare → ℕ → Bool → ℕ → Option (List BtbEntry)
update_btb p pc false target = some p.btb
update_btb p pc true target = do
  e ← get_elem? p.btb (btb_index p pc)
  some (
      set p.btb (btb_index p pc)
        (record { valid = true; tag = btb_tag p pc; target_addr = target }))

unfoldable pub update : Gshare → ℕ → Bool → ℕ → Option Gshare
update p pc actual_taken actual_target = do
  counter ← get_elem? p.pht (pht_index p pc p.ghr)
  btb ← update_btb p pc actual_taken actual_target
  some (record p {
    pht =
        set p.pht (pht_index p pc p.ghr)
          (if actual_taken then count_up counter else count_down counter);
    btb = btb;
    ghr = bit_and (bit_or (p.ghr * 2 % word_mod) (if actual_taken then 1 else 0)) p.ghr_mask;
  })
