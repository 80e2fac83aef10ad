-- ===== src/LoadStoreQueue/Lanes.antt =====
-- src/load_store_queue.cpp: the byte lanes of a 32-bit word. A byte mask is its four bits; the loops
-- over `b` from 0 to 3 run over the four lanes. `MainMemoryByteAddressed` is an argument; an address
-- is a 32-bit pattern.
use ooo_superscalar_risc_sim.Common.{
  ℕ, zero, suc, ◌+◌, ◌-◌, ◌*◌, ◌/◌, ◌%◌, ◌^◌, Bool, true, false, not, ◌&&◌, ◌||◌, List,
  if◌then◌else◌, ltb, leb, ◌==◌, length, get_or, set,
}
use ooo_superscalar_risc_sim.Common.Int.{Word}
use ooo_superscalar_risc_sim.Common.Signed.{word_mod}
use ooo_superscalar_risc_sim.Types.{MemSize, byte, half, word}

pub data Lane : Type 0 where
  b0 b1 b2 b3 : Lane

-- Four values, one to a lane.
pub record Quad {ℓ} (A : Type ℓ) : Type ℓ where
  pub q0 : A
  pub q1 : A
  pub q2 : A
  pub q3 : A

module _ {ℓ} {A : Type ℓ} where
  abbrev pub at_lane : Lane → Quad A → A
  at_lane b0 q = q.q0
  at_lane b1 q = q.q1
  at_lane b2 q = q.q2
  at_lane b3 q = q.q3

  abbrev pub put_lane : Lane → A → Quad A → Quad A
  put_lane b0 a q = record q { q0 = a }
  put_lane b1 a q = record q { q1 = a }
  put_lane b2 a q = record q { q2 = a }
  put_lane b3 a q = record q { q3 = a }

abbrev pub Mask : Type 0
Mask = Quad Bool

abbrev pub mask_of : Bool → Bool → Bool → Bool → Mask
mask_of a b c d = record { q0 = a; q1 = b; q2 = c; q3 = d }

abbrev pub no_lanes : Mask
no_lanes = mask_of false false false false

abbrev pub all_lanes : Mask
all_lanes = mask_of true true true true

-- `a & b`.
abbrev pub and_mask : Mask → Mask → Mask
and_mask a b = mask_of (a.q0 && b.q0) (a.q1 && b.q1) (a.q2 && b.q2) (a.q3 && b.q3)

-- `m == 0`.
abbrev pub is_none : Mask → Bool
is_none m = not (m.q0 || (m.q1 || (m.q2 || m.q3)))

-- `(a & b) == b`.
abbrev pub covers : Mask → Mask → Bool
covers a b =
    (not b.q0 || a.q0) && ((not b.q1 || a.q1) && ((not b.q2 || a.q2) && (not b.q3 || a.q3)))

abbrev pub shift_of : Lane → ℕ
shift_of b0 = 0
shift_of b1 = 8
shift_of b2 = 16
shift_of b3 = 24

-- The byte of a lane.
abbrev pub byte_at : Lane → Word → ℕ
byte_at b w = w / 2 ^ shift_of b % 256

-- `(cur & ~mask) | (w & mask)` with `mask = 0xFF << (8 * b)`: the fields are disjoint, so `|` is a sum.
unfoldable pub put_byte : Lane → Word → Word → Word
put_byte b cur w =
    cur / 2 ^ (shift_of b + 8) * 2 ^ (shift_of b + 8)
    + byte_at b w * 2 ^ shift_of b
    + cur % 2 ^ shift_of b

abbrev pub merge_lane : Mask → Word → Lane → Word → Word
merge_lane mask overlay b out = if at_lane b mask then put_byte b out overlay else out

unfoldable pub merge_bytes : Word → Word → Mask → Word
merge_bytes base overlay mask =
    merge_lane mask overlay b3
      (merge_lane mask overlay b2 (merge_lane mask overlay b1 (merge_lane mask overlay b0 base)))

-- Without byte addresses a negative address is out of range.
abbrev pub mem_word_index : Bool → List Word → Word → ℕ
mem_word_index true memory addr = addr / 4
mem_word_index false memory addr = if ltb addr (2 ^ 31) then addr else length memory

abbrev pub mem_read_word : Bool → List Word → Word → Word
mem_read_word ba memory addr =
    let i = mem_word_index ba memory addr in if leb (length memory) i then 0 else get_or memory i 0

-- The loop merges the lanes of the mask as `mergeBytes` does.
abbrev pub mem_write_masked : Bool → List Word → Word → Word → Mask → List Word
mem_write_masked ba memory addr wdata wstrb =
    let i = mem_word_index ba memory addr in
    if leb (length memory) i
    then memory
    else set memory i (merge_bytes (get_or memory i 0) wdata wstrb)

abbrev pub addr_low : Bool → Word → ℕ
addr_low false addr = 0
addr_low true addr = addr % 4

abbrev pub same_word : Bool → Word → Word → Bool
same_word false a b = a == b
same_word true a b = a / 4 == b / 4

-- `0x1 << low`.
abbrev pub byte_mask : ℕ → Mask
byte_mask zero = mask_of true false false false
byte_mask (suc zero) = mask_of false true false false
byte_mask (suc (suc zero)) = mask_of false false true false
byte_mask _ = mask_of false false false true

-- `0x3 << low`, cut off at the end of the word.
abbrev pub half_mask : ℕ → Mask
half_mask zero = mask_of true true false false
half_mask (suc zero) = mask_of false true true false
half_mask (suc (suc zero)) = mask_of false false true true
half_mask _ = mask_of false false false true

abbrev pub access_mask : Bool → MemSize → Word → Mask
access_mask false size addr = all_lanes
access_mask true byte addr = byte_mask (addr % 4)
access_mask true half addr = half_mask (addr % 4)
access_mask true word addr = all_lanes

abbrev pub store_wdata : Bool → Word → MemSize → Word → Word
store_wdata false value size addr = value
store_wdata true value byte addr = value % 256 * 2 ^ (8 * (addr % 4)) % word_mod
store_wdata true value half addr =
    if leb 3 (addr % 4)
    then value % 65536 % 256 * 2 ^ 24
    else value % 65536 * 2 ^ (8 * (addr % 4)) % word_mod
store_wdata true value word addr = value

-- Sign extension of an 8-bit or a 16-bit number.
abbrev pub extend_byte : Bool → ℕ → Word
extend_byte is_unsigned v = if is_unsigned then v else if ltb v 128 then v else v + (word_mod - 256)

abbrev pub extend_half : Bool → ℕ → Word
extend_half is_unsigned v =
    if is_unsigned then v else if ltb v 32768 then v else v + (word_mod - 65536)

abbrev pub load_extend : Bool → Word → MemSize → Bool → Word → Word
load_extend false w size is_unsigned addr = w
load_extend true w byte is_unsigned addr = extend_byte is_unsigned (w / 2 ^ (8 * (addr % 4)) % 256)
load_extend true w half is_unsigned addr =
    extend_half is_unsigned
      (if leb 3 (addr % 4) then w / 2 ^ 24 % 256 else w / 2 ^ (8 * (addr % 4)) % 65536)
load_extend true w word is_unsigned addr = w

abbrev pub to_memsys_addr : Bool → Word → Word
to_memsys_addr true addr = addr
to_memsys_addr false addr = addr * 4 % word_mod
