-- ===== src/MemTypes.antt =====
-- include/mem/mem_types.hpp: requests and responses of the memory system, and line addresses.
pub mod Split
use Prim.Native.Nat.{bit_and}
use ooo_superscalar_risc_sim.Common.{ℕ, ◌-◌, ◌^◌, Bool, false, List}
use ooo_superscalar_risc_sim.Common.Int.{ℤ, negsuc, Word}
use ooo_superscalar_risc_sim.LoadStoreQueue.Lanes.{Mask, all_lanes}

pub record DataMemReq : Type 0 where
  pub write : Bool
  pub addr : Word
  pub wdata : Word
  pub wstrb : Mask
  pub id : ℤ
  pub cookie : ℕ

abbrev pub default_req : DataMemReq
default_req = record {
  write = false;
  addr = 0;
  wdata = 0;
  wstrb = all_lanes;
  id = negsuc 0;
  cookie = 0;
}

pub record DataMemResp : Type 0 where
  pub id : ℤ
  pub rdata : Word
  pub cookie : ℕ
  pub is_write : Bool

-- `addr & ~(line_bytes - 1)`, on 32 bits.
unfoldable pub line_align : Word → ℕ → Word
line_align addr line_bytes = bit_and addr (2 ^ 32 - 1 - (line_bytes - 1))

-- `addr & (line_bytes - 1)`.
unfoldable pub line_offset : Word → ℕ → ℕ
line_offset addr line_bytes = bit_and addr (line_bytes - 1)
