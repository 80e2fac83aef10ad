-- ===== src/IdealMemory.antt =====
-- src/mem/memory_system.cpp and include/mem/memory_system.hpp: IdealMemorySystem, which answers a data
-- request at once. `MainMemory` is a field of the state. The loop in `tick` computes nothing, and no
-- instruction response is ever made.
pub mod Answers
mod Tests
use ooo_superscalar_risc_sim.Common.{
  ℕ, suc, ◌+◌, ◌/◌, Bool, true, false, not, ◌&&◌, ◌||◌, Option, none, some, List, [], ◌∷◌, ◌++◌,
  if◌then◌else◌, ltb, length, get_or, set,
}
use ooo_superscalar_risc_sim.Common.Int.{ℤ, pos, Word}
use ooo_superscalar_risc_sim.MemTypes.{DataMemReq, DataMemResp}
use ooo_superscalar_risc_sim.LoadStoreQueue.Lanes.{merge_bytes}

-- An instruction response: its program counter and the words.
pub record ImemResp : Type 0 where
  pub pc : Word
  pub count : ℕ
  pub words : List Word

pub record IdealMemorySystem : Type 0 where
  pub memory : List Word
  pub imem_pending : Bool
  pub imem_pc : Word
  pub imem_resp : Option ImemResp
  pub data_resps : List DataMemResp

abbrev pub reset : IdealMemorySystem → IdealMemorySystem
reset m = record m { imem_pending = false; imem_resp = none; data_resps = [] }

abbrev pub is_none : Option ImemResp → Bool
is_none none = true
is_none (some r) = false

abbrev pub tick : IdealMemorySystem → IdealMemorySystem
tick m = if m.imem_pending && is_none m.imem_resp then record m { imem_pending = false } else m

-- The bytes of the mask are merged into the word; a word beyond the end is dropped.
abbrev pub stored : DataMemReq → List Word → List Word
stored req memory =
    if ltb (req.addr / 4) (length memory)
    then set memory (req.addr / 4)
        (merge_bytes (get_or memory (req.addr / 4) 0) req.wdata req.wstrb)
    else memory

abbrev pub response : DataMemReq → Word → DataMemResp
response req w = record { id = req.id; rdata = w; cookie = req.cookie; is_write = req.write }

abbrev pub take_write : IdealMemorySystem → DataMemReq → IdealMemorySystem
take_write m req = record m {
  memory = stored req m.memory;
  data_resps = m.data_resps ++ response req 0 ∷ [];
}

abbrev pub take_read : IdealMemorySystem → DataMemReq → IdealMemorySystem
take_read m req = record m {
  data_resps =
      m.data_resps
      ++ response req
          (if ltb (req.addr / 4) (length m.memory) then get_or m.memory (req.addr / 4) 0 else 0)
        ∷ [];
}

unfoldable pub try_data_req : IdealMemorySystem → DataMemReq → Bool × IdealMemorySystem
try_data_req m req = (true, if req.write then take_write m req else take_read m req)

abbrev pub pop_data_resps : IdealMemorySystem → List DataMemResp × IdealMemorySystem
pop_data_resps m = (m.data_resps, record m { data_resps = [] })

abbrev pub try_imem_req : IdealMemorySystem → Word → Bool × IdealMemorySystem
try_imem_req m addr =
    if m.imem_pending || not (is_none m.imem_resp)
    then (false, m)
    else (true, record m { imem_pending = true; imem_pc = addr })

abbrev pub pop_imem_resp : IdealMemorySystem → Option ImemResp × IdealMemorySystem
pop_imem_resp m = (m.imem_resp, record m { imem_resp = none })
