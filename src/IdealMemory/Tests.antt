-- ===== src/IdealMemory/Tests.antt =====
-- A byte write and a read of its word.
use ooo_superscalar_risc_sim.Common.{◌≡◌, refl, map, true, false, none, [], ◌∷◌}
use ooo_superscalar_risc_sim.MemTypes.{DataMemReq, default_req}
use ooo_superscalar_risc_sim.LoadStoreQueue.Lanes.{byte_mask, merge_bytes, put_byte}
use ooo_superscalar_risc_sim.IdealMemory.{IdealMemorySystem, try_data_req, pop_data_resps}

abbrev ideal : IdealMemorySystem
ideal = record {
  memory = 1 ∷ 2 ∷ [];
  imem_pending = false;
  imem_pc = 0;
  imem_resp = none;
  data_resps = [];
}

abbrev write_req : DataMemReq
write_req = record default_req { write = true; addr = 5; wdata = 65280; wstrb = byte_mask 1 }

abbrev read_req : DataMemReq
read_req = record default_req { addr = 4 }

-- The read sees the byte that the write changed.
byte_read_back :
    map (λ r. r.rdata) (pop_data_resps (try_data_req (try_data_req ideal write_req).1 read_req).1).0
    ≡ 0 ∷ 65282 ∷ []
unfolding merge_bytes put_byte try_data_req
byte_read_back = refl
