-- ===== src/LoadStoreQueue/Tests.antt =====
-- A queue with a word store and a younger byte store to the same word, a load after them and a store
-- buffer with one entry.
use ooo_superscalar_risc_sim.Common.{
  ◌≡◌, refl, arith, ◌^◌, get_or, ◌&&◌, ◌-◌, ◌+◌, true, false, none, some, List, [], ◌∷◌,
}
use ooo_superscalar_risc_sim.Common.Int.{pos, eq_ℤ, Word}
use ooo_superscalar_risc_sim.Types.{byte, half}
use ooo_superscalar_risc_sim.LoadStoreQueue.{
  LsqEntry, LoadStoreQueue, no_entry, no_store, init, find_first, is_inst,
}
use ooo_superscalar_risc_sim.LoadStoreQueue.Lanes.{
  all_lanes, access_mask, store_wdata, merge_bytes, put_byte, load_extend,
}
use ooo_superscalar_risc_sim.LoadStoreQueue.Bytes.{read_back, load_extend-merge_bytes}
use ooo_superscalar_risc_sim.LoadStoreQueue.Forward.{
  dispatch_load, started, scan_queue, scan_store, scan_buffer, scan_entry, forward_lanes,
  buffer_lanes, held_back,
}
use ooo_superscalar_risc_sim.MemTypes.{DataMemResp}
use ooo_superscalar_risc_sim.LoadStoreQueue.Memory.{enqueue_stores}
use ooo_superscalar_risc_sim.LoadStoreQueue.Cycle.{apply_data_resp}
use ooo_superscalar_risc_sim.LoadStoreQueue.Buffer.{Leaves, enqueue_stores-Leaves}
use ooo_superscalar_risc_sim.LoadStoreQueue.Arrival.{Arrives, expects, apply_data_resp-Arrives}
use ooo_superscalar_risc_sim.LoadStoreQueue.Reads.{Dispatched, dispatch_load-Dispatched}
use ooo_superscalar_risc_sim.LoadStoreQueue.Starts.{may_start, dispatch_load-may_start}

abbrev word_store : LsqEntry
word_store = record no_entry {
  valid = true;
  inst_id = 1;
  rob_id = pos 6;
  addr_ready = true;
  address = 8;
  data_ready = true;
  store_data = 16909060;
}

abbrev byte_store : LsqEntry
byte_store = record word_store { inst_id = 2; mem_size = byte; address = 9; store_data = 255 }

abbrev the_load : LsqEntry
the_load = record no_entry {
  valid = true;
  is_load = true;
  inst_id = 3;
  mem_size = half;
  addr_ready = true;
  address = 8;
}

abbrev queue : LoadStoreQueue
queue = record (init 4 1 2 (pos 5) (pos 1) true 4) {
  queue = byte_store ∷ word_store ∷ the_load ∷ no_entry ∷ [];
  sb = record no_store { valid = true; address = 8; wdata = 7; wstrb = all_lanes } ∷ no_store ∷ [];
  sb_tail = 1;
  sb_count = 1;
}

load_extend-merge_bytes_example :
    load_extend true
      (merge_bytes 5 (store_wdata true 511 byte 9) (access_mask true byte 9))
      byte
      false
      9
    ≡ read_back true byte false 9 511
load_extend-merge_bytes_example =
    load_extend-merge_bytes true 5 511 byte false 9 (omega arith) (omega arith)

dispatch_load-Dispatched_example : Dispatched true queue 3 0 (dispatch_load true queue 3)
dispatch_load-Dispatched_example = dispatch_load-Dispatched true queue 3 0

dispatch_load-may_start_example :
    (dispatch_load true queue 3).0
    ≡ elim (find_first (is_inst 3) queue.queue) [ none ↦ false | some ld ↦ may_start true queue ld ]
dispatch_load-may_start_example = dispatch_load-may_start true queue 3

abbrev buffer_of : List LsqEntry → Word
buffer_of es = elim (find_first (is_inst 3) es) [ none ↦ 0 | some e ↦ e.memory_data_buffer ]

-- The load starts, and reads the low byte of the word store below the byte store.
dispatch_load_forwards : buffer_of (dispatch_load true queue 3).1.queue ≡ 2 ^ 32 - 65536 + 65284
unfolding dispatch_load started scan_queue scan_store scan_buffer scan_entry forward_lanes
    buffer_lanes held_back put_byte merge_bytes
dispatch_load_forwards = refl

enqueue_stores-Leaves_example :
    Leaves true queue 4 (pos 6 ∷ []) (enqueue_stores true queue (pos 6 ∷ []))
enqueue_stores-Leaves_example =
    enqueue_stores-Leaves true queue (pos 6 ∷ [])
      (record { head_in = omega arith; tail_at = omega arith; fits = omega arith })

-- The load after its request.
abbrev waiting : LsqEntry
waiting = record the_load {
  is_accessing_memory = true;
  awaiting_mem_resp = true;
  mem_req_sent = true;
  mem_cookie = 3;
}

abbrev asked : LoadStoreQueue
asked = record queue { queue = waiting ∷ [] }

abbrev answer : DataMemResp
answer = record { id = pos 0; rdata = 40000; cookie = 3; is_write = false }

apply_data_resp-Arrives_example :
    Arrives true answer waiting
      (get_or (apply_data_resp true asked answer).queue 0 no_entry)
      (eq_ℤ (pos 0) (pos 0) && expects answer waiting)
apply_data_resp-Arrives_example = apply_data_resp-Arrives true asked answer 0 (omega arith)
