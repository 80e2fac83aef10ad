-- ===== src/Processor/Tests.antt =====
-- Three instructions in flight in a reorder buffer of four slots whose window goes round the end: two
-- stores and, between them, an addition that is done.
use mathlib.Core.Option
use ooo_superscalar_risc_sim.Common.{
  ◌↔◌, ℕ, zero, suc, ◌<◌, ◌≡◌, refl, true, false, ◌&&◌, none, some, List, [], ◌∷◌, arith, ltb, map,
}
use ooo_superscalar_risc_sim.Common.Int.{ℤ, pos, negsuc}
use ooo_superscalar_risc_sim.Types.{br_eq, br_jalr, default_uop}
use ooo_superscalar_risc_sim.LoadStoreQueue.{LsqEntry, no_entry, LoadStoreQueue}
use ooo_superscalar_risc_sim.LoadStoreQueue as lsq
use ooo_superscalar_risc_sim.Rat as rat
use ooo_superscalar_risc_sim.Rob as rob
use ooo_superscalar_risc_sim.Rob.{ReorderBuffer, age_from_head}
use ooo_superscalar_risc_sim.Rob.Invariant.{IsValid, is_busy}
use ooo_superscalar_risc_sim.Processor.Info.{InstInfo, default_info, no_operand}
use ooo_superscalar_risc_sim.Processor.{
  is_jalr_return, is_jalr_call, imem_word, Core, resolve_operand, update_inst_operands_from_cdb,
  wake_stores, broadcast_cdb, actual_outcome, next_pc, resolve_branch,
}
use ooo_superscalar_risc_sim.Processor.Stores.{
  lane_tag, lane_verdict, permissions_from, store_commit_permissions, finish_stores,
  process_store_buffer,
}
use ooo_superscalar_risc_sim.Processor.Loop.{holds, all_from}
use ooo_superscalar_risc_sim.Processor.Permitted.{
  is_waiting_store, lets_pass, store_commit_permissions-holds,
}
use ooo_superscalar_risc_sim.Processor.Outcome.{
  Mispredicts, followed_pc, followed_pc-resolve_branch,
}
use ooo_superscalar_risc_sim.Processor.Steps.{Processed, process_store_buffer_refines}
use ooo_superscalar_risc_sim.LoadStoreQueue.Buffer.{IsRing}

abbrev wrapped : ReorderBuffer
wrapped = record {
  buffer =
      record { busy = true; op = "ADD"; dest_reg = pos 5; value = 7; done = true }
      ∷ record { busy = true; op = "SW"; dest_reg = pos 0; value = 0; done = false }
      ∷ record { busy = false; op = ""; dest_reg = pos 0; value = 0; done = false }
      ∷ record { busy = true; op = "SW"; dest_reg = pos 0; value = 0; done = false }
      ∷ [];
  capacity = 4;
  head = 3;
  tail = 2;
  active_count = 3;
}

wrapped_live : (i : ℕ) → i < 4 → is_busy wrapped i ≡ ltb (age_from_head wrapped i) 3
wrapped_live zero lt = refl
wrapped_live (suc zero) lt = refl
wrapped_live (suc (suc zero)) lt = refl
wrapped_live (suc (suc (suc zero))) lt = refl
wrapped_live (suc (suc (suc (suc i)))) lt = absurd (omega arith)

wrapped-IsValid : IsValid wrapped
wrapped-IsValid = record {
  sized = refl;
  head_in = omega arith;
  tail_at = refl;
  fits = omega arith;
  live = wrapped_live;
}

abbrev older_store : LsqEntry
older_store = record no_entry {
  valid = true;
  inst_id = 1;
  rob_id = pos 3;
  addr_ready = true;
  address = 8;
  data_ready = true;
  store_data = 5;
}

-- It waits for its data.
abbrev younger_store : LsqEntry
younger_store = record older_store { inst_id = 3; rob_id = pos 1; data_ready = false }

abbrev store_queue : LoadStoreQueue
store_queue = record (lsq.init 2 1 2 (pos 1) (pos 1) true 2) {
  queue = older_store ∷ younger_store ∷ [];
}

abbrev core : Core
core = record {
  width = 4;
  num_regs = 32;
  arf = 0 ∷ 11 ∷ 12 ∷ [];
  rat = rat.rename (rat.init 32) (pos 2) 0;
  rob = wrapped;
  lsq = store_queue;
  inst_table =
      record default_info {
        inst_id = 3;
        rob_id = pos 1;
        is_store = true;
        store_data = record no_operand { tag = pos 0 };
      }
      ∷ record default_info { inst_id = 2; rob_id = pos 0; completed = true }
      ∷ record default_info { inst_id = 1; rob_id = pos 3; is_store = true }
      ∷ [];
  cdb_wakeup_pending = [];
}

both_stores : store_commit_permissions core ≡ some (pos 3 ∷ pos 1 ∷ [])
unfolding permissions_from lane_verdict
both_stores = refl

-- The younger store stays, as its data is missing.
one_leaves :
    Option.map (λ (c : Core). map (λ e. e.done) c.rob.buffer) (process_store_buffer true core)
    ≡ some (true ∷ false ∷ false ∷ true ∷ [])
unfolding rob.write_result process_store_buffer permissions_from lane_verdict finish_stores
    lsq.Memory.enqueue_from
one_leaves = refl

-- Its data comes: the queue has it, too.
data_arrives :
    map (λ (e : LsqEntry). e.store_data) (update_inst_operands_from_cdb core (pos 0) 7).lsq.queue
    ≡ 5 ∷ 7 ∷ []
unfolding wake_stores lsq.set_store_data
data_arrives = refl

from_file :
    resolve_operand core (pos 1) ≡ some (record { ready = true; tag = negsuc 0; value = 11 })
unfolding resolve_operand rat.lookup rat.rename rat.init
from_file = refl

from_rob : resolve_operand core (pos 2) ≡ some (record { ready = true; tag = pos 0; value = 7 })
unfolding resolve_operand rat.lookup rat.rename rat.init
from_rob = refl

-- A result for a tag that is no longer in flight is dropped.
stale_result : broadcast_cdb core (record { rob_id = pos 2; value = 9 }) ≡ some core
unfolding broadcast_cdb
stale_result = refl

aligned_word : imem_word (3 ∷ 4 ∷ []) 4 ≡ some 4
aligned_word = refl

misaligned_word : imem_word (3 ∷ 4 ∷ []) 2 ≡ none
misaligned_word = refl

returns : is_jalr_return (record default_uop { op = br_jalr; rs1 = 1 }) ≡ true
returns = refl

calls : is_jalr_call (record default_uop { op = br_jalr; rd = 5 }) ≡ true
calls = refl

store_commit_permissions-holds_example :
    (tags : List ℤ) × (store_commit_permissions core ≡ some tags)
    × (holds tags (lane_tag core 2) ≡ (is_waiting_store core 2 && all_from (lets_pass core) 0 2))
store_commit_permissions-holds_example =
    store_commit_permissions-holds core wrapped-IsValid 2 (omega arith)

store_queue-IsRing : IsRing store_queue
store_queue-IsRing = record { head_in = omega arith; tail_at = refl; fits = omega arith }

process_store_buffer_refines_example : Processed true core (process_store_buffer true core)
process_store_buffer_refines_example =
    process_store_buffer_refines true core wrapped-IsValid store_queue-IsRing

-- A branch that is taken, against its prediction.
abbrev branch : InstInfo
branch = record default_info {
  pc = 16;
  imm = 8;
  is_branch = true;
  has_uop = true;
  op = br_eq;
  fallthrough_pc = 20;
}

followed_pc-resolve_branch_example :
    (((resolve_branch branch 0).1 ≡ true) ↔ Mispredicts branch (actual_outcome branch 0))
    × (followed_pc (resolve_branch branch 0) ≡ next_pc branch (actual_outcome branch 0))
followed_pc-resolve_branch_example = followed_pc-resolve_branch branch 0 refl
