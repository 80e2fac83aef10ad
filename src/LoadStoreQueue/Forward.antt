-- ===== src/LoadStoreQueue/Forward.antt =====
-- src/load_store_queue.cpp: dispatchLoad, which looks for the load's bytes in the older stores of the
-- queue and in the store buffer before it goes to memory.
use ooo_superscalar_risc_sim.Common.{
  ℕ, zero, suc, Bool, true, false, not, ◌&&◌, ◌||◌, Option, none, some, List, [], ◌∷◌,
  if◌then◌else◌, ltb,
}
use ooo_superscalar_risc_sim.Common.Int.{ℤ, pos, negsuc, Word}
use ooo_superscalar_risc_sim.LoadStoreQueue.{
  LsqEntry, StoreBufferEntry, LoadStoreQueue, find_first, update_first, is_inst, uses_cached_mem,
  sb_entries,
}
use ooo_superscalar_risc_sim.LoadStoreQueue.Lanes.{
  Lane, b0, b1, b2, b3, Quad, at_lane, put_lane, Mask, no_lanes, and_mask, is_none, covers,
  put_byte, merge_bytes, same_word, access_mask, store_wdata, load_extend,
}

-- The local variables of the scans.
pub record Scan : Type 0 where
  pub blocked : Bool
  pub any_overlap : Bool
  pub covered_mask : Mask
  pub fwd_word : Word
  pub byte_age : Quad ℕ

abbrev pub scan_start : Scan
scan_start = record {
  blocked = false;
  any_overlap = false;
  covered_mask = no_lanes;
  fwd_word = 0;
  byte_age = record { q0 = 0; q1 = 0; q2 = 0; q3 = 0 };
}

abbrev pub load_mask : Bool → LsqEntry → Mask
load_mask ba ld = access_mask ba ld.mem_size ld.address

abbrev pub take_lane : Lane → ℕ → Word → Scan → Scan
take_lane b id wdata st = record st {
  fwd_word = put_byte b st.fwd_word wdata;
  byte_age = put_lane b id st.byte_age;
  covered_mask = put_lane b true st.covered_mask;
}

-- One turn of the loop over the lanes: a store older than the one that gave the byte is passed over.
abbrev pub forward_lane : Mask → ℕ → Word → Lane → Scan → Scan
forward_lane overlap id wdata b st =
    if at_lane b overlap && (not (at_lane b st.covered_mask) || ltb (at_lane b st.byte_age) id)
    then take_lane b id wdata st
    else st

unfoldable pub forward_lanes : Mask → ℕ → Word → Scan → Scan
forward_lanes overlap id wdata st = forward_lane overlap id wdata b3 (
    forward_lane overlap id wdata b2
      (forward_lane overlap id wdata b1 (forward_lane overlap id wdata b0 st)))

-- A valid store older than the load.
abbrev pub is_older_store : LsqEntry → LsqEntry → Bool
is_older_store ld e = e.valid && (not e.is_load && ltb e.inst_id ld.inst_id)

abbrev pub overlap_of : Bool → LsqEntry → Word → Mask → Mask
overlap_of ba ld addr mask =
    if same_word ba addr ld.address then and_mask mask (load_mask ba ld) else no_lanes

abbrev pub store_overlap : Bool → LsqEntry → LsqEntry → Mask
store_overlap ba ld e = overlap_of ba ld e.address (access_mask ba e.mem_size e.address)

abbrev pub entry_wdata : Bool → LsqEntry → Word
entry_wdata ba e = store_wdata ba e.store_data e.mem_size e.address

unfoldable pub scan_store : Bool → LsqEntry → Scan → LsqEntry → Scan
scan_store ba ld st e =
    if not (is_older_store ld e)
    then st
    else if not e.addr_ready || not e.data_ready
    then record st { blocked = true }
    else if is_none (store_overlap ba ld e)
    then st
    else forward_lanes (store_overlap ba ld e) e.inst_id (entry_wdata ba e)
        (record st { any_overlap = true })

unfoldable pub scan_queue : Bool → LsqEntry → Scan → List LsqEntry → Scan
scan_queue ba ld st [] = st
scan_queue ba ld st (e ∷ es) = scan_queue ba ld (scan_store ba ld st e) es

-- A lane that the queue covers is not taken from the store buffer; among the buffer's entries a later
-- one overwrites.
abbrev pub buffer_lane : Mask → Mask → Word → Lane → Scan → Scan
buffer_lane lsq_cover overlap wdata b st =
    if at_lane b overlap && not (at_lane b lsq_cover)
    then record st {
      fwd_word = put_byte b st.fwd_word wdata;
      covered_mask = put_lane b true st.covered_mask;
    }
    else st

unfoldable pub buffer_lanes : Mask → Mask → Word → Scan → Scan
buffer_lanes lsq_cover overlap wdata st = buffer_lane lsq_cover overlap wdata b3 (
    buffer_lane lsq_cover overlap wdata b2
      (buffer_lane lsq_cover overlap wdata b1 (buffer_lane lsq_cover overlap wdata b0 st)))

unfoldable pub scan_entry : Bool → LsqEntry → Mask → Scan → StoreBufferEntry → Scan
scan_entry ba ld lsq_cover st s =
    if not s.valid
    then st
    else if is_none (overlap_of ba ld s.address s.wstrb)
    then st
    else buffer_lanes lsq_cover (overlap_of ba ld s.address s.wstrb) s.wdata
        (record st { any_overlap = true })

unfoldable pub scan_buffer : Bool → LsqEntry → Mask → Scan → List StoreBufferEntry → Scan
scan_buffer ba ld lsq_cover st [] = st
scan_buffer ba ld lsq_cover st (s ∷ ss) =
    scan_buffer ba ld lsq_cover (scan_entry ba ld lsq_cover st s) ss

-- `v <= 0`.
abbrev pub not_positive : ℤ → Bool
not_positive (pos zero) = true
not_positive (pos (suc n)) = false
not_positive (negsuc n) = true

-- What a load makes of the word that memory gives it, the forwarded bytes merged in.
abbrev pub loaded : Bool → LsqEntry → Word → Word
loaded ba e w =
    load_extend ba
      (if e.partial_fwd_en then merge_bytes w e.partial_fwd_word e.partial_fwd_mask else w)
      e.mem_size e.mem_unsigned e.address

abbrev pub start_full_fwd : Bool → LoadStoreQueue → LsqEntry → Word → LsqEntry
start_full_fwd ba q ld w = record ld {
  is_accessing_memory = true;
  cycles_remaining = q.fwd_latency;
  needs_mem_fill = false;
  partial_fwd_en = false;
  awaiting_mem_resp = false;
  mem_req_sent = false;
  cdb_wait = not_positive q.fwd_latency;
  memory_data_buffer = load_extend ba w ld.mem_size ld.mem_unsigned ld.address;
}

abbrev pub start_mem : LoadStoreQueue → LsqEntry → Word → Mask → Bool → LsqEntry
start_mem q ld partial_word partial_mask has_partial = record ld {
  is_accessing_memory = true;
  memory_data_buffer = 0;
  partial_fwd_en = has_partial;
  partial_fwd_word = partial_word;
  partial_fwd_mask = partial_mask;
  cycles_remaining = if uses_cached_mem q then pos 0 else q.mem_latency;
  needs_mem_fill = not (uses_cached_mem q);
  awaiting_mem_resp = uses_cached_mem q;
  mem_req_sent = false;
}

abbrev pub start_load : Bool → LoadStoreQueue → LsqEntry → Scan → Bool → LsqEntry
start_load ba q ld st has_partial =
    if covers st.covered_mask (load_mask ba ld)
    then start_full_fwd ba q ld st.fwd_word
    else start_mem q ld st.fwd_word (and_mask st.covered_mask (load_mask ba ld)) has_partial

-- Without forwarding, an older store to the word, or to an unknown address, holds the load back.
unfoldable pub held_back : Bool → LsqEntry → List LsqEntry → Bool
held_back ba ld [] = false
held_back ba ld (e ∷ es) =
    (is_older_store ld e && (not e.addr_ready || same_word ba e.address ld.address))
    || held_back ba ld es

-- The entry of a load that starts, none if it has to wait.
unfoldable pub started : Bool → LoadStoreQueue → LsqEntry → Option LsqEntry
started ba q ld =
    let st = scan_queue ba ld scan_start q.queue in
    let st' = scan_buffer ba ld st.covered_mask st (sb_entries q) in
    let st'' =
      scan_buffer ba ld no_lanes
        (record st' { covered_mask = no_lanes; fwd_word = 0; any_overlap = false })
        (sb_entries q) in
    if st.blocked
    then none
    else if q.store_forwarding
    then some (start_load ba q ld st' st'.any_overlap)
    else if held_back ba ld q.queue
    then none
    else some (
        start_load ba q ld st''
          (st''.any_overlap && not (is_none (and_mask st''.covered_mask (load_mask ba ld)))))

-- The started entry goes back to its place.
abbrev pub put_started : LoadStoreQueue → ℕ → Option LsqEntry → Bool × LoadStoreQueue
put_started q id none = (false, q)
put_started q id (some ld) =
    (true, record q { queue = update_first (is_inst id) (λ e. ld) q.queue })

abbrev pub dispatch_found : Bool → LoadStoreQueue → ℕ → Option LsqEntry → Bool × LoadStoreQueue
dispatch_found ba q id none = (false, q)
dispatch_found ba q id (some ld) =
    if not ld.addr_ready || (ld.is_accessing_memory || ld.executed)
    then (false, q)
    else put_started q id (started ba q ld)

unfoldable pub dispatch_load : Bool → LoadStoreQueue → ℕ → Bool × LoadStoreQueue
dispatch_load ba q id = dispatch_found ba q id (find_first (is_inst id) q.queue)
