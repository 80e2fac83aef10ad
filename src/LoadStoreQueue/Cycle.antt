-- ===== src/LoadStoreQueue/Cycle.antt =====
-- src/load_store_queue.cpp: the cycle of the queue (tick), the responses of the memory system
-- (applyDataResps) and the queue's side of the common data bus.
use ooo_superscalar_risc_sim.Common.{
  ℕ, zero, suc, ◌+◌, ◌-◌, ◌%◌, Bool, true, false, not, ◌&&◌, ◌||◌, Option, none, some, List, [],
  ◌∷◌, map, if◌then◌else◌, ltb, ◌==◌, length, get_or, set, ◌>>=◌,
}
use ooo_superscalar_risc_sim.Common.Int.{ℤ, pos, negsuc, eq_ℤ, index, Word}
use ooo_superscalar_risc_sim.Cdb.{CdbProducer, no_producer}
use ooo_superscalar_risc_sim.Engine.Bus.{valid_only}
use ooo_superscalar_risc_sim.MemTypes.{DataMemReq, DataMemResp}
use ooo_superscalar_risc_sim.LoadStoreQueue.{
  LsqEntry, no_entry, StoreBufferEntry, no_store, LoadStoreQueue, uses_cached_mem,
}
use ooo_superscalar_risc_sim.LoadStoreQueue.Lanes.{mem_read_word, mem_write_masked}
use ooo_superscalar_risc_sim.LoadStoreQueue.Forward.{loaded}
use ooo_superscalar_risc_sim.LoadStoreQueue.Memory.{
  issue_memory_requests, sort_by_age, indices_from,
}

-- `if (v > 0) v--;`
abbrev pub count_down : ℤ → ℤ
count_down (pos zero) = pos zero
count_down (pos (suc n)) = pos n
count_down (negsuc n) = negsuc n

abbrev pub is_zero : ℤ → Bool
is_zero v = eq_ℤ v (pos 0)

abbrev pub is_negative : ℤ → Bool
is_negative (pos n) = false
is_negative (negsuc n) = true

abbrev pub in_access : LsqEntry → Bool
in_access e = e.valid && (e.is_load && e.is_accessing_memory)

-- A load that has counted down reads memory.
abbrev pub fill : Bool → List Word → LsqEntry → LsqEntry
fill ba memory e =
    if is_zero e.cycles_remaining && (e.needs_mem_fill && not e.executed)
    then record e {
      memory_data_buffer = loaded ba e (mem_read_word ba memory e.address);
      needs_mem_fill = false;
      partial_fwd_en = false;
    }
    else e

abbrev pub counted : LsqEntry → LsqEntry
counted e = record e { cycles_remaining = count_down e.cycles_remaining }

-- The loop over the loads, without a cached memory; the assert wants no negative countdown.
unfoldable pub tick_loads : Bool → List Word → List LsqEntry → Option (List LsqEntry)
tick_loads ba memory [] = some []
tick_loads ba memory (e ∷ es) = tick_loads ba memory es >>= (λ rest.
    if not (in_access e)
    then some (e ∷ rest)
    else if is_negative e.cycles_remaining
    then none
    else some (fill ba memory (counted e) ∷ rest))

-- With a cached memory, only the delay of forwarding is counted.
abbrev pub tick_forward : LsqEntry → LsqEntry
tick_forward e =
    if in_access e && not (e.awaiting_mem_resp || e.cdb_wait)
    then elim e.cycles_remaining [
      | pos zero ↦ e
      | pos (suc n) ↦ record e {
        cycles_remaining = pos n;
        cdb_wait = if n == 0 then true else e.cdb_wait;
      }
      | negsuc n ↦ e
    ]
    else e

-- The issued stores of the buffer count down and, at zero, write memory and leave: `n` entries from
-- place `s` on.
unfoldable pub drain_stores : Bool → ℕ → ℕ → LoadStoreQueue → List Word → LoadStoreQueue × List Word
drain_stores ba zero s q memory = (q, memory)
drain_stores ba (suc n) s q memory =
    let i = (q.sb_head + s) % length q.sb in
    let e = get_or q.sb i no_store in
    let left = count_down e.cycles_remaining in
    elim (e.valid && e.issued) [
      | false ↦ drain_stores ba n (s + 1) q memory
      | true ↦ elim (is_zero left) [
        | true ↦
            drain_stores ba n (s + 1) (record q { sb = set q.sb i no_store })
              (mem_write_masked ba memory e.address e.wdata e.wstrb)
        | false ↦
            drain_stores ba n (s + 1)
              (record q { sb = set q.sb i (record e { cycles_remaining = left }) }) memory
      ]
    ]

-- The head leaves the empty entries behind; the loop has as many turns as the buffer has entries.
unfoldable pub pop_empty : ℕ → LoadStoreQueue → LoadStoreQueue
pop_empty zero q = q
pop_empty (suc n) q = elim (q.sb_count == 0 || (get_or q.sb q.sb_head no_store).valid) [
  | true ↦ q
  | false ↦
      pop_empty n (record q { sb_head = (q.sb_head + 1) % length q.sb; sb_count = q.sb_count - 1 })
]

module _ {M : Type 0} (try_data_req : M → DataMemReq → Bool × M) (ba : Bool) where
  unfoldable pub tick : LoadStoreQueue → List Word → M → Option (LoadStoreQueue × List Word × M)
  tick q memory mem =
      (if uses_cached_mem q then some (map tick_forward q.queue) else tick_loads ba memory q.queue)
      >>= (λ es.
          let (q', mem') = issue_memory_requests try_data_req ba (record q { queue = es }) mem in
          let (q'', memory') =
            if uses_cached_mem q then (q', memory) else drain_stores ba q'.sb_count 0 q' memory in
          some (pop_empty (length q.sb) q'', memory', mem'))

-- A load takes the response to the request that it has sent, and to no other.
abbrev pub take_resp : Bool → DataMemResp → LsqEntry → LsqEntry
take_resp ba r e =
    if (e.valid && (e.is_load && (e.awaiting_mem_resp && e.mem_req_sent)))
      && r.cookie == e.mem_cookie
    then record e {
      memory_data_buffer = loaded ba e r.rdata;
      awaiting_mem_resp = false;
      mem_req_sent = false;
      partial_fwd_en = false;
      needs_mem_fill = false;
      cycles_remaining = pos 0;
      cdb_wait = true;
    }
    else e

abbrev pub acknowledge : StoreBufferEntry → StoreBufferEntry
acknowledge e = if e.valid && e.awaiting_mem_resp then no_store else e

-- The identifier names an entry of the queue, or above those one of the store buffer.
unfoldable pub apply_data_resp : Bool → LoadStoreQueue → DataMemResp → LoadStoreQueue
apply_data_resp ba q r = elim (index r.id (length q.queue + length q.sb)) [
  | none ↦ q
  | some i ↦
      if ltb i (length q.queue)
      then record q { queue = set q.queue i (take_resp ba r (get_or q.queue i no_entry)) }
      else let k = i - length q.queue in
        record q { sb = set q.sb k (acknowledge (get_or q.sb k no_store)) }
]

unfoldable pub apply_data_resps : Bool → LoadStoreQueue → List DataMemResp → LoadStoreQueue
apply_data_resps ba q [] = q
apply_data_resps ba q (r ∷ rs) = apply_data_resps ba (apply_data_resp ba q r) rs

abbrev pub promoted : LsqEntry → LsqEntry
promoted e = if e.valid && (e.is_load && e.cdb_wait) then record e { cdb_wait = false } else e

abbrev pub promote_cdb_waits : LoadStoreQueue → LoadStoreQueue
promote_cdb_waits q = record q { queue = map promoted q.queue }

abbrev pub offers : LsqEntry → Bool
offers e =
    in_access e
    && (is_zero e.cycles_remaining
        && (not e.executed
            && (not e.needs_mem_fill && (not e.awaiting_mem_resp && not e.cdb_wait))))

abbrev pub offer_of : List LsqEntry → ℕ → CdbProducer
offer_of es i = record {
  valid = true;
  rob_id = (get_or es i no_entry).rob_id;
  value = (get_or es i no_entry).memory_data_buffer;
  source = 1;
  slot = pos i;
}

-- `n` lanes, the first of them for the indices.
unfoldable pub fill_lanes : List LsqEntry → ℕ → List ℕ → List CdbProducer
fill_lanes es zero is = []
fill_lanes es (suc n) [] = record no_producer { source = 1 } ∷ fill_lanes es n []
fill_lanes es (suc n) (i ∷ is) = offer_of es i ∷ fill_lanes es n is

abbrev pub collect_producers_fixed : LoadStoreQueue → List CdbProducer
collect_producers_fixed q =
    fill_lanes q.queue q.num_cdb_ports (sort_by_age q.queue (indices_from offers 0 q.queue))

abbrev pub collect_producers : LoadStoreQueue → List CdbProducer
collect_producers q = valid_only (collect_producers_fixed q)

-- The assert wants an index in range; an entry that a squash has emptied is let be.
unfoldable pub release_slot : LoadStoreQueue → ℤ → Option LoadStoreQueue
release_slot q slot = elim (index slot (length q.queue)) [
  | none ↦ none
  | some i ↦
      let e = get_or q.queue i no_entry in
      some (
        if e.valid && e.is_load
        then record q {
          queue = set q.queue i (record e { executed = true; is_accessing_memory = false });
        }
        else q)
]
