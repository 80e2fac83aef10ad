-- ===== src/LoadStoreQueue/Memory.antt =====
-- src/load_store_queue.cpp: the way to memory: enqueueStores, issueMemoryRequests, tick and
-- applyDataResps. `tryDataReq` of the memory system that is set is a parameter; `MainMemory` is an
-- argument of `tick`, which gives it back.
use ooo_superscalar_risc_sim.Common.{
  ℕ, zero, suc, ◌+◌, ◌-◌, ◌%◌, ◌^◌, Bool, true, false, not, ◌&&◌, ◌||◌, Option, none, some, List,
  [], ◌∷◌, if◌then◌else◌, ltb, length, get_or, set,
}
use ooo_superscalar_risc_sim.Common.Int.{ℤ, pos, eq_ℤ}
use ooo_superscalar_risc_sim.MemTypes.{DataMemReq, default_req}
use ooo_superscalar_risc_sim.LoadStoreQueue.{
  LsqEntry, no_entry, StoreBufferEntry, no_store, LoadStoreQueue, find_first, update_first,
  invalidated, uses_cached_mem,
}
use ooo_superscalar_risc_sim.LoadStoreQueue.Lanes.{access_mask, store_wdata, to_memsys_addr}

-- The store of a reorder buffer tag.
abbrev pub is_store_of : ℤ → LsqEntry → Bool
is_store_of tag e = e.valid && (not e.is_load && eq_ℤ e.rob_id tag)

abbrev pub buffer_entry : Bool → LsqEntry → StoreBufferEntry
buffer_entry ba e = record no_store {
  valid = true;
  address = e.address;
  wdata = store_wdata ba e.store_data e.mem_size e.address;
  wstrb = access_mask ba e.mem_size e.address;
}

-- The store of the entry moves to the tail of the buffer. The write-acknowledge flag of the slot is not
-- written.
abbrev pub enqueue_store : Bool → LoadStoreQueue → ℤ → LsqEntry → LoadStoreQueue
enqueue_store ba q tag e = record q {
  sb = set q.sb q.sb_tail (record (buffer_entry ba e) {
    awaiting_mem_resp = (get_or q.sb q.sb_tail no_store).awaiting_mem_resp;
  });
  sb_tail = (q.sb_tail + 1) % length q.sb;
  sb_count = q.sb_count + 1;
  queue = update_first (is_store_of tag) invalidated q.queue;
}

-- The store of a tag that can leave the queue now: there is a port and room, and its operands are known.
abbrev pub ready_store : LoadStoreQueue → ℕ → ℤ → Option LsqEntry
ready_store q ports tag =
    if ltb 0 ports && ltb q.sb_count (length q.sb)
    then elim (find_first (is_store_of tag) q.queue) [
      | none ↦ none
      | some e ↦ if e.addr_ready && e.data_ready then some e else none
    ]
    else none

-- The tags that complete, with `ports` ports left.
unfoldable pub enqueue_from : Bool → LoadStoreQueue → ℕ → List ℤ → List ℤ × LoadStoreQueue
enqueue_from ba q ports [] = ([], q)
enqueue_from ba q ports (tag ∷ tags) = elim (ready_store q ports tag) [
  | none ↦ ([], q)
  | some e ↦
      let (done, q') = enqueue_from ba (enqueue_store ba q tag e) (ports - 1) tags in
      (tag ∷ done, q')
]

abbrev pub enqueue_stores : Bool → LoadStoreQueue → List ℤ → List ℤ × LoadStoreQueue
enqueue_stores ba q tags = enqueue_from ba q q.max_mem_ports tags

-- `ageBefore`, on 16-bit ages.
abbrev pub age_before : ℕ → ℕ → Bool
age_before a b = ltb ((b + 2 ^ 16 - a) % 2 ^ 16) (2 ^ 15)

abbrev pub age_at : List LsqEntry → ℕ → ℕ
age_at es i = (get_or es i no_entry).age

unfoldable pub insert_by_age : List LsqEntry → ℕ → List ℕ → List ℕ
insert_by_age es i [] = i ∷ []
insert_by_age es i (j ∷ js) =
    let rest = insert_by_age es i js in
    if age_before (age_at es j) (age_at es i) then j ∷ rest else i ∷ j ∷ js

-- The indices in the order that `std::sort` gives them if no two entries have the same age.
unfoldable pub sort_by_age : List LsqEntry → List ℕ → List ℕ
sort_by_age es [] = []
sort_by_age es (i ∷ is) = insert_by_age es i (sort_by_age es is)

unfoldable pub indices_from : (LsqEntry → Bool) → ℕ → List LsqEntry → List ℕ
indices_from p i [] = []
indices_from p i (e ∷ es) = let rest = indices_from p (i + 1) es in if p e then i ∷ rest else rest

module _ {M : Type 0} (try_data_req : M → DataMemReq → Bool × M) (ba : Bool) where
  abbrev pub store_req : LoadStoreQueue → ℕ → StoreBufferEntry → DataMemReq
  store_req q i e = record default_req {
    write = true;
    addr = to_memsys_addr ba e.address;
    wdata = e.wdata;
    wstrb = e.wstrb;
    id = pos (length q.queue + i);
  }

  abbrev pub sent_store : StoreBufferEntry → StoreBufferEntry
  sent_store e = record e { issued = true; awaiting_mem_resp = true }

  abbrev pub timed_store : ℤ → StoreBufferEntry → StoreBufferEntry
  timed_store latency e = record e { issued = true; cycles_remaining = latency }

  -- `n` entries of the buffer from place `s` on, with `ports` ports left; gives the ports left.
  unfoldable pub issue_stores : ℕ → ℕ → ℕ → LoadStoreQueue → M → ℕ × LoadStoreQueue × M
  issue_stores zero s ports q mem = (ports, q, mem)
  issue_stores (suc n) s ports q mem =
      let i = (q.sb_head + s) % length q.sb in
      let e = get_or q.sb i no_store in
      elim (ltb 0 ports) [
        | false ↦ (ports, q, mem)
        | true ↦ elim (not e.valid || e.issued) [
          | true ↦ issue_stores n (s + 1) ports q mem
          | false ↦ elim (uses_cached_mem q) [
            | false ↦
                issue_stores n (s + 1) (ports - 1)
                  (record q { sb = set q.sb i (timed_store q.mem_latency e) }) mem
            | true ↦
                let (taken, mem') = try_data_req mem (store_req q i e) in
                elim taken [
                  | false ↦ (ports, q, mem')
                  | true ↦
                      issue_stores n (s + 1) (ports - 1)
                        (record q { sb = set q.sb i (sent_store e) }) mem'
                ]
          ]
        ]
      ]

  abbrev pub wants_memory : LsqEntry → Bool
  wants_memory e = e.valid && (e.is_load && (e.awaiting_mem_resp && not e.mem_req_sent))

  abbrev pub load_req : ℕ → LsqEntry → DataMemReq
  load_req i e = record default_req {
    addr = to_memsys_addr ba e.address;
    id = pos i;
    cookie = e.inst_id;
  }

  abbrev pub sent_load : LsqEntry → LsqEntry
  sent_load e = record e { mem_req_sent = true; mem_cookie = e.inst_id }

  unfoldable pub issue_loads : List ℕ → ℕ → LoadStoreQueue → M → LoadStoreQueue × M
  issue_loads [] ports q mem = (q, mem)
  issue_loads (i ∷ is) ports q mem =
      let e = get_or q.queue i no_entry in
      elim (ltb 0 ports) [
        | false ↦ (q, mem)
        | true ↦
            let (taken, mem') = try_data_req mem (load_req i e) in
            elim taken [
              | false ↦ (q, mem')
              | true ↦
                  issue_loads is (ports - 1) (record q { queue = set q.queue i (sent_load e) }) mem'
            ]
      ]

  unfoldable pub issue_memory_requests : LoadStoreQueue → M → LoadStoreQueue × M
  issue_memory_requests q mem =
      let (ports, q', mem') = issue_stores q.sb_count 0 q.max_mem_ports q mem in
      if uses_cached_mem q
      then issue_loads (sort_by_age q'.queue (indices_from wants_memory 0 q'.queue)) ports q' mem'
      else (q', mem')
