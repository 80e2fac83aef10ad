-- ===== src/LoadStoreQueue.antt =====
-- src/load_store_queue.cpp and include/load_store_queue.hpp: the entries of the queue and of the store
-- buffer, allocation, operands, release and squash. A latency and a countdown are an `int`; a failed
-- assert is `none`; printState is left out.
pub mod Lanes
pub mod Bytes
pub mod Forward
pub mod Memory
pub mod Cycle
pub mod Buffer
pub mod Arrival
pub mod Lanewise
pub mod Flags
pub mod Sources
pub mod Sight
pub mod Assemble
pub mod Reads
pub mod Starts
mod Tests
use ooo_superscalar_risc_sim.Common.{
  ℕ, zero, suc, ◌+◌, ◌-◌, ◌%◌, ◌^◌, Bool, true, false, not, ◌&&◌, ◌||◌, Option, none, some, List,
  [], ◌∷◌, ◌++◌, map, if◌then◌else◌, ltb, leb, ◌==◌, length, get_or, set, replicate,
}
use ooo_superscalar_risc_sim.Common.Circular.{window}
use ooo_superscalar_risc_sim.Common.Int.{ℤ, pos, negsuc, eq_ℤ, index, Word}
use ooo_superscalar_risc_sim.Types.{MemSize, word, MemSystem, cached}
use ooo_superscalar_risc_sim.LoadStoreQueue.Lanes.{Mask, no_lanes}

pub record LsqEntry : Type 0 where
  pub valid : Bool
  pub is_load : Bool
  pub inst_id : ℕ
  pub rob_id : ℤ
  pub age : ℕ
  pub mem_size : MemSize
  pub mem_unsigned : Bool
  pub addr_ready : Bool
  pub address : Word
  pub data_ready : Bool
  pub store_data : Word
  pub executed : Bool
  pub is_accessing_memory : Bool
  pub cycles_remaining : ℤ
  pub memory_data_buffer : Word
  pub needs_mem_fill : Bool
  pub partial_fwd_en : Bool
  pub partial_fwd_word : Word
  pub partial_fwd_mask : Mask
  pub awaiting_mem_resp : Bool
  pub mem_req_sent : Bool
  pub mem_cookie : ℕ
  pub cdb_wait : Bool

-- `LSQEntry{}`.
abbrev pub no_entry : LsqEntry
no_entry = record {
  valid = false;
  is_load = false;
  inst_id = 0;
  rob_id = negsuc 0;
  age = 0;
  mem_size = word;
  mem_unsigned = false;
  addr_ready = false;
  address = 0;
  data_ready = false;
  store_data = 0;
  executed = false;
  is_accessing_memory = false;
  cycles_remaining = pos 0;
  memory_data_buffer = 0;
  needs_mem_fill = false;
  partial_fwd_en = false;
  partial_fwd_word = 0;
  partial_fwd_mask = no_lanes;
  awaiting_mem_resp = false;
  mem_req_sent = false;
  mem_cookie = 0;
  cdb_wait = false;
}

pub record StoreBufferEntry : Type 0 where
  pub valid : Bool
  pub issued : Bool
  pub address : Word
  pub wdata : Word
  pub wstrb : Mask
  pub cycles_remaining : ℤ
  pub awaiting_mem_resp : Bool

-- `StoreBufferEntry{}`.
abbrev pub no_store : StoreBufferEntry
no_store = record {
  valid = false;
  issued = false;
  address = 0;
  wdata = 0;
  wstrb = no_lanes;
  cycles_remaining = pos 0;
  awaiting_mem_resp = false;
}

-- The capacities are the lengths of the two arrays. `memsys` is the kind of the memory system, if one
-- is set.
pub record LoadStoreQueue : Type 0 where
  pub queue : List LsqEntry
  pub num_cdb_ports : ℕ
  pub mem_latency : ℤ
  pub fwd_latency : ℤ
  pub store_forwarding : Bool
  pub max_mem_ports : ℕ
  pub sb : List StoreBufferEntry
  pub sb_head : ℕ
  pub sb_tail : ℕ
  pub sb_count : ℕ
  pub next_age : ℕ
  pub memsys : Option MemSystem

abbrev pub init : ℕ → ℕ → ℕ → ℤ → ℤ → Bool → ℕ → LoadStoreQueue
init size ports depth memory_latency forward_latency enable_forwarding max_memory_ports = record {
  queue = replicate size no_entry;
  num_cdb_ports = ports;
  mem_latency = memory_latency;
  fwd_latency = forward_latency;
  store_forwarding = enable_forwarding;
  max_mem_ports = max_memory_ports;
  sb = replicate (if ltb 0 depth then depth else 1) no_store;
  sb_head = 0;
  sb_tail = 0;
  sb_count = 0;
  next_age = 0;
  memsys = none;
}

abbrev pub is_cached : MemSystem → Bool
is_cached cached = true
is_cached _ = false

abbrev pub uses_cached_mem : LoadStoreQueue → Bool
uses_cached_mem q = elim q.memsys [ none ↦ false | some kind ↦ is_cached kind ]

-- The loops over the queue that act on the first entry they look for, and leave.
module _ {ℓ} {A : Type ℓ} where
  abbrev pub find_first : (A → Bool) → List A → Option A
  find_first p [] = none
  find_first p (x ∷ xs) = let rest = find_first p xs in if p x then some x else rest

  abbrev pub update_first : (A → Bool) → (A → A) → List A → List A
  update_first p f [] = []
  update_first p f (x ∷ xs) = let rest = update_first p f xs in if p x then f x ∷ xs else x ∷ rest

abbrev pub has_space : LoadStoreQueue → Bool
has_space q = elim (find_first (λ (e : LsqEntry). not e.valid) q.queue) [
  | none ↦ false
  | some e ↦ true
]

-- The age counter has 16 bits.
unfoldable pub allocate : LoadStoreQueue → ℕ → ℤ → Bool → MemSize → Bool → Bool × LoadStoreQueue
allocate q id rob_tag load size is_unsigned =
    let new : LsqEntry = record no_entry {
      valid = true;
      is_load = load;
      inst_id = id;
      rob_id = rob_tag;
      age = q.next_age;
      mem_size = size;
      mem_unsigned = is_unsigned;
    } in
    if has_space q
    then (
      true,
      record q {
        queue = update_first (λ (e : LsqEntry). not e.valid) (λ e. new) q.queue;
        next_age = (q.next_age + 1) % 2 ^ 16;
      },
    )
    else (false, q)

-- Is this the entry of the instruction?
abbrev pub is_inst : ℕ → LsqEntry → Bool
is_inst id e = e.valid && e.inst_id == id

unfoldable pub set_address : LoadStoreQueue → ℕ → Word → LoadStoreQueue
set_address q id addr = record q {
  queue =
      update_first (is_inst id) (λ (e : LsqEntry). record e { address = addr; addr_ready = true })
        q.queue;
}

unfoldable pub set_store_data : LoadStoreQueue → ℕ → Word → LoadStoreQueue
set_store_data q id value = record q {
  queue =
      update_first (λ (e : LsqEntry). is_inst id e && not e.is_load)
        (λ (e : LsqEntry). record e { store_data = value; data_ready = true }) q.queue;
}

abbrev pub invalidated : LsqEntry → LsqEntry
invalidated e = record e { valid = false }

unfoldable pub free_load : LoadStoreQueue → ℕ → LoadStoreQueue
free_load q id = record q {
  queue = update_first (λ (e : LsqEntry). is_inst id e && e.is_load) invalidated q.queue;
}

unfoldable pub squash_entries : List ℕ → List LsqEntry → List LsqEntry
squash_entries [] es = es
squash_entries (id ∷ ids) es = squash_entries ids (update_first (is_inst id) invalidated es)

abbrev pub squash_inst_ids : LoadStoreQueue → List ℕ → LoadStoreQueue
squash_inst_ids q ids = record q { queue = squash_entries ids q.queue }

abbrev pub flush_speculative : LoadStoreQueue → LoadStoreQueue
flush_speculative q = record q { queue = map invalidated q.queue }

unfoldable pub all_free : List LsqEntry → Bool
all_free [] = true
all_free (e ∷ es) = not e.valid && all_free es

abbrev pub is_drained : LoadStoreQueue → Bool
is_drained q = all_free q.queue && q.sb_count == 0

abbrev pub store_buf_occupancy : LoadStoreQueue → ℕ
store_buf_occupancy q = q.sb_count

-- The store buffer from head to tail.
abbrev pub sb_entries : LoadStoreQueue → List StoreBufferEntry
sb_entries q = window (λ i. get_or q.sb i no_store) (length q.sb) q.sb_head q.sb_count
