-- ===== src/DCache/Fills.antt =====
-- src/mem/dcache.cpp: requests to memory, the lines that come back, and the answers to the waiters of
-- a filled line. A failed assert is `none`.
use ooo_superscalar_risc_sim.Common.{
  ℕ, zero, suc, ◌+◌, ◌%◌, ◌^◌, Bool, true, false, not, ◌&&◌, ◌||◌, Option, none, some, List, [],
  ◌∷◌, ◌++◌, if◌then◌else◌, leb, ◌==◌, length, get_or, take, drop,
}
use ooo_superscalar_risc_sim.Common.Int.{ℤ, Word, index}
use ooo_superscalar_risc_sim.Common.Search.{find_index}
use ooo_superscalar_risc_sim.MemTypes.{DataMemResp}
use ooo_superscalar_risc_sim.DCache.Line.{apply_store_to_line, load_word_from_line}
use ooo_superscalar_risc_sim.DCache.State.{
  Waiter, Mshr, DCache, no_mshr, tag_of, way_at, put_way, put_mshr,
}
use ooo_superscalar_risc_sim.DCache.Pipes.{resp_of}

abbrev pub wants_wb : Mshr → Bool
wants_wb m = m.need_wb && (not m.wb_done && not m.wb_sent)

abbrev pub sends_wb : Mshr → Bool
sends_wb m = m.valid && wants_wb m

abbrev pub sends_fill : Mshr → Bool
sends_fill m = m.valid && (m.wb_done && not m.fill_sent)

abbrev pub or_else : Option ℕ → Option ℕ → Option ℕ
or_else (some i) o = some i
or_else none o = o

-- A write-back goes before any fill.
unfoldable pub pick_dram_mshr : DCache → Option ℕ
pick_dram_mshr d = or_else (find_index sends_wb d.mshrs) (find_index sends_fill d.mshrs)

abbrev pub is_some : Option ℕ → Bool
is_some none = false
is_some (some i) = true

-- One request to memory at a time.
unfoldable pub has_dram_req : DCache → Bool
has_dram_req d = not (is_some d.dram_mshr) && is_some (pick_dram_mshr d)

-- The entry that asks, or an entry that asks for nothing.
abbrev pub picked : DCache → Option ℕ → Mshr
picked d none = no_mshr
picked d (some i) = get_or d.mshrs i no_mshr

unfoldable pub dram_req_is_write : DCache → Bool
dram_req_is_write d = wants_wb (picked d (pick_dram_mshr d))

unfoldable pub dram_req_addr : DCache → Word
dram_req_addr d =
    let m = picked d (pick_dram_mshr d) in if wants_wb m then m.wb_addr else m.line_addr

unfoldable pub dram_req_data : DCache → List ℕ
dram_req_data d = let m = picked d (pick_dram_mshr d) in if wants_wb m then m.wb_data else []

abbrev pub id_or_zero : Option ℕ → ℕ
id_or_zero none = 0
id_or_zero (some i) = i

unfoldable pub dram_req_id : DCache → ℕ
dram_req_id d = id_or_zero (pick_dram_mshr d)

unfoldable pub accepted_at : Option ℕ → DCache → DCache
accepted_at none d = d
accepted_at (some i) d =
    let m = get_or d.mshrs i no_mshr in
    if wants_wb m
    then record (put_mshr i (record m { wb_sent = true }) d) {
      dram_mshr = some i;
      dram_is_wb = true;
    }
    else record (put_mshr i (record m { fill_sent = true }) d) {
      dram_mshr = some i;
      dram_is_wb = false;
    }

unfoldable pub dram_req_accepted : DCache → DCache
dram_req_accepted d = accepted_at (pick_dram_mshr d) d

abbrev pub is_at : Option ℕ → ℕ → Bool
is_at none i = false
is_at (some j) i = j == i

-- The assert wants at least a line.
unfoldable pub take_line : ℕ → Mshr → List ℕ → DCache → Option DCache
take_line i m bytes d =
    if leb d.line_bytes (length bytes)
    then some (put_mshr i (record m { line = take d.line_bytes bytes; fill_ready = true }) d)
    else none

-- The end of a write-back, or the line of a fill.
unfoldable pub resp_at : Option ℕ → List ℕ → DCache → Option DCache
resp_at none bytes d = some d
resp_at (some i) bytes d =
    let m = get_or d.mshrs i no_mshr in
    let idle = record d { dram_mshr = none; dram_is_wb = false } in
    if not m.valid
    then some d
    else if is_at d.dram_mshr i
    then (if d.dram_is_wb
        then some (put_mshr i (record m { wb_done = true }) idle)
        else take_line i m bytes idle)
    else if m.wb_sent && not m.wb_done
    then some (put_mshr i (record m { wb_done = true }) d)
    else take_line i m bytes d

unfoldable pub dram_resp : DCache → ℤ → List ℕ → Option DCache
dram_resp d mshr_idx bytes = resp_at (index mshr_idx (length d.mshrs)) bytes d

-- The stores among the waiters, in their order.
unfoldable pub merge_waiters : ℕ → List ℕ → List Waiter → List ℕ
merge_waiters line_bytes line [] = line
merge_waiters line_bytes line (w ∷ ws) =
    merge_waiters line_bytes
      (if w.req.write then apply_store_to_line line_bytes line w.req else line) ws

abbrev pub any_store : List Waiter → Bool
any_store [] = false
any_store (w ∷ ws) = w.req.write || any_store ws

unfoldable pub start_drain : ℕ → DCache → DCache
start_drain i d =
    record (put_mshr i (record (get_or d.mshrs i no_mshr) { draining = true; drain_idx = 0 }) d) {
      drain_mshr = elim d.drain_mshr [ some j ↦ some j | none ↦ some i ];
    }

unfoldable pub complete_fill : ℕ → DCache → DCache
complete_fill i d =
    let m = get_or d.mshrs i no_mshr in
    let filled = merge_waiters d.line_bytes m.line m.waiters in
    let way = way_at d m.set_no m.way_no in
    if not m.fill_ready || m.draining
    then d
    else start_drain i
        (record (put_way m.set_no m.way_no
          (record way {
            valid = true;
            reserved = false;
            tag = tag_of d m.line_addr;
            bytes = filled;
            dirty = any_store m.waiters;
            lru = d.lru_clock;
          })
          (put_mshr i (record m { fill_ready = false; drain_line = filled }) d)) {
            lru_clock = (d.lru_clock + 1) % 2 ^ 64;
          })

-- `n` entries from `i` on.
unfoldable pub complete_from : ℕ → ℕ → DCache → DCache
complete_from i zero d = d
complete_from i (suc n) d =
    let m = get_or d.mshrs i no_mshr in
    complete_from (i + 1) n (if m.valid && m.fill_ready then complete_fill i d else d)

-- The next waiter that was not dropped, and how many of the list are done with.
unfoldable pub next_waiter : ℕ → List Waiter → ℕ × Option Waiter
next_waiter k [] = (k, none)
next_waiter k (w ∷ ws) = elim w.drop [ true ↦ next_waiter (k + 1) ws | false ↦ (k + 1, some w) ]

unfoldable pub waiter_resp : ℕ → Mshr → Waiter → DataMemResp
waiter_resp line_bytes m w =
    resp_of w.req
      (if w.req.write then 0 else load_word_from_line line_bytes m.drain_line w.req.addr)

abbrev pub answers : ℕ → Mshr → Option Waiter → List DataMemResp
answers line_bytes m none = []
answers line_bytes m (some w) = waiter_resp line_bytes m w ∷ []

-- One answer of the entry that drains; the last one frees it.
unfoldable pub drain_entry : ℕ → DCache → DCache
drain_entry i d =
    let m = get_or d.mshrs i no_mshr in
    let (k, next) = next_waiter m.drain_idx (drop m.drain_idx m.waiters) in
    let done = leb (length m.waiters) k in
    if not m.valid || not m.draining
    then record d { drain_mshr = none }
    else record (put_mshr i (if done then no_mshr else record m { drain_idx = k }) d) {
      resp_q = d.resp_q ++ answers d.line_bytes m next;
      drain_mshr = if done then none else some i;
    }

abbrev pub is_draining : Mshr → Bool
is_draining m = m.valid && m.draining

unfoldable pub step_drain : DCache → DCache
step_drain d = elim d.drain_mshr [
  | some i ↦ drain_entry i d
  | none ↦ elim (find_index is_draining d.mshrs) [ some i ↦ drain_entry i d | none ↦ d ]
]
