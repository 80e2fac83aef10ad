-- ===== src/Processor/Stores.antt =====
-- src/processor.cpp: storeCommitPermissions and processStoreBuffer, by which the stores leave the
-- reorder buffer for the store buffer.
use ooo_superscalar_risc_sim.Common.{
  ℕ, zero, suc, ◌+◌, ◌%◌, Bool, true, false, ◌&&◌, Option, none, some, List, [], ◌∷◌, if◌then◌else◌,
  ◌==◌, min,
}
use ooo_superscalar_risc_sim.Common.Int.{ℤ, pos}
use ooo_superscalar_risc_sim.LoadStoreQueue.{update_first}
use ooo_superscalar_risc_sim.LoadStoreQueue.Memory.{enqueue_stores}
use ooo_superscalar_risc_sim.Processor.Info.{InstInfo}
use ooo_superscalar_risc_sim.Processor.{
  is_control, has_rob_id, find_inst_by_rob_id, rob_is_ready, rob_write, Core, completed_info,
}

-- What the loop does at one lane.
pub data Verdict : Type 0 where
  passes grants stops : Verdict

abbrev pub verdict_of : InstInfo → Bool → Verdict
verdict_of info true = if is_control info && info.mispredicted then stops else passes
verdict_of info false = if info.is_store then grants else stops

-- The slot of a lane.
abbrev pub lane_tag : Core → ℕ → ℤ
lane_tag c lane = pos ((c.rob.head + lane) % c.rob.capacity)

unfoldable pub lane_verdict : Core → ℕ → Option Verdict
lane_verdict c lane = elim (find_inst_by_rob_id c.inst_table (lane_tag c lane)) [
  | none ↦ some stops
  | some info ↦ elim (rob_is_ready c.rob (lane_tag c lane)) [
    | none ↦ none
    | some done ↦ some (verdict_of info done)
  ]
]

abbrev pub add_grant : ℤ → Verdict → Option (List ℤ) → Option (List ℤ)
add_grant tag passes rest = rest
add_grant tag grants none = none
add_grant tag grants (some tags) = some (tag ∷ tags)
add_grant tag stops rest = some []

-- The loop, with `n` lanes left.
unfoldable pub permissions_from : Core → ℕ → ℕ → Option (List ℤ)
permissions_from c lane zero = some []
permissions_from c lane (suc n) =
    let rest = permissions_from c (lane + 1) n in
    elim (lane_verdict c lane) [ none ↦ none | some v ↦ add_grant (lane_tag c lane) v rest ]

abbrev pub store_commit_permissions : Core → Option (List ℤ)
store_commit_permissions c =
    if c.rob.active_count == 0
    then some []
    else permissions_from c 0 (min c.width c.rob.active_count)

-- The stores that have left are done.
unfoldable pub finish_stores : Core → List ℤ → Option Core
finish_stores c [] = some c
finish_stores c (tag ∷ tags) = elim (rob_write c.rob tag 0) [
  | none ↦ none
  | some rob ↦
      finish_stores
        (record c {
          rob = rob;
          inst_table = update_first (has_rob_id tag) completed_info c.inst_table;
        })
        tags
]

unfoldable pub process_store_buffer : Bool → Core → Option Core
process_store_buffer byte_addressed c = elim (store_commit_permissions c) [
  | none ↦ none
  | some tags ↦
      let (done, lsq) = enqueue_stores byte_addressed c.lsq tags in
      finish_stores (record c { lsq = lsq }) done
]
