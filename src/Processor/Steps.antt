-- ===== src/Processor/Steps.antt =====
-- The step that moves stores from the reorder buffer and the queue to the store buffer.
use ooo_superscalar_risc_sim.LoadStoreQueue.Buffer.{IsRing, Leaves, enqueue_stores-Leaves}
use ooo_superscalar_risc_sim.Common.{
  Bool, ℕ, ◌-◌, ◌≡◌, ◌∙◌, sym, ap, subst, Option, none, some, List, [], ◌∷◌,
}
use ooo_superscalar_risc_sim.Common.Int.{ℤ}
use ooo_superscalar_risc_sim.LoadStoreQueue.{LsqEntry, LoadStoreQueue}
use ooo_superscalar_risc_sim.LoadStoreQueue.Memory.{
  enqueue_store, ready_store, enqueue_from, enqueue_stores,
}
use ooo_superscalar_risc_sim.Rob.Invariant.{slot, IsValid}
use ooo_superscalar_risc_sim.Processor.{Core}
use ooo_superscalar_risc_sim.Processor.Stores.{
  store_commit_permissions, finish_stores, process_store_buffer,
}
use ooo_superscalar_risc_sim.Processor.Loop.{AllIn}
use ooo_superscalar_risc_sim.Processor.Permitted.{store_commit_permissions-AllIn}
use ooo_superscalar_risc_sim.Processor.Finish.{done_after, finish_stores-Finished}

-- The stores that leave are among those that may.
enqueue_from-AllIn :
    (byte_addressed : Bool) (slots : ℕ) (tags : List ℤ) (ports : ℕ) (q : LoadStoreQueue)
    → AllIn slots tags
    → AllIn slots (enqueue_from byte_addressed q ports tags).0
unfolding enqueue_from
enqueue_from-AllIn ba slots [] ports q a = tt
enqueue_from-AllIn ba slots (tag ∷ tags) ports q (here, a) =
    go (ready_store q ports tag)
      (λ e. enqueue_from-AllIn ba slots tags (ports - 1) (enqueue_store ba q tag e) a)
  where
    go :
        (o : Option LsqEntry)
        → ((e : LsqEntry)
            → AllIn slots (enqueue_from ba (enqueue_store ba q tag e) (ports - 1) tags).0)
        → let r : List ℤ × LoadStoreQueue = elim o [
          | none ↦ ([], q)
          | some e ↦
              let (done, q') = enqueue_from ba (enqueue_store ba q tag e) (ports - 1) tags in
              (tag ∷ done, q')
        ] in
          AllIn slots r.0
    go none ih = tt
    go (some e) ih = (here, ih e)

-- What the step of the store buffer does: the stores that may leave, as the permissions say, leave the
-- queue for the buffer as the specification of the buffer says; exactly the slots in flight of those that
-- left become done, and no other slot.
abbrev pub Processed : Bool → Core → Option Core → Type 0
Processed ba c o =
    (tags : List ℤ) × (left : List ℤ) × (c' : Core) × (store_commit_permissions c ≡ some tags)
    × (o ≡ some c')
    × Leaves ba c.lsq c.lsq.max_mem_ports tags (left, c'.lsq)
    × IsValid c'.rob
    × ((i : ℕ) → (slot c'.rob i).done ≡ done_after c.rob left i)

-- On a valid reorder buffer and store buffer, the step succeeds: of the stores that have the permission,
-- those leave the queue that the specification of the store buffer lets leave, with their writes; exactly
-- the slots in flight of those that left become done, and no other slot; and both buffers stay valid.
pub process_store_buffer_refines :
    (byte_addressed : Bool) (c : Core)
    → IsValid c.rob
    → IsRing c.lsq
    → Processed byte_addressed c (process_store_buffer byte_addressed c)
unfolding process_store_buffer
process_store_buffer_refines ba c v ring =
    let (tags, found, a) = store_commit_permissions-AllIn c v in
    let out : List ℤ × LoadStoreQueue = enqueue_stores ba c.lsq tags in
    let (c', ends, valid, kept, marked) =
      finish_stores-Finished (record c { lsq = out.1 }) out.0 v
        (enqueue_from-AllIn ba c.rob.capacity tags c.lsq.max_mem_ports c.lsq a) in
    (
      tags,
      out.0,
      c',
      found,
      ap
            (λ (o : Option (List ℤ)). elim o [
              | none ↦ none
              | some ts ↦
                  let (gone, lsq) = enqueue_stores ba c.lsq ts in
                  finish_stores (record c { lsq = lsq }) gone
            ])
            found
          ∙ ends,
      subst (λ q. Leaves ba c.lsq c.lsq.max_mem_ports tags (out.0, q)) (sym kept)
          (enqueue_stores-Leaves ba c.lsq tags ring),
      valid,
      marked,
    )
