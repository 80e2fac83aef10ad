-- ===== src/LoadStoreQueue/Buffer.antt =====
-- The store buffer as a bounded first-in first-out queue of writes.
use native.Mathlib.Nat.{mod-add-mod}
use ooo_superscalar_risc_sim.Common.{
  ℕ, suc, ◌+◌, ◌-◌, ◌%◌, ◌≤◌, ◌<◌, ◌≡◌, ◌∙◌, refl, sym, ap, ap₂, subst, Bool, true, false, ◌&&◌,
  Option, none, some, List, [], ◌∷◌, ◌++◌, map, arith, if◌then◌else◌, ltb, ltb→lt, length, get_or,
  set, length-set,
}
use ooo_superscalar_risc_sim.Common.Circular.{window, length-window, window-set_end}
use ooo_superscalar_risc_sim.Common.Int.{ℤ, Word}
use ooo_superscalar_risc_sim.LoadStoreQueue.{
  LsqEntry, StoreBufferEntry, no_store, LoadStoreQueue, find_first, update_first, invalidated,
  sb_entries,
}
use ooo_superscalar_risc_sim.LoadStoreQueue.Lanes.{Mask, access_mask, store_wdata}
use ooo_superscalar_risc_sim.LoadStoreQueue.Memory.{
  is_store_of, buffer_entry, enqueue_store, ready_store, enqueue_from, enqueue_stores,
}

-- What an entry holds: whether it is in use and whether it has been sent to memory, and the address, data
-- and lanes of its write.
abbrev pub Write : Type 0
Write = Bool × Bool × Word × Word × Mask

abbrev pub write_of : StoreBufferEntry → Write
write_of s = (s.valid, s.issued, s.address, s.wdata, s.wstrb)

-- The write of a store that has just left the queue: it is still to be sent.
abbrev pub store_write : Bool → LsqEntry → Write
store_write ba e = (
  true,
  false,
  e.address,
  store_wdata ba e.store_data e.mem_size e.address,
  access_mask ba e.mem_size e.address,
)

-- The writes that wait, the oldest first.
abbrev pub pending : LoadStoreQueue → List Write
pending q = map write_of (sb_entries q)

pub record IsRing (q : LoadStoreQueue) : Type 0 where
  pub head_in : q.sb_head < length q.sb
  pub tail_at : q.sb_tail ≡ (q.sb_head + q.sb_count) % length q.sb
  pub fits : q.sb_count ≤ length q.sb

-- The store of the tag, if there is a port and room and its operands are known.
abbrev pub may_leave : ℕ → ℕ → List LsqEntry → List Write → ℤ → Option LsqEntry
may_leave cap ports es ws tag =
    if ltb 0 ports && ltb (length ws) cap
    then elim (find_first (is_store_of tag) es) [
      | none ↦ none
      | some e ↦ if e.addr_ready && e.data_ready then some e else none
    ]
    else none

-- The specification: the tags that complete, the queue and the writes after them, for a buffer of
-- `cap` writes. The stores leave in the order of the tags, up to the first that cannot.
abbrev pub leave :
    Bool → ℕ → ℕ → List LsqEntry → List Write → List ℤ → List ℤ × List LsqEntry × List Write
leave ba cap ports es ws [] = ([], es, ws)
leave ba cap ports es ws (tag ∷ tags) = elim (may_leave cap ports es ws tag) [
  | none ↦ ([], es, ws)
  | some e ↦
      let r =
        leave ba cap (ports - 1) (update_first (is_store_of tag) invalidated es)
          (ws ++ store_write ba e ∷ []) tags in
      (tag ∷ r.0, r.1, r.2)
]

map_append :
    (xs ys : List StoreBufferEntry) → map write_of (xs ++ ys) ≡ map write_of xs ++ map write_of ys
map_append [] ys = refl
map_append (x ∷ xs) ys = ap (λ t. write_of x ∷ t) (map_append xs ys)

length-map : (xs : List StoreBufferEntry) → length (map write_of xs) ≡ length xs
length-map [] = refl
length-map (x ∷ xs) = ap suc (length-map xs)

length-pending : (q : LoadStoreQueue) → length (pending q) ≡ q.sb_count
length-pending q =
    length-map (sb_entries q)
    ∙ length-window (λ i. get_or q.sb i no_store) (length q.sb) q.sb_head q.sb_count

module _ (ba : Bool) (q : LoadStoreQueue) (v : IsRing q) (room : q.sb_count < length q.sb) (tag : ℤ)
    (e : LsqEntry) where
  enqueue_store-IsRing : IsRing (enqueue_store ba q tag e)
  enqueue_store-IsRing =
      let same : length (enqueue_store ba q tag e).sb ≡ length q.sb = length-set q.sb q.sb_tail _ in
      record {
        head_in = omega (arith, same, v.head_in);
        tail_at =
            rw (same, v.tail_at)
              (mod-add-mod (q.sb_head + q.sb_count) (length q.sb) 1
                ∙ ap (λ t. t % length q.sb) (omega arith));
        fits = omega (arith, same, room);
      }

  pending-enqueue_store : pending (enqueue_store ba q tag e) ≡ pending q ++ store_write ba e ∷ []
  pending-enqueue_store =
      let at : ℕ = (q.sb_head + q.sb_count) % length q.sb in
      let new : StoreBufferEntry = record (buffer_entry ba e) {
        awaiting_mem_resp = (get_or q.sb q.sb_tail no_store).awaiting_mem_resp;
      } in
      ap
        (λ n.
          map write_of
            (window (λ k. get_or (set q.sb q.sb_tail new) k no_store) n q.sb_head (q.sb_count + 1)))
        (length-set q.sb q.sb_tail new)
      ∙ ap
          (λ t. map write_of (
            window (λ k. get_or (set q.sb t new) k no_store) (length q.sb) q.sb_head
              (q.sb_count + 1)))
          v.tail_at
      ∙ ap (map write_of) (window-set_end q.sb no_store new q.sb_head q.sb_count v.head_in room)
      ∙ map_append (sb_entries q) (new ∷ [])

-- Whatever stores may leave, the tags that complete, the entries left in the queue and the writes that
-- wait are those of the specification, and the buffer stays a ring.
abbrev pub Leaves : Bool → LoadStoreQueue → ℕ → List ℤ → List ℤ × LoadStoreQueue → Type 0
Leaves ba q ports tags (done, q') =
    ((done, q'.queue, pending q') ≡ leave ba (length q.sb) ports q.queue (pending q) tags)
    × IsRing q'

room_of :
    (q : LoadStoreQueue) (ports : ℕ) (tag : ℤ) (e : LsqEntry)
    → ready_store q ports tag ≡ some e
    → q.sb_count < length q.sb
room_of q ports tag e h = go (ltb 0 ports) (ltb q.sb_count (length q.sb)) refl h
  where
    found : Option LsqEntry
    found = elim (find_first (is_store_of tag) q.queue) [
      | none ↦ none
      | some e ↦ if e.addr_ready && e.data_ready then some e else none
    ]

    none≢some : none ≡ some e → ⊥
    none≢some h = subst (λ o. elim o [ none ↦ Unit | some z ↦ ⊥ ]) h tt

    go :
        (a b : Bool)
        → ltb q.sb_count (length q.sb) ≡ b
        → (if a && b then found else none) ≡ some e
        → q.sb_count < length q.sb
    go true true w h = ltb→lt q.sb_count (length q.sb) w
    go true false w h = absurd (none≢some h)
    go false b w h = absurd (none≢some h)

enqueue_from-Leaves :
    (ba : Bool) (tags : List ℤ) (ports : ℕ) (q : LoadStoreQueue)
    → IsRing q
    → Leaves ba q ports tags (enqueue_from ba q ports tags)
unfolding enqueue_from
enqueue_from-Leaves ba [] ports q v = (refl, v)
enqueue_from-Leaves ba (tag ∷ tags) ports q v =
    go (λ q1 ring. enqueue_from-Leaves ba tags (ports - 1) q1 ring) (ready_store q ports tag) refl
  where
    same : may_leave (length q.sb) ports q.queue (pending q) tag ≡ ready_store q ports tag
    same =
        ap
          (λ n.
            if ltb 0 ports && ltb n (length q.sb)
            then elim (find_first (is_store_of tag) q.queue) as (λ o. Option LsqEntry) [
              | none ↦ none
              | some e ↦ if e.addr_ready && e.data_ready then some e else none
            ]
            else none)
          (length-pending q)

    specified : Option LsqEntry → List ℤ × List LsqEntry × List Write
    specified o = elim o [
      | none ↦ ([], q.queue, pending q)
      | some e ↦
          let r =
            leave ba (length q.sb) (ports - 1) (update_first (is_store_of tag) invalidated q.queue)
              (pending q ++ store_write ba e ∷ []) tags in
          (tag ∷ r.0, r.1, r.2)
    ]

    go :
        ((q1 : LoadStoreQueue)
          → IsRing q1
          → Leaves ba q1 (ports - 1) tags (enqueue_from ba q1 (ports - 1) tags))
        → (o : Option LsqEntry) → ready_store q ports tag ≡ o
        → Leaves ba q ports (tag ∷ tags) (elim o [
          | none ↦ ([], q)
          | some e ↦
              let (done, q') = enqueue_from ba (enqueue_store ba q tag e) (ports - 1) tags in
              (tag ∷ done, q')
        ])
    go ih none h = (sym (ap specified (same ∙ h)), v)
    go ih (some e) h =
        let room : q.sb_count < length q.sb = room_of q ports tag e h in
        let (agree, ring) =
          ih (enqueue_store ba q tag e) (enqueue_store-IsRing ba q v room tag e) in
        (
          ap (λ (r : List ℤ × List LsqEntry × List Write). (tag ∷ r.0, r.1, r.2))
                (agree
                  ∙ ap₂
                      (λ n ws.
                        leave ba n (ports - 1) (update_first (is_store_of tag) invalidated q.queue)
                          ws tags)
                      (length-set q.sb q.sb_tail _) (pending-enqueue_store ba q v room tag e))
              ∙ sym (ap specified (same ∙ h)),
          ring,
        )

-- The stores that commit permits leave the queue for the buffer as in the specification: in commit
-- order, up to the first whose operands are not known, one to a memory port and while there is room;
-- each appends its write, in use and still to be sent, behind those that wait, which stay as they are
-- and in their order, and the buffer stays a ring.
pub enqueue_stores-Leaves :
    (ba : Bool) (q : LoadStoreQueue) (tags : List ℤ)
    → IsRing q
    → Leaves ba q q.max_mem_ports tags (enqueue_stores ba q tags)
enqueue_stores-Leaves ba q tags v = enqueue_from-Leaves ba tags q.max_mem_ports q v
