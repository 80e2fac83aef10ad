-- ===== src/LoadStoreQueue/Starts.antt =====
-- `dispatchLoad`: which loads start.
use ooo_superscalar_risc_sim.Common.{
  ℕ, ◌≡◌, ◌∙◌, refl, ap, arith, Bool, true, false, not, ◌&&◌, ◌||◌, Option, none, some, List, [],
  ◌∷◌, if◌then◌else◌,
}
use ooo_superscalar_risc_sim.LoadStoreQueue.{LsqEntry, LoadStoreQueue, find_first, is_inst}
use ooo_superscalar_risc_sim.LoadStoreQueue.Lanes.{is_none, same_word}
use ooo_superscalar_risc_sim.LoadStoreQueue.Forward.{
  Scan, scan_start, scan_store, scan_queue, forward_lanes, is_older_store, store_overlap,
  entry_wdata, held_back, started, put_started, dispatch_found, dispatch_load,
}
use ooo_superscalar_risc_sim.LoadStoreQueue.Flags.{flags-forward_lanes}

-- Are the address and the data of every older store known?
abbrev pub all_known : LsqEntry → List LsqEntry → Bool
all_known ld [] = true
all_known ld (e ∷ es) =
    (not (is_older_store ld e) || (e.addr_ready && e.data_ready)) && all_known ld es

-- No older store goes to the load's word, or to an unknown address.
abbrev pub word_free : Bool → LsqEntry → List LsqEntry → Bool
word_free ba ld [] = true
word_free ba ld (e ∷ es) =
    (not (is_older_store ld e) || (e.addr_ready && not (same_word ba e.address ld.address)))
    && word_free ba ld es

abbrev pub may_start : Bool → LoadStoreQueue → LsqEntry → Bool
may_start ba q ld =
    (ld.addr_ready && not (ld.is_accessing_memory || ld.executed))
    && (all_known ld q.queue && (q.store_forwarding || word_free ba ld q.queue))

blocked-scan_store :
    (ba : Bool) (ld : LsqEntry) (st : Scan) (e : LsqEntry)
    → (scan_store ba ld st e).blocked
      ≡ st.blocked || not (not (is_older_store ld e) || (e.addr_ready && e.data_ready))
unfolding scan_store
blocked-scan_store ba ld st e =
    go (is_older_store ld e) e.addr_ready e.data_ready (is_none (store_overlap ba ld e))
  where
    taken : Scan
    taken =
        forward_lanes (store_overlap ba ld e) e.inst_id (entry_wdata ba e)
          (record st { any_overlap = true })

    keep : (x : Bool) → x ≡ x || false
    keep x = ground arith

    go :
        (old a d n : Bool)
        → (if not old
            then st
            else if not a || not d
            then record st { blocked = true }
            else if n
            then st
            else taken).blocked
          ≡ st.blocked || not (not old || (a && d))
    go false a d n = keep st.blocked
    go true false d n = ground arith
    go true true false n = ground arith
    go true true true true = keep st.blocked
    go true true true false =
        (flags-forward_lanes (store_overlap ba ld e) e.inst_id (entry_wdata ba e)
          (record st { any_overlap = true })).1
        ∙ keep st.blocked

blocked-scan_queue :
    (ba : Bool) (ld : LsqEntry) (es : List LsqEntry) (st : Scan)
    → (scan_queue ba ld st es).blocked ≡ st.blocked || not (all_known ld es)
unfolding scan_queue
blocked-scan_queue ba ld [] st = ground arith
blocked-scan_queue ba ld (e ∷ es) st =
    blocked-scan_queue ba ld es (scan_store ba ld st e)
    ∙ ap (λ t. t || not (all_known ld es)) (blocked-scan_store ba ld st e)
    ∙ regroup st.blocked (not (is_older_store ld e) || (e.addr_ready && e.data_ready))
        (all_known ld es)
  where
    regroup : (x y z : Bool) → (x || not y) || not z ≡ x || not (y && z)
    regroup true y z = refl
    regroup false true z = refl
    regroup false false z = refl

word_free-held_back :
    (ba : Bool) (ld : LsqEntry) (es : List LsqEntry) → not (held_back ba ld es) ≡ word_free ba ld es
unfolding held_back
word_free-held_back ba ld [] = refl
word_free-held_back ba ld (e ∷ es) =
    split (is_older_store ld e) e.addr_ready (same_word ba e.address ld.address)
      (held_back ba ld es)
    ∙ ap
        (λ t.
          (not (is_older_store ld e) || (e.addr_ready && not (same_word ba e.address ld.address)))
          && t)
        (word_free-held_back ba ld es)
  where
    split :
        (old a s h : Bool) → not ((old && (not a || s)) || h) ≡ (not old || (a && not s)) && not h
    split old a s h = ground arith

-- A load starts exactly when it is in the queue with its address, has not started, the address and the
-- data of every older store are known, and, without forwarding, no older store goes to its word.
pub dispatch_load-may_start :
    (ba : Bool) (q : LoadStoreQueue) (id : ℕ)
    → (dispatch_load ba q id).0
      ≡ elim (find_first (is_inst id) q.queue) [ none ↦ false | some ld ↦ may_start ba q ld ]
unfolding dispatch_load started
dispatch_load-may_start ba q id = go (find_first (is_inst id) q.queue)
  where
    is_some : Option LsqEntry → Bool
    is_some none = false
    is_some (some ld) = true

    is_some-started :
        (ld : LsqEntry)
        → is_some (started ba q ld)
          ≡ all_known ld q.queue && (q.store_forwarding || not (held_back ba ld q.queue))
    is_some-started ld =
        rw (blocked-scan_queue ba ld q.queue scan_start)
          (cases (all_known ld q.queue) q.store_forwarding (held_back ba ld q.queue) _ _)
      where
        cases :
            (k f h : Bool) (x y : LsqEntry)
            → is_some (if not k then none else if f then some x else if h then none else some y)
              ≡ k && (f || not h)
        cases false f h x y = refl
        cases true true h x y = refl
        cases true false true x y = refl
        cases true false false x y = refl

    begins :
        (ld : LsqEntry) (a z : Bool) (r : Option LsqEntry)
        → is_some r ≡ all_known ld q.queue && (q.store_forwarding || word_free ba ld q.queue)
        → (if not a || z then (false, q) else put_started q id r).0
          ≡ (a && not z)
            && (all_known ld q.queue && (q.store_forwarding || word_free ba ld q.queue))
    begins ld false z r e = refl
    begins ld true true r e = refl
    begins ld true false none e = e
    begins ld true false (some x) e = e

    go :
        (o : Option LsqEntry)
        → (dispatch_found ba q id o).0 ≡ elim o [ none ↦ false | some ld ↦ may_start ba q ld ]
    go none = refl
    go (some ld) =
        begins ld ld.addr_ready (ld.is_accessing_memory || ld.executed) (started ba q ld) (
          is_some-started ld
          ∙ ap (λ t. all_known ld q.queue && (q.store_forwarding || t))
              (word_free-held_back ba ld q.queue))
