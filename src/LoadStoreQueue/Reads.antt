-- ===== src/LoadStoreQueue/Reads.antt =====
-- `dispatchLoad`: what the loads that start read.
use ooo_superscalar_risc_sim.Common.{
  ℕ, ◌≡◌, inl, inr, ◌∙◌, refl, sym, ap, subst, arith, Bool, true, false, not, ◌&&◌, ◌||◌, Option,
  none, some, List, [], ◌∷◌, if◌then◌else◌, if_lem,
}
use ooo_superscalar_risc_sim.Common.Int.{Word}
use ooo_superscalar_risc_sim.LoadStoreQueue.{
  LsqEntry, LoadStoreQueue, sb_entries, find_first, update_first, is_inst,
}
use ooo_superscalar_risc_sim.LoadStoreQueue.Lanes.{
  Lane, b0, b1, b2, b3, Mask, no_lanes, at_lane, byte_at, and_mask, is_none, access_mask, same_word,
}
use ooo_superscalar_risc_sim.LoadStoreQueue.Forward.{
  Scan, scan_start, scan_queue, scan_buffer, is_older_store, load_mask, start_load, held_back,
  started, put_started, dispatch_found, dispatch_load,
}
use ooo_superscalar_risc_sim.LoadStoreQueue.Flags.{at_lane-and_mask, at_lane-is_none}
use ooo_superscalar_risc_sim.LoadStoreQueue.Lanewise.{View, view}
use ooo_superscalar_risc_sim.LoadStoreQueue.Sources.{
  youngest, Holds, scan_queue-Holds, scan_buffer-Tracks, kept_scan,
}
use ooo_superscalar_risc_sim.LoadStoreQueue.Sight.{Seen, NoneProvides, Best, youngest_lem}
use ooo_superscalar_risc_sim.LoadStoreQueue.Assemble.{
  true≢false, scan_queue-Marked, scan_buffer-Marked, Delivers, start_load-Delivers,
}

at_no_lanes : (c : Lane) → at_lane c no_lanes ≡ false
at_no_lanes b0 = refl
at_no_lanes b1 = refl
at_no_lanes b2 = refl
at_no_lanes b3 = refl

-- What is seen in a lane with the queue and the store buffer as they are.
abbrev pub InOrder : Bool → LoadStoreQueue → LsqEntry → Word → Lane → ℕ → Type 0
InOrder ba q ld m c b = Seen ba ld c q.queue (sb_entries q) (byte_at c m) b

module _ (ba : Bool) (q : LoadStoreQueue) (ld : LsqEntry) (m : Word) where
  scanned : Scan
  scanned = scan_queue ba ld scan_start q.queue

  buffered_scan : Scan
  buffered_scan = scan_buffer ba ld scanned.covered_mask scanned (sb_entries q)

  -- The lanes after both scans.
  forward_known :
      scanned.blocked ≡ false
      → (c : Lane)
      → (at_lane c buffered_scan.covered_mask ≡ true
          → InOrder ba q ld m c (byte_at c buffered_scan.fwd_word))
        × (at_lane c buffered_scan.covered_mask ≡ false → InOrder ba q ld m c (byte_at c m))
  unfolding scanned buffered_scan
  forward_known free c =
      go (youngest ba ld c none q.queue) (youngest_lem ba ld c q.queue none)
        (scan_queue-Holds ba ld c q.queue scan_start none (at_no_lanes c) free)
    where
      go :
          (r : Option LsqEntry)
          → Best ba ld c none q.queue r
          → Holds ba ld c (view c scanned) r
          → (at_lane c buffered_scan.covered_mask ≡ true
              → InOrder ba q ld m c (byte_at c buffered_scan.fwd_word))
            × (at_lane c buffered_scan.covered_mask ≡ false → InOrder ba q ld m c (byte_at c m))
      go (some y) (inl h, young, below) held = absurd (none≢some h)
        where
          none≢some : none ≡ some y → ⊥
          none≢some h = subst (λ o. elim o [ none ↦ Unit | some z ↦ ⊥ ]) h tt
      go (some y) (inr (i, g), young, below) (full, same, at_age) =
          let kept : view c buffered_scan ≡ view c scanned =
            kept_scan ba ld c scanned.covered_mask full (sb_entries q) scanned in
          (
            λ t. inl (y, i, g, young, ap (λ (v : View). v.1) kept ∙ same),
            λ t. absurd (true≢false (sym (ap (λ (v : View). v.0) kept ∙ full) ∙ t)),
          )
      go none (e, lone) cov =
          let (hit, miss) =
            scan_buffer-Tracks ba ld c scanned.covered_mask (byte_at c m) cov (sb_entries q) scanned
              (byte_at c m) ((λ t. absurd (ground arith)), λ t. refl) in
          (λ t. inr (lone, hit t), λ t. inr (lone, sym (miss t)))

  -- The scan of the buffer alone, for a load that does not look at the queue.
  fallback_scan : Scan
  fallback_scan =
      scan_buffer ba ld no_lanes
        (record buffered_scan { covered_mask = no_lanes; fwd_word = 0; any_overlap = false })
        (sb_entries q)

  none_held : (c : Lane) (es : List LsqEntry) → held_back ba ld es ≡ false → NoneProvides ba ld c es
  unfolding held_back
  none_held c [] h = tt
  none_held c (e ∷ es) h = (
    apart (is_older_store ld e) (not e.addr_ready) (same_word ba e.address ld.address) h,
    none_held c es (ground arith),
  )
    where
      apart :
          (old unready same : Bool)
          → ((old && (unready || same)) || held_back ba ld es) ≡ false
          → (old
              && at_lane c (
                  if same
                  then and_mask (access_mask ba e.mem_size e.address) (load_mask ba ld)
                  else no_lanes))
            ≡ false
      apart false u s h = refl
      apart true u false h = at_no_lanes c
      apart true true true h = absurd (true≢false h)
      apart true false true h = absurd (true≢false h)

  fallback_known :
      held_back ba ld q.queue ≡ false
      → (c : Lane)
      → (at_lane c fallback_scan.covered_mask ≡ true
          → InOrder ba q ld m c (byte_at c fallback_scan.fwd_word))
        × (at_lane c fallback_scan.covered_mask ≡ false → InOrder ba q ld m c (byte_at c m))
  unfolding fallback_scan
  fallback_known held c =
      let lone : NoneProvides ba ld c q.queue = none_held c q.queue held in
      let fresh : Scan = record buffered_scan {
        covered_mask = no_lanes;
        fwd_word = 0;
        any_overlap = false;
      } in
      let (hit, miss) =
        scan_buffer-Tracks ba ld c no_lanes (byte_at c m) (at_no_lanes c) (sb_entries q) fresh
          (byte_at c m) ((λ t. absurd (true≢false (sym t ∙ at_no_lanes c))), λ t. refl) in
      (λ t. inr (lone, hit t), λ t. inr (lone, sym (miss t)))

  Right : Option LsqEntry → Type 0
  Right none = Unit
  Right (some ld') = Delivers ba ld m (InOrder ba q ld m) ld'

  -- Whatever memory holds, a load that starts delivers, in each of its lanes, the byte in program order.
  started-Right : Right (started ba q ld)
  unfolding Right started scanned buffered_scan fallback_scan
  started-Right = go scanned.blocked refl q.store_forwarding (held_back ba ld q.queue) refl
    where
      mask : Mask
      mask = load_mask ba ld

      has_partial : Bool
      has_partial =
          fallback_scan.any_overlap && not (is_none (and_mask fallback_scan.covered_mask mask))

      lean :
          (a n : Bool)
          → fallback_scan.any_overlap ≡ a
          → is_none (and_mask fallback_scan.covered_mask mask) ≡ n
          → (a && not n) ≡ false
          → (c : Lane) → at_lane c mask ≡ true
          → at_lane c fallback_scan.covered_mask ≡ false
      lean false n ha hn e c inside =
          scan_buffer-Marked ba ld no_lanes (sb_entries q)
            (record buffered_scan { covered_mask = no_lanes; fwd_word = 0; any_overlap = false })
            (λ _. at_no_lanes) ha c
      lean true true ha hn e c inside = both (at_lane c fallback_scan.covered_mask) (
          sym (at_lane-and_mask c fallback_scan.covered_mask mask)
          ∙ at_lane-is_none c (and_mask fallback_scan.covered_mask mask) hn)
        where
          both : (x : Bool) → (x && at_lane c mask) ≡ false → x ≡ false
          both true h = absurd (true≢false (sym inside ∙ h))
          both false h = refl
      lean true false ha hn e c inside = absurd (true≢false e)

      go :
          (b : Bool)
          → scanned.blocked ≡ b
          → (f h : Bool) → held_back ba ld q.queue ≡ h
          → Right (
              if b
              then none
              else if f
              then some (start_load ba q ld buffered_scan buffered_scan.any_overlap)
              else if h
              then none
              else some (start_load ba q ld fallback_scan has_partial))
      go true hb f h hh = tt
      go false hb true h hh =
          start_load-Delivers ba q ld m (InOrder ba q ld m) buffered_scan (forward_known hb)
            buffered_scan.any_overlap
            (λ e c inside.
              scan_buffer-Marked ba ld scanned.covered_mask (sb_entries q) scanned
                (scan_queue-Marked ba ld q.queue scan_start (λ _. at_no_lanes)) e c)
      go false hb false true hh = tt
      go false hb false false hh =
          start_load-Delivers ba q ld m (InOrder ba q ld m) fallback_scan (fallback_known hh)
            has_partial
            (lean fallback_scan.any_overlap (is_none (and_mask fallback_scan.covered_mask mask))
              refl refl)

-- What `dispatchLoad` does, the word of memory being `m`.
abbrev pub Dispatched : Bool → LoadStoreQueue → ℕ → Word → Bool × LoadStoreQueue → Type 0
Dispatched ba q id m (false, q') = q' ≡ q
Dispatched ba q id m (true, q') =
    (ld : LsqEntry) × (ld' : LsqEntry) × (find_first (is_inst id) q.queue ≡ some ld)
    × (q' ≡ record q { queue = update_first (is_inst id) (λ e. ld') q.queue })
    × Delivers ba ld m (InOrder ba q ld m) ld'

-- A load that starts ends with the value, extended as it asks, of a word that holds in each byte of the
-- access: the byte of the youngest older store in the queue that writes it; or, if no older store does,
-- the byte that memory has after the store buffer is written in order. That holds with forwarding and
-- without, and whatever memory holds in the word. A load that does not start changes nothing.
pub dispatch_load-Dispatched :
    (ba : Bool) (q : LoadStoreQueue) (id : ℕ) (m : Word)
    → Dispatched ba q id m (dispatch_load ba q id)
unfolding dispatch_load Right
dispatch_load-Dispatched ba q id m = go (find_first (is_inst id) q.queue) refl
  where
    go :
        (o : Option LsqEntry)
        → find_first (is_inst id) q.queue ≡ o
        → Dispatched ba q id m (dispatch_found ba q id o)
    go none h = refl
    go (some ld) h =
        if_lem (Dispatched ba q id m) (not ld.addr_ready || (ld.is_accessing_memory || ld.executed))
          refl (starts (started ba q ld) (started-Right ba q ld m))
      where
        starts :
            (r : Option LsqEntry) → Right ba q ld m r → Dispatched ba q id m (put_started q id r)
        starts none t = refl
        starts (some ld') d = (ld, ld', h, refl, d)
