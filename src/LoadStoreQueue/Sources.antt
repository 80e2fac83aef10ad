-- ===== src/LoadStoreQueue/Sources.antt =====
-- Where the byte of a lane comes from: the scans of `dispatchLoad` against the youngest older store
-- and against the store buffer written in order.
use ooo_superscalar_risc_sim.Common.{
  ℕ, ◌≡◌, inl, inr, ◌∙◌, refl, sym, subst, arith, Bool, true, false, not, ◌&&◌, ◌||◌, Option, none,
  some, List, [], ◌∷◌, if◌then◌else◌, ltb, if_lem, Bool-cases,
}
use ooo_superscalar_risc_sim.LoadStoreQueue.{LsqEntry, StoreBufferEntry}
use ooo_superscalar_risc_sim.LoadStoreQueue.Lanes.{Lane, Mask, at_lane, byte_at, is_none}
use ooo_superscalar_risc_sim.LoadStoreQueue.Forward.{
  Scan, forward_lanes, buffer_lanes, scan_store, scan_queue, scan_entry, scan_buffer,
  is_older_store, overlap_of, store_overlap, entry_wdata,
}
use ooo_superscalar_risc_sim.LoadStoreQueue.Flags.{at_lane-is_none, flags-forward_lanes}
use ooo_superscalar_risc_sim.LoadStoreQueue.Lanewise.{
  View, view, forwarded, buffered, view-forward_lanes, view-buffer_lanes,
}

module _ (ba : Bool) (ld : LsqEntry) (c : Lane) where
  -- Is the entry an older store that writes the lane?
  abbrev pub provides : LsqEntry → Bool
  provides e = is_older_store ld e && at_lane c (store_overlap ba ld e)

  abbrev pub newer : LsqEntry → Option LsqEntry → Bool
  newer e none = true
  newer e (some a) = ltb a.inst_id e.inst_id

  abbrev pub chosen : Option LsqEntry → LsqEntry → Option LsqEntry
  chosen acc e = if provides e && newer e acc then some e else acc

  -- The youngest of them, the first among equals.
  abbrev pub youngest : Option LsqEntry → List LsqEntry → Option LsqEntry
  youngest acc [] = acc
  youngest acc (e ∷ es) = youngest (chosen acc e) es

  abbrev pub Holds : View → Option LsqEntry → Type 0
  Holds (cov, old, age) none = cov ≡ false
  Holds (cov, old, age) (some e) =
      (cov ≡ true) × (old ≡ byte_at c (entry_wdata ba e)) × (age ≡ e.inst_id)

  view-scan_store :
      (st : Scan) (e : LsqEntry)
      → (scan_store ba ld st e).blocked ≡ false
      → view c (scan_store ba ld st e)
        ≡ forwarded (provides e) (byte_at c (entry_wdata ba e)) e.inst_id (view c st)
  unfolding scan_store
  view-scan_store st e =
      go (is_older_store ld e) (not e.addr_ready || not e.data_ready)
        (is_none (store_overlap ba ld e)) refl
    where
      taken : Scan
      taken =
          forward_lanes (store_overlap ba ld e) e.inst_id (entry_wdata ba e)
            (record st { any_overlap = true })

      go :
          (old unready none_set : Bool)
          → is_none (store_overlap ba ld e) ≡ none_set
          → (if not old
              then st
              else if unready
              then record st { blocked = true }
              else if none_set
              then st
              else taken).blocked
            ≡ false
          → view c (
              if not old
              then st
              else if unready
              then record st { blocked = true }
              else if none_set
              then st
              else taken)
            ≡ forwarded
                (old && at_lane c (store_overlap ba ld e))
                (byte_at c (entry_wdata ba e))
                e.inst_id
                (view c st)
      go false u n h free = refl
      go true true n h free = absurd (ground arith)
      go true false true h free = rw (at_lane-is_none c (store_overlap ba ld e) h) refl
      go true false false h free =
          view-forward_lanes (store_overlap ba ld e) e.inst_id (entry_wdata ba e) c
            (record st { any_overlap = true })

  forwarded-Holds :
      (v : View) (acc : Option LsqEntry) (e : LsqEntry)
      → Holds v acc
      → Holds (forwarded (provides e) (byte_at c (entry_wdata ba e)) e.inst_id v) (chosen acc e)
  forwarded-Holds (cov, old, age) acc e h = go (provides e) acc h
    where
      go :
          (p : Bool) (acc : Option LsqEntry)
          → Holds (cov, old, age) acc
          → Holds
              (forwarded p (byte_at c (entry_wdata ba e)) e.inst_id (cov, old, age))
              (if p && newer e acc then some e else acc)
      go false acc h = h
      go true none h = rw h (refl, refl, refl)
      go true (some a) (full, same, at_age) = rw (full, at_age) (newest (ltb a.inst_id e.inst_id))
        where
          newest :
              (n : Bool)
              → Holds
                  (if n
                    then (true, byte_at c (entry_wdata ba e), e.inst_id)
                    else (true, old, a.inst_id))
                  (if n then some e else some a)
          newest true = (refl, refl, refl)
          newest false = (refl, same, refl)

  blocked_step :
      (st : Scan) (e : LsqEntry) → st.blocked ≡ true → (scan_store ba ld st e).blocked ≡ true
  unfolding scan_store
  blocked_step st e h =
      if_lem (λ (t : Scan). t.blocked ≡ true) (not (is_older_store ld e)) h
        (if_lem (λ (t : Scan). t.blocked ≡ true) (not e.addr_ready || not e.data_ready) refl
          (if_lem (λ (t : Scan). t.blocked ≡ true) (is_none (store_overlap ba ld e)) h
            ((flags-forward_lanes (store_overlap ba ld e) e.inst_id (entry_wdata ba e)
                (record st { any_overlap = true })).1
              ∙ h)))

  blocked_scan :
      (es : List LsqEntry) (st : Scan) → st.blocked ≡ true → (scan_queue ba ld st es).blocked ≡ true
  unfolding scan_queue
  blocked_scan [] st h = h
  blocked_scan (e ∷ es) st h = blocked_scan es (scan_store ba ld st e) (blocked_step st e h)

  -- A scan that is not blocked has the byte of the youngest older store that writes the lane.
  pub scan_queue-Holds :
      (es : List LsqEntry) (st : Scan) (acc : Option LsqEntry)
      → Holds (view c st) acc
      → (scan_queue ba ld st es).blocked ≡ false
      → Holds (view c (scan_queue ba ld st es)) (youngest acc es)
  unfolding scan_queue
  scan_queue-Holds [] st acc h free = h
  scan_queue-Holds (e ∷ es) st acc h free = elim (Bool-cases (scan_store ba ld st e).blocked) [
    | inl b ↦ absurd (ground (arith, blocked_scan es (scan_store ba ld st e) b))
    | inr b ↦
        scan_queue-Holds es (scan_store ba ld st e) (chosen acc e)
          (subst (λ v. Holds v (chosen acc e)) (sym (view-scan_store st e b))
            (forwarded-Holds (view c st) acc e h))
          free
  ]

  -- Does the entry of the store buffer write the lane?
  abbrev pub writes : StoreBufferEntry → Bool
  writes s = s.valid && at_lane c (overlap_of ba ld s.address s.wstrb)

  -- The byte of the lane in memory after the entries are written, the first first.
  abbrev pub written : List StoreBufferEntry → ℕ → ℕ
  written [] m = m
  written (s ∷ ss) m = written ss (if writes s then byte_at c s.wdata else m)

  pub view-scan_entry :
      (cover : Mask) (st : Scan) (s : StoreBufferEntry)
      → view c (scan_entry ba ld cover st s)
        ≡ buffered (writes s && not (at_lane c cover)) (byte_at c s.wdata) (view c st)
  unfolding scan_entry
  view-scan_entry cover st s = go s.valid (is_none (overlap_of ba ld s.address s.wstrb)) refl
    where
      overlap : Mask
      overlap = overlap_of ba ld s.address s.wstrb

      go :
          (v n : Bool)
          → is_none overlap ≡ n
          → view c (
              if not v
              then st
              else if n
              then st
              else buffer_lanes cover overlap s.wdata (record st { any_overlap = true }))
            ≡ buffered
                ((v && at_lane c overlap) && not (at_lane c cover))
                (byte_at c s.wdata)
                (view c st)
      go false n h = refl
      go true true h = rw (at_lane-is_none c overlap h) refl
      go true false h = view-buffer_lanes cover overlap s.wdata c (record st { any_overlap = true })

  -- What the scan of the buffer knows of the lane, `m` being the byte in memory and `b` the byte after
  -- the entries so far.
  abbrev pub Tracks : ℕ → View → ℕ → Type 0
  Tracks m (cov, old, age) b = (cov ≡ true → old ≡ b) × (cov ≡ false → b ≡ m)

  pub scan_buffer-Tracks :
      (cover : Mask) (m : ℕ)
      → at_lane c cover ≡ false
      → (ss : List StoreBufferEntry) (st : Scan) (b : ℕ) → Tracks m (view c st) b
      → Tracks m (view c (scan_buffer ba ld cover st ss)) (written ss b)
  unfolding scan_buffer
  scan_buffer-Tracks cover m bare [] st b h = h
  scan_buffer-Tracks cover m bare (s ∷ ss) st b h =
      scan_buffer-Tracks cover m bare ss (scan_entry ba ld cover st s)
        (if writes s then byte_at c s.wdata else b)
        (subst (λ v. Tracks m v (if writes s then byte_at c s.wdata else b))
          (sym (view-scan_entry cover st s)) (rw bare (go (writes s))))
    where
      go :
          (w : Bool)
          → Tracks m
              (buffered (w && true) (byte_at c s.wdata) (view c st))
              (if w then byte_at c s.wdata else b)
      go true = (λ _. refl, λ e. absurd (ground arith))
      go false = h

  -- A lane that the queue covers stays as it is.
  pub kept_scan :
      (cover : Mask)
      → at_lane c cover ≡ true
      → (ss : List StoreBufferEntry) (st : Scan)
      → view c (scan_buffer ba ld cover st ss) ≡ view c st
  unfolding scan_buffer
  kept_scan cover full [] st = refl
  kept_scan cover full (s ∷ ss) st =
      kept_scan cover full ss (scan_entry ba ld cover st s)
      ∙ view-scan_entry cover st s
      ∙ rw full (go (writes s))
    where
      go : (w : Bool) → buffered (w && false) (byte_at c s.wdata) (view c st) ≡ view c st
      go true = refl
      go false = refl
