-- ===== src/LoadStoreQueue/Assemble.antt =====
-- How a load's word is put together from forwarded bytes and memory.
use ooo_superscalar_risc_sim.Common.{
  ℕ, ◌≡◌, ◌∙◌, refl, sym, subst, arith, Bool, true, false, not, ◌&&◌, ◌||◌, List, [], ◌∷◌,
  if◌then◌else◌, if_lem,
}
use ooo_superscalar_risc_sim.Common.Int.{Word}
use ooo_superscalar_risc_sim.LoadStoreQueue.{
  LsqEntry, StoreBufferEntry, LoadStoreQueue, uses_cached_mem,
}
use ooo_superscalar_risc_sim.LoadStoreQueue.Lanes.{
  Lane, Mask, at_lane, byte_at, and_mask, is_none, covers, merge_bytes, load_extend,
}
use ooo_superscalar_risc_sim.LoadStoreQueue.Bytes.{byte_at-merge_bytes}
use ooo_superscalar_risc_sim.LoadStoreQueue.Forward.{
  Scan, scan_store, scan_queue, scan_entry, scan_buffer, is_older_store, overlap_of, store_overlap,
  entry_wdata, load_mask, loaded, start_full_fwd, start_mem, start_load,
}
use ooo_superscalar_risc_sim.LoadStoreQueue.Flags.{
  at_lane-and_mask, at_lane-covers, flags-forward_lanes, any_overlap-buffer_lanes,
}

pub true≢false : true ≡ false → ⊥
true≢false h = ground arith

-- Unless an overlap is noted no lane is covered.
abbrev pub Marked : Scan → Type 0
Marked st = st.any_overlap ≡ false → (c : Lane) → at_lane c st.covered_mask ≡ false

module _ (ba : Bool) (ld : LsqEntry) where
  pub scan_queue-Marked :
      (es : List LsqEntry) (st : Scan) → Marked st → Marked (scan_queue ba ld st es)
  unfolding scan_queue scan_store
  scan_queue-Marked [] st h = h
  scan_queue-Marked (e ∷ es) st h = scan_queue-Marked es (scan_store ba ld st e) (
      if_lem Marked (not (is_older_store ld e)) h (
        if_lem Marked (not e.addr_ready || not e.data_ready) h (
          if_lem Marked (is_none (store_overlap ba ld e)) h (λ n. absurd (
            ground (
              arith,
              (flags-forward_lanes (store_overlap ba ld e) e.inst_id (entry_wdata ba e)
                  (record st { any_overlap = true })).0,
            ))))))

  pub scan_buffer-Marked :
      (cover : Mask) (ss : List StoreBufferEntry) (st : Scan)
      → Marked st
      → Marked (scan_buffer ba ld cover st ss)
  unfolding scan_buffer scan_entry
  scan_buffer-Marked cover [] st h = h
  scan_buffer-Marked cover (s ∷ ss) st h =
      scan_buffer-Marked cover ss (scan_entry ba ld cover st s) (
        if_lem Marked (not s.valid) h (
          if_lem Marked (is_none (overlap_of ba ld s.address s.wstrb)) h (λ n. absurd (
            ground (
              arith,
              any_overlap-buffer_lanes cover (overlap_of ba ld s.address s.wstrb) s.wdata
                  (record st { any_overlap = true }),
            )))))

-- The value that the entry ends with if memory holds `m` in its word.
abbrev pub final_data : Bool → Word → LsqEntry → Word
final_data ba m e =
    if e.needs_mem_fill || e.awaiting_mem_resp then loaded ba e m else e.memory_data_buffer

-- The entry ends with the value of a word whose bytes, in the lanes of the load, are the ones seen.
abbrev pub Delivers : Bool → LsqEntry → Word → (Lane → ℕ → Type 0) → LsqEntry → Type 0
Delivers ba ld m S ld' =
    (w : Word) × (final_data ba m ld' ≡ load_extend ba w ld.mem_size ld.mem_unsigned ld.address)
    × ((c : Lane) → at_lane c (load_mask ba ld) ≡ true → S c (byte_at c w))

module _ (ba : Bool) (q : LoadStoreQueue) (ld : LsqEntry) (m : Word) (S : Lane → ℕ → Type 0)
    (st : Scan)
    (known : (c : Lane)
      → (at_lane c st.covered_mask ≡ true → S c (byte_at c st.fwd_word))
        × (at_lane c st.covered_mask ≡ false → S c (byte_at c m))) where
  -- The word that the load puts together if memory gives `m`.
  assembled : Bool → Word
  assembled has_partial =
      if has_partial
      then merge_bytes m st.fwd_word (and_mask st.covered_mask (load_mask ba ld))
      else m

  final_data-start_mem :
      (has_partial : Bool)
      → final_data ba m
          (start_mem q ld st.fwd_word (and_mask st.covered_mask (load_mask ba ld)) has_partial)
        ≡ load_extend ba (assembled has_partial) ld.mem_size ld.mem_unsigned ld.address
  unfolding assembled
  final_data-start_mem has_partial = go (uses_cached_mem q)
    where
      go : (u : Bool) {x : Word} → (if not u || u then x else 0) ≡ x
      go true = refl
      go false = refl

  byte_at-assembled :
      (has_partial : Bool)
      → (has_partial ≡ false
          → (c : Lane) → at_lane c (load_mask ba ld) ≡ true
          → at_lane c st.covered_mask ≡ false)
      → (c : Lane) → at_lane c (load_mask ba ld) ≡ true
      → S c (byte_at c (assembled has_partial))
  unfolding assembled
  byte_at-assembled false bare c inside = (known c).1 (bare refl c inside)
  byte_at-assembled true bare c inside =
      subst (S c)
        (sym (
          byte_at-merge_bytes c m st.fwd_word (and_mask st.covered_mask (load_mask ba ld))
          ∙ rw (at_lane-and_mask c st.covered_mask (load_mask ba ld), inside) refl))
        (go (at_lane c st.covered_mask) refl)
    where
      go :
          (cov : Bool)
          → at_lane c st.covered_mask ≡ cov
          → S c (if cov && true then byte_at c st.fwd_word else byte_at c m)
      go true e = (known c).0 e
      go false e = (known c).1 e

  pub start_load-Delivers :
      (has_partial : Bool)
      → (has_partial ≡ false
          → (c : Lane) → at_lane c (load_mask ba ld) ≡ true
          → at_lane c st.covered_mask ≡ false)
      → Delivers ba ld m S (start_load ba q ld st has_partial)
  start_load-Delivers has_partial bare = go (covers st.covered_mask (load_mask ba ld)) refl
    where
      mask : Mask
      mask = and_mask st.covered_mask (load_mask ba ld)

      go :
          (full : Bool)
          → covers st.covered_mask (load_mask ba ld) ≡ full
          → Delivers ba ld m S (
              if full
              then start_full_fwd ba q ld st.fwd_word
              else start_mem q ld st.fwd_word mask has_partial)
      go true e = (
        st.fwd_word,
        refl,
        λ c inside. (known c).0 (at_lane-covers c st.covered_mask (load_mask ba ld) e inside),
      )
      go false e = (
        assembled has_partial,
        final_data-start_mem has_partial,
        byte_at-assembled has_partial bare,
      )
