-- ===== src/DCache/Filled.antt =====
-- What loads read from a line once the stores that waited for it are merged in.
use ooo_superscalar_risc_sim.Common.{
  ℕ, ◌+◌, ◌<◌, ◌≡◌, ◌∙◌, refl, sym, ap, subst, ◌/◌, ◌^◌, arith, true, false, not, ◌&&◌, ◌||◌, List,
  [], ◌∷◌, if◌then◌else◌, ◌==◌, length, get_or, set, get_or-set_self, length-set, if_lem,
  Bool-cases, inl, inr,
}
use native.Mathlib.Nat.{mod-lt}
use ooo_superscalar_risc_sim.Common.Int.{Word}
use ooo_superscalar_risc_sim.LoadStoreQueue.Lanes.{
  Lane, b0, b1, b2, b3, at_lane, shift_of, merge_bytes,
}
use ooo_superscalar_risc_sim.MemTypes.{DataMemReq}
use ooo_superscalar_risc_sim.DCache.Fills.{
  merge_waiters, start_drain, complete_fill, any_store, waiter_resp,
}
use ooo_superscalar_risc_sim.DCache.Line.{
  word_offset, store_lane, apply_store_to_line, load_word_from_line, lane_no,
}
use ooo_superscalar_risc_sim.DCache.Pipes.{resp_of}
use ooo_superscalar_risc_sim.DCache.Plain.{way_at-put_way}
use ooo_superscalar_risc_sim.DCache.State.{
  Way, Waiter, Mshr, DCache, no_mshr, ways_of, way_at, put_way, put_mshr, tag_of,
}
use ooo_superscalar_risc_sim.DCache.Words.{
  IsLine, bytes, length-store_lane, get_or-store_lane, load_word-apply_store,
}

module _ (k : ℕ) where
  store_lane-IsLine :
      (r : DataMemReq) (b : Lane) (line : List ℕ)
      → IsLine (bytes k) line
      → IsLine (bytes k) (store_lane (bytes k) r b line)
  store_lane-IsLine r b line (h, small) = (
    length-store_lane k r b line ∙ h,
    λ j.
        subst (λ (t : ℕ). t < 256) (sym (get_or-store_lane k r b line j h))
          (if_lem (λ (t : ℕ). t < 256)
            (at_lane b r.wstrb && word_offset (bytes k) r.addr + lane_no b == j)
            (mod-lt (r.wdata / 2 ^ shift_of b) (omega arith)) (small j)),
  )

  apply_store-IsLine :
      (r : DataMemReq) (line : List ℕ)
      → IsLine (bytes k) line
      → IsLine (bytes k) (apply_store_to_line (bytes k) line r)
  unfolding apply_store_to_line
  apply_store-IsLine r line h =
      store_lane-IsLine r b3 _
        (store_lane-IsLine r b2 _ (store_lane-IsLine r b1 _ (store_lane-IsLine r b0 line h)))

  -- A word after the stores among the waiters, each merged into it in turn if it is to that word.
  abbrev pub word_after : List Waiter → Word → Word → Word
  word_after [] addr w = w
  word_after (x ∷ xs) addr w = word_after xs addr (
      if x.req.write && word_offset (bytes k) x.req.addr == word_offset (bytes k) addr
      then merge_bytes w x.req.wdata x.req.wstrb
      else w)

  one_waiter :
      (x : Waiter) (line : List ℕ) (addr : Word)
      → IsLine (bytes k) line
      → load_word_from_line
          (bytes k)
          (if x.req.write then apply_store_to_line (bytes k) line x.req else line)
          addr
        ≡ (if x.req.write && word_offset (bytes k) x.req.addr == word_offset (bytes k) addr
            then merge_bytes (load_word_from_line (bytes k) line addr) x.req.wdata x.req.wstrb
            else load_word_from_line (bytes k) line addr)
  one_waiter x line addr h = elim (Bool-cases x.req.write) [
    | inl e ↦ simp e (load_word-apply_store k x.req line addr h)
    | inr e ↦ simp e refl
  ]

  load_word-merge_waiters :
      (ws : List Waiter) (line : List ℕ) (addr : Word)
      → IsLine (bytes k) line
      → load_word_from_line (bytes k) (merge_waiters (bytes k) line ws) addr
        ≡ word_after ws addr (load_word_from_line (bytes k) line addr)
  unfolding merge_waiters
  load_word-merge_waiters [] line addr h = refl
  load_word-merge_waiters (x ∷ xs) line addr h =
      load_word-merge_waiters xs
        (if x.req.write then apply_store_to_line (bytes k) line x.req else line) addr
        (if_lem (IsLine (bytes k)) x.req.write (apply_store-IsLine x.req line h) h)
      ∙ ap (word_after xs addr) (one_waiter x line addr h)

-- For lines of a power of two bytes, at least four: when a line has come, the way that was reserved for
-- it is valid, no longer reserved, has the tag of the line, is dirty exactly if a store waited, and holds
-- each word of the line with the waiting stores merged in, in the order in which they came. The entry
-- then drains from its first waiter on, and its answer to a waiting load is the word that the way holds.
pub complete_fill-word :
    (k i : ℕ) (d : DCache) (addr : Word) (x : Waiter)
    → let m = get_or d.mshrs i no_mshr in
      let after = complete_fill i d in
      let way = way_at after m.set_no m.way_no in
      let m' = get_or after.mshrs i no_mshr in
      d.line_bytes ≡ bytes k
      → i < length d.mshrs
      → m.fill_ready ≡ true
      → m.draining ≡ false
      → IsLine (bytes k) m.line
      → m.way_no < length (ways_of d m.set_no)
      → (way.valid ≡ true)
        × (way.reserved ≡ false)
        × (way.tag ≡ tag_of d m.line_addr)
        × (way.dirty ≡ any_store m.waiters)
        × (load_word_from_line (bytes k) way.bytes addr
            ≡ word_after k m.waiters addr (load_word_from_line (bytes k) m.line addr))
        × (m'.draining ≡ true)
        × (m'.drain_idx ≡ 0)
        × (waiter_resp (bytes k) m' x
            ≡ resp_of x.req (
                if x.req.write
                then 0
                else word_after k m.waiters x.req.addr
                    (load_word_from_line (bytes k) m.line x.req.addr)))
unfolding complete_fill start_drain merge_waiters waiter_resp
complete_fill-word k i d addr x size inside ready idle full there =
    let m : Mshr = get_or d.mshrs i no_mshr in
    let filled : List ℕ = merge_waiters d.line_bytes m.line m.waiters in
    let m' : Mshr = record m { fill_ready = false; drain_line = filled } in
    let d' : DCache = put_mshr i m' d in
    let way : Way = record (way_at d m.set_no m.way_no) {
      valid = true;
      reserved = false;
      tag = tag_of d m.line_addr;
      bytes = filled;
      dirty = any_store m.waiters;
      lru = d.lru_clock;
    } in
    let go : (not m.fill_ready || m.draining) ≡ false = ground arith in
    let written : way_at (put_way m.set_no m.way_no way d') m.set_no m.way_no ≡ way =
      way_at-put_way m.set_no m.way_no way d' there in
    let inside' : i < length d'.mshrs = omega (arith, inside, length-set d.mshrs i m') in
    let first : get_or d'.mshrs i no_mshr ≡ m' = get_or-set_self d.mshrs i m' no_mshr inside in
    let drained : Mshr = record (get_or d'.mshrs i no_mshr) { draining = true; drain_idx = 0 } in
    let last : get_or (set d'.mshrs i drained) i no_mshr ≡ drained =
      get_or-set_self d'.mshrs i drained no_mshr inside' in
    let merged = λ (a : Word).
      ap (λ (n : ℕ). load_word_from_line (bytes k) (merge_waiters n m.line m.waiters) a) size
      ∙ load_word-merge_waiters k m.waiters m.line a full in
    simp go (
      ap (λ (t : Way). t.valid) written,
      ap (λ (t : Way). t.reserved) written,
      ap (λ (t : Way). t.tag) written,
      ap (λ (t : Way). t.dirty) written,
      ap (λ (t : Way). load_word_from_line (bytes k) t.bytes addr) written ∙ merged addr,
      ap (λ (t : Mshr). t.draining) last,
      ap (λ (t : Mshr). t.drain_idx) last,
      ap (λ (v : Word). resp_of x.req (if x.req.write then 0 else v))
          (ap (λ (t : Mshr). load_word_from_line (bytes k) t.drain_line x.req.addr) last
            ∙ ap (λ (t : Mshr). load_word_from_line (bytes k) t.drain_line x.req.addr) first
            ∙ merged x.req.addr),
    )
