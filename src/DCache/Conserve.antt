-- ===== src/DCache/Conserve.antt =====
-- A cycle of the data cache neither loses nor repeats an answer: the hits, fills and drains.
use ooo_superscalar_risc_sim.Common.{
  ℕ, zero, suc, ◌+◌, ◌<◌, ◌≤◌, ◌≡◌, ◌∙◌, refl, ap, arith, true, false, not, ◌||◌, Option, none,
  some, List, [], ◌∷◌, length, get_or, drop, drop_tail, drop_beyond, length-set, get_or_beyond,
  Bool-cases, if_lem, get_or-set_self, inl, inr,
}
use ooo_superscalar_risc_sim.Common.Search.{find_index, sum_of, sum_of-append, sum_of-set}
use ooo_superscalar_risc_sim.DCache.Fills.{
  merge_waiters, start_drain, complete_fill, complete_from, next_waiter, answers, waiter_resp,
  drain_entry, is_draining, step_drain,
}
use ooo_superscalar_risc_sim.DCache.InFlight.{
  Test, resp_weight, hit_weight, waiter_weight, mshr_weight, in_flight, put_mshr-in_flight,
  process_pipes-in_flight,
}
use ooo_superscalar_risc_sim.DCache.Pipes.{process_pipes}
use ooo_superscalar_risc_sim.DCache.State.{Waiter, Mshr, HitPend, DCache, no_mshr, put_mshr}
use ooo_superscalar_risc_sim.DCache.{emit_hits, tick_hits, tick_end}

pub length-emit_hits : (hs : List HitPend) → length (emit_hits hs).0 ≡ length hs
unfolding emit_hits
length-emit_hits [] = refl
length-emit_hits (h ∷ hs) = ground (arith, length-emit_hits hs)

module _ (q : Test) where
  emit_hits-sum_of :
      (hs : List HitPend)
      → sum_of (hit_weight q) (emit_hits hs).0 + sum_of (resp_weight q) (emit_hits hs).1
        ≡ sum_of (hit_weight q) hs
  unfolding emit_hits sum_of
  emit_hits-sum_of [] = refl
  emit_hits-sum_of (h ∷ hs) = ground (arith, emit_hits-sum_of hs)

  tick_hits-in_flight : (d : DCache) → in_flight q (tick_hits d) ≡ in_flight q d
  unfolding in_flight tick_hits
  tick_hits-in_flight d = omega (
    arith,
    emit_hits-sum_of d.hit_pend,
    sum_of-append (resp_weight q) d.resp_q (emit_hits d.hit_pend).1,
  )

  mshr_inside : (i : ℕ) (d : DCache) → (get_or d.mshrs i no_mshr).valid ≡ true → i < length d.mshrs
  mshr_inside i d e = ground (arith, get_or_beyond d.mshrs i no_mshr)

  start_drain-in_flight :
      (i : ℕ) (d : DCache)
      → i < length d.mshrs
      → (get_or d.mshrs i no_mshr).draining ≡ false
      → in_flight q (start_drain i d) ≡ in_flight q d
  unfolding start_drain in_flight
  start_drain-in_flight i d h idle =
      let m = get_or d.mshrs i no_mshr in
      ground (
        arith,
        idle,
        sum_of-set (mshr_weight q) d.mshrs i (record m { draining = true; drain_idx = 0 }) no_mshr
            h,
      )

  -- The first write of a fill keeps the waiters.
  written-in_flight :
      (i : ℕ) (m' : Mshr) (d : DCache)
      → i < length d.mshrs
      → mshr_weight q m' ≡ mshr_weight q (get_or d.mshrs i no_mshr)
      → in_flight q (put_mshr i m' d) ≡ in_flight q d
  written-in_flight i m' d h e = omega (arith, e, put_mshr-in_flight q i m' d h)

  complete_fill-in_flight :
      (i : ℕ) (d : DCache)
      → (get_or d.mshrs i no_mshr).valid ≡ true
      → in_flight q (complete_fill i d) ≡ in_flight q d
  unfolding complete_fill in_flight merge_waiters
  complete_fill-in_flight i d e =
      let m : Mshr = get_or d.mshrs i no_mshr in
      let filled = merge_waiters d.line_bytes m.line m.waiters in
      let m' : Mshr = record m { fill_ready = false; drain_line = filled } in
      let inside : i < length d.mshrs = mshr_inside i d e in
      elim (Bool-cases (not m.fill_ready || m.draining)) [
        | inl skip ↦ simp skip refl
        | inr go ↦ simp go (
            start_drain-in_flight i _ (omega (arith, inside, length-set d.mshrs i m')) (
              ap (λ (t : Mshr). t.draining) (get_or-set_self d.mshrs i m' no_mshr inside)
              ∙ ground arith)
            ∙ written-in_flight i m' d inside refl)
      ]

  complete_from-in_flight :
      (i n : ℕ) (d : DCache) → in_flight q (complete_from i n d) ≡ in_flight q d
  unfolding complete_from
  complete_from-in_flight i zero d = refl
  complete_from-in_flight i (suc n) d =
      complete_from-in_flight (i + 1) n _ ∙ elim (Bool-cases (get_or d.mshrs i no_mshr).valid) [
        | inr e ↦ simp e refl
        | inl e ↦
            if_lem (λ (t : DCache). in_flight q t ≡ in_flight q d) _ (complete_fill-in_flight i d e)
              refl
      ]

  -- What is left after the next answer, and the answer, are what was left before.
  next_waiter-sum_of :
      (line_bytes : ℕ) (m : Mshr) (k : ℕ) (ws : List Waiter)
      → drop k m.waiters ≡ ws
      → sum_of (waiter_weight q) ws
        ≡ sum_of (waiter_weight q) (drop (next_waiter k ws).0 m.waiters)
          + sum_of (resp_weight q) (answers line_bytes m (next_waiter k ws).1)
  unfolding next_waiter sum_of waiter_resp
  next_waiter-sum_of line_bytes m k [] e = rw e refl
  next_waiter-sum_of line_bytes m k (w ∷ ws) e =
      let tail : drop (k + 1) m.waiters ≡ ws = drop_tail k m.waiters e in
      elim (Bool-cases w.drop) [
        | inl gone ↦ simp gone (omega (arith, next_waiter-sum_of line_bytes m (k + 1) ws tail))
        | inr live ↦ simp (live, tail) (omega arith)
      ]

  sum_of-drop_beyond :
      (k : ℕ) (ws : List Waiter) → length ws ≤ k → sum_of (waiter_weight q) (drop k ws) ≡ 0
  unfolding sum_of
  sum_of-drop_beyond k ws h = ap (sum_of (waiter_weight q)) (drop_beyond k ws h)

  drain_entry-in_flight : (i : ℕ) (d : DCache) → in_flight q (drain_entry i d) ≡ in_flight q d
  unfolding drain_entry in_flight
  drain_entry-in_flight i d =
      let m : Mshr = get_or d.mshrs i no_mshr in
      let ws : List Waiter = drop m.drain_idx m.waiters in
      let k : ℕ = (next_waiter m.drain_idx ws).0 in
      let next : Option Waiter = (next_waiter m.drain_idx ws).1 in
      elim (Bool-cases (not m.valid || not m.draining)) [
        | inl stale ↦ simp stale refl
        | inr busy ↦ simp busy (
            ground (
              arith,
              busy,
              next_waiter-sum_of d.line_bytes m m.drain_idx ws refl,
              sum_of-append (resp_weight q) d.resp_q (answers d.line_bytes m next),
              sum_of-drop_beyond k m.waiters,
              sum_of-set (mshr_weight q) d.mshrs i no_mshr no_mshr (mshr_inside i d (ground arith)),
              sum_of-set (mshr_weight q) d.mshrs i (record m { drain_idx = k }) no_mshr
                  (mshr_inside i d (ground arith)),
            ))
      ]

  step_drain-in_flight : (d : DCache) → in_flight q (step_drain d) ≡ in_flight q d
  unfolding step_drain
  step_drain-in_flight d = go d.drain_mshr (find_index is_draining d.mshrs)
    where
      go :
          (o p : Option ℕ)
          → in_flight q (elim o [
            | some i ↦ drain_entry i d
            | none ↦ elim p [ some i ↦ drain_entry i d | none ↦ d ]
          ])
            ≡ in_flight q d
      go (some i) p = drain_entry-in_flight i d
      go none (some i) = drain_entry-in_flight i d
      go none none = refl

-- In a cache with as many pending hits as ports, the end of a cycle neither loses nor repeats an
-- answer: of the requests that a test of id, cookie and kind picks, those still to be answered and those
-- answered and not yet taken are as many after as before, dropped loads left out.
pub tick_end-in_flight :
    (q : Test) (d : DCache)
    → length d.hit_pend ≡ length d.pipe
    → in_flight q (tick_end d) ≡ in_flight q d
unfolding tick_end tick_hits
tick_end-in_flight q d same =
    let looked = process_pipes (tick_hits d) in
    step_drain-in_flight q (complete_from 0 (length looked.mshrs) looked)
    ∙ complete_from-in_flight q 0 (length looked.mshrs) looked
    ∙ process_pipes-in_flight q (tick_hits d) (length-emit_hits d.hit_pend ∙ same)
    ∙ tick_hits-in_flight q d
