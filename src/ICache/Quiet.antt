-- ===== src/ICache/Quiet.antt =====
-- An instruction cache with nothing on the way to the core, and that its cycle leaves it so.
use ooo_superscalar_risc_sim.Common.{
  Option, some, ℕ, zero, suc, ◌+◌, ◌≤◌, ◌≡◌, refl, sym, ap, ◌∙◌, ◌-◌, ◌==◌, subst, arith, Bool,
  true, false, not, ◌&&◌, ◌||◌, none, List, [], ◌∷◌, map, ltb, get_or, set, if_lem, Bool-cases, inl,
  inr,
}
use ooo_superscalar_risc_sim.ICache.State.{
  Mshr, HitPend, Pipe, ICache, no_mshr, no_hit_pend, put_mshr, way_at, tag_of,
}
use ooo_superscalar_risc_sim.ICache.{
  flush, flush_mshr, process_pipe, install, complete_mshr, complete_from, tick_hit,
}

-- An entry whose line the core still waits for.
abbrev pub is_wanted : Mshr → Bool
is_wanted m = m.valid && (not m.drop && m.has_waiter)

-- Nothing is on the way to the core, and lines are no longer than `n`.
pub record IsQuiet (n : ℕ) (c : ICache) : Type 0 where
  pub no_resp : c.resp ≡ none
  pub no_req : c.pipe.valid ≡ false
  pub dropped : c.hit_pend.valid ≡ true → c.hit_pend.drop ≡ true
  pub unwanted : (i : ℕ) → is_wanted (get_or c.mshrs i no_mshr) ≡ false
  pub size : c.line_bytes ≤ n

unwanted-set :
    (ms : List Mshr) (i : ℕ) (v : Mshr)
    → is_wanted v ≡ false
    → ((j : ℕ) → is_wanted (get_or ms j no_mshr) ≡ false)
    → (j : ℕ) → is_wanted (get_or (set ms i v) j no_mshr) ≡ false
unwanted-set [] i v e h j = refl
unwanted-set (m ∷ ms) zero v e h zero = e
unwanted-set (m ∷ ms) zero v e h (suc j) = h (suc j)
unwanted-set (m ∷ ms) (suc i) v e h zero = h zero
unwanted-set (m ∷ ms) (suc i) v e h (suc j) = unwanted-set ms i v e (λ k. h (suc k)) j

unwanted-flush : (ms : List Mshr) (j : ℕ) → is_wanted (get_or (map flush_mshr ms) j no_mshr) ≡ false
unwanted-flush [] j = refl
unwanted-flush (m ∷ ms) zero = ground arith
unwanted-flush (m ∷ ms) (suc j) = unwanted-flush ms j

pub put_mshr-IsQuiet :
    (n i : ℕ) (v : Mshr) (c : ICache)
    → is_wanted v ≡ false
    → IsQuiet n c
    → IsQuiet n (put_mshr i v c)
put_mshr-IsQuiet n i v c e h = record {
  no_resp = h.no_resp;
  no_req = h.no_req;
  dropped = h.dropped;
  unwanted = unwanted-set c.mshrs i v e h.unwanted;
  size = h.size;
}

pub flush-IsQuiet : (c : ICache) → IsQuiet c.line_bytes (flush c)
unfolding flush
flush-IsQuiet c = record {
  no_resp = refl;
  no_req = refl;
  dropped = λ e. ground arith;
  unwanted = unwanted-flush c.mshrs;
  size = omega arith;
}

-- What the claim is about, in two caches, is the same.
pub record Alike (c' c : ICache) : Type 0 where
  pub same_resp : c'.resp ≡ c.resp
  pub same_pipe : c'.pipe ≡ c.pipe
  pub same_hit : c'.hit_pend ≡ c.hit_pend
  pub same_mshrs : c'.mshrs ≡ c.mshrs
  pub same_size : c'.line_bytes ≡ c.line_bytes

pub Alike-IsQuiet : (n : ℕ) (c' c : ICache) → Alike c' c → IsQuiet n c → IsQuiet n c'
Alike-IsQuiet n c' c a h = record {
  no_resp = a.same_resp ∙ h.no_resp;
  no_req = ap (λ (p : Pipe). p.valid) a.same_pipe ∙ h.no_req;
  dropped = subst (λ (t : HitPend). t.valid ≡ true → t.drop ≡ true) (sym a.same_hit) h.dropped;
  unwanted =
      subst (λ (ms : List Mshr). (i : ℕ) → is_wanted (get_or ms i no_mshr) ≡ false)
        (sym a.same_mshrs) h.unwanted;
  size = omega (arith, a.same_size, h.size);
}

install-Alike : (m : Mshr) (c : ICache) → Alike (install m c) c
unfolding install
install-Alike m c =
    let w = way_at c m.set_no m.way_no in
    if_lem (λ (t : ICache). Alike t c)
      (w.reserved || (not w.valid || not (w.tag == tag_of c m.line_addr)))
      (record {
        same_resp = refl;
        same_pipe = refl;
        same_hit = refl;
        same_mshrs = refl;
        same_size = refl;
      })
      (record {
        same_resp = refl;
        same_pipe = refl;
        same_hit = refl;
        same_mshrs = refl;
        same_size = refl;
      })

put_hit-IsQuiet :
    (n : ℕ) (v : HitPend) (c : ICache)
    → (v.valid ≡ true → v.drop ≡ true)
    → IsQuiet n c
    → IsQuiet n (record c { hit_pend = v })
put_hit-IsQuiet n v c e h = record {
  no_resp = h.no_resp;
  no_req = h.no_req;
  dropped = e;
  unwanted = h.unwanted;
  size = h.size;
}

-- A step succeeds and leaves the cache quiet.
abbrev pub Stays : ℕ → Option ICache → Type 0
Stays n o = (c' : ICache) × (o ≡ some c') × IsQuiet n c'

pub tick_hit-Stays : (n : ℕ) (c : ICache) → IsQuiet n c → Stays n (tick_hit c)
unfolding tick_hit
tick_hit-Stays n c h = elim (Bool-cases c.hit_pend.valid) [
  | inr e ↦ (c, simp e refl, h)
  | inl e ↦
      let counted = record c.hit_pend {
        valid = true;
        drop = true;
        cycles_left = c.hit_pend.cycles_left - 1;
      } in
      simp (e, h.dropped e)
        (if_lem (Stays n) (ltb 1 c.hit_pend.cycles_left)
          (_, refl, put_hit-IsQuiet n counted c (λ _. refl) h)
          (_, refl, put_hit-IsQuiet n no_hit_pend c (λ f. cc) h))
]

pub process_pipe-IsQuiet : (n : ℕ) (c : ICache) → IsQuiet n c → IsQuiet n (process_pipe c)
unfolding process_pipe
process_pipe-IsQuiet n c h = let e = h.no_req in simp e h

complete_mshr-Stays :
    (n i : ℕ) (c : ICache)
    → IsQuiet n c
    → (get_or c.mshrs i no_mshr).valid ≡ true
    → Stays n (complete_mshr i c)
unfolding complete_mshr
complete_mshr-Stays n i c h e =
    let m : Mshr = get_or c.mshrs i no_mshr in
    let no_waiter : (m.drop || not m.has_waiter) ≡ true = ground (arith, h.unwanted i) in
    elim (Bool-cases m.fill_ready) [
      | inr f ↦ (c, simp f refl, h)
      | inl f ↦ (
        put_mshr i no_mshr (install m c),
        simp (f, no_waiter) refl,
        (put_mshr-IsQuiet n i no_mshr (install m c) refl
            (Alike-IsQuiet n (install m c) c (install-Alike m c) h)),
      )
    ]

pub complete_from-Stays : (n i k : ℕ) (c : ICache) → IsQuiet n c → Stays n (complete_from i k c)
unfolding complete_from
complete_from-Stays n i zero c h = (c, refl, h)
complete_from-Stays n i (suc k) c h =
    let m : Mshr = get_or c.mshrs i no_mshr in
    elim (Bool-cases (m.valid && m.fill_ready)) [
      | inr e ↦ simp e (complete_from-Stays n (i + 1) k c h)
      | inl e ↦
          let (c', done, h') = complete_mshr-Stays n i c h (ground arith) in
          simp (e, done) (complete_from-Stays n (i + 1) k c' h')
    ]
