-- ===== src/DCache/Victim.antt =====
-- src/mem/dcache.cpp, findVictim: which way of a set is replaced.
use ooo_superscalar_risc_sim.Common.{
  ℕ, suc, ◌+◌, ◌<◌, ◌≤◌, ◌≡◌, ◌⊎◌, inl, inr, refl, arith, Bool, true, false, not, ◌&&◌, ◌||◌,
  Option, none, some, List, [], ◌∷◌, if◌then◌else◌, ltb, length, get_or, subst, sym, ap, ◌∙◌,
}
use native.Mathlib.Decide.{dec_lt}
use ooo_superscalar_risc_sim.Common.Search.{find_index, find_index-some, find_index-none}
use ooo_superscalar_risc_sim.DCache.State.{
  Way, DCache, no_way, ways_of, is_unused, scan_lru, find_victim, is_none,
}

-- No way of the set is free, and way `v` is the least recently used of those that are not reserved.
abbrev pub IsOldest : List Way → ℕ → Type 0
IsOldest ws v =
    ((w : ℕ) → w < length ws → is_unused (get_or ws w no_way) ≡ false)
    × ((w : ℕ)
        → w < length ws
        → (get_or ws w no_way).reserved ≡ false
        → (get_or ws v no_way).lru ≤ (get_or ws w no_way).lru)

-- Way `v` is the first that is neither valid nor reserved.
abbrev pub IsFirstUnused : List Way → ℕ → Type 0
IsFirstUnused ws v =
    (is_unused (get_or ws v no_way) ≡ true)
    × ((w : ℕ) → w < v → is_unused (get_or ws w no_way) ≡ false)

-- The victim of a set, or that there is none.
abbrev pub IsVictim : List Way → Option ℕ → Type 0
IsVictim ws none = (w : ℕ) → w < length ws → (get_or ws w no_way).reserved ≡ true
IsVictim ws (some v) =
    (v < length ws) × ((get_or ws v no_way).reserved ≡ false) × (IsFirstUnused ws v ⊎ IsOldest ws v)

module _ (way : ℕ → Way) where
  -- What the scan knows of the first `w` ways.
  Scanned : ℕ → Option ℕ → ℕ → Type 0
  Scanned w none best = (i : ℕ) → i < w → (way i).reserved ≡ true
  Scanned w (some v) best =
      (v < w)
      × ((way v).reserved ≡ false)
      × ((way v).lru ≡ best)
      × ((i : ℕ) → i < w → (way i).reserved ≡ false → best ≤ (way i).lru)

  abbrev better : Option ℕ → ℕ → Way → Bool
  better victim best x = not x.reserved && (is_none victim || ltb x.lru best)

  -- A fact about the first `w` ways and about the next one is a fact about `w + 1`.
  one_more : (P : ℕ → Type 0) (w : ℕ) → ((i : ℕ) → i < w → P i) → P w → (i : ℕ) → i < w + 1 → P i
  one_more P w h p i l = elim (dec_lt i w) [
    | yes below ↦ h i below
    | no above ↦ subst P (omega arith) p
  ]

  scan_step :
      (w : ℕ) (victim : Option ℕ) (best : ℕ)
      → Scanned w victim best
      → Scanned
          (w + 1)
          (if better victim best (way w) then some w else victim)
          (if better victim best (way w) then (way w).lru else best)
  unfolding Scanned
  scan_step w none best h = go (way w).reserved refl
    where
      go :
          (r : Bool)
          → (way w).reserved ≡ r
          → Scanned
              (w + 1)
              (if not r && true then some w else none)
              (if not r && true then (way w).lru else best)
      go true e = one_more (λ i. (way i).reserved ≡ true) w h e
      go false e = (
        omega arith,
        e,
        refl,
        one_more (λ i. (way i).reserved ≡ false → (way w).lru ≤ (way i).lru) w
            (λ i l f. absurd (ground (arith, h i l, f))) (λ f. omega arith),
      )
  scan_step w (some v) best (inside, free, held, least) =
      go (not (way w).reserved && ltb (way w).lru best) refl
    where
      go :
          (t : Bool)
          → (not (way w).reserved && ltb (way w).lru best) ≡ t
          → Scanned (w + 1) (if t then some w else some v) (if t then (way w).lru else best)
      go true e = (
        omega arith,
        ground (arith, e),
        refl,
        one_more (λ i. (way i).reserved ≡ false → (way w).lru ≤ (way i).lru) w
            (λ i l f. ground (arith, least i l f, e)) (λ f. omega arith),
      )
      go false e = (
        omega (arith, inside),
        free,
        held,
        one_more (λ i. (way i).reserved ≡ false → best ≤ (way i).lru) w least
            (λ f. ground (arith, e, f)),
      )

  scan_lru-Scanned :
      (xs : List Way) (w : ℕ) (victim : Option ℕ) (best : ℕ)
      → ((j : ℕ) → j < length xs → get_or xs j no_way ≡ way (w + j))
      → Scanned w victim best
      → (best' : ℕ) × Scanned (w + length xs) (scan_lru w victim best xs) best'
  unfolding scan_lru
  scan_lru-Scanned [] w victim best same h =
      (best, subst (λ n. Scanned n victim best) (omega arith) h)
  scan_lru-Scanned (x ∷ xs) w victim best same h =
      let here : way w ≡ x = ap way (omega arith) ∙ sym (same 0 (omega arith)) in
      let step =
        subst
          (λ (t : Way).
            Scanned (w + 1) (if better victim best t then some w else victim)
              (if better victim best t then t.lru else best))
          here (scan_step w victim best h) in
      let (best', done) =
        scan_lru-Scanned xs (w + 1) (if better victim best x then some w else victim)
          (if better victim best x then x.lru else best)
          (λ j l. same (suc j) (omega (arith, l)) ∙ ap way (omega arith)) step in
      (
        best',
        subst
            (λ n.
              Scanned n
                (scan_lru (w + 1) (if better victim best x then some w else victim)
                  (if better victim best x then x.lru else best) xs)
                best')
            (omega arith) done,
      )

Scanned-IsVictim :
    (ws : List Way) (o : Option ℕ) (best : ℕ)
    → Scanned (λ i. get_or ws i no_way) (length ws) o best
    → ((w : ℕ) → w < length ws → is_unused (get_or ws w no_way) ≡ false)
    → IsVictim ws o
unfolding Scanned
Scanned-IsVictim ws none best h used = h
Scanned-IsVictim ws (some v) best (inside, free, held, least) used =
    (inside, free, inr (used, λ w l f. rw held (least w l f)))

-- The victim of a set is a way that is not reserved for another fill: the first that is not
-- valid if there is one, and only else the least recently used; there is none only if every way of the
-- set is reserved.
pub find_victim-IsVictim : (d : DCache) (s : ℕ) → IsVictim (ways_of d s) (find_victim d s)
unfolding find_victim Scanned
find_victim-IsVictim d s = go (find_index is_unused (ways_of d s)) refl
  where
    go :
        (o : Option ℕ)
        → find_index is_unused (ways_of d s) ≡ o
        → IsVictim
            (ways_of d s)
            (elim o [ some w ↦ some w | none ↦ scan_lru 0 none 0 (ways_of d s) ])
    go (some w) e =
        let (inside, unused, before) = find_index-some is_unused (ways_of d s) no_way w e in
        (inside, ground arith, inl (unused, before))
    go none e =
        let (best, done) =
          scan_lru-Scanned (λ i. get_or (ways_of d s) i no_way) (ways_of d s) 0 none 0
            (λ j l. ap (λ i. get_or (ways_of d s) i no_way) (omega arith))
            (λ i l. absurd (omega arith)) in
        Scanned-IsVictim (ways_of d s) (scan_lru 0 none 0 (ways_of d s)) best
          (subst
            (λ n.
              Scanned (λ i. get_or (ways_of d s) i no_way) n (scan_lru 0 none 0 (ways_of d s)) best)
            (omega arith) done)
          (λ w l. find_index-none is_unused (ways_of d s) no_way w e l)
