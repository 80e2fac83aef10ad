-- ===== src/Cdb/Beats.antt =====
-- What a cycle of the arbiter does with each lane's result, and that a pending one is broadcast.
use native.Mathlib.Decide.{ℕ_discrete}
use ooo_superscalar_risc_sim.Common.{
  ℕ, ◌≤◌, ◌<◌, ◌≡◌, ◌∙◌, ap, Bool, true, false, ◌||◌, Option, none, some, List, [], ◌∷◌, arith,
  length, get_or, set, get_or-set_ne, ◌⊎◌, inl, inr, Bool-cases, ◌==◌, get_or-replicate, replicate,
  length-tabulate, get_or-tabulate,
}
use ooo_superscalar_risc_sim.Cdb.{
  CdbProducer, no_producer, CdbArbiter, lane, request, Grants, grants, start, Selection,
  select_grants, settle, commit_pending, selection, granting, latching,
}
use ooo_superscalar_risc_sim.Cdb.Loop.{Sound, mark, Outcome, loop-Outcome}

pub record IsValid (a : CdbArbiter) : Type 0 where
  pub wide : 0 < a.cdb_width
  pub some_lane : 0 < a.num_producers
  pub pointer : a.rr_ptr < a.num_producers
  pub flags : length a.pending_valid ≡ a.num_producers
  pub beats : length a.pending ≡ a.num_producers

abbrev pub mem : List ℕ → ℕ → Bool
mem [] i = false
mem (x ∷ xs) i = x == i || mem xs i

-- One cycle: the grants, then, with what the producers offer after the grants, the pending beats.
pub cycle : CdbArbiter → List CdbProducer → List CdbProducer → Option (Selection × CdbArbiter)
cycle a before after = elim (select_grants a before) [
  | none ↦ none
  | some (s, a') ↦ elim (commit_pending a' after) [ none ↦ none | some a'' ↦ some (s, a'') ]
]

-- A lane that was not selected is selected only by a grant.
mark-mem :
    (is : List ℕ) (selected : List Bool) (i : ℕ)
    → get_or selected i false ≡ false
    → get_or (mark selected is) i false ≡ true
    → mem is i ≡ true
mark-mem [] selected i free h = cc
mark-mem (j ∷ is) selected i free h = elim (ℕ_discrete j i) [
  | yes e ↦ ground (arith, e)
  | no ne ↦ ground (
    arith,
    mark-mem is (set selected j true) i (get_or-set_ne selected j i true false ne ∙ free) h,
  )
]

module _ {a : CdbArbiter} (v : IsValid a) (before after : List CdbProducer)
    (sized : length before ≡ a.num_producers) (sized' : length after ≡ a.num_producers) where
  abbrev pub g : Grants
  g = grants a before

  pub start_lem : start a ≡ a.rr_ptr
  start_lem = ground (arith, v.pointer)

  pub start-lt : start a < a.num_producers
  start-lt = rw start_lem v.pointer

  pub outcome :
      Outcome (request a before) a.num_producers a.cdb_width (replicate a.num_producers false) g
  outcome =
      loop-Outcome (request a before) a.num_producers v.some_lane a.cdb_width
        (replicate a.num_producers false) (start a) start-lt

  abbrev pub next : CdbArbiter
  next = latching (granting a before) after

  pub cycle_lem : cycle a before after ≡ some (selection a before, next)
  unfolding cycle select_grants commit_pending
  cycle_lem = ground (arith, sized, sized')

  pub next-IsValid : IsValid next
  next-IsValid = record {
    wide = v.wide;
    some_lane = v.some_lane;
    pointer = outcome.in_range;
    flags = length-tabulate (λ i. (settle (granting a before) after i).0) 0 a.num_producers;
    beats = length-tabulate (λ i. (settle (granting a before) after i).1) 0 a.num_producers;
  }

  -- The lane after the cycle.
  flag_after :
      (i : ℕ)
      → i < a.num_producers
      → get_or next.pending_valid i false ≡ (settle (granting a before) after i).0
  flag_after i lt =
      get_or-tabulate (λ i. (settle (granting a before) after i).0) 0 a.num_producers i false lt
      ∙ ap (λ k. (settle (granting a before) after k).0) (omega arith)

  beat_after :
      (i : ℕ)
      → i < a.num_producers
      → get_or next.pending i no_producer ≡ (settle (granting a before) after i).1
  beat_after i lt =
      get_or-tabulate (λ i. (settle (granting a before) after i).1) 0 a.num_producers i no_producer
        lt
      ∙ ap (λ k. (settle (granting a before) after k).1) (omega arith)

  -- The lane is granted exactly if its flag is set.
  pub granted_flag : (i : ℕ) → get_or g.selected i false ≡ true → mem g.granted i ≡ true
  granted_flag i h =
      mark-mem g.granted (replicate a.num_producers false) i
        (get_or-replicate a.num_producers i false) (rw outcome.marked at h)

  -- A request that is not granted is pending after the cycle, if its producer held it.
  pub waits :
      (i : ℕ)
      → i < a.num_producers
      → request a before i ≡ true
      → get_or g.selected i false ≡ false
      → (get_or a.pending_valid i false ≡ false
          → get_or after i no_producer ≡ get_or before i no_producer)
      → (get_or next.pending_valid i false ≡ true)
        × (get_or next.pending i no_producer ≡ lane a before i)
  waits i lt asks passed held = elim (Bool-cases (get_or a.pending_valid i false)) [
    | inl pending ↦ (
      flag_after i lt ∙ ground (arith, pending, passed),
      beat_after i lt ∙ ground (arith, pending, passed),
    )
    | inr fresh ↦
        let e : get_or after i no_producer ≡ get_or before i no_producer = held fresh in
        let live : (get_or before i no_producer).valid ≡ true = ground (arith, fresh, asks) in
        (
          flag_after i lt ∙ ground (arith, fresh, passed, e, live),
          beat_after i lt ∙ ground (arith, fresh, passed, e, live),
        )
  ]

-- A cycle never fails an assertion. Its grants are at most as many as the bus is wide; each is of a
-- requesting lane in range, none is given twice, and a bus slot stays idle only if every requesting
-- lane is granted. A request that is not granted is pending afterwards with its result, if it was
-- pending before or the producer of its lane offers the same after the grants as before them. Of a lane
-- that was not pending and whose offer changes with the grants, as those of the load/store queue may,
-- nothing is stated.
pub cycle_no_loss :
    {a : CdbArbiter} (before after : List CdbProducer)
    → IsValid a
    → length before ≡ a.num_producers
    → length after ≡ a.num_producers
    → (s : Selection) × (a' : CdbArbiter) × (cycle a before after ≡ some (s, a'))
      × IsValid a'
      × (length s.granted_indices ≤ a.cdb_width)
      × Sound (request a before) a.num_producers (replicate a.num_producers false) s.granted_indices
      × ((length s.granted_indices ≡ a.cdb_width)
          ⊎ ((i : ℕ)
              → i < a.num_producers
              → request a before i ≡ true
              → mem s.granted_indices i ≡ true))
      × ((i : ℕ)
          → i < a.num_producers
          → request a before i ≡ true
          → mem s.granted_indices i ≡ false
          → (get_or a.pending_valid i false ≡ false
              → get_or after i no_producer ≡ get_or before i no_producer)
          → (get_or a'.pending_valid i false ≡ true)
            × (get_or a'.pending i no_producer ≡ lane a before i))
cycle_no_loss {a} before after v sized sized' = (
  selection a before,
  next v before after sized sized',
  cycle_lem v before after sized sized',
  next-IsValid v before after sized sized',
  (outcome v before after sized sized').bounded,
  (outcome v before after sized sized').sound,
  elim (outcome v before after sized sized').busy [
    | inl full ↦ inl full
    | inr all ↦ inr (λ i lt asks. granted_flag v before after sized sized' i (all i lt asks))
  ],
  λ i lt asks passed held. waits v before after sized sized' i lt asks (unflagged i passed) held,
)
  where
    unflagged :
        (i : ℕ)
        → mem (grants a before).granted i ≡ false
        → get_or (grants a before).selected i false ≡ false
    unflagged i passed = elim (Bool-cases (get_or (grants a before).selected i false)) [
      | inr no' ↦ no'
      | inl yes' ↦ absurd (clash (granted_flag v before after sized sized' i yes'))
    ]
      where
        clash : ¬ (mem (grants a before).granted i ≡ true)
        clash e = cc
