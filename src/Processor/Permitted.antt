-- ===== src/Processor/Permitted.antt =====
-- Which stores get the permission to leave, by their places from the head of the reorder buffer.
use native.Mathlib.Nat.{mod-lt}
use ooo_superscalar_risc_sim.Common.{
  ℕ, zero, suc, ◌+◌, ◌%◌, ◌≤◌, ◌<◌, ◌≡◌, ◌≢◌, ◌∙◌, refl, sym, ap, ap₂, subst, Bool, true, false,
  not, ◌&&◌, Option, none, some, List, [], arith, if◌then◌else◌, ◌==◌, min, ne→==, length,
  get_elem?-eq-get_or,
}
use ooo_superscalar_risc_sim.Common.Circular.{distance, distance_add}
use ooo_superscalar_risc_sim.Common.Int.{ℤ, eq_ℤ}
use ooo_superscalar_risc_sim.Rob.{blank}
use ooo_superscalar_risc_sim.Rob.Invariant.{slot, IsValid}
use ooo_superscalar_risc_sim.Processor.Info.{InstInfo}
use ooo_superscalar_risc_sim.Processor.{is_control, find_inst_by_rob_id, rob_is_ready, Core}
use ooo_superscalar_risc_sim.Processor.Stores.{
  Verdict, passes, grants, stops, verdict_of, lane_tag, lane_verdict, add_grant, permissions_from,
  store_commit_permissions,
}
use ooo_superscalar_risc_sim.Processor.Loop.{
  AllIn, holds, all_from, is_grants, goes_on, step, run, holds-run,
}

-- What the processor knows of the instruction at a place from the head.
abbrev pub info_at : Core → ℕ → Option InstInfo
info_at c lane = find_inst_by_rob_id c.inst_table (lane_tag c lane)

abbrev pub is_done_at : Core → ℕ → Bool
is_done_at c lane = (slot c.rob ((c.rob.head + lane) % c.rob.capacity)).done

-- A store that has not yet left.
abbrev pub is_waiting_store : Core → ℕ → Bool
is_waiting_store c lane = elim (info_at c lane) [
  | none ↦ false
  | some info ↦ info.is_store && not (is_done_at c lane)
]

-- An instruction that a younger store may overtake or follow.
abbrev pub lets_pass : Core → ℕ → Bool
lets_pass c lane = elim (info_at c lane) [
  | none ↦ false
  | some info ↦
      if is_done_at c lane then not (is_control info && info.mispredicted) else info.is_store
]

abbrev verdict : Core → ℕ → Verdict
verdict c lane = elim (info_at c lane) [
  | none ↦ stops
  | some info ↦ verdict_of info (is_done_at c lane)
]

is_grants-verdict : (c : Core) (lane : ℕ) → is_grants (verdict c lane) ≡ is_waiting_store c lane
is_grants-verdict c lane = ground arith

goes_on-verdict : (c : Core) (lane : ℕ) → goes_on (verdict c lane) ≡ lets_pass c lane
goes_on-verdict c lane = ground arith

all_from_congr :
    (f g : ℕ → Bool) → ((j : ℕ) → f j ≡ g j) → (lane k : ℕ) → all_from f lane k ≡ all_from g lane k
all_from_congr f g e lane zero = refl
all_from_congr f g e lane (suc k) = ap₂ ◌&&◌ (e lane) (all_from_congr f g e (lane + 1) k)

module _ (c : Core) (v : IsValid c.rob) where
  rob_is_ready_lem : (lane : ℕ) → rob_is_ready c.rob (lane_tag c lane) ≡ some (is_done_at c lane)
  rob_is_ready_lem lane =
      let at : ℕ = (c.rob.head + lane) % c.rob.capacity in
      let inside : at < length c.rob.buffer =
        rw v.sized (mod-lt (c.rob.head + lane) (omega (arith, v.head_in))) in
      ground (arith, inside, get_elem?-eq-get_or c.rob.buffer at blank inside)

  lane_verdict_lem : (lane : ℕ) → lane_verdict c lane ≡ some (verdict c lane)
  unfolding lane_verdict
  lane_verdict_lem lane = go (info_at c lane)
    where
      go :
          (o : Option InstInfo)
          → elim o [
            | none ↦ some stops
            | some info ↦ elim (rob_is_ready c.rob (lane_tag c lane)) [
              | none ↦ none
              | some done ↦ some (verdict_of info done)
            ]
          ]
            ≡ some (elim o [ none ↦ stops | some info ↦ verdict_of info (is_done_at c lane) ])
      go none = refl
      go (some info) =
          ap (λ (o : Option Bool). elim o [ none ↦ none | some done ↦ some (verdict_of info done) ])
            (rob_is_ready_lem lane)

  permissions_from-run :
      (lane n : ℕ) → permissions_from c lane n ≡ some (run (verdict c) (lane_tag c) lane n)
  unfolding permissions_from
  permissions_from-run lane zero = refl
  permissions_from-run lane (suc n) =
      ap₂
        (λ (o : Option Verdict) (r : Option (List ℤ)). elim o [
          | none ↦ none
          | some w ↦ add_grant (lane_tag c lane) w r
        ])
        (lane_verdict_lem lane) (permissions_from-run (lane + 1) n)
      ∙ go (verdict c lane)
    where
      rest : List ℤ
      rest = run (verdict c) (lane_tag c) (lane + 1) n

      go :
          (w : Verdict)
          → add_grant (lane_tag c lane) w (some rest)
            ≡ some (step (verdict c) (lane_tag c) w (lane_tag c lane) rest)
      go passes = refl
      go grants = refl
      go stops = refl

  tags_apart :
      (i j : ℕ)
      → i < c.rob.capacity
      → j < c.rob.capacity
      → i ≢ j
      → eq_ℤ (lane_tag c i) (lane_tag c j) ≡ false
  tags_apart i j a b ne =
      ne→== ((c.rob.head + i) % c.rob.capacity) ((c.rob.head + j) % c.rob.capacity) (λ e. ne (
        sym (distance_add c.rob.capacity c.rob.head v.head_in i a)
        ∙ ap (distance c.rob.capacity c.rob.head) e
        ∙ distance_add c.rob.capacity c.rob.head v.head_in j b))

  run-AllIn : (lane n : ℕ) → AllIn c.rob.capacity (run (verdict c) (lane_tag c) lane n)
  run-AllIn lane zero = tt
  run-AllIn lane (suc n) = go (verdict c lane) (run-AllIn (lane + 1) n)
    where
      at : ℕ
      at = (c.rob.head + lane) % c.rob.capacity

      inside : at < c.rob.capacity
      inside = mod-lt (c.rob.head + lane) (omega (arith, v.head_in))

      rest : List ℤ
      rest = run (verdict c) (lane_tag c) (lane + 1) n

      go :
          (w : Verdict)
          → AllIn c.rob.capacity rest
          → AllIn c.rob.capacity (step (verdict c) (lane_tag c) w (lane_tag c lane) rest)
      go passes ih = ih
      go grants ih = ((at, refl, inside), ih)
      go stops ih = tt

  -- On a valid reorder buffer the loop stays in range, and an instruction among the first `width` in
  -- flight is granted exactly if it is a store that has not left yet and every older one is either
  -- done and no mispredicted control instruction, or a store as well.
  pub store_commit_permissions-holds :
      (lane : ℕ)
      → lane < min c.width c.rob.active_count
      → (tags : List ℤ) × (store_commit_permissions c ≡ some tags)
        × (holds tags (lane_tag c lane)
            ≡ (is_waiting_store c lane && all_from (lets_pass c) 0 lane))
  store_commit_permissions-holds lane lt = (
    run (verdict c) (lane_tag c) 0 n,
    rw nonempty (permissions_from-run 0 n),
    subst
          (λ i.
            holds (run (verdict c) (lane_tag c) 0 n) (lane_tag c i)
            ≡ (is_grants (verdict c i) && all_from (λ j. goes_on (verdict c j)) 0 lane))
          zero_add (holds-run (verdict c) (lane_tag c) 0 lane n c.rob.capacity lt room tags_apart)
        ∙ ap₂ ◌&&◌ (is_grants-verdict c lane)
            (all_from_congr (λ j. goes_on (verdict c j)) (lets_pass c) (goes_on-verdict c) 0 lane),
  )
    where
      n : ℕ
      n = min c.width c.rob.active_count

      room : 0 + n ≤ c.rob.capacity
      room = omega (arith, v.fits)

      nonempty : (c.rob.active_count == 0) ≡ false
      nonempty = ne→== c.rob.active_count 0 (λ e. absurd (omega (arith, e)))

      zero_add : 0 + lane ≡ lane
      zero_add = omega arith

  -- The tags are those of slots.
  pub store_commit_permissions-AllIn :
      (tags : List ℤ) × (store_commit_permissions c ≡ some tags) × AllIn c.rob.capacity tags
  store_commit_permissions-AllIn = go (c.rob.active_count == 0) refl
    where
      n : ℕ
      n = min c.width c.rob.active_count

      go :
          (b : Bool)
          → (c.rob.active_count == 0) ≡ b
          → (tags : List ℤ) × ((if b then some [] else permissions_from c 0 n) ≡ some tags)
            × AllIn c.rob.capacity tags
      go true h = ([], refl, tt)
      go false h = (run (verdict c) (lane_tag c) 0 n, permissions_from-run 0 n, run-AllIn 0 n)
