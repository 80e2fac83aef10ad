-- ===== src/Processor/Outcome.antt =====
-- Where fetch goes after a control instruction has been resolved.
use native.Mathlib.Decide.{ℕ_discrete}
use ooo_superscalar_risc_sim.Common.{
  arith, ◌≢◌, ◌⊎◌, ◌↔◌, inl, inr, ne→==, ◌&&◌, ℕ, ◌≡◌, Bool, true, false, not, ◌||◌, if◌then◌else◌,
  ◌==◌, ==_iff, refl,
}
use ooo_superscalar_risc_sim.Common.Int.{Word}
use ooo_superscalar_risc_sim.Processor.Info.{InstInfo}
use ooo_superscalar_risc_sim.Processor.{actual_outcome, next_pc, differs, is_wrong, resolve_branch}

-- Where fetch went on by the prediction.
abbrev pub predicted_pc : InstInfo → ℕ
predicted_pc info = if info.predicted_taken then info.predicted_target else info.fallthrough_pc

-- Where fetch goes on in the end: a recovery sends it to `recovery_pc`.
abbrev pub followed_pc : InstInfo × Bool → ℕ
followed_pc (info, recovers) = if recovers then info.recovery_pc else predicted_pc info

predicted_right :
    (info : InstInfo) (taken : Bool) (target : ℕ)
    → is_wrong info (taken, target) ≡ false
    → predicted_pc info ≡ next_pc info (taken, target)
predicted_right info true target h =
    go info.predicted_taken refl (info.predicted_target == target) refl h
  where
    go :
        (p : Bool)
        → info.predicted_taken ≡ p
        → (e : Bool) → (info.predicted_target == target) ≡ e
        → (not p || not e) ≡ false
        → (if info.predicted_taken then info.predicted_target else info.fallthrough_pc) ≡ target
    go true a true b h = rw a ((==_iff info.predicted_target target).0 b)
    go true a false b h = cc
    go false a e b h = cc
predicted_right info false target h = go info.predicted_taken refl h
  where
    go :
        (p : Bool)
        → info.predicted_taken ≡ p
        → (p || false) ≡ false
        → (if info.predicted_taken then info.predicted_target else info.fallthrough_pc)
          ≡ info.fallthrough_pc
    go true a h = cc
    go false a h = rw a refl

-- The prediction was wrong: about the direction, or about the target of an instruction that is taken.
abbrev pub Mispredicts : InstInfo → Bool × ℕ → Type 0
Mispredicts info (taken, target) =
    (taken ≢ info.predicted_taken) ⊎ ((taken ≡ true) × (info.predicted_target ≢ target))

wrong_iff :
    (info : InstInfo) (taken : Bool) (target : ℕ)
    → (is_wrong info (taken, target) ≡ true) ↔ Mispredicts info (taken, target)
wrong_iff info taken target =
    go taken info.predicted_taken (ℕ_discrete info.predicted_target target)
  where
    go :
        (t p : Bool)
        → Dec (info.predicted_target ≡ target)
        → ((differs t p || (t && not (info.predicted_target == target))) ≡ true)
          ↔ ((t ≢ p) ⊎ ((t ≡ true) × (info.predicted_target ≢ target)))
    go true true (yes e) = (
      λ h. absurd (ground (arith, e)),
      λ m. elim m [ inl n ↦ absurd (n refl) | inr (_, n) ↦ absurd (n e) ],
    )
    go true true (no n) = (λ h. inr (refl, n), λ m. rw (ne→== info.predicted_target target n) refl)
    go true false d = (λ h. inl (λ e. cc), λ m. refl)
    go false true d = (λ h. inl (λ e. cc), λ m. refl)
    go false false d = (λ h. cc, λ m. elim m [ inl n ↦ absurd (n refl) | inr (e, n) ↦ cc ])

-- When a control instruction is resolved for the first time, the recovery runs exactly if the direction
-- was predicted wrongly, or the target of an instruction that is taken; and fetch goes on at the actual
-- successor: where the prediction sent it, or, if the recovery runs, at the recovery's address.
pub followed_pc-resolve_branch :
    (info : InstInfo) (fu_value : Word)
    → info.br_resolved ≡ false
    → (((resolve_branch info fu_value).1 ≡ true) ↔ Mispredicts info (actual_outcome info fu_value))
      × (followed_pc (resolve_branch info fu_value) ≡ next_pc info (actual_outcome info fu_value))
unfolding resolve_branch actual_outcome
followed_pc-resolve_branch info fu_value fresh =
    rw fresh (go (is_wrong info (actual_outcome info fu_value)) refl)
  where
    outcome : Bool × ℕ
    outcome = actual_outcome info fu_value

    info' : InstInfo
    info' = record info {
      br_resolved = true;
      br_taken = outcome.0;
      br_next_pc = next_pc info outcome;
    }

    result : Bool → InstInfo × Bool
    result w =
        if w
        then (record info' { mispredicted = true; recovery_pc = next_pc info outcome }, true)
        else (info', false)

    go :
        (w : Bool)
        → is_wrong info outcome ≡ w
        → (((result w).1 ≡ true) ↔ Mispredicts info outcome)
          × (followed_pc (result w) ≡ next_pc info outcome)
    go true h = ((λ t. (wrong_iff info outcome.0 outcome.1).0 h, λ m. refl), refl)
    go false h = (
      (λ t. cc, λ m. cc ((wrong_iff info outcome.0 outcome.1).1 m, h)),
      predicted_right info outcome.0 outcome.1 h,
    )
