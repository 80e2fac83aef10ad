-- ===== src/Rob/Tests.antt =====
-- A buffer of three slots whose window goes round the end, and the theorems on it.
use ooo_superscalar_risc_sim.Common.{
  ℕ, zero, suc, ◌+◌, ◌-◌, ◌<◌, ◌≡◌, refl, Bool, true, false, ◌&&◌, Option, some, [], ◌∷◌, arith,
  if◌then◌else◌, ltb, ◌==◌, length, take,
}
use ooo_superscalar_risc_sim.Common.Int.{pos}
use ooo_superscalar_risc_sim.Rob.{
  ReorderBuffer, dispatch, write_result, Retired, commit, undispatch, squash_younger_than,
  age_from_head,
}
use ooo_superscalar_risc_sim.Rob.Invariant.{IsValid, is_busy}
use ooo_superscalar_risc_sim.Rob.InOrder.{enter, retire, finish, keep_through}
use ooo_superscalar_risc_sim.Rob.Contents.{contents}
use ooo_superscalar_risc_sim.Rob.Refine.{
  is_some, reward, dispatch_refines, commit_refines, write_result_refines,
}
use ooo_superscalar_risc_sim.Rob.Squash.{squash_refines}
use ooo_superscalar_risc_sim.Rob.Undo.{youngest, undispatch_refines}

-- Slot 2 holds the oldest instruction, done; slot 0 the youngest, which waits.
abbrev wrapped : ReorderBuffer
wrapped = record {
  buffer =
      record { busy = true; op = "SUB"; dest_reg = pos 5; value = 0; done = false }
      ∷ record { busy = false; op = ""; dest_reg = pos 0; value = 0; done = false }
      ∷ record { busy = true; op = "ADD"; dest_reg = pos 3; value = 7; done = true }
      ∷ [];
  capacity = 3;
  head = 2;
  tail = 1;
  active_count = 2;
}

wrapped_live : (i : ℕ) → i < 3 → is_busy wrapped i ≡ ltb (age_from_head wrapped i) 2
wrapped_live zero lt = refl
wrapped_live (suc zero) lt = refl
wrapped_live (suc (suc zero)) lt = refl
wrapped_live (suc (suc (suc i))) lt = absurd (omega arith)

wrapped-IsValid : IsValid wrapped
wrapped-IsValid = record {
  sized = refl;
  head_in = omega arith;
  tail_at = refl;
  fits = omega arith;
  live = wrapped_live;
}

dispatch_refines_example :
    (id : Option ℕ) × (r' : ReorderBuffer) × (dispatch wrapped "MUL" (pos 6) ≡ some (id, r'))
    × IsValid r'
    × ((is_some id, contents r') ≡ enter 3 (contents wrapped) "MUL" (pos 6))
dispatch_refines_example = dispatch_refines {r = wrapped} "MUL" (pos 6) wrapped-IsValid

commit_refines_example :
    (out : Option Retired) × (r' : ReorderBuffer) × (commit wrapped ≡ some (out, r'))
    × IsValid r'
    × ((reward out, contents r') ≡ retire (contents wrapped))
commit_refines_example = commit_refines {r = wrapped} wrapped-IsValid

write_result_refines_example :
    (r' : ReorderBuffer) × (write_result wrapped 0 9 ≡ some r')
    × IsValid r'
    × (contents r' ≡ (
        if ltb (age_from_head wrapped 0) 2
        then finish (age_from_head wrapped 0) 9 (contents wrapped)
        else contents wrapped))
write_result_refines_example = write_result_refines {r = wrapped} 0 9 wrapped-IsValid (omega arith)

squash_refines_example :
    (n : ℕ) × (r' : ReorderBuffer) × (squash_younger_than wrapped 2 ≡ some (n, r'))
    × IsValid r'
    × (contents r' ≡ keep_through (age_from_head wrapped 2) (contents wrapped))
    × (n + length (contents r') ≡ length (contents wrapped))
squash_refines_example = squash_refines {r = wrapped} 2 wrapped-IsValid (omega arith) refl

undispatch_refines_example :
    (ok : Bool) × (r' : ReorderBuffer) × (undispatch wrapped 0 ≡ (ok, r'))
    × IsValid r'
    × (ok ≡ (ltb 0 2 && (0 == youngest wrapped)))
    × (contents r' ≡ (if ok then take (2 - 1) (contents wrapped) else contents wrapped))
undispatch_refines_example = undispatch_refines {r = wrapped} 0 wrapped-IsValid

-- The oldest leaves with its value; the one behind it then blocks.
commit-wrapped :
    commit wrapped
    ≡ some (
      some (record { dest_reg = pos 3; value = 7; rob_id = 2 }),
      record wrapped {
        buffer =
            record { busy = true; op = "SUB"; dest_reg = pos 5; value = 0; done = false }
            ∷ record { busy = false; op = ""; dest_reg = pos 0; value = 0; done = false }
            ∷ record { busy = false; op = "ADD"; dest_reg = pos 3; value = 7; done = false }
            ∷ [];
        head = 0;
        active_count = 1;
      },
    )
unfolding commit
commit-wrapped = refl
