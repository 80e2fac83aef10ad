-- ===== src/Rob/Refine.antt =====
-- A valid reorder buffer behaves as the queue of the instructions that it holds.
use Prim.Native.String.{String}
use native.Mathlib.Decide.{dec_lt}
use ooo_superscalar_risc_sim.Common.{
  ℕ, ◌<◌, ◌≡◌, ◌∙◌, refl, sym, Bool, true, false, Option, none, some, arith, ltb, ltb→lt,
  if◌then◌else◌, inl, inr,
}
use ooo_superscalar_risc_sim.Common.Circular.{add_distance}
use ooo_superscalar_risc_sim.Common.Int.{ℤ, Word}
use ooo_superscalar_risc_sim.Rob.{
  ReorderBuffer, dispatch, write_result, Retired, commit, age_from_head,
}
use ooo_superscalar_risc_sim.Rob.Invariant.{
  slot, is_busy, IsValid, dispatched, dispatch_room, dispatched-IsValid, retired, receipt,
  commit_cases, retired-IsValid, completed, write_result_cases, completed-IsValid,
}
use ooo_superscalar_risc_sim.Rob.InOrder.{enter, retire, finish}
use ooo_superscalar_risc_sim.Rob.Contents.{
  contents, length-contents, contents-dispatched, contents-front, contents-retired,
  contents-completed,
}

abbrev pub is_some {ℓ} : {A : Type ℓ} → Option A → Bool
is_some none = false
is_some (some a) = true

-- Dispatch never fails an assertion: it enters the instruction at the end of the queue when there is
-- room and refuses it otherwise, and keeps the invariant.
pub dispatch_refines :
    {r : ReorderBuffer} (operation : String) (reg : ℤ)
    → IsValid r
    → (id : Option ℕ) × (r' : ReorderBuffer) × (dispatch r operation reg ≡ some (id, r'))
      × IsValid r'
      × ((is_some id, contents r') ≡ enter r.capacity (contents r) operation reg)
dispatch_refines {r} operation reg v = elim (dec_lt r.active_count r.capacity) [
  | yes room ↦ (
    some r.tail,
    dispatched r operation reg,
    dispatch_room operation reg v room,
    dispatched-IsValid operation reg v room,
    rw (length-contents r, contents-dispatched v operation reg room) (ground arith),
  )
  | no full ↦
      let e : r.active_count ≡ r.capacity = omega (arith, v.fits) in
      (none, r, unfold dispatch in ground arith, v, rw (length-contents r) (ground arith))
]

abbrev pub reward : Option Retired → Option (ℤ × Word)
reward none = none
reward (some c) = some (c.dest_reg, c.value)

-- Commit never fails an assertion: it retires the oldest instruction, if there is one and it has its
-- result, hands out its register and value, and keeps the invariant.
pub commit_refines :
    {r : ReorderBuffer}
    → IsValid r
    → (out : Option Retired) × (r' : ReorderBuffer) × (commit r ≡ some (out, r'))
      × IsValid r'
      × ((reward out, contents r') ≡ retire (contents r))
commit_refines {r} v = elim (commit_cases v) [
  | inl (left, done, e) ↦ (
    some (receipt r),
    retired r,
    e,
    retired-IsValid v left,
    rw (contents-front v left, contents-retired v left, done) refl,
  )
  | inr (inl empty, e) ↦ (none, r, e, v, nothing empty)
  | inr (inr pending, e) ↦ (none, r, e, v, blocked pending)
]
  where
    nothing : r.active_count ≡ 0 → (reward none, contents r) ≡ retire (contents r)
    nothing empty = rw empty refl

    blocked : (slot r r.head).done ≡ false → (reward none, contents r) ≡ retire (contents r)
    blocked pending = elim (dec_lt 0 r.active_count) [
      | yes left ↦ rw (contents-front v left, pending) refl
      | no empty ↦ nothing (omega arith)
    ]

-- A result for a tag below the capacity reaches exactly the in-flight instruction that the tag names, and
-- of a tag that is not in flight nothing changes; the invariant is kept.
pub write_result_refines :
    {r : ReorderBuffer} (id : ℕ) (x : Word)
    → IsValid r
    → id < r.capacity
    → (r' : ReorderBuffer) × (write_result r id x ≡ some r')
      × IsValid r'
      × (contents r' ≡ (
          if ltb (age_from_head r id) r.active_count
          then finish (age_from_head r id) x (contents r)
          else contents r))
write_result_refines {r} id x v lt = elim (write_result_cases id x v lt) [
  | inl (busy, e) ↦ (completed r id x, e, completed-IsValid id x v lt, written busy)
  | inr (idle, e) ↦ (r, e, v, rw (sym (v.live id lt) ∙ idle) refl)
]
  where
    written :
        is_busy r id ≡ true
        → contents (completed r id x) ≡ (
            if ltb (age_from_head r id) r.active_count
            then finish (age_from_head r id) x (contents r)
            else contents r)
    written busy =
        let near : ltb (age_from_head r id) r.active_count ≡ true = sym (v.live id lt) ∙ busy in
        rw near (
          rw (add_distance r.capacity r.head v.head_in id lt) at
            (contents-completed v (age_from_head r id) x (ltb→lt _ _ near)))
