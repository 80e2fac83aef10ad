-- ===== src/LoadStoreQueue/Flags.antt =====
-- Masks lane by lane, and the flags of the scans of `dispatchLoad`.
use ooo_superscalar_risc_sim.Common.{
  ℕ, ◌≡◌, ◌∙◌, refl, arith, true, false, not, ◌&&◌, ◌||◌, ltb, if_lem,
}
use ooo_superscalar_risc_sim.Common.Int.{Word}
use ooo_superscalar_risc_sim.LoadStoreQueue.Lanes.{
  Lane, b0, b1, b2, b3, at_lane, Mask, is_none, and_mask, covers,
}
use ooo_superscalar_risc_sim.LoadStoreQueue.Forward.{
  Scan, forward_lane, forward_lanes, buffer_lane, buffer_lanes,
}

pub at_lane-is_none : (c : Lane) (m : Mask) → is_none m ≡ true → at_lane c m ≡ false
at_lane-is_none b0 m e = ground arith
at_lane-is_none b1 m e = ground arith
at_lane-is_none b2 m e = ground arith
at_lane-is_none b3 m e = ground arith

pub at_lane-and_mask :
    (c : Lane) (a b : Mask) → at_lane c (and_mask a b) ≡ at_lane c a && at_lane c b
at_lane-and_mask b0 a b = refl
at_lane-and_mask b1 a b = refl
at_lane-and_mask b2 a b = refl
at_lane-and_mask b3 a b = refl

pub at_lane-covers :
    (c : Lane) (a b : Mask) → covers a b ≡ true → at_lane c b ≡ true → at_lane c a ≡ true
at_lane-covers b0 a b e h = ground arith
at_lane-covers b1 a b e h = ground arith
at_lane-covers b2 a b e h = ground arith
at_lane-covers b3 a b e h = ground arith

-- Taking lanes leaves the two flags of the scan.
flags_lane :
    (overlap : Mask) (id : ℕ) (w : Word) (b : Lane) (st : Scan)
    → ((forward_lane overlap id w b st).any_overlap ≡ st.any_overlap)
      × ((forward_lane overlap id w b st).blocked ≡ st.blocked)
flags_lane overlap id w b st =
    if_lem (λ (t : Scan). (t.any_overlap ≡ st.any_overlap) × (t.blocked ≡ st.blocked))
      (at_lane b overlap && (not (at_lane b st.covered_mask) || ltb (at_lane b st.byte_age) id))
      (refl, refl) (refl, refl)

pub flags-forward_lanes :
    (overlap : Mask) (id : ℕ) (w : Word) (st : Scan)
    → ((forward_lanes overlap id w st).any_overlap ≡ st.any_overlap)
      × ((forward_lanes overlap id w st).blocked ≡ st.blocked)
unfolding forward_lanes
flags-forward_lanes overlap id w st =
    let s1 : Scan = forward_lane overlap id w b0 st in
    let s2 : Scan = forward_lane overlap id w b1 s1 in
    let s3 : Scan = forward_lane overlap id w b2 s2 in
    let (a1, f1) = flags_lane overlap id w b0 st in
    let (a2, f2) = flags_lane overlap id w b1 s1 in
    let (a3, f3) = flags_lane overlap id w b2 s2 in
    let (a4, f4) = flags_lane overlap id w b3 s3 in (a4 ∙ a3 ∙ a2 ∙ a1, f4 ∙ f3 ∙ f2 ∙ f1)

overlap_lane :
    (cover overlap : Mask) (w : Word) (b : Lane) (st : Scan)
    → (buffer_lane cover overlap w b st).any_overlap ≡ st.any_overlap
overlap_lane cover overlap w b st =
    if_lem (λ (t : Scan). t.any_overlap ≡ st.any_overlap)
      (at_lane b overlap && not (at_lane b cover)) refl refl

pub any_overlap-buffer_lanes :
    (cover overlap : Mask) (w : Word) (st : Scan)
    → (buffer_lanes cover overlap w st).any_overlap ≡ st.any_overlap
unfolding buffer_lanes
any_overlap-buffer_lanes cover overlap w st =
    let s1 : Scan = buffer_lane cover overlap w b0 st in
    let s2 : Scan = buffer_lane cover overlap w b1 s1 in
    let s3 : Scan = buffer_lane cover overlap w b2 s2 in
    overlap_lane cover overlap w b3 s3
    ∙ overlap_lane cover overlap w b2 s2
    ∙ overlap_lane cover overlap w b1 s1
    ∙ overlap_lane cover overlap w b0 st
