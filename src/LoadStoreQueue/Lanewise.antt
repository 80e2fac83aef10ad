-- ===== src/LoadStoreQueue/Lanewise.antt =====
-- What the scans of `dispatchLoad` do to one lane.
use ooo_superscalar_risc_sim.Common.{
  ℕ, ◌≡◌, ◌∙◌, refl, ap, Bool, true, false, not, ◌&&◌, ◌||◌, if◌then◌else◌, ltb,
}
use ooo_superscalar_risc_sim.Common.Int.{Word}
use ooo_superscalar_risc_sim.LoadStoreQueue.Lanes.{
  Lane, b0, b1, b2, b3, Quad, at_lane, put_lane, Mask, byte_at, put_byte,
}
use ooo_superscalar_risc_sim.LoadStoreQueue.Bytes.{same_lane, byte_at-put_byte}
use ooo_superscalar_risc_sim.LoadStoreQueue.Forward.{
  Scan, take_lane, forward_lane, forward_lanes, buffer_lane, buffer_lanes,
}

at_lane-put_lane :
    {A : Type 0} (b c : Lane) (a : A) (q : Quad A)
    → at_lane c (put_lane b a q) ≡ (if same_lane b c then a else at_lane c q)
at_lane-put_lane b0 b0 a q = refl
at_lane-put_lane b0 b1 a q = refl
at_lane-put_lane b0 b2 a q = refl
at_lane-put_lane b0 b3 a q = refl
at_lane-put_lane b1 b0 a q = refl
at_lane-put_lane b1 b1 a q = refl
at_lane-put_lane b1 b2 a q = refl
at_lane-put_lane b1 b3 a q = refl
at_lane-put_lane b2 b0 a q = refl
at_lane-put_lane b2 b1 a q = refl
at_lane-put_lane b2 b2 a q = refl
at_lane-put_lane b2 b3 a q = refl
at_lane-put_lane b3 b0 a q = refl
at_lane-put_lane b3 b1 a q = refl
at_lane-put_lane b3 b2 a q = refl
at_lane-put_lane b3 b3 a q = refl

-- Is the lane covered, with which byte, from a store of which age?
abbrev pub View : Type 0
View = Bool × ℕ × ℕ

abbrev pub view : Lane → Scan → View
view c st = (at_lane c st.covered_mask, byte_at c st.fwd_word, at_lane c st.byte_age)

abbrev pub forwarded : Bool → ℕ → ℕ → View → View
forwarded overlaps new id (cov, old, age) =
    if overlaps && (not cov || ltb age id) then (true, new, id) else (cov, old, age)

same_lane_self : (b : Lane) → same_lane b b ≡ true
same_lane_self b0 = refl
same_lane_self b1 = refl
same_lane_self b2 = refl
same_lane_self b3 = refl

view_self :
    (overlap : Mask) (id : ℕ) (w : Word) (b : Lane) (st : Scan)
    → view b (forward_lane overlap id w b st)
      ≡ forwarded (at_lane b overlap) (byte_at b w) id (view b st)
view_self overlap id w b st =
    go (at_lane b overlap && (not (at_lane b st.covered_mask) || ltb (at_lane b st.byte_age) id))
  where
    go :
        (hit : Bool)
        → view b (if hit then take_lane b id w st else st)
          ≡ (if hit then (true, byte_at b w, id) else view b st)
    go true =
        rw
          (
            at_lane-put_lane b b true st.covered_mask,
            byte_at-put_byte b b st.fwd_word w,
            at_lane-put_lane b b id st.byte_age,
            same_lane_self b,
          )
          refl
    go false = refl

view_other :
    (overlap : Mask) (id : ℕ) (w : Word) (b c : Lane) (st : Scan)
    → same_lane b c ≡ false
    → view c (forward_lane overlap id w b st) ≡ view c st
view_other overlap id w b c st apart =
    go (at_lane b overlap && (not (at_lane b st.covered_mask) || ltb (at_lane b st.byte_age) id))
  where
    go : (hit : Bool) → view c (if hit then take_lane b id w st else st) ≡ view c st
    go true =
        rw
          (
            at_lane-put_lane b c true st.covered_mask,
            byte_at-put_byte b c st.fwd_word w,
            at_lane-put_lane b c id st.byte_age,
            apart,
          )
          refl
    go false = refl

-- If each turn of a loop over the lanes changes its own lane only, the loop changes a lane as its turn
-- does.
module _ (step : Lane → Scan → Scan) (effect : Lane → View → View)
    (self : (b : Lane) (st : Scan) → view b (step b st) ≡ effect b (view b st))
    (other : (b c : Lane) (st : Scan)
      → same_lane b c ≡ false
      → view c (step b st) ≡ view c st) where
  view-loop :
      (c : Lane) (st : Scan)
      → view c (step b3 (step b2 (step b1 (step b0 st)))) ≡ effect c (view c st)
  view-loop b0 st =
      other b3 b0 (step b2 (step b1 (step b0 st))) refl
      ∙ other b2 b0 (step b1 (step b0 st)) refl
      ∙ other b1 b0 (step b0 st) refl
      ∙ self b0 st
  view-loop b1 st =
      other b3 b1 (step b2 (step b1 (step b0 st))) refl
      ∙ other b2 b1 (step b1 (step b0 st)) refl
      ∙ self b1 (step b0 st)
      ∙ ap (effect b1) (other b0 b1 st refl)
  view-loop b2 st =
      other b3 b2 (step b2 (step b1 (step b0 st))) refl
      ∙ self b2 (step b1 (step b0 st))
      ∙ ap (effect b2) (other b1 b2 (step b0 st) refl ∙ other b0 b2 st refl)
  view-loop b3 st =
      self b3 (step b2 (step b1 (step b0 st)))
      ∙ ap (effect b3) (
          other b2 b3 (step b1 (step b0 st)) refl
          ∙ other b1 b3 (step b0 st) refl
          ∙ other b0 b3 st refl)

pub view-forward_lanes :
    (overlap : Mask) (id : ℕ) (w : Word) (c : Lane) (st : Scan)
    → view c (forward_lanes overlap id w st)
      ≡ forwarded (at_lane c overlap) (byte_at c w) id (view c st)
unfolding forward_lanes
view-forward_lanes overlap id w =
    view-loop (λ b st. forward_lane overlap id w b st)
      (λ b v. forwarded (at_lane b overlap) (byte_at b w) id v) (view_self overlap id w)
      (view_other overlap id w)

abbrev pub buffered : Bool → ℕ → View → View
buffered overlaps new (cov, old, age) = if overlaps then (true, new, age) else (cov, old, age)

buffer_self :
    (cover overlap : Mask) (w : Word) (b : Lane) (st : Scan)
    → view b (buffer_lane cover overlap w b st)
      ≡ buffered (at_lane b overlap && not (at_lane b cover)) (byte_at b w) (view b st)
buffer_self cover overlap w b st = go (at_lane b overlap && not (at_lane b cover))
  where
    go :
        (hit : Bool)
        → view b (
            if hit
            then record st {
              fwd_word = put_byte b st.fwd_word w;
              covered_mask = put_lane b true st.covered_mask;
            }
            else st)
          ≡ buffered hit (byte_at b w) (view b st)
    go true =
        rw
          (
            at_lane-put_lane b b true st.covered_mask,
            byte_at-put_byte b b st.fwd_word w,
            same_lane_self b,
          )
          refl
    go false = refl

buffer_other :
    (cover overlap : Mask) (w : Word) (b c : Lane) (st : Scan)
    → same_lane b c ≡ false
    → view c (buffer_lane cover overlap w b st) ≡ view c st
buffer_other cover overlap w b c st apart = go (at_lane b overlap && not (at_lane b cover))
  where
    go :
        (hit : Bool)
        → view c (
            if hit
            then record st {
              fwd_word = put_byte b st.fwd_word w;
              covered_mask = put_lane b true st.covered_mask;
            }
            else st)
          ≡ view c st
    go true =
        rw (at_lane-put_lane b c true st.covered_mask, byte_at-put_byte b c st.fwd_word w, apart)
          refl
    go false = refl

pub view-buffer_lanes :
    (cover overlap : Mask) (w : Word) (c : Lane) (st : Scan)
    → view c (buffer_lanes cover overlap w st)
      ≡ buffered (at_lane c overlap && not (at_lane c cover)) (byte_at c w) (view c st)
unfolding buffer_lanes
view-buffer_lanes cover overlap w =
    view-loop (λ b st. buffer_lane cover overlap w b st)
      (λ b v. buffered (at_lane b overlap && not (at_lane b cover)) (byte_at b w) v)
      (buffer_self cover overlap w) (buffer_other cover overlap w)
