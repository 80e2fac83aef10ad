-- ===== src/DCache/Sizes.antt =====
-- The end of a cycle and a flush keep the sizes of the tables of a data cache.
use ooo_superscalar_risc_sim.Common.{
  ℕ, zero, suc, ◌+◌, ◌≡◌, ◌∙◌, refl, ap, not, ◌&&◌, ◌||◌, Option, none, some, List, [], ◌∷◌, map,
  if◌then◌else◌, length, get_or, length-set, if_lem,
}
use ooo_superscalar_risc_sim.Common.Search.{find_index}
use ooo_superscalar_risc_sim.DCache.Conserve.{length-emit_hits}
use ooo_superscalar_risc_sim.DCache.Fills.{
  start_drain, complete_fill, complete_from, drain_entry, is_draining, step_drain,
}
use ooo_superscalar_risc_sim.DCache.Pipes.{process_pipes}
use ooo_superscalar_risc_sim.DCache.Shape.{
  SameShape, SameShape-trans, put_mshr-SameShape, process_pipes-SameShape,
}
use ooo_superscalar_risc_sim.DCache.State.{Mshr, DCache, no_mshr}
use ooo_superscalar_risc_sim.DCache.{
  tick_hits, tick_end, flush_loads, flush_hit, flush_pipe, flush_mshr,
}

complete_fill-SameShape : (i : ℕ) (d : DCache) → SameShape (complete_fill i d) d
unfolding complete_fill start_drain
complete_fill-SameShape i d =
    let m : Mshr = get_or d.mshrs i no_mshr in
    if_lem (λ (t : DCache). SameShape t d) (not m.fill_ready || m.draining) (refl, refl, refl, refl)
      (refl, refl, length-set _ i _ ∙ length-set d.mshrs i _, refl)

complete_from-SameShape : (i n : ℕ) (d : DCache) → SameShape (complete_from i n d) d
unfolding complete_from
complete_from-SameShape i zero d = (refl, refl, refl, refl)
complete_from-SameShape i (suc n) d =
    let m : Mshr = get_or d.mshrs i no_mshr in
    let d' : DCache = if m.valid && m.fill_ready then complete_fill i d else d in
    SameShape-trans (complete_from (i + 1) n d') d' d (complete_from-SameShape (i + 1) n d') (
      if_lem (λ (t : DCache). SameShape t d) (m.valid && m.fill_ready) (complete_fill-SameShape i d)
        (refl, refl, refl, refl))

drain_entry-SameShape : (i : ℕ) (d : DCache) → SameShape (drain_entry i d) d
unfolding drain_entry
drain_entry-SameShape i d =
    let m : Mshr = get_or d.mshrs i no_mshr in
    if_lem (λ (t : DCache). SameShape t d) (not m.valid || not m.draining) (refl, refl, refl, refl)
      (put_mshr-SameShape i _ d)

step_drain-SameShape : (d : DCache) → SameShape (step_drain d) d
unfolding step_drain
step_drain-SameShape d = go d.drain_mshr (find_index is_draining d.mshrs)
  where
    go :
        (o p : Option ℕ)
        → SameShape
            (elim o [
              | some i ↦ drain_entry i d
              | none ↦ elim p [ some i ↦ drain_entry i d | none ↦ d ]
            ])
            d
    go (some i) p = drain_entry-SameShape i d
    go none (some i) = drain_entry-SameShape i d
    go none none = (refl, refl, refl, refl)

pub tick_end-SameShape : (d : DCache) → SameShape (tick_end d) d
unfolding tick_end tick_hits
tick_end-SameShape d =
    let looked = process_pipes (tick_hits d) in
    let filled = complete_from 0 (length looked.mshrs) looked in
    SameShape-trans (step_drain filled) filled d (step_drain-SameShape filled) (
      SameShape-trans filled looked d (complete_from-SameShape 0 (length looked.mshrs) looked) (
        SameShape-trans looked (tick_hits d) d (process_pipes-SameShape (tick_hits d))
          (refl, length-emit_hits d.hit_pend, refl, refl)))

length-map {ℓ κ} :
    {A : Type ℓ} {B : Type κ} (f : A → B) (xs : List A) → length (map f xs) ≡ length xs
length-map f [] = refl
length-map f (x ∷ xs) = ap suc (length-map f xs)

flush_loads-SameShape : (d : DCache) → SameShape (flush_loads d) d
unfolding flush_loads
flush_loads-SameShape d = (
  length-map flush_pipe d.pipe,
  length-map flush_hit d.hit_pend,
  length-map flush_mshr d.mshrs,
  refl,
)
