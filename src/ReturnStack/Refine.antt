-- ===== src/ReturnStack/Refine.antt =====
-- The return stack keeps the youngest `capacity` addresses: it is a stack from whose bottom the
-- oldest address falls when it is full. A full snapshot undoes any speculation.
use native.Mathlib.Nat.{mod-lt}
use native.Mathlib.Decide.{dec_lt}
use ooo_superscalar_risc_sim.Common.{
  ℕ, zero, suc, ◌+◌, ◌-◌, ◌%◌, ◌<◌, ◌≡◌, ◌∙◌, refl, sym, ap, ap₂, Option, none, some, List, [], ◌∷◌,
  arith, ltb, length, take, get_or, set, length-set, length-replicate, get_or-set_self,
  if◌then◌else◌,
}
use ooo_superscalar_risc_sim.Common.Circular.{distance_self}
use ooo_superscalar_risc_sim.ReturnStack.{
  ReturnAddressStack, init, push, below, pop, copied, restore_full, get_full_snapshot,
}
use ooo_superscalar_risc_sim.ReturnStack.Backward.{
  IsValid, below_top, contents, back-next, back_in, below_top-set, take_fewer, take_all,
}

pub init-IsValid : (size : ℕ) → 0 < size → IsValid (init size)
unfolding init
init-IsValid size h = record { sized = length-replicate size 0; tos_in = h; fits = omega arith }

push-IsValid : {s : ReturnAddressStack} (pc : ℕ) → IsValid s → IsValid (push s pc)
unfolding push
push-IsValid {s} pc v = ground (
  arith,
  length-set s.stack s.tos pc,
  mod-lt (s.tos + 1) {m = s.capacity} (omega (arith, v.tos_in)),
)

pop-IsValid : {s : ReturnAddressStack} → IsValid s → IsValid (pop s).1
unfolding pop
pop-IsValid {s} v = ground (arith, back_in s.capacity s.tos v.tos_in)

-- The stack that the code keeps round the end of its array.
abbrev pub bounded_push : ℕ → List ℕ → ℕ → List ℕ
bounded_push cap l pc = take cap (pc ∷ l)

abbrev pub bounded_pop : List ℕ → Option ℕ × List ℕ
bounded_pop [] = (none, [])
bounded_pop (x ∷ l) = (some x, l)

module _ {s : ReturnAddressStack} (v : IsValid s) (pc : ℕ) where
  -- With `n` slots in use after the push, the pushed address is on top of `n - 1` old ones.
  pushed_window :
      (n : ℕ)
      → n < s.capacity
      → below_top (set s.stack s.tos pc) s.capacity ((s.tos + 1) % s.capacity) (suc n)
        ≡ pc ∷ below_top s.stack s.capacity s.tos n
  pushed_window n lt =
      ap₂ ◌∷◌
        (ap (λ i. get_or (set s.stack s.tos pc) i 0) (back-next s.capacity s.tos v.tos_in)
          ∙ get_or-set_self s.stack s.tos pc 0 (rw v.sized v.tos_in))
        (ap (λ i. below_top (set s.stack s.tos pc) s.capacity i n)
            (back-next s.capacity s.tos v.tos_in)
          ∙ below_top-set s.stack s.capacity s.tos pc s.tos n v.tos_in v.tos_in
              (omega (arith, distance_self s.capacity s.tos v.tos_in)))

  contents-push : contents (push s pc) ≡ bounded_push s.capacity (contents s) pc
  unfolding push
  contents-push = elim (dec_lt s.count s.capacity) [
    | yes room ↦
        ap (below_top (set s.stack s.tos pc) s.capacity ((s.tos + 1) % s.capacity)) (grown room)
        ∙ pushed_window s.count room
        ∙ sym (
            clipped
            ∙ ap (λ l. pc ∷ l)
                (take_all s.stack s.capacity s.tos (s.capacity - 1) s.count (omega arith)))
    | no full ↦
        ap (below_top (set s.stack s.tos pc) s.capacity ((s.tos + 1) % s.capacity)) (kept full)
        ∙ pushed_window (s.capacity - 1) (omega (arith, v.tos_in))
        ∙ sym (
            clipped
            ∙ ap (λ l. pc ∷ l)
                (take_fewer s.stack s.capacity s.tos (s.capacity - 1) s.count (omega arith)))
  ]
    where
      grown :
          s.count < s.capacity
          → (if ltb s.count s.capacity then s.count + 1 else s.count) ≡ suc s.count
      grown room = ground arith

      kept :
          ¬ (s.count < s.capacity)
          → (if ltb s.count s.capacity then s.count + 1 else s.count) ≡ suc (s.capacity - 1)
      kept full = ground (arith, v.fits, v.tos_in)

      clipped : take s.capacity (pc ∷ contents s) ≡ pc ∷ take (s.capacity - 1) (contents s)
      clipped =
          let e : s.capacity ≡ suc (s.capacity - 1) = omega (arith, v.tos_in) in
          ap (λ k. take k (pc ∷ contents s)) e

abbrev popped : ReturnAddressStack → ReturnAddressStack
popped s = record s { tos = below s; count = s.count - 1 }

contents_top :
    (s : ReturnAddressStack)
    → 0 < s.count
    → contents s ≡ get_or s.stack (below s) 0 ∷ contents (popped s)
contents_top s left =
    let e : s.count ≡ suc (s.count - 1) = omega arith in ap (below_top s.stack s.capacity s.tos) e

contents-pop : (s : ReturnAddressStack) → ((pop s).0, contents (pop s).1) ≡ bounded_pop (contents s)
contents-pop s = elim (dec_lt 0 s.count) [
  | yes left ↦
      let e : pop s ≡ (some (get_or s.stack (below s) 0), popped s) = unfold pop in ground arith in
      rw (e, contents_top s left) refl
  | no none_left ↦
      let z : s.count ≡ 0 = omega arith in
      let e : pop s ≡ (none, s) = unfold pop in ground arith in
      rw e (
        ap (λ n. (none, below_top s.stack s.capacity s.tos n)) z
        ∙ sym (ap (λ n. bounded_pop (below_top s.stack s.capacity s.tos n)) z))
]

-- The calls that fetch makes on a speculative path, and what the pops return.
pub data Call : Type 0 where
  pushes : ℕ → Call
  pops : Call

pub run : ReturnAddressStack → List Call → List (Option ℕ) × ReturnAddressStack
run s [] = ([], s)
run s (pushes pc ∷ cs) = run (push s pc) cs
run s (pops ∷ cs) = let (x, s') = pop s in let (xs, s'') = run s' cs in (x ∷ xs, s'')

-- The same calls on the stack that drops its oldest address.
pub bounded_run : ℕ → List ℕ → List Call → List (Option ℕ)
bounded_run cap l [] = []
bounded_run cap l (pushes pc ∷ cs) = bounded_run cap (bounded_push cap l pc) cs
bounded_run cap l (pops ∷ cs) = let (x, l') = bounded_pop l in x ∷ bounded_run cap l' cs

capacity-push : (s : ReturnAddressStack) (pc : ℕ) → (push s pc).capacity ≡ s.capacity
unfolding push
capacity-push s pc = refl

capacity-pop : (s : ReturnAddressStack) → (pop s).1.capacity ≡ s.capacity
unfolding pop
capacity-pop s = ground arith

-- Every pop of a run predicts what the bounded stack of the youngest `capacity` addresses predicts.
pub pops_refine :
    (cs : List Call) {s : ReturnAddressStack}
    → IsValid s
    → (run s cs).0 ≡ bounded_run s.capacity (contents s) cs
unfolding run bounded_run
pops_refine [] v = refl
pops_refine (pushes pc ∷ cs) {s} v =
    pops_refine cs (push-IsValid pc v)
    ∙ ap₂ (λ n l. bounded_run n l cs) (capacity-push s pc) (contents-push v pc)
pops_refine (pops ∷ cs) {s} v = ap₂ ◌∷◌ (ap (λ p. p.0) (contents-pop s)) (
    pops_refine cs (pop-IsValid v)
    ∙ ap₂ (λ n l. bounded_run n l cs) (capacity-pop s) (ap (λ p. p.1) (contents-pop s)))

copied_self : (n : ℕ) (xs : List ℕ) → length xs ≡ n → copied n xs ≡ xs
unfolding copied
copied_self zero [] h = refl
copied_self zero (x ∷ xs) h = absurd (omega arith)
copied_self (suc n) [] h = absurd (omega arith)
copied_self (suc n) (x ∷ xs) h = ap (λ l. x ∷ l) (copied_self n xs (omega arith))

capacity-run : (cs : List Call) (s : ReturnAddressStack) → (run s cs).1.capacity ≡ s.capacity
unfolding run
capacity-run [] s = refl
capacity-run (pushes pc ∷ cs) s = capacity-run cs (push s pc) ∙ capacity-push s pc
capacity-run (pops ∷ cs) s = capacity-run cs (pop s).1 ∙ capacity-pop s

-- A full snapshot taken before any pushes and pops, overwritten slots included, brings the stack back
-- exactly as it was.
pub restore_full-run :
    (cs : List Call) {s : ReturnAddressStack}
    → IsValid s
    → let (saved_tos, saved_count, saved_stack) = get_full_snapshot s in
      restore_full (run s cs).1 saved_tos saved_count saved_stack ≡ s
unfolding get_full_snapshot restore_full
restore_full-run cs {s} v =
    let e : copied (run s cs).1.capacity s.stack ≡ s.stack =
      ap (λ n. copied n s.stack) (capacity-run cs s) ∙ copied_self s.capacity s.stack v.sized in
    λ i. record { stack = e i; capacity = capacity-run cs s i; tos = s.tos; count = s.count }
