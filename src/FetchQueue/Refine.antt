-- ===== src/FetchQueue/Refine.antt =====
-- The fetch queue is a bounded first-in first-out queue: no sequence of calls tells them apart.
use native.Mathlib.Nat.{mod-lt, mod-add-mod, mod-eq_of_lt}
use native.Mathlib.Numerals.{add-one}
use native.Mathlib.Decide.{dec_lt}
use ooo_superscalar_risc_sim.Common.{
  ℕ, suc, ◌+◌, ◌-◌, ◌%◌, ◌≤◌, ◌<◌, ◌≡◌, ◌≢◌, ◌∙◌, refl, sym, ap, ap₂, true, false, none, some, List,
  [], ◌∷◌, ◌++◌, arith, eq→==, ne→==, length, get_or, set, length-set, length-replicate,
  get_or-set_self, get_or-set_ne,
}
use ooo_superscalar_risc_sim.Common.Circular.{
  window, length-window, window_congr, window_snoc, window-mod, distance, distance_add,
}
use ooo_superscalar_risc_sim.Types.{FetchedInstruction, default_instruction}
use ooo_superscalar_risc_sim.FetchQueue.Fifo
use ooo_superscalar_risc_sim.FetchQueue.Fifo.{
  Call, enqueues, peeks, dequeues, flushes, Reply, accepted, out, done,
}
use ooo_superscalar_risc_sim.FetchQueue.{
  InstructionFetchQueue, init, enqueue, front, peek, dequeue, flush,
}

pub record IsValid (q : InstructionFetchQueue) : Type 0 where
  pub sized : length q.queue ≡ q.capacity
  pub head_in : q.head < q.capacity
  pub tail_at : q.tail ≡ (q.head + q.active_count) % q.capacity
  pub fits : q.active_count ≤ q.capacity

abbrev pub read : InstructionFetchQueue → ℕ → FetchedInstruction
read q i = get_or q.queue i default_instruction

-- The queued instructions, the oldest first.
abbrev pub contents : InstructionFetchQueue → List FetchedInstruction
contents q = window (read q) q.capacity q.head q.active_count

pub run : InstructionFetchQueue → List Call → List Reply
run q [] = []
run q (enqueues i ∷ cs) = let (b, q') = enqueue q i in accepted b ∷ run q' cs
run q (peeks ∷ cs) = out (peek q) ∷ run q cs
run q (dequeues ∷ cs) = let (i, q') = dequeue q in out i ∷ run q' cs
run q (flushes ∷ cs) = done ∷ run (flush q) cs

pub init-IsValid : (size : ℕ) → 0 < size → IsValid (init size)
unfolding init
init-IsValid size h = record {
  sized = length-replicate size default_instruction;
  head_in = h;
  tail_at = omega arith;
  fits = omega arith;
}

-- The queue after an accepted instruction.
abbrev entered : InstructionFetchQueue → FetchedInstruction → InstructionFetchQueue
entered q i = record q {
  queue = set q.queue q.tail i;
  tail = (q.tail + 1) % q.capacity;
  active_count = q.active_count + 1;
}

abbrev left : InstructionFetchQueue → InstructionFetchQueue
left q = record q { head = (q.head + 1) % q.capacity; active_count = q.active_count - 1 }

length-contents : (q : InstructionFetchQueue) → length (contents q) ≡ q.active_count
length-contents q = length-window (read q) q.capacity q.head q.active_count

module _ {q : InstructionFetchQueue} (v : IsValid q) where
  entered-IsValid : (i : FetchedInstruction) → q.active_count < q.capacity → IsValid (entered q i)
  entered-IsValid i room = record {
    sized = length-set q.queue q.tail i ∙ v.sized;
    head_in = v.head_in;
    tail_at = rw v.tail_at (
        mod-add-mod (q.head + q.active_count) q.capacity 1
        ∙ ap (λ t. t % q.capacity) (omega arith));
    fits = omega arith;
  }

  left-IsValid : 0 < q.active_count → IsValid (left q)
  left-IsValid some_left = record {
    sized = v.sized;
    head_in = mod-lt (q.head + 1) (omega (arith, v.head_in));
    tail_at =
        v.tail_at
        ∙ ap (λ t. t % q.capacity) (omega arith)
        ∙ sym (mod-add-mod (q.head + 1) q.capacity (q.active_count - 1));
    fits = omega (arith, v.fits);
  }

  flush-IsValid : IsValid (flush q)
  unfolding flush
  flush-IsValid = record {
    sized = v.sized;
    head_in = omega (arith, v.head_in);
    tail_at = omega (arith, v.head_in);
    fits = omega arith;
  }

  contents-entered :
      (i : FetchedInstruction)
      → q.active_count < q.capacity
      → contents (entered q i) ≡ contents q ++ i ∷ []
  contents-entered i room =
      ap₂ (λ t n. window (λ k. get_or (set q.queue t i) k default_instruction) q.capacity q.head n)
        v.tail_at (add-one q.active_count)
      ∙ window_snoc (λ k. get_or (set q.queue at i) k default_instruction) q.capacity q.head
          q.active_count
      ∙ ap₂ (λ (l : List FetchedInstruction) (x : FetchedInstruction). l ++ x ∷ [])
          (window_congr (λ k. get_or (set q.queue at i) k default_instruction) (read q) q.capacity
            q.head q.active_count
            (λ k lt.
              get_or-set_ne q.queue at ((q.head + k) % q.capacity) i default_instruction
                (apart k lt)))
          (get_or-set_self q.queue at i default_instruction
            (rw v.sized (mod-lt (q.head + q.active_count) (omega (arith, v.head_in)))))
    where
      at : ℕ
      at = (q.head + q.active_count) % q.capacity

      apart : (k : ℕ) → k < q.active_count → at ≢ (q.head + k) % q.capacity
      apart k lt e = absurd (
          omega (
            arith,
            distance_add q.capacity q.head v.head_in q.active_count room,
            distance_add q.capacity q.head v.head_in k (omega arith),
            ap (distance q.capacity q.head) e,
          ))

  contents-front : 0 < q.active_count → contents q ≡ front q ∷ contents (left q)
  contents-front some_left =
      let e : q.active_count ≡ suc (q.active_count - 1) = omega arith in
      ap (window (read q) q.capacity q.head) e
      ∙ ap₂ ◌∷◌ (ap (read q) (mod-eq_of_lt v.head_in))
          (sym (window-mod (read q) q.capacity (q.head + 1) (q.active_count - 1)))

Fifo-flush :
    (q : InstructionFetchQueue) (cs : List Call)
    → Fifo.run (flush q).capacity (contents (flush q)) cs ≡ Fifo.run q.capacity [] cs
unfolding flush
Fifo-flush q cs = refl

-- Each call returns what the bounded queue of the contents returns, on every sequence of calls: no
-- instruction is lost, doubled or reordered across the wrap, and a flush empties the queue.
pub run_refines :
    (cs : List Call) {q : InstructionFetchQueue}
    → IsValid q
    → run q cs ≡ Fifo.run q.capacity (contents q) cs
unfolding run Fifo.run
run_refines [] v = refl
run_refines (enqueues i ∷ cs) {q} v = elim (dec_lt q.active_count q.capacity) [
  | yes room ↦
      let e : enqueue q i ≡ (true, entered q i) = unfold enqueue in ground arith in
      rw
        (
          e,
          length-contents q,
          ne→== q.active_count q.capacity (omega arith),
          ← contents-entered v i room,
        )
        (ap (λ r. accepted true ∷ r) (run_refines cs (entered-IsValid v i room)))
  | no full ↦
      let at : q.active_count ≡ q.capacity = omega (arith, v.fits) in
      let e : enqueue q i ≡ (false, q) = unfold enqueue in ground arith in
      rw (e, length-contents q, eq→== q.active_count q.capacity at)
        (ap (λ r. accepted false ∷ r) (run_refines cs v))
]
run_refines (peeks ∷ cs) {q} v = elim (dec_lt 0 q.active_count) [
  | yes some_left ↦
      let e : peek q ≡ some (front q) = unfold peek in ground arith in
      rw (e, run_refines cs v, contents-front v some_left) refl
  | no none_left ↦
      let z : q.active_count ≡ 0 = omega arith in
      let e : peek q ≡ none = unfold peek in ground arith in rw (e, run_refines cs v, z) refl
]
run_refines (dequeues ∷ cs) {q} v = elim (dec_lt 0 q.active_count) [
  | yes some_left ↦
      let e : dequeue q ≡ (some (front q), left q) = unfold dequeue in ground arith in
      rw (e, contents-front v some_left)
        (ap (λ r. out (some (front q)) ∷ r) (run_refines cs (left-IsValid v some_left)))
  | no none_left ↦
      let z : q.active_count ≡ 0 = omega arith in
      let e : dequeue q ≡ (none, q) = unfold dequeue in ground arith in
      rw (e, run_refines cs v, z) refl
]
run_refines (flushes ∷ cs) {q} v =
    ap (λ r. done ∷ r) (run_refines cs (flush-IsValid v) ∙ Fifo-flush q cs)
