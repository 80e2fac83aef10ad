-- ===== src/Rob/InOrder.antt =====
-- What a reorder buffer promises: a bounded queue of instructions in program order, the oldest
-- first, that leave only at the front and only with their result, and from whose end a recovery
-- drops the youngest.
use Prim.Native.String.{String}
use ooo_superscalar_risc_sim.Common.{
  ℕ, zero, suc, Bool, true, false, Option, none, some, List, [], ◌∷◌, ◌++◌, if◌then◌else◌, ◌==◌,
  length, take,
}
use ooo_superscalar_risc_sim.Common.Int.{ℤ, Word}

pub record Instr : Type 0 where
  pub op : String
  pub dest_reg : ℤ
  pub result : Option Word

abbrev pub waiting : String → ℤ → Instr
waiting operation reg = record { op = operation; dest_reg = reg; result = none }

-- A new instruction goes to the end, if there is room.
abbrev pub enter : ℕ → List Instr → String → ℤ → Bool × List Instr
enter capacity q operation reg =
    if length q == capacity then (false, q) else (true, q ++ waiting operation reg ∷ [])

abbrev pub retire_front : Instr → List Instr → Option Word → Option (ℤ × Word) × List Instr
retire_front x q none = (none, x ∷ q)
retire_front x q (some value) = (some (x.dest_reg, value), q)

-- The oldest instruction leaves, if it has its result.
abbrev pub retire : List Instr → Option (ℤ × Word) × List Instr
retire [] = (none, [])
retire (x ∷ q) = retire_front x q x.result

-- The `k`-th instruction has its result.
abbrev pub finish : ℕ → Word → List Instr → List Instr
finish k x [] = []
finish zero x (i ∷ q) = record i { result = some x } ∷ q
finish (suc k) x (i ∷ q) = i ∷ finish k x q

-- The `k`-th instruction survives, and all that are older.
abbrev pub keep_through : ℕ → List Instr → List Instr
keep_through k q = take (suc k) q
