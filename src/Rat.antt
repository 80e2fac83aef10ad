-- ===== src/Rat.antt =====
-- src/register_alias_table.cpp and include/register_alias_table.hpp: which in-flight instruction
-- will produce each logical register. An entry -1 (the value is in the register file) is `none`.
pub mod Laws
mod Tests
use ooo_superscalar_risc_sim.Common.{
  ℕ, Bool, true, false, ◌&&◌, ◌||◌, Option, none, some, List, [], ◌∷◌, map, if◌then◌else◌, ◌==◌,
  length, get_or, set, replicate,
}
use ooo_superscalar_risc_sim.Common.Int.{ℤ, index}

-- A saved map, such as `getState` returns.
abbrev pub RatMap : Type 0
RatMap = List (Option ℕ)

pub record RegisterAliasTable : Type 0 where
  pub rat : RatMap
  pub num_logical_regs : ℕ

unfoldable pub init : ℕ → RegisterAliasTable
init logical_count = record { rat = replicate logical_count none; num_logical_regs = logical_count }

unfoldable pub lookup : RegisterAliasTable → ℤ → Option ℕ
lookup t reg = elim (index reg t.num_logical_regs) [ none ↦ none | some r ↦ get_or t.rat r none ]

unfoldable pub rename : RegisterAliasTable → ℤ → ℕ → RegisterAliasTable
rename t reg rob_id = elim (index reg t.num_logical_regs) [
  | none ↦ t
  | some r ↦ record t { rat = set t.rat r (some rob_id) }
]

abbrev pub is_tag : Option ℕ → ℕ → Bool
is_tag none id = false
is_tag (some t) id = t == id

-- `if (map[r] == id) map[r] = -1;`
unfoldable pub clear_entry : RatMap → ℕ → ℕ → RatMap
clear_entry m r id = if is_tag (get_or m r none) id then set m r none else m

unfoldable pub commit : RegisterAliasTable → ℤ → ℕ → RegisterAliasTable
unfolding clear_entry
commit t reg committing = elim (index reg t.num_logical_regs) [
  | none ↦ t
  | some r ↦ record t { rat = clear_entry t.rat r committing }
]

pub get_state : RegisterAliasTable → RatMap
get_state t = t.rat

pub restore_state : RegisterAliasTable → RatMap → RegisterAliasTable
restore_state t state = if length state == t.num_logical_regs then record t { rat = state } else t

-- Membership in the set of freed tags.
unfoldable pub contains : List ℕ → ℕ → Bool
contains [] a = false
contains (x ∷ xs) a = a == x || contains xs a

abbrev pub scrub_entry : List ℕ → Option ℕ → Option ℕ
scrub_entry freed none = none
scrub_entry freed (some t) = if contains freed t then none else some t

-- Entry 0 is cleared; the loop goes over the entries from 1 on.
abbrev pub scrub : List ℕ → RatMap → RatMap
scrub freed [] = []
scrub freed (x ∷ xs) = none ∷ map (scrub_entry freed) xs

pub restore_state_scrub : RegisterAliasTable → RatMap → List ℕ → RegisterAliasTable
restore_state_scrub t state freed =
    if length state == t.num_logical_regs then record t { rat = scrub freed state } else t
