-- ===== src/Station.antt =====
-- src/reservation_station.cpp and include/reservation_station.hpp: a pool of micro-operations waiting
-- for their operands. Tags are the integers that the reorder buffer hands out; printState is left out.
pub mod Live
mod Tests
use ooo_superscalar_risc_sim.Common.{
  ℕ, zero, suc, ◌-◌, ◌^◌, Bool, true, false, not, ◌&&◌, Option, none, some, List, [], ◌∷◌,
  if◌then◌else◌, ltb, ◌==◌, replicate,
}
use ooo_superscalar_risc_sim.Common.Int.{ℤ, pos, negsuc, eq_ℤ, Word}
use ooo_superscalar_risc_sim.Common.Signed.{word_mod}

-- One source operand: ready with a value, or waiting for a tag.
pub record Operand : Type 0 where
  pub ready : Bool
  pub tag : ℤ
  pub value : Word

pub record RsEntry : Type 0 where
  pub valid : Bool
  pub inst_id : ℕ
  pub src1 : Operand
  pub src2 : Operand

-- What the constructor leaves in a slot; only `valid` is ever read of it.
abbrev pub no_operand : Operand
no_operand = record { ready = false; tag = pos 0; value = 0 }

abbrev pub no_entry : RsEntry
no_entry = record { valid = false; inst_id = 0; src1 = no_operand; src2 = no_operand }

abbrev pub init : ℕ → List RsEntry
init size = replicate size no_entry

unfoldable pub allocate : List RsEntry → ℕ → Operand → Operand → List RsEntry × Bool
allocate [] id a b = ([], false)
allocate (e ∷ es) id a b =
    let (rest, done) = allocate es id a b in
    if not e.valid
    then (record { valid = true; inst_id = id; src1 = a; src2 = b } ∷ es, true)
    else (e ∷ rest, done)

unfoldable pub has_space : List RsEntry → Bool
has_space [] = false
has_space (e ∷ es) = let rest = has_space es in if not e.valid then true else rest

unfoldable pub sync_operands : List RsEntry → ℕ → Operand → Operand → List RsEntry
sync_operands [] id a b = []
sync_operands (e ∷ es) id a b =
    let rest = sync_operands es id a b in
    if e.valid && e.inst_id == id then record e { src1 = a; src2 = b } ∷ es else e ∷ rest

-- An operand that waits for the tag becomes ready with the value.
abbrev pub wake : ℤ → Word → Operand → Operand
wake tag value o =
    if not o.ready && eq_ℤ o.tag tag then record o { ready = true; value = value } else o

abbrev pub wake_entry : ℤ → Word → RsEntry → RsEntry
wake_entry tag value e =
    if e.valid then record e { src1 = wake tag value e.src1; src2 = wake tag value e.src2 } else e

unfoldable pub update_from_cdb : List RsEntry → ℤ → Word → List RsEntry
update_from_cdb [] tag value = []
update_from_cdb (e ∷ es) tag value = wake_entry tag value e ∷ update_from_cdb es tag value

abbrev pub is_ready : RsEntry → Bool
is_ready e = e.src1.ready && e.src2.ready

-- `static_cast<int>` of an identifier.
abbrev pub as_int : ℕ → ℤ
as_int id = if ltb id (2 ^ 31) then pos id else negsuc (word_mod - 1 - id)

unfoldable pub peek_ready_instruction : List RsEntry → ℤ
peek_ready_instruction [] = negsuc 0
peek_ready_instruction (e ∷ es) =
    let rest = peek_ready_instruction es in if e.valid && is_ready e then as_int e.inst_id else rest

unfoldable pub collect_ready_instructions : List RsEntry → List ℕ
collect_ready_instructions [] = []
collect_ready_instructions (e ∷ es) =
    let rest = collect_ready_instructions es in
    if e.valid && is_ready e then e.inst_id ∷ rest else rest

unfoldable pub remove_instruction : List RsEntry → ℕ → List RsEntry
remove_instruction [] id = []
remove_instruction (e ∷ es) id =
    let rest = remove_instruction es id in
    if e.valid && e.inst_id == id then record e { valid = false } ∷ es else e ∷ rest

unfoldable pub squash_inst_ids : List RsEntry → List ℕ → List RsEntry
squash_inst_ids rs [] = rs
squash_inst_ids rs (id ∷ ids) = squash_inst_ids (remove_instruction rs id) ids

-- The instruction that the peek returns leaves; a negative result removes none.
abbrev pub take_out : List RsEntry → ℤ → List RsEntry
take_out rs (pos id) = remove_instruction rs id
take_out rs (negsuc n) = rs

unfoldable pub issue_ready_instruction : List RsEntry → List RsEntry × ℤ
issue_ready_instruction rs = let id = peek_ready_instruction rs in (take_out rs id, id)
