-- ===== src/Station/Live.antt =====
-- The station as the list of the instructions that wait in it, in slot order.
use ooo_superscalar_risc_sim.Common.{
  ℕ, suc, ◌^◌, ◌<◌, ◌≡◌, ◌≢◌, ◌∙◌, refl, sym, ap, subst, arith, Bool, true, false, Option, none,
  some, List, [], ◌∷◌, ◌++◌, map, if◌then◌else◌, ◌==◌, length, lt→ltb, ==_self, ne→==,
}
use ooo_superscalar_risc_sim.Common.Int.{ℤ, pos, negsuc, Word}
use ooo_superscalar_risc_sim.Station.{
  Operand, RsEntry, allocate, has_space, wake_entry, update_from_cdb, is_ready, as_int,
  peek_ready_instruction, remove_instruction, take_out, issue_ready_instruction,
}

-- The instructions in the station.
abbrev pub live : List RsEntry → List RsEntry
live [] = []
live (e ∷ es) = let rest = live es in if e.valid then e ∷ rest else rest

-- A list without its first instruction of an identifier.
abbrev pub without : ℕ → List RsEntry → List RsEntry
without id [] = []
without id (e ∷ es) = let rest = without id es in if e.inst_id == id then es else e ∷ rest

-- The first instruction whose operands are ready, and the others.
abbrev pub pick : List RsEntry → Option (RsEntry × List RsEntry)
pick [] = none
pick (e ∷ es) =
    let rest = pick es in
    if is_ready e then some (e, es) else elim rest [ none ↦ none | some q ↦ some (q.0, e ∷ q.1) ]

abbrev pub Differs : ℕ → List RsEntry → Type 0
Differs id [] = Unit
Differs id (e ∷ es) = (e.inst_id ≢ id) × Differs id es

-- Identifiers are distinct, and below 2^31.
abbrev pub Proper : List RsEntry → Type 0
Proper [] = Unit
Proper (e ∷ es) = (e.inst_id < 2 ^ 31) × Differs e.inst_id es × Proper es

-- What allocation makes of `rs`, by whether it has space.
abbrev pub Allocated : RsEntry → List RsEntry → List RsEntry × Bool → Bool → Type 0
Allocated new rs (rs', done) true =
    (done ≡ true)
    × (before : List RsEntry) × (after : List RsEntry) × (live rs ≡ before ++ after)
    × (live rs' ≡ before ++ new ∷ after)
Allocated new rs (rs', done) false = (rs' ≡ rs) × (done ≡ false) × (length (live rs) ≡ length rs)

allocate_step :
    (e : RsEntry) (es : List RsEntry) (id : ℕ) (a b : Operand)
    → let new : RsEntry = record { valid = true; inst_id = id; src1 = a; src2 = b } in
      (v : Bool)
      → e.valid ≡ v
      → (space : Bool) → has_space es ≡ space
      → Allocated new es (allocate es id a b) space
      → Allocated new (e ∷ es) (allocate (e ∷ es) id a b) (has_space (e ∷ es))
unfolding allocate has_space
allocate_step e es id a b true h true s (done, before, after, l, m) =
    let e' : RsEntry = record e { valid = true } in
    rw (h, s) (done, e' ∷ before, after, ap (λ t. e' ∷ t) l, ap (λ t. e' ∷ t) m)
allocate_step e es id a b true h false s (same, done, full) =
    let e' : RsEntry = record e { valid = true } in
    rw (h, s) (ap (λ t. e' ∷ t) same, done, ap suc full)
allocate_step e es id a b false h space s ih = rw h (refl, [], live es, refl, refl)

-- With space, allocation takes a free slot: the new instruction joins those that wait, and none of
-- them is touched or moved. A station without space holds as many instructions as it has slots; it
-- refuses and stays as it is.
pub allocate_refines :
    (rs : List RsEntry) (id : ℕ) (a b : Operand)
    → Allocated
        (record { valid = true; inst_id = id; src1 = a; src2 = b })
        rs
        (allocate rs id a b)
        (has_space rs)
unfolding allocate has_space
allocate_refines [] id a b = (refl, refl, refl)
allocate_refines (e ∷ es) id a b =
    allocate_step e es id a b e.valid refl (has_space es) refl (allocate_refines es id a b)

-- A broadcast wakes every operand that waits for its tag, and changes nothing else.
pub update_from_cdb_refines :
    (rs : List RsEntry) (tag : ℤ) (value : Word)
    → live (update_from_cdb rs tag value) ≡ map (wake_entry tag value) (live rs)
unfolding update_from_cdb
update_from_cdb_refines [] tag value = refl
update_from_cdb_refines (e ∷ es) tag value = ground (arith, update_from_cdb_refines es tag value)

live-remove_instruction :
    (rs : List RsEntry) (id : ℕ) → live (remove_instruction rs id) ≡ without id (live rs)
unfolding remove_instruction
live-remove_instruction [] id = refl
live-remove_instruction (e ∷ es) id = ground (arith, live-remove_instruction es id)

peek_lem :
    (rs : List RsEntry)
    → peek_ready_instruction rs
      ≡ elim (pick (live rs)) [ none ↦ negsuc 0 | some q ↦ as_int q.0.inst_id ]
unfolding peek_ready_instruction
peek_lem [] = refl
peek_lem (e ∷ es) = ground (arith, peek_lem es)

-- The instruction picked is one that waits, and leaving by identifier takes that one.
abbrev pub Picked : List RsEntry → Option (RsEntry × List RsEntry) → Type 0
Picked es none = Unit
Picked es (some (e, rest)) =
    (e.inst_id < 2 ^ 31)
    × (without e.inst_id es ≡ rest)
    × ((id : ℕ) → Differs id es → e.inst_id ≢ id)

pick_lem : (es : List RsEntry) → Proper es → Picked es (pick es)
pick_lem [] proper = tt
pick_lem (x ∷ xs) (small, differs, proper) =
    go (is_ready x) refl (pick xs) refl (pick_lem xs proper)
  where
    go :
        (r : Bool)
        → is_ready x ≡ r
        → (q : Option (RsEntry × List RsEntry)) → pick xs ≡ q
        → Picked xs (pick xs)
        → Picked (x ∷ xs) (pick (x ∷ xs))
    go true h q found ih = rw h (small, rw (==_self x.inst_id) refl, λ id d. d.0)
    go false h none found ih = rw (h, found) tt
    go false h (some (e, rest)) found ih =
        let picked : Picked xs (some (e, rest)) = subst (Picked xs) found ih in
        let (low, gone, apart) = picked in
        rw (h, found)
          (
            low,
            rw (ne→== x.inst_id e.inst_id (λ s. apart x.inst_id differs (sym s)))
                (ap (λ t. x ∷ t) gone),
            λ id d. apart id d.1,
          )

-- What issue gives back and leaves, by what the specification picks.
abbrev pub Issued : List RsEntry → List RsEntry × ℤ → Option (RsEntry × List RsEntry) → Type 0
Issued rs (rs', id) none = (id ≡ negsuc 0) × (rs' ≡ rs)
Issued rs (rs', id) (some (e, rest)) = (id ≡ pos e.inst_id) × (live rs' ≡ rest)

-- While identifiers are distinct and below 2^31, issue hands out the first instruction in slot
-- order whose operands are ready, and takes out exactly that one; if none is ready it returns -1
-- and takes out nothing.
pub issue_ready_instruction_refines :
    (rs : List RsEntry) → Proper (live rs) → Issued rs (issue_ready_instruction rs) (pick (live rs))
unfolding issue_ready_instruction
issue_ready_instruction_refines rs proper = go (pick (live rs)) refl (pick_lem (live rs) proper)
  where
    go :
        (q : Option (RsEntry × List RsEntry))
        → pick (live rs) ≡ q
        → Picked (live rs) (pick (live rs))
        → Issued rs
            (take_out rs (peek_ready_instruction rs), peek_ready_instruction rs)
            (pick (live rs))
    go none h picked = rw (peek_lem rs, h) (refl, refl)
    go (some (e, rest)) h picked =
        let known : Picked (live rs) (some (e, rest)) = subst (Picked (live rs)) h picked in
        let (low, gone, apart) = known in
        rw (peek_lem rs, h, lt→ltb e.inst_id (2 ^ 31) low)
          (refl, live-remove_instruction rs e.inst_id ∙ gone)
