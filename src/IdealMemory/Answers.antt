-- ===== src/IdealMemory/Answers.antt =====
-- What a read answers after a write.
use ooo_superscalar_risc_sim.Common.{
  ℕ, ◌/◌, ◌<◌, ◌≡◌, ◌∙◌, refl, sym, ap, arith, Bool, true, false, List, [], ◌∷◌, ◌++◌, length,
  get_or, set, length-set, get_or-set_self, get_or-set_ne, lt→ltb, ltb, if◌then◌else◌, ◌==◌, eq→==,
  ==_iff,
}
use ooo_superscalar_risc_sim.Common.Int.{Word}
use ooo_superscalar_risc_sim.MemTypes.{DataMemReq, DataMemResp}
use ooo_superscalar_risc_sim.LoadStoreQueue.Lanes.{merge_bytes}
use ooo_superscalar_risc_sim.IdealMemory.{
  IdealMemorySystem, response, take_write, take_read, try_data_req, pop_data_resps,
}

append_two :
    (xs : List DataMemResp) (a b : DataMemResp) → (xs ++ a ∷ []) ++ b ∷ [] ≡ xs ++ a ∷ b ∷ []
append_two [] a b = refl
append_two (x ∷ xs) a b = ap (λ t. x ∷ t) (append_two xs a b)

answer :
    (memory : List Word) (i j : ℕ) (v : Word)
    → i < length memory
    → j < length memory
    → (if ltb j (length (set memory i v)) then get_or (set memory i v) j 0 else 0)
      ≡ (if i == j then v else get_or memory j 0)
answer memory i j v in_i in_j =
    rw (lt→ltb j (length (set memory i v)) (omega (arith, length-set memory i v, in_j)))
      (go (i == j) refl)
  where
    go :
        (b : Bool)
        → (i == j) ≡ b
        → get_or (set memory i v) j 0 ≡ (if b then v else get_or memory j 0)
    go true e =
        ap (λ k. get_or (set memory i v) k 0) (sym ((==_iff i j).0 e))
        ∙ get_or-set_self memory i v 0 in_i
    go false e = get_or-set_ne memory i j v 0 (λ h. absurd (ground (arith, eq→== i j h)))

-- After a write, both being in memory, a read answers the word as it was with the bytes of the mask
-- written, if it asks for the word that was written, and otherwise the word as it was; the two responses
-- come in the order of the requests, behind those that wait.
pub read-write :
    (m : IdealMemorySystem) (w r : DataMemReq)
    → w.write ≡ true
    → r.write ≡ false
    → w.addr / 4 < length m.memory
    → r.addr / 4 < length m.memory
    → (pop_data_resps (try_data_req (try_data_req m w).1 r).1).0
      ≡ m.data_resps
        ++ response w 0
          ∷ response r (
              if w.addr / 4 == r.addr / 4
              then merge_bytes (get_or m.memory (w.addr / 4) 0) w.wdata w.wstrb
              else get_or m.memory (r.addr / 4) 0)
          ∷ []
unfolding try_data_req
read-write m w r hw hr in_w in_r =
    ap (λ b. (if b then take_write m1 r else take_read m1 r).data_resps) hr
    ∙ ap (λ b. (take_read (if b then take_write m w else take_read m w) r).data_resps) hw
    ∙ ap
        (λ b.
          (take_read (record (take_write m w) { memory = if b then after else m.memory })
            r).data_resps)
        (lt→ltb (w.addr / 4) (length m.memory) in_w)
    ∙ append_two m.data_resps _ _
    ∙ ap (λ t. m.data_resps ++ response w 0 ∷ response r t ∷ [])
        (answer m.memory (w.addr / 4) (r.addr / 4) v in_w in_r)
  where
    m1 : IdealMemorySystem
    m1 = (try_data_req m w).1

    v : Word
    v = merge_bytes (get_or m.memory (w.addr / 4) 0) w.wdata w.wstrb

    after : List Word
    after = set m.memory (w.addr / 4) v
