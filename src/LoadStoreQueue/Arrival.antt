-- ===== src/LoadStoreQueue/Arrival.antt =====
-- What a response of the memory system does to the queue.
use native.Mathlib.Decide.{dec_lt}
use ooo_superscalar_risc_sim.Common.{
  ℕ, ◌+◌, ◌-◌, ◌≤◌, ◌<◌, ◌≡◌, ◌∙◌, refl, sym, ap, subst, Bool, true, false, not, ◌&&◌, ◌||◌, none,
  some, arith, if◌then◌else◌, ltb, lt→ltb, le→ltb, ◌==◌, ==_iff, eq→==, ne→==, length, get_or, set,
  get_or-set_self, get_or-set_ne,
}
use ooo_superscalar_risc_sim.Common.Int.{ℤ, pos, negsuc, eq_ℤ, index, Word}
use ooo_superscalar_risc_sim.MemTypes.{DataMemResp}
use ooo_superscalar_risc_sim.LoadStoreQueue.{LsqEntry, no_entry, no_store, LoadStoreQueue}
use ooo_superscalar_risc_sim.LoadStoreQueue.Forward.{loaded}
use ooo_superscalar_risc_sim.LoadStoreQueue.Assemble.{final_data}
use ooo_superscalar_risc_sim.LoadStoreQueue.Cycle.{
  take_resp, apply_data_resp, offers, promoted, acknowledge,
}

-- Is the response the one to the request that the load has sent?
abbrev pub expects : DataMemResp → LsqEntry → Bool
expects r e =
    (e.valid && (e.is_load && (e.awaiting_mem_resp && e.mem_req_sent))) && r.cookie == e.mem_cookie

-- An entry before and after a response, by whether the response is for it.
abbrev pub Arrives : Bool → DataMemResp → LsqEntry → LsqEntry → Bool → Type 0
Arrives ba r e e' true =
    (e'.memory_data_buffer ≡ final_data ba r.rdata e)
    × ((m : Word) → final_data ba m e' ≡ e'.memory_data_buffer)
    × (offers e' ≡ false)
    × (offers (promoted e') ≡ e.is_accessing_memory && not e.executed)
Arrives ba r e e' false = e' ≡ e

take_resp-Arrives :
    (ba : Bool) (r : DataMemResp) (e : LsqEntry) → Arrives ba r e (take_resp ba r e) (expects r e)
take_resp-Arrives ba r e = go (expects r e) refl
  where
    new : LsqEntry
    new = record e {
      memory_data_buffer = loaded ba e r.rdata;
      awaiting_mem_resp = false;
      mem_req_sent = false;
      partial_fwd_en = false;
      needs_mem_fill = false;
      cycles_remaining = pos 0;
      cdb_wait = true;
    }

    received : (n a : Bool) (x y : Word) → a ≡ true → x ≡ (if n || a then x else y)
    received true a x y h = refl
    received false true x y h = refl
    received false false x y h = absurd (ground arith)

    sent :
        (v l a s c : Bool)
        → ((v && (l && (a && s))) && c) ≡ true
        → (v ≡ true) × (l ≡ true) × (a ≡ true)
    sent true true true s c h = (refl, refl, refl)
    sent true true false s c h = absurd (ground arith)
    sent true false a s c h = absurd (ground arith)
    sent false l a s c h = absurd (ground arith)

    waits : (v l acc ex : Bool) → ((v && (l && acc)) && (true && (not ex && false))) ≡ false
    waits v l acc ex = ground arith

    woken : (v l : Bool) → v ≡ true → l ≡ true → (v && (l && true)) ≡ true
    woken v l hv hl = ground arith

    offered :
        (v l acc ex : Bool)
        → v ≡ true
        → l ≡ true
        → ((v && (l && acc)) && (true && (not ex && (true && (true && true))))) ≡ acc && not ex
    offered v l acc ex hv hl = ground arith

    go : (x : Bool) → expects r e ≡ x → Arrives ba r e (if x then new else e) x
    go false h = refl
    go true h =
        let (hv, hl, ha) =
          sent e.valid e.is_load e.awaiting_mem_resp e.mem_req_sent (r.cookie == e.mem_cookie) h in
        (
          received e.needs_mem_fill e.awaiting_mem_resp (loaded ba e r.rdata) e.memory_data_buffer
              ha,
          λ m. refl,
          waits e.valid e.is_load e.is_accessing_memory e.executed,
          ap (λ b. offers (if b then record new { cdb_wait = false } else new))
                (woken e.valid e.is_load hv hl)
              ∙ offered e.valid e.is_load e.is_accessing_memory e.executed hv hl,
        )

-- Among the entries of the queue a response reaches exactly the one that its identifier names, and only
-- if that is a load that has sent a request and the cookies agree: the load then holds the value that it
-- was to end with for the word received, offers it one promotion later and not before, if it has not
-- executed, and a later word cannot change it. No other entry of the queue changes.
pub apply_data_resp-Arrives :
    (ba : Bool) (q : LoadStoreQueue) (r : DataMemResp) (j : ℕ)
    → j < length q.queue
    → Arrives ba r
        (get_or q.queue j no_entry)
        (get_or (apply_data_resp ba q r).queue j no_entry)
        (eq_ℤ r.id (pos j) && expects r (get_or q.queue j no_entry))
unfolding apply_data_resp
apply_data_resp-Arrives ba q r j inside = go r.id
  where
    old : LsqEntry
    old = get_or q.queue j no_entry

    n : ℕ
    n = length q.queue

    at_index :
        (i : ℕ) (b : Bool)
        → (i == j) ≡ b
        → Arrives ba r old
            (get_or (set q.queue i (take_resp ba r (get_or q.queue i no_entry))) j no_entry)
            (b && expects r old)
    at_index i true h =
        let e : i ≡ j = (==_iff i j).0 h in
        subst
          (λ k.
            Arrives ba r old
              (get_or (set q.queue k (take_resp ba r (get_or q.queue k no_entry))) j no_entry)
              (expects r old))
          (sym e)
          (subst (λ t. Arrives ba r old t (expects r old))
            (sym (get_or-set_self q.queue j (take_resp ba r old) no_entry inside))
            (take_resp-Arrives ba r old))
    at_index i false h =
        get_or-set_ne q.queue i j (take_resp ba r (get_or q.queue i no_entry)) no_entry
          (λ e. absurd (ground (arith, eq→== i j e)))

    beyond :
        (i : ℕ)
        → n ≤ i
        → (b : Bool)
        → Arrives ba r old
            (get_or
              (elim (if b then some i else none) as (λ o. LoadStoreQueue) [
                | none ↦ q
                | some i ↦
                    if ltb i n
                    then record q {
                      queue = set q.queue i (take_resp ba r (get_or q.queue i no_entry));
                    }
                    else let k = i - n in
                      record q { sb = set q.sb k (acknowledge (get_or q.sb k no_store)) }
              ]).queue
              j
              no_entry)
            ((i == j) && expects r old)
    beyond i le true = rw (ne→== i j (λ e. absurd (omega arith)), le→ltb i n le) refl
    beyond i le false = rw (ne→== i j (λ e. absurd (omega arith))) refl

    go :
        (id : ℤ)
        → Arrives ba r old
            (get_or
              (elim (index id (n + length q.sb)) as (λ o. LoadStoreQueue) [
                | none ↦ q
                | some i ↦
                    if ltb i n
                    then record q {
                      queue = set q.queue i (take_resp ba r (get_or q.queue i no_entry));
                    }
                    else let k = i - n in
                      record q { sb = set q.sb k (acknowledge (get_or q.sb k no_store)) }
              ]).queue
              j
              no_entry)
            (eq_ℤ id (pos j) && expects r old)
    go (negsuc i) = refl
    go (pos i) = elim (dec_lt i n) [
      | yes p ↦
          rw (lt→ltb i (n + length q.sb) (omega arith), lt→ltb i n p) (at_index i (i == j) refl)
      | no p ↦ beyond i (omega arith) (ltb i (n + length q.sb))
    ]
