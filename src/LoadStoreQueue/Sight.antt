-- ===== src/LoadStoreQueue/Sight.antt =====
-- What a load that `dispatchLoad` starts will read.
use ooo_superscalar_risc_sim.Common.{
  ℕ, ◌≤◌, ◌<◌, ◌≡◌, ◌⊎◌, inl, inr, refl, sym, ap, subst, arith, Bool, true, false, ◌&&◌, Option,
  none, some, List, [], ◌∷◌, if◌then◌else◌, ltb→lt, ltb→le,
}
use ooo_superscalar_risc_sim.LoadStoreQueue.{LsqEntry, StoreBufferEntry}
use ooo_superscalar_risc_sim.LoadStoreQueue.Lanes.{Lane, byte_at}
use ooo_superscalar_risc_sim.LoadStoreQueue.Forward.{entry_wdata}
use ooo_superscalar_risc_sim.LoadStoreQueue.Sources.{provides, newer, chosen, youngest, written}

abbrev pub In : LsqEntry → List LsqEntry → Type 0
In y [] = ⊥
In y (e ∷ es) = (y ≡ e) ⊎ In y es

module _ (ba : Bool) (ld : LsqEntry) (c : Lane) where
  -- No older store writes the lane.
  abbrev pub NoneProvides : List LsqEntry → Type 0
  NoneProvides [] = Unit
  NoneProvides (e ∷ es) = (provides ba ld c e ≡ false) × NoneProvides es

  -- No older store that writes the lane is younger than `y`.
  abbrev pub NoYounger : LsqEntry → List LsqEntry → Type 0
  NoYounger y [] = Unit
  NoYounger y (e ∷ es) = (provides ba ld c e ≡ true → e.inst_id ≤ y.inst_id) × NoYounger y es

  abbrev pub Below : Option LsqEntry → LsqEntry → Type 0
  Below none y = Unit
  Below (some a) y = a.inst_id ≤ y.inst_id

  abbrev pub Best : Option LsqEntry → List LsqEntry → Option LsqEntry → Type 0
  Best acc es none = (acc ≡ none) × NoneProvides es
  Best acc es (some y) =
      ((acc ≡ some y) ⊎ (In y es × (provides ba ld c y ≡ true))) × NoYounger y es × Below acc y

  from_some : (d y : LsqEntry) → some d ≡ some y → d ≡ y
  from_some d y e = ap (λ o. elim o [ none ↦ d | some z ↦ z ]) e

  chosen-Best :
      (e : LsqEntry) (es : List LsqEntry) (p : Bool)
      → provides ba ld c e ≡ p
      → (acc : Option LsqEntry) (n : Bool) → newer ba ld c e acc ≡ n
      → (r : Option LsqEntry) → Best (if p && n then some e else acc) es r
      → Best acc (e ∷ es) r
  chosen-Best e es false hp acc n hn none (h, all) = (h, (hp, all))
  chosen-Best e es false hp acc n hn (some y) (inl h, young, below) =
      (inl h, ((λ t. absurd (ground arith)), young), below)
  chosen-Best e es false hp acc n hn (some y) (inr (i, g), young, below) =
      (inr (inr i, g), ((λ t. absurd (ground arith)), young), below)
  chosen-Best e es true hp acc true hn none (h, all) = absurd (some≢none h)
    where
      some≢none : some e ≡ none → ⊥
      some≢none h = subst (λ o. elim o [ none ↦ ⊥ | some z ↦ Unit ]) h tt
  chosen-Best e es true hp none true hn (some y) (src, young, below) =
      (inr (found src), ((λ _. below), young), tt)
    where
      found :
          (some e ≡ some y) ⊎ (In y es × (provides ba ld c y ≡ true))
          → In y (e ∷ es) × (provides ba ld c y ≡ true)
      found (inl h) =
          (inl (sym (from_some e y h)), subst (λ z. provides ba ld c z ≡ true) (from_some e y h) hp)
      found (inr (i, g)) = (inr i, g)
  chosen-Best e es true hp (some a) true hn (some y) (src, young, below) =
      (inr (found src), ((λ _. below), young), older (ltb→lt a.inst_id e.inst_id hn))
    where
      older : a.inst_id < e.inst_id → a.inst_id ≤ y.inst_id
      older lt = omega (arith, below)

      found :
          (some e ≡ some y) ⊎ (In y es × (provides ba ld c y ≡ true))
          → In y (e ∷ es) × (provides ba ld c y ≡ true)
      found (inl h) =
          (inl (sym (from_some e y h)), subst (λ z. provides ba ld c z ≡ true) (from_some e y h) hp)
      found (inr (i, g)) = (inr i, g)
  chosen-Best e es true hp none false hn r h = absurd (ground arith)
  chosen-Best e es true hp (some a) false hn none (h, all) = absurd (some≢none h)
    where
      some≢none : some a ≡ none → ⊥
      some≢none h = subst (λ o. elim o [ none ↦ ⊥ | some z ↦ Unit ]) h tt
  chosen-Best e es true hp (some a) false hn (some y) (src, young, below) =
      (further src, ((λ _. older (ltb→le a.inst_id e.inst_id hn)), young), below)
    where
      older : e.inst_id ≤ a.inst_id → e.inst_id ≤ y.inst_id
      older le = omega (arith, below)

      further :
          (some a ≡ some y) ⊎ (In y es × (provides ba ld c y ≡ true))
          → (some a ≡ some y) ⊎ (In y (e ∷ es) × (provides ba ld c y ≡ true))
      further (inl h) = inl h
      further (inr (i, g)) = inr (inr i, g)

  pub youngest_lem :
      (es : List LsqEntry) (acc : Option LsqEntry) → Best acc es (youngest ba ld c acc es)
  youngest_lem [] none = (refl, tt)
  youngest_lem [] (some a) = (inl refl, tt, omega arith)
  youngest_lem (e ∷ es) acc =
      chosen-Best e es (provides ba ld c e) refl acc (newer ba ld c e acc) refl
        (youngest ba ld c acc (e ∷ es)) (youngest_lem es (chosen ba ld c acc e))

  -- The byte `b` of the lane is that of the youngest older store that writes it; or no older store
  -- does, and it is what memory, which holds `m` there, has once the store buffer is written in order.
  abbrev pub Seen : List LsqEntry → List StoreBufferEntry → ℕ → ℕ → Type 0
  Seen es ss m b =
      ((y : LsqEntry) × In y es
        × (provides ba ld c y ≡ true)
        × NoYounger y es
        × (b ≡ byte_at c (entry_wdata ba y)))
      ⊎ (NoneProvides es × (b ≡ written ba ld c ss m))
