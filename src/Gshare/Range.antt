-- ===== src/Gshare/Range.antt =====
-- The predictor's accesses stay inside its tables, whatever sizes it is given.
use Prim.Native.Nat.{bit_and, bit_or}
use native.Mathlib.Nat.{pow-suc, one-le-pow, pow-le-pow_right}
use ooo_superscalar_risc_sim.Common.{
  ℕ, zero, suc, ◌+◌, ◌-◌, ◌*◌, ◌/◌, ◌%◌, ◌^◌, ◌≤◌, ◌<◌, ◌≡◌, inl, inr, refl, arith, Bool, true,
  false, some, List, [], ◌∷◌, ltb, length, get_or, set, replicate, if◌then◌else◌, length-set,
  length-replicate, get_elem?-eq-get_or, Bool-cases, ltb→lt, ltb→le,
}
use ooo_superscalar_risc_sim.Common.Bits.{and_low_mask, xor-lt}
use ooo_superscalar_risc_sim.Common.Signed.{word_mod}
use ooo_superscalar_risc_sim.Gshare.{
  BtbEntry, no_entry, Gshare, clog2_loop, clog2_pow2, low_mask, init, pht_index, btb_index, btb_tag,
  verdict, predict, count_up, count_down, update_btb, update,
}

-- The loop adds the exponent of a power of two that is no larger.
pub clog2_loop_lem :
    (fuel v w : ℕ) → 1 ≤ v → v ≤ fuel → (k : ℕ) × (clog2_loop fuel v w ≡ w + k) × (2 ^ k ≤ v)
unfolding clog2_loop
clog2_loop_lem zero v w pos le = absurd (omega arith)
clog2_loop_lem (suc fuel) zero w pos le = absurd (omega arith)
clog2_loop_lem (suc fuel) (suc zero) w pos le = (0, omega arith, omega arith)
clog2_loop_lem (suc fuel) (suc (suc v)) w pos le =
    let (k, e, low) = clog2_loop_lem fuel (suc (suc v) / 2) (w + 1) (omega arith) (omega arith) in
    (suc k, ground (arith, e), omega (arith, low, pow-suc 2 k))

-- The tables' sizes and the masks: each mask is a power of two less one, at most the table's size.
pub record IsValid (p : Gshare) : Type 0 where
  pub k : ℕ
  pub j : ℕ
  pub pht_mask : p.ghr_mask ≡ 2 ^ k - 1
  pub pht_fits : 2 ^ k ≤ length p.pht
  pub btb_mask : p.btb_idx_mask ≡ 2 ^ j - 1
  pub btb_width : p.btb_idx_w ≡ j
  pub btb_fits : 2 ^ j ≤ length p.btb
  pub counters : (i : ℕ) → get_or p.pht i 0 ≤ 3

log-lt : (k : ℕ) → 2 ^ k < 2 ^ 31 → k < 32
log-lt k h = elim (Bool-cases (ltb k 32)) [
  | inl lt ↦ ltb→lt k 32 lt
  | inr ge ↦ absurd (omega (arith, pow-le-pow_right {n = 2} (omega arith) (ltb→le k 32 ge)))
]

module _ (size : ℕ) (positive : 1 ≤ size) (is_int : size < 2 ^ 31) where
  log_lem :
      (k : ℕ) × (clog2_pow2 size ≡ k) × (low_mask (clog2_pow2 size) ≡ 2 ^ k - 1) × (2 ^ k ≤ size)
  log_lem =
      let (k, e, low) = clog2_loop_lem size size 0 positive (omega arith) in
      let small : k < 32 = log-lt k (omega arith) in (k, omega (arith, e), rw e (ground arith), low)

get_or_below : (n i : ℕ) → get_or (replicate n 1) i 0 ≤ 3
get_or_below zero i = omega arith
get_or_below (suc n) zero = omega arith
get_or_below (suc n) (suc i) = get_or_below n i

pub init-IsValid : (n m : ℕ) → 1 ≤ n → n < 2 ^ 31 → 1 ≤ m → m < 2 ^ 31 → IsValid (init n m)
unfolding init
init-IsValid n m hn hn' hm hm' =
    let (k, e, mask, fits) = log_lem n hn hn' in
    let (j, e', mask', fits') = log_lem m hm hm' in
    record {
      k = k;
      j = j;
      pht_mask = mask;
      pht_fits = omega (arith, length-replicate {A = ℕ} n 1);
      btb_mask = mask';
      btb_width = e';
      btb_fits = omega (arith, length-replicate m no_entry);
      counters = λ i. get_or_below n i;
    }

-- What an update makes of the tables.
abbrev pub counter_after : Gshare → ℕ → Bool → ℕ
counter_after p pc taken =
    let c = get_or p.pht (pht_index p pc p.ghr) 0 in if taken then count_up c else count_down c

abbrev pub btb_after : Gshare → ℕ → Bool → ℕ → List BtbEntry
btb_after p pc false target = p.btb
btb_after p pc true target =
    set p.btb (btb_index p pc) (record { valid = true; tag = btb_tag p pc; target_addr = target })

abbrev pub after : Gshare → ℕ → Bool → ℕ → Gshare
after p pc taken target = record p {
  pht = set p.pht (pht_index p pc p.ghr) (counter_after p pc taken);
  btb = btb_after p pc taken target;
  ghr = bit_and (bit_or (p.ghr * 2 % word_mod) (if taken then 1 else 0)) p.ghr_mask;
}

length-btb_after :
    (p : Gshare) (pc : ℕ) (taken : Bool) (target : ℕ)
    → length (btb_after p pc taken target) ≡ length p.btb
length-btb_after p pc false target = refl
length-btb_after p pc true target =
    length-set p.btb (btb_index p pc)
      (record { valid = true; tag = btb_tag p pc; target_addr = target })

set_bounded :
    (xs : List ℕ) (i j v : ℕ) → ((k : ℕ) → get_or xs k 0 ≤ 3) → v ≤ 3 → get_or (set xs i v) j 0 ≤ 3
set_bounded [] i j v h hv = h j
set_bounded (x ∷ xs) zero zero v h hv = hv
set_bounded (x ∷ xs) zero (suc j) v h hv = h (suc j)
set_bounded (x ∷ xs) (suc i) zero v h hv = h 0
set_bounded (x ∷ xs) (suc i) (suc j) v h hv = set_bounded xs i j v (λ k. h (suc k)) hv

module _ (p : Gshare) (ok : IsValid p) where
  pub pht_index-lt : (pc hist : ℕ) → pht_index p pc hist < length p.pht
  unfolding pht_index
  pht_index-lt pc hist =
      let below : (x : ℕ) → bit_and x p.ghr_mask < 2 ^ ok.k =
        λ x. rw ok.pht_mask (omega (arith, and_low_mask ok.k x, one-le-pow ok.k 2)) in
      omega (
        arith,
        ok.pht_fits,
        xor-lt ok.k (bit_and (pc / 2 ^ 2) p.ghr_mask) (bit_and hist p.ghr_mask) (below (pc / 2 ^ 2))
            (below hist),
      )

  pub btb_index_lem : (pc : ℕ) → btb_index p pc ≡ pc / 2 ^ 2 % 2 ^ ok.j
  unfolding btb_index
  btb_index_lem pc = rw ok.btb_mask (and_low_mask ok.j (pc / 2 ^ 2))

  pub btb_index-lt : (pc : ℕ) → btb_index p pc < length p.btb
  btb_index-lt pc = omega (arith, btb_index_lem pc, ok.btb_fits, one-le-pow ok.j 2)

  pub predict_lem :
      (pc : ℕ)
      → predict p pc
        ≡ some (
            verdict p pc
              (get_or p.pht (pht_index p pc p.ghr) 0)
              (get_or p.btb (btb_index p pc) no_entry))
  unfolding predict
  predict_lem pc =
      rw
        (
          get_elem?-eq-get_or p.pht (pht_index p pc p.ghr) 0 (pht_index-lt pc p.ghr),
          get_elem?-eq-get_or p.btb (btb_index p pc) no_entry (btb_index-lt pc),
        )
        refl

  update_btb_lem :
      (pc : ℕ) (taken : Bool) (target : ℕ)
      → update_btb p pc taken target ≡ some (btb_after p pc taken target)
  unfolding update_btb
  update_btb_lem pc false target = refl
  update_btb_lem pc true target =
      rw (get_elem?-eq-get_or p.btb (btb_index p pc) no_entry (btb_index-lt pc)) refl

  pub update_lem :
      (pc : ℕ) (taken : Bool) (target : ℕ)
      → update p pc taken target ≡ some (after p pc taken target)
  unfolding update
  update_lem pc taken target =
      rw
        (
          get_elem?-eq-get_or p.pht (pht_index p pc p.ghr) 0 (pht_index-lt pc p.ghr),
          update_btb_lem pc taken target,
        )
        refl

  pub after-IsValid : (pc : ℕ) (taken : Bool) (target : ℕ) → IsValid (after p pc taken target)
  after-IsValid pc taken target = record {
    k = ok.k;
    j = ok.j;
    pht_mask = ok.pht_mask;
    pht_fits =
        omega
          (arith, ok.pht_fits, length-set p.pht (pht_index p pc p.ghr) (counter_after p pc taken));
    btb_mask = ok.btb_mask;
    btb_width = ok.btb_width;
    btb_fits = omega (arith, ok.btb_fits, length-btb_after p pc taken target);
    counters = λ i.
        set_bounded p.pht (pht_index p pc p.ghr) i (counter_after p pc taken) ok.counters
          (ground (arith, ok.counters (pht_index p pc p.ghr)));
  }
