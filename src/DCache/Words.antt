-- ===== src/DCache/Words.antt =====
-- Words of a line: what a load reads after a store.
use native.Mathlib.Decide.{ℕ_discrete}
use native.Mathlib.Nat.{mod-lt, pow-suc, one-le-pow}
use ooo_superscalar_risc_sim.Common.{
  ℕ, suc, ◌+◌, ◌*◌, ◌/◌, ◌%◌, ◌^◌, ◌≤◌, ◌<◌, ◌≡◌, ◌∙◌, refl, sym, ap, subst, arith, Bool, true,
  false, ◌&&◌, List, if◌then◌else◌, ltb, ◌==◌, length, get_or, set, get_or-set_self, get_or-set_ne,
  length-set, if_lem, le→ltb,
}
use ooo_superscalar_risc_sim.Common.Int.{Word}
use ooo_superscalar_risc_sim.LoadStoreQueue.Bytes.{bytes_eq, byte_at-merge_bytes, merge_bytes-lt}
use ooo_superscalar_risc_sim.LoadStoreQueue.Lanes.{
  Lane, b0, b1, b2, b3, at_lane, shift_of, byte_at, merge_bytes, Mask,
}
use ooo_superscalar_risc_sim.MemTypes.Split.{line_offset_lem}
use ooo_superscalar_risc_sim.MemTypes.{DataMemReq, line_offset}
use ooo_superscalar_risc_sim.DCache.Line.{
  word_offset, lane_no, store_lane, apply_store_to_line, word_from, load_word_from_line,
}

-- A line whose elements are bytes.
abbrev pub IsLine : ℕ → List ℕ → Type 0
IsLine n line = (length line ≡ n) × ((j : ℕ) → get_or line j 0 < 256)

get_or-set {ℓ} :
    {A : Type ℓ} (xs : List A) (i j : ℕ) (v d : A)
    → i < length xs
    → get_or (set xs i v) j d ≡ (if i == j then v else get_or xs j d)
get_or-set xs i j v d h = elim (ℕ_discrete i j) [
  | yes p ↦ ground (arith, p, get_or-set_self xs i v d h)
  | no p ↦ ground (arith, get_or-set_ne xs i j v d p)
]

write_byte :
    (m : Bool) (line : List ℕ) (n i j v : ℕ)
    → i < n
    → length line ≡ n
    → get_or (if m && ltb i n then set line i v else line) j 0
      ≡ (if m && i == j then v else get_or line j 0)
write_byte m line n i j v h e = ground (arith, get_or-set line i j v 0)

in_word : (off n : ℕ) (b : Lane) → off + 4 ≤ n → off + lane_no b < n
in_word off n b0 h = omega arith
in_word off n b1 h = omega arith
in_word off n b2 h = omega arith
in_word off n b3 h = omega arith

-- The writes of the four lanes, one after another, at words of four bytes.
chain :
    (c : Lane) (off a a' : ℕ) (v : Lane → ℕ) (m : Mask) (g0 g1 g2 g3 g4 : ℕ)
    → off ≡ a * 4
    → g4 ≡ (if m.q3 && off + 3 == a' * 4 + lane_no c then v b3 else g3)
    → g3 ≡ (if m.q2 && off + 2 == a' * 4 + lane_no c then v b2 else g2)
    → g2 ≡ (if m.q1 && off + 1 == a' * 4 + lane_no c then v b1 else g1)
    → g1 ≡ (if m.q0 && off + 0 == a' * 4 + lane_no c then v b0 else g0)
    → g4 ≡ (if off == a' * 4 && at_lane c m then v c else g0)
chain b0 off a a' v m g0 g1 g2 g3 g4 e e4 e3 e2 e1 = ground arith
chain b1 off a a' v m g0 g1 g2 g3 g4 e e4 e3 e2 e1 = ground arith
chain b2 off a a' v m g0 g1 g2 g3 g4 e e4 e3 e2 e1 = ground arith
chain b3 off a a' v m g0 g1 g2 g3 g4 e e4 e3 e2 e1 = ground arith

-- Lines of `4 * 2 ^ k` bytes.
module _ (k : ℕ) where
  abbrev pub bytes : ℕ
  bytes = 2 ^ suc (suc k)

  word_offset_lem :
      (addr : Word)
      → (a : ℕ) × (word_offset bytes addr ≡ a * 4) × (word_offset bytes addr + 4 ≤ bytes)
  word_offset_lem addr =
      let small : addr % bytes < bytes = mod-lt addr (omega (arith, one-le-pow (suc (suc k)) 2)) in
      (
        line_offset addr bytes / 4,
        refl,
        omega (arith, line_offset_lem addr (suc (suc k)), small, pow-suc 2 (suc k), pow-suc 2 k),
      )

  pub length-store_lane :
      (r : DataMemReq) (b : Lane) (line : List ℕ) → length (store_lane bytes r b line) ≡ length line
  unfolding store_lane
  length-store_lane r b line =
      if_lem (λ (t : List ℕ). length t ≡ length line) _ (length-set line _ _) refl

  pub get_or-store_lane :
      (r : DataMemReq) (b : Lane) (line : List ℕ) (j : ℕ)
      → length line ≡ bytes
      → get_or (store_lane bytes r b line) j 0 ≡ (
          if at_lane b r.wstrb && word_offset bytes r.addr + lane_no b == j
          then byte_at b r.wdata
          else get_or line j 0)
  unfolding store_lane
  get_or-store_lane r b line j h =
      let (_, _, fits) = word_offset_lem r.addr in
      write_byte (at_lane b r.wstrb) line bytes (word_offset bytes r.addr + lane_no b) j
        (byte_at b r.wdata) (in_word (word_offset bytes r.addr) bytes b fits) h

  length-apply :
      (r : DataMemReq) (line : List ℕ) → length (apply_store_to_line bytes line r) ≡ length line
  unfolding apply_store_to_line
  length-apply r line =
      length-store_lane r b3 _
      ∙ length-store_lane r b2 _
      ∙ length-store_lane r b1 _
      ∙ length-store_lane r b0 line

  -- A byte of the line after the store: the request's if its lane is written, else the old one.
  get_or-apply :
      (r : DataMemReq) (line : List ℕ) (a' : ℕ) (c : Lane)
      → length line ≡ bytes
      → get_or (apply_store_to_line bytes line r) (a' * 4 + lane_no c) 0 ≡ (
          if word_offset bytes r.addr == a' * 4 && at_lane c r.wstrb
          then byte_at c r.wdata
          else get_or line (a' * 4 + lane_no c) 0)
  unfolding apply_store_to_line
  get_or-apply r line a' c h =
      let (a, e, fits) = word_offset_lem r.addr in
      let l0 = store_lane bytes r b0 line in
      let l1 = store_lane bytes r b1 l0 in
      let l2 = store_lane bytes r b2 l1 in
      let j = a' * 4 + lane_no c in
      let h0 : length l0 ≡ bytes = length-store_lane r b0 line ∙ h in
      let h1 : length l1 ≡ bytes = length-store_lane r b1 l0 ∙ h0 in
      let h2 : length l2 ≡ bytes = length-store_lane r b2 l1 ∙ h1 in
      chain c (word_offset bytes r.addr) a a' (λ b. byte_at b r.wdata) r.wstrb (get_or line j 0)
        (get_or l0 j 0) (get_or l1 j 0) (get_or l2 j 0) (get_or (store_lane bytes r b3 l2) j 0) e
        (get_or-store_lane r b3 l2 j h2) (get_or-store_lane r b2 l1 j h1)
        (get_or-store_lane r b1 l0 j h0) (get_or-store_lane r b0 line j h)

  get_or-apply-lt :
      (r : DataMemReq) (line : List ℕ) (a' : ℕ) (c : Lane)
      → IsLine bytes line
      → get_or (apply_store_to_line bytes line r) (a' * 4 + lane_no c) 0 < 256
  get_or-apply-lt r line a' c (h, small) =
      subst (λ (t : ℕ). t < 256) (sym (get_or-apply r line a' c h))
        (if_lem (λ (t : ℕ). t < 256) (word_offset bytes r.addr == a' * 4 && at_lane c r.wstrb)
          (mod-lt (r.wdata / 2 ^ shift_of c) (omega arith)) (small (a' * 4 + lane_no c)))

four_bytes :
    (c : Lane) (f : Lane → ℕ)
    → ((d : Lane) → f d < 256)
    → let w : ℕ = f b0 + f b1 * 256 + f b2 * 65536 + f b3 * 16777216 in
      (byte_at c w ≡ f c) × (w < 2 ^ 32)
four_bytes b0 f h = omega (arith, h b0, h b1, h b2, h b3)
four_bytes b1 f h = omega (arith, h b0, h b1, h b2, h b3)
four_bytes b2 f h = omega (arith, h b0, h b1, h b2, h b3)
four_bytes b3 f h = omega (arith, h b0, h b1, h b2, h b3)

-- The word that a load reads from one word of the line, before and after a store.
word_from-apply :
    (k : ℕ) (r : DataMemReq) (line : List ℕ) (a : ℕ)
    → IsLine (bytes k) line
    → word_from (apply_store_to_line (bytes k) line r) (a * 4) ≡ (
        if word_offset (bytes k) r.addr == a * 4
        then merge_bytes (word_from line (a * 4)) r.wdata r.wstrb
        else word_from line (a * 4))
word_from-apply k r line a (h, small) =
    let new = λ (c : Lane). get_or (apply_store_to_line (bytes k) line r) (a * 4 + lane_no c) 0 in
    let old = λ (c : Lane). get_or line (a * 4 + lane_no c) 0 in
    let old_small = λ (c : Lane). small (a * 4 + lane_no c) in
    let new_small = λ (c : Lane). get_or-apply-lt k r line a c (h, small) in
    let w : Word = word_from line (a * 4) in
    go (word_offset (bytes k) r.addr == a * 4) w (four_bytes b0 old old_small).1
      (four_bytes b0 new new_small).1
      (λ c. (four_bytes c new new_small).0 ∙ get_or-apply k r line a c h)
      (λ c. (four_bytes c old old_small).0)
  where
    go :
        (b : Bool) (w : Word)
        → w < 2 ^ 32
        → word_from (apply_store_to_line (bytes k) line r) (a * 4) < 2 ^ 32
        → ((c : Lane)
            → byte_at c (word_from (apply_store_to_line (bytes k) line r) (a * 4)) ≡ (
                if b && at_lane c r.wstrb
                then byte_at c r.wdata
                else get_or line (a * 4 + lane_no c) 0))
        → ((c : Lane) → byte_at c w ≡ get_or line (a * 4 + lane_no c) 0)
        → word_from (apply_store_to_line (bytes k) line r) (a * 4)
          ≡ (if b then merge_bytes w r.wdata r.wstrb else w)
    go true w lo ln new old = bytes_eq _ _ ln (merge_bytes-lt w r.wdata r.wstrb lo) (λ c.
        new c
        ∙ ap (λ (t : ℕ). if at_lane c r.wstrb then byte_at c r.wdata else t) (sym (old c))
        ∙ sym (byte_at-merge_bytes c w r.wdata r.wstrb))
    go false w lo ln new old = bytes_eq _ _ ln lo (λ c. new c ∙ sym (old c))

load_word_lem :
    (k : ℕ) (line : List ℕ) (addr : Word)
    → load_word_from_line (bytes k) line addr ≡ word_from line (word_offset (bytes k) addr)
unfolding load_word_from_line
load_word_lem k line addr =
    let (_, _, fits) = word_offset_lem k addr in
    rw (le→ltb (bytes k) (word_offset (bytes k) addr + 4) fits) refl

-- In a line of a power of two bytes, at least four, a load after a store reads the old word with the
-- written bytes of the store merged in if both are to the same word, and the old word if not.
pub load_word-apply_store :
    (k : ℕ) (r : DataMemReq) (line : List ℕ) (addr : Word)
    → IsLine (bytes k) line
    → let old = load_word_from_line (bytes k) line addr in
      load_word_from_line (bytes k) (apply_store_to_line (bytes k) line r) addr ≡ (
        if word_offset (bytes k) r.addr == word_offset (bytes k) addr
        then merge_bytes old r.wdata r.wstrb
        else old)
load_word-apply_store k r line addr h =
    let (a, e, _) = word_offset_lem k addr in
    load_word_lem k (apply_store_to_line (bytes k) line r) addr
    ∙ subst
        (λ (off : ℕ). word_from (apply_store_to_line (bytes k) line r) off ≡ (
          if word_offset (bytes k) r.addr == off
          then merge_bytes (word_from line off) r.wdata r.wstrb
          else word_from line off))
        (sym e) (word_from-apply k r line a h)
    ∙ ap
        (λ (t : Word).
          if word_offset (bytes k) r.addr == word_offset (bytes k) addr
          then merge_bytes t r.wdata r.wstrb
          else t)
        (sym (load_word_lem k line addr))
