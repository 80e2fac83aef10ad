-- ===== src/LoadStoreQueue/Bytes.antt =====
-- The bytes of merged words, and that a load reads no byte outside its mask.
use ooo_superscalar_risc_sim.Common.{
  ℕ, zero, suc, ◌*◌, ◌/◌, ◌%◌, ◌^◌, ◌<◌, ◌≡◌, ◌∙◌, refl, ap, arith, Bool, true, false,
  if◌then◌else◌, leb, if_lem,
}
use native.Mathlib.Nat.{mod-lt}
use ooo_superscalar_risc_sim.Common.Int.{Word}
use ooo_superscalar_risc_sim.Common.Signed.{word_mod}
use ooo_superscalar_risc_sim.Types.{MemSize, byte, half, word}
use ooo_superscalar_risc_sim.LoadStoreQueue.Lanes.{
  Lane, b0, b1, b2, b3, Mask, all_lanes, at_lane, byte_at, put_byte, merge_lane, merge_bytes,
  access_mask, byte_mask, half_mask, extend_byte, extend_half, store_wdata, load_extend,
}

abbrev pub same_lane : Lane → Lane → Bool
same_lane b0 b0 = true
same_lane b1 b1 = true
same_lane b2 b2 = true
same_lane b3 b3 = true
same_lane _ _ = false

-- Writing a lane changes the byte of that lane, and no other.
pub byte_at-put_byte :
    (b c : Lane) (cur w : Word)
    → byte_at c (put_byte b cur w) ≡ (if same_lane b c then byte_at b w else byte_at c cur)
unfolding put_byte
byte_at-put_byte b0 b0 cur w = omega arith
byte_at-put_byte b0 b1 cur w = omega arith
byte_at-put_byte b0 b2 cur w = omega arith
byte_at-put_byte b0 b3 cur w = omega arith
byte_at-put_byte b1 b0 cur w = omega arith
byte_at-put_byte b1 b1 cur w = omega arith
byte_at-put_byte b1 b2 cur w = omega arith
byte_at-put_byte b1 b3 cur w = omega arith
byte_at-put_byte b2 b0 cur w = omega arith
byte_at-put_byte b2 b1 cur w = omega arith
byte_at-put_byte b2 b2 cur w = omega arith
byte_at-put_byte b2 b3 cur w = omega arith
byte_at-put_byte b3 b0 cur w = omega arith
byte_at-put_byte b3 b1 cur w = omega arith
byte_at-put_byte b3 b2 cur w = omega arith
byte_at-put_byte b3 b3 cur w = omega arith

byte_at-merge_lane :
    (m : Bool) (b c : Lane) (cur w : Word)
    → byte_at c (if m then put_byte b cur w else cur)
      ≡ (if same_lane b c then (if m then byte_at b w else byte_at c cur) else byte_at c cur)
byte_at-merge_lane true b c cur w = byte_at-put_byte b c cur w
byte_at-merge_lane false b c cur w = go (same_lane b c)
  where
    go : (s : Bool) → byte_at c cur ≡ (if s then byte_at c cur else byte_at c cur)
    go true = refl
    go false = refl

-- A merge takes the bytes of the mask from the overlay and the others from the base.
pub byte_at-merge_bytes :
    (c : Lane) (base overlay : Word) (mask : Mask)
    → byte_at c (merge_bytes base overlay mask)
      ≡ (if at_lane c mask then byte_at c overlay else byte_at c base)
unfolding merge_bytes
byte_at-merge_bytes c base overlay mask = go c
  where
    w1 : Word
    w1 = merge_lane mask overlay b0 base

    w2 : Word
    w2 = merge_lane mask overlay b1 w1

    w3 : Word
    w3 = merge_lane mask overlay b2 w2

    go :
        (c : Lane)
        → byte_at c (merge_lane mask overlay b3 w3)
          ≡ (if at_lane c mask then byte_at c overlay else byte_at c base)
    go b0 =
        byte_at-merge_lane mask.q3 b3 b0 w3 overlay
        ∙ byte_at-merge_lane mask.q2 b2 b0 w2 overlay
        ∙ byte_at-merge_lane mask.q1 b1 b0 w1 overlay
        ∙ byte_at-merge_lane mask.q0 b0 b0 base overlay
    go b1 =
        byte_at-merge_lane mask.q3 b3 b1 w3 overlay
        ∙ byte_at-merge_lane mask.q2 b2 b1 w2 overlay
        ∙ byte_at-merge_lane mask.q1 b1 b1 w1 overlay
        ∙ ap (λ t. if mask.q1 then byte_at b1 overlay else t)
            (byte_at-merge_lane mask.q0 b0 b1 base overlay)
    go b2 =
        byte_at-merge_lane mask.q3 b3 b2 w3 overlay
        ∙ byte_at-merge_lane mask.q2 b2 b2 w2 overlay
        ∙ ap (λ t. if mask.q2 then byte_at b2 overlay else t)
            (byte_at-merge_lane mask.q1 b1 b2 w1 overlay
              ∙ byte_at-merge_lane mask.q0 b0 b2 base overlay)
    go b3 =
        byte_at-merge_lane mask.q3 b3 b3 w3 overlay
        ∙ ap (λ t. if mask.q3 then byte_at b3 overlay else t)
            (byte_at-merge_lane mask.q2 b2 b3 w2 overlay
              ∙ byte_at-merge_lane mask.q1 b1 b3 w1 overlay
              ∙ byte_at-merge_lane mask.q0 b0 b3 base overlay)

-- Words that agree on every byte are equal.
pub bytes_eq :
    (v w : Word) → v < 2 ^ 32 → w < 2 ^ 32 → ((c : Lane) → byte_at c v ≡ byte_at c w) → v ≡ w
bytes_eq v w hv hw same = omega (arith, same b0, same b1, same b2, same b3)

abbrev pub AgreeOn : Mask → Word → Word → Type 0
AgreeOn mask v w = (c : Lane) → at_lane c mask ≡ true → byte_at c v ≡ byte_at c w

on_all : (v w : Word) → AgreeOn all_lanes v w → (c : Lane) → byte_at c v ≡ byte_at c w
on_all v w same b0 = same b0 refl
on_all v w same b1 = same b1 refl
on_all v w same b2 = same b2 refl
on_all v w same b3 = same b3 refl

byte_agrees :
    (low v w : ℕ)
    → low < 4
    → AgreeOn (byte_mask low) v w
    → v / 2 ^ (8 * low) % 256 ≡ w / 2 ^ (8 * low) % 256
byte_agrees zero v w h same = same b0 refl
byte_agrees (suc zero) v w h same = same b1 refl
byte_agrees (suc (suc zero)) v w h same = same b2 refl
byte_agrees (suc (suc (suc zero))) v w h same = same b3 refl
byte_agrees (suc (suc (suc (suc low)))) v w h same = absurd (omega arith)

half_agrees :
    (low v w : ℕ)
    → low < 4
    → AgreeOn (half_mask low) v w
    → (if leb 3 low then v / 2 ^ 24 % 256 else v / 2 ^ (8 * low) % 65536)
      ≡ (if leb 3 low then w / 2 ^ 24 % 256 else w / 2 ^ (8 * low) % 65536)
half_agrees zero v w h same = omega (arith, same b0 refl, same b1 refl)
half_agrees (suc zero) v w h same = omega (arith, same b1 refl, same b2 refl)
half_agrees (suc (suc zero)) v w h same = omega (arith, same b2 refl, same b3 refl)
half_agrees (suc (suc (suc zero))) v w h same = same b3 refl
half_agrees (suc (suc (suc (suc low)))) v w h same = absurd (omega arith)

-- Two words that agree on the bytes of the access load the same value.
pub load_extend_congr :
    (ba : Bool) (v w : Word) (size : MemSize) (u : Bool) (addr : Word)
    → v < 2 ^ 32
    → w < 2 ^ 32
    → AgreeOn (access_mask ba size addr) v w
    → load_extend ba v size u addr ≡ load_extend ba w size u addr
load_extend_congr false v w size u addr hv hw same = bytes_eq v w hv hw (on_all v w same)
load_extend_congr true v w byte u addr hv hw same =
    ap (extend_byte u) (byte_agrees (addr % 4) v w (mod-lt addr (omega arith)) same)
load_extend_congr true v w half u addr hv hw same =
    ap (extend_half u) (half_agrees (addr % 4) v w (mod-lt addr (omega arith)) same)
load_extend_congr true v w word u addr hv hw same = bytes_eq v w hv hw (on_all v w same)

put_byte-lt : (b : Lane) (cur w : Word) → cur < 2 ^ 32 → put_byte b cur w < 2 ^ 32
unfolding put_byte
put_byte-lt b0 cur w h = omega arith
put_byte-lt b1 cur w h = omega arith
put_byte-lt b2 cur w h = omega arith
put_byte-lt b3 cur w h = omega arith

merge_lane-lt :
    (mask : Mask) (overlay : Word) (b : Lane) (out : Word)
    → out < 2 ^ 32
    → merge_lane mask overlay b out < 2 ^ 32
merge_lane-lt mask overlay b out h =
    if_lem (λ t. t < 2 ^ 32) (at_lane b mask) (put_byte-lt b out overlay h) h

pub merge_bytes-lt :
    (base overlay : Word) (mask : Mask) → base < 2 ^ 32 → merge_bytes base overlay mask < 2 ^ 32
unfolding merge_bytes
merge_bytes-lt base overlay mask h = merge_lane-lt mask overlay b3 _ (
    merge_lane-lt mask overlay b2 _
      (merge_lane-lt mask overlay b1 _ (merge_lane-lt mask overlay b0 base h)))

-- The value that a load of the same size reads back where it was stored.
abbrev pub read_back : Bool → MemSize → Bool → Word → Word → Word
read_back false size u addr value = value
read_back true byte u addr value = extend_byte u (value % 256)
read_back true half u addr value =
    extend_half u (if leb 3 (addr % 4) then value % 256 else value % 65536)
read_back true word u addr value = value

store_byte :
    (low value : ℕ)
    → low < 4
    → value % 256 * 2 ^ (8 * low) % word_mod / 2 ^ (8 * low) % 256 ≡ value % 256
store_byte zero value h = omega arith
store_byte (suc zero) value h = omega arith
store_byte (suc (suc zero)) value h = omega arith
store_byte (suc (suc (suc zero))) value h = omega arith
store_byte (suc (suc (suc (suc low)))) value h = absurd (omega arith)

store_half :
    (low value : ℕ)
    → low < 4
    → let w : ℕ =
        if leb 3 low
        then value % 65536 % 256 * 2 ^ 24
        else value % 65536 * 2 ^ (8 * low) % word_mod in
      (if leb 3 low then w / 2 ^ 24 % 256 else w / 2 ^ (8 * low) % 65536)
      ≡ (if leb 3 low then value % 256 else value % 65536)
store_half zero value h = omega arith
store_half (suc zero) value h = omega arith
store_half (suc (suc zero)) value h = omega arith
store_half (suc (suc (suc zero))) value h = omega arith
store_half (suc (suc (suc (suc low)))) value h = absurd (omega arith)

load-store_wdata :
    (ba : Bool) (value : Word) (size : MemSize) (u : Bool) (addr : Word)
    → load_extend ba (store_wdata ba value size addr) size u addr ≡ read_back ba size u addr value
load-store_wdata false value size u addr = refl
load-store_wdata true value byte u addr =
    ap (extend_byte u) (store_byte (addr % 4) value (mod-lt addr (omega arith)))
load-store_wdata true value half u addr =
    ap (extend_half u) (store_half (addr % 4) value (mod-lt addr (omega arith)))
load-store_wdata true value word u addr = refl

pub store_wdata-lt :
    (ba : Bool) (value : Word) (size : MemSize) (addr : Word)
    → value < 2 ^ 32
    → store_wdata ba value size addr < 2 ^ 32
store_wdata-lt false value size addr h = h
store_wdata-lt true value byte addr h = mod-lt (value % 256 * 2 ^ (8 * (addr % 4))) (omega arith)
store_wdata-lt true value half addr h =
    if_lem (λ t. t < 2 ^ 32) (leb 3 (addr % 4)) (omega arith)
      (mod-lt (value % 65536 * 2 ^ (8 * (addr % 4))) (omega arith))
store_wdata-lt true value word addr h = h

-- Whatever the word held, a store followed by a load of the same size and address reads back, with byte
-- addressing, the low byte of the value for a byte, its low half for a halfword, or its low byte only if
-- the halfword stands at the last byte of the word, each extended as the load asks, and the whole value
-- for a word; and without byte addressing the whole value, whatever the size.
pub load_extend-merge_bytes :
    (ba : Bool) (cur value : Word) (size : MemSize) (u : Bool) (addr : Word)
    → cur < 2 ^ 32
    → value < 2 ^ 32
    → load_extend ba
        (merge_bytes cur (store_wdata ba value size addr) (access_mask ba size addr))
        size
        u
        addr
      ≡ read_back ba size u addr value
load_extend-merge_bytes ba cur value size u addr hc hv =
    let w : Word = store_wdata ba value size addr in
    let mask : Mask = access_mask ba size addr in
    load_extend_congr ba (merge_bytes cur w mask) w size u addr (merge_bytes-lt cur w mask hc)
      (store_wdata-lt ba value size addr hv)
      (λ c inside. byte_at-merge_bytes c cur w mask ∙ rw inside refl)
    ∙ load-store_wdata ba value size u addr
