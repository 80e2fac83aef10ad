-- ===== src/Dram/Lines.antt =====
-- Lines written to memory and read back.
use ooo_superscalar_risc_sim.Common.{
  ℕ, ◌+◌, ◌*◌, ◌≤◌, ◌<◌, ◌≡◌, ◌∙◌, refl, ap, ap₂, arith, List, [], ◌∷◌, ◌++◌, length, get_or, set,
  length-set, get_or-set_self, get_or-set_ne, lt→ltb,
}
use ooo_superscalar_risc_sim.Common.Int.{Word}
use ooo_superscalar_risc_sim.Dram.{write_line, read_line, bytes_of}

-- The four bytes of a word, and a line as its words.
abbrev pub Bytes : Type 0
Bytes = ℕ × ℕ × ℕ × ℕ

abbrev pub flat : List Bytes → List ℕ
flat [] = []
flat ((a, b, c, d) ∷ ws) = a ∷ b ∷ c ∷ d ∷ flat ws

abbrev pub AreBytes : List Bytes → Type 0
AreBytes [] = Unit
AreBytes ((a, b, c, d) ∷ ws) = (a < 256) × (b < 256) × (c < 256) × (d < 256) × AreBytes ws

abbrev word_of : ℕ → ℕ → ℕ → ℕ → Word
word_of a b c d = a + b * 256 + c * 65536 + d * 16777216

bytes_of-word_of :
    (a b c d : ℕ)
    → a < 256
    → b < 256
    → c < 256
    → d < 256
    → bytes_of (word_of a b c d) ≡ a ∷ b ∷ c ∷ d ∷ []
bytes_of-word_of a b c d ha hb hc hd =
    ap₂ ◌∷◌ (omega arith)
      (ap₂ ◌∷◌ (omega arith) (ap₂ ◌∷◌ (omega arith) (ap (λ t. t ∷ []) (omega arith))))

length-write_line :
    (ws : List Bytes) (wi : ℕ) (memory : List Word)
    → wi + length ws ≤ length memory
    → length (write_line wi (flat ws) memory) ≡ length memory
unfolding write_line
length-write_line [] wi memory fits = refl
length-write_line ((a, b, c, d) ∷ ws) wi memory fits =
    let same : length (set memory wi (word_of a b c d)) ≡ length memory =
      length-set memory wi (word_of a b c d) in
    rw (lt→ltb wi (length memory) (omega arith))
      (length-write_line ws (wi + 1) (set memory wi (word_of a b c d)) (omega (arith, same)) ∙ same)

-- A line leaves every word before it.
get_or-write_line :
    (ws : List Bytes) (wi : ℕ) (memory : List Word) (j : ℕ)
    → wi + length ws ≤ length memory
    → j < wi
    → get_or (write_line wi (flat ws) memory) j 0 ≡ get_or memory j 0
unfolding write_line
get_or-write_line [] wi memory j fits before = refl
get_or-write_line ((a, b, c, d) ∷ ws) wi memory j fits before =
    let m : List Word = set memory wi (word_of a b c d) in
    let same : length m ≡ length memory = length-set memory wi (word_of a b c d) in
    rw (lt→ltb wi (length memory) (omega arith)) (
      get_or-write_line ws (wi + 1) m j (omega (arith, same)) (omega arith)
      ∙ get_or-set_ne memory wi j (word_of a b c d) 0 (omega arith))

-- A line that lies in memory is read back as it was written, byte for byte, and the words before it and
-- the size of memory stay.
pub read_line-write_line :
    (missing : Word) (ws : List Bytes) (wi : ℕ) (memory : List Word)
    → AreBytes ws
    → wi + length ws ≤ length memory
    → (read_line missing wi (length ws) (write_line wi (flat ws) memory) ≡ flat ws)
      × (length (write_line wi (flat ws) memory) ≡ length memory)
      × ((j : ℕ) → j < wi → get_or (write_line wi (flat ws) memory) j 0 ≡ get_or memory j 0)
unfolding read_line write_line
read_line-write_line missing ws wi memory bytes fits = (
  go ws wi memory bytes fits,
  length-write_line ws wi memory fits,
  λ j before. get_or-write_line ws wi memory j fits before,
)
  where
    go :
        (ws : List Bytes) (wi : ℕ) (memory : List Word)
        → AreBytes ws
        → wi + length ws ≤ length memory
        → read_line missing wi (length ws) (write_line wi (flat ws) memory) ≡ flat ws
    go [] wi memory bytes fits = refl
    go ((a, b, c, d) ∷ ws) wi memory (ha, hb, hc, hd, bytes) fits =
        let m : List Word = set memory wi (word_of a b c d) in
        let same : length m ≡ length memory = length-set memory wi (word_of a b c d) in
        let after : List Word = write_line (wi + 1) (flat ws) m in
        rw
          (
            lt→ltb wi (length memory) (omega arith),
            lt→ltb wi (length after)
                (omega (arith, length-write_line ws (wi + 1) m (omega (arith, same)), same)),
            get_or-write_line ws (wi + 1) m wi (omega (arith, same)) (omega arith),
            get_or-set_self memory wi (word_of a b c d) 0 (omega arith),
          )
          (ap₂ ◌++◌ (bytes_of-word_of a b c d ha hb hc hd)
            (go ws (wi + 1) m bytes (omega (arith, same))))
