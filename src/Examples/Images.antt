-- ===== src/Examples/Images.antt =====
-- Three images in memory: an untagged one with two exported symbols, one with a section table, and an
-- untagged one with two relocations.
use udynlink.Prelude.{ℕ, ◌+◌, ◌*◌, ◌^◌, List, [], ◌∷◌}
use udynlink.Memory.{Memory, write32}
use udynlink.Header.{module_sign}

-- The words from an address on, and zeros elsewhere.
unfoldable pub from_words : ℕ → List ℕ → Memory
unfolding write32
from_words p [] = λ a. 0
from_words p (w ∷ ws) = write32 (from_words (p + 4) ws) p w

abbrev pub base : ℕ
base = 0x1000

-- The header: no relocations, one word of LOT, a symbol table of 36 bytes, 8 bytes of .text, and 4 of
-- .data and of .bss.
abbrev pub plain_words : List ℕ
plain_words =
    module_sign
    ∷ 0x03010000
    ∷ 0x00010000
    ∷ 0
    ∷ 36
    ∷ 8
    ∷ 4
    ∷ 4
    ∷ 3
    ∷ (3 * 2 ^ 27 + 28)
    ∷ 0
    ∷ (2 ^ 30 + 2 ^ 27 + 30)
    ∷ 0
    ∷ (2 ^ 30 + 2 ^ 27 + 32)
    ∷ 4
    ∷ 0x0061006D
    ∷ 0x00000062
    ∷ []

abbrev pub plain : Memory
plain = from_words base plain_words

-- With a table of three sections, behind a symbol table of 16 bytes.
abbrev pub tagged_words : List ℕ
tagged_words =
    module_sign
    ∷ 0x03010000
    ∷ 0x00010000
    ∷ 0x00070000
    ∷ 16
    ∷ 8
    ∷ 4
    ∷ 4
    ∷ 1
    ∷ (3 * 2 ^ 27 + 12)
    ∷ 0
    ∷ 0x6D
    ∷ 0
    ∷ 0
    ∷ 8
    ∷ 4
    ∷ 0
    ∷ (2 ^ 31)
    ∷ 0
    ∷ 8
    ∷ 4
    ∷ 4
    ∷ 1
    ∷ (2 ^ 31)
    ∷ 0
    ∷ 12
    ∷ 4
    ∷ 4
    ∷ 2
    ∷ (2 ^ 31)
    ∷ []

abbrev pub tagged : Memory
tagged = from_words base tagged_words

-- The LOT entry refers to an extern symbol, and the one word of .data to an address in .data.
abbrev pub related_words : List ℕ
related_words =
    module_sign
    ∷ 0x03010000
    ∷ 0x00010000
    ∷ 2
    ∷ 24
    ∷ 4
    ∷ 4
    ∷ 0
    ∷ 0
    ∷ 1
    ∷ 1
    ∷ (2 ^ 31)
    ∷ 2
    ∷ (3 * 2 ^ 27 + 20)
    ∷ 0
    ∷ (2 * 2 ^ 27 + 22)
    ∷ 0
    ∷ 0x0078006D
    ∷ 0
    ∷ 8
    ∷ []

abbrev pub related : Memory
related = from_words base related_words
