-- ===== src/Relocs/Reads.antt =====
-- What the relocation walk of udynlink/udynlink.c reads of an untagged module, on two memories that
-- agree where it reads.
use udynlink.Prelude.{
  u32, none, ℕ, ◌+◌, ◌*◌, ◌/◌, ◌≡◌, ◌<◌, ◌≤◌, refl, inl, inr, arith, true, false, Bool-cases, ltb,
  leb, sym, ◌∙◌, ap,
}
use udynlink.Memory.{Memory, read16, read32}
use udynlink.Header.{header_at, is_sectioned}
use udynlink.Symbols.{Sym, name_off_at, get_sym_at_raw}
use udynlink.Relocs.{is_code_base}
use udynlink.Modules.{
  Module, header_of, get_code_pointer, get_data_pointer, get_reloc_target, offset_sym,
}
use udynlink.Sections.{SectView}

-- The memories have the same bytes from `p` up to `e`.
abbrev pub Agree : ℕ → ℕ → Memory → Memory → Type 0
Agree p e m n = (a : ℕ) → p ≤ a → a < e → n a ≡ m a

pub read32-Agree : (p : ℕ) (m n : Memory) → Agree p (p + 4) m n → read32 n p ≡ read32 m p
unfolding read32
read32-Agree p m n same = omega (
  arith,
  same p (omega arith) (omega arith),
  same (p + 1) (omega arith) (omega arith),
  same (p + 2) (omega arith) (omega arith),
  same (p + 3) (omega arith) (omega arith),
)

-- The same bytes at another place: what is at `q` in `n` is at `p` in `m`.
abbrev pub Shifted : ℕ → ℕ → ℕ → Memory → Memory → Type 0
Shifted p q size m n = (k a b : ℕ) → k < size → a ≡ q + k → b ≡ p + k → n a ≡ m b

read16-Shifted :
    (p q k : ℕ) (m n : Memory)
    → k + 2 ≤ 32
    → Shifted p q 32 m n
    → read16 n (q + k) ≡ read16 m (p + k)
unfolding read16
read16-Shifted p q k m n le same = omega (
  arith,
  same k (q + k) (p + k) (omega arith) refl refl,
  same (k + 1) (q + k + 1) (p + k + 1) (omega arith) (omega arith) (omega arith),
)

read32-Shifted :
    (p q k : ℕ) (m n : Memory)
    → k + 4 ≤ 32
    → Shifted p q 32 m n
    → read32 n (q + k) ≡ read32 m (p + k)
unfolding read32
read32-Shifted p q k m n le same = omega (
  arith,
  same k (q + k) (p + k) (omega arith) refl refl,
  same (k + 1) (q + k + 1) (p + k + 1) (omega arith) (omega arith) (omega arith),
  same (k + 2) (q + k + 2) (p + k + 2) (omega arith) (omega arith) (omega arith),
  same (k + 3) (q + k + 3) (p + k + 3) (omega arith) (omega arith) (omega arith),
)

pub header_at-Shifted :
    (p q : ℕ) (m n : Memory) → Shifted p q 32 m n → header_at n q ≡ header_at m p
unfolding header_at
header_at-Shifted p q m n same =
    let here : (x : ℕ) → x ≡ x + 0 = λ x. omega arith in
    let zero_at : read32 n q ≡ read32 m p =
      ap (read32 n) (here q)
      ∙ read32-Shifted p q 0 m n (omega arith) same
      ∙ ap (read32 m) (sym (here p)) in
    cc (
      zero_at,
      read16-Shifted p q 4 m n (omega arith) same,
      read16-Shifted p q 6 m n (omega arith) same,
      read16-Shifted p q 8 m n (omega arith) same,
      read16-Shifted p q 10 m n (omega arith) same,
      read16-Shifted p q 12 m n (omega arith) same,
      read16-Shifted p q 14 m n (omega arith) same,
      read32-Shifted p q 16 m n (omega arith) same,
      read32-Shifted p q 20 m n (omega arith) same,
      read32-Shifted p q 24 m n (omega arith) same,
      read32-Shifted p q 28 m n (omega arith) same,
    )

pub header_at-Agree : (p : ℕ) (m n : Memory) → Agree p (p + 32) m n → header_at n p ≡ header_at m p
header_at-Agree p m n same =
    header_at-Shifted p p m n
      (λ k a b lt at at'. ap n at ∙ same (p + k) (omega arith) (omega arith) ∙ ap m (sym at'))

get_sym_at_raw_behind :
    (m : Memory) (p_symt index symt_size : ℕ)
    → leb (symt_size / 4) (u32 (index * 2 + 2)) ≡ true
    → get_sym_at_raw m p_symt index symt_size ≡ none
unfolding get_sym_at_raw
get_sym_at_raw_behind m p_symt index symt_size behind = ground arith

-- An entry that is refused is refused by its index and the word at the start of the table. The index
-- of a relocation has a clear bit 30, so that its wrap does not lead before the table.
pub get_sym_at_raw-Agree :
    (p_symt index symt_size : ℕ) (m n : Memory)
    → is_code_base index ≡ false
    → Agree p_symt (p_symt + symt_size) m n
    → get_sym_at_raw n p_symt index symt_size ≡ get_sym_at_raw m p_symt index symt_size
unfolding get_sym_at_raw
get_sym_at_raw-Agree p_symt index symt_size m n low same =
    elim (Bool-cases (ltb (symt_size / 4) 1)) [
      | inl short ↦ rw short refl
      | inr long ↦
          let count = read32-Agree p_symt m n (λ a lo hi. same a lo (ground arith)) in
          elim (Bool-cases (leb (symt_size / 4) (u32 (index * 2 + 2)))) [
            | inl behind ↦
                get_sym_at_raw_behind n p_symt index symt_size behind
                ∙ sym (get_sym_at_raw_behind m p_symt index symt_size behind)
            | inr inside ↦
                let next : u32 (index * 2 + 1) + 1 ≡ u32 (index * 2 + 2) = ground arith in
                let below : u32 (index * 2 + 2) < symt_size / 4 = ground (arith, inside) in
                let place : name_off_at p_symt index ≡ p_symt + u32 (index * 2 + 1) * 4 =
                  ground (arith, next) in
                let word =
                  read32-Agree (p_symt + u32 (index * 2 + 1) * 4) m n
                    (λ a lo hi. same a (omega arith) (omega (arith, next, below))) in
                let value =
                  read32-Agree (p_symt + u32 (index * 2 + 2) * 4) m n
                    (λ a lo hi. same a (omega arith) (omega (arith, below))) in
                rw (place, count, word, value) refl
          ]
    ]

module _ (m n : Memory) (p_mod : Module) (same : header_of n p_mod ≡ header_of m p_mod)
    (untagged : is_sectioned (header_of m p_mod) ≡ false) where
  pub get_code_pointer_same : get_code_pointer n p_mod ≡ get_code_pointer m p_mod
  unfolding get_code_pointer
  get_code_pointer_same = rw (same, untagged) refl

  pub get_data_pointer_same : get_data_pointer n p_mod ≡ get_data_pointer m p_mod
  unfolding get_data_pointer
  get_data_pointer_same = rw (same, untagged) refl

  pub get_reloc_target_same :
      (tab : SectView) (lot : ℕ)
      → tab.num ≡ 0
      → get_reloc_target n p_mod tab lot ≡ get_reloc_target m p_mod tab lot
  unfolding get_reloc_target
  get_reloc_target_same tab lot empty = rw (same, empty, get_data_pointer_same) refl

  pub offset_sym_same : (s : Sym) → offset_sym n p_mod s ≡ offset_sym m p_mod s
  unfolding offset_sym
  offset_sym_same s = rw (same, untagged, get_code_pointer_same, get_data_pointer_same) refl
