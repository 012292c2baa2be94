-- ===== src/Symbols/Bounds.antt =====
-- The readers of the symbol table of udynlink/udynlink.c stay inside of it, whatever its words claim.
use udynlink.Prelude.{
  ℕ, zero, suc, ◌+◌, ◌-◌, ◌*◌, ◌/◌, ◌^◌, ◌≤◌, ◌<◌, ◌≡◌, ◌≢◌, ◌⊎◌, inl, inr, arith, Bool, true,
  false, Option-cases, Bool-cases, some, ltb, u16,
}
use native.Mathlib.Decide.{ℕ_discrete}
use udynlink.Memory.{Memory, read32}
use udynlink.Symbols.{
  not_available, pooled, Sym, get_sym_at_raw, bounded_sym_count, type_internal, type_module_name,
  name_offset, sym_type, named_loop, sorted_loop, named_rounds, compute_num_named_syms_raw,
  names_in_order,
}

-- The name that a symbol of the table at `p_symt` may have.
abbrev pub NameInside : ℕ → ℕ → Sym → Type 0
NameInside p_symt symt_size sym =
    ((sym.name ≡ not_available) × (sym.type ≡ type_internal))
    ⊎ ((o : ℕ) × (sym.name ≡ pooled (p_symt + o)) × (o < symt_size) × (sym.type ≢ type_internal))

-- The words of the entry at an index.
abbrev name_word : Memory → ℕ → ℕ → ℕ
name_word m p_symt index = read32 m (p_symt + (index * 2 + 1) * 4)

module _ (m : Memory) (p_symt index symt_size : ℕ) {sym : Sym} (low : index < 2 ^ 31 - 1)
    (e : get_sym_at_raw m p_symt index symt_size ≡ some sym) where
  index_in_table : (index < bounded_sym_count m p_symt symt_size) × (index * 8 + 12 ≤ symt_size)
  unfolding get_sym_at_raw bounded_sym_count
  index_in_table = ground arith

  type_of_entry :
      (sym.type ≡ sym_type (name_word m p_symt index)) × (index ≡ 0 → sym.type ≡ type_module_name)
  unfolding get_sym_at_raw
  type_of_entry = ground arith

  name_in_table :
      ((sym.name ≡ not_available) × (sym.type ≡ type_internal))
      ⊎ ((sym.name ≡ pooled (p_symt + name_offset (name_word m p_symt index)))
          × (name_offset (name_word m p_symt index) < symt_size)
          × (sym.type ≢ type_internal))
  unfolding get_sym_at_raw
  name_in_table = ground arith

-- For an index whose double, plus 2, is a 32-bit number, `get_sym_at_raw` succeeds only below both the
-- claimed and the possible entry count; both words of the entry lie in the table, and so does the start of the name, which exactly the
-- local symbols lack. At index 0 only the module name is accepted.
pub get_sym_at_raw_bounds :
    (m : Memory) (p_symt index symt_size : ℕ) {sym : Sym}
    → index < 2 ^ 31 - 1
    → get_sym_at_raw m p_symt index symt_size ≡ some sym
    → (index < bounded_sym_count m p_symt symt_size)
      × (index * 8 + 12 ≤ symt_size)
      × NameInside p_symt symt_size sym
      × (index ≡ 0 → sym.type ≡ type_module_name)
get_sym_at_raw_bounds m p_symt index symt_size {sym} low e =
    let (counted, high) = index_in_table m p_symt index symt_size low e in
    let inside : NameInside p_symt symt_size sym =
      elim (name_in_table m p_symt index symt_size low e) [
        | inl local ↦ inl local
        | inr (same, below, ne) ↦ inr (name_offset (name_word m p_symt index), same, below, ne)
      ] in
    (counted, high, inside, (type_of_entry m p_symt index symt_size low e).1)

-- Conversely every index below the bounded count is below the claimed one, and both of its words lie
-- in the table: a loop over the count never reads past it.
pub bounded_sym_count_bounds :
    (m : Memory) (p_symt index symt_size : ℕ)
    → index < bounded_sym_count m p_symt symt_size
    → (index < read32 m p_symt) × (index * 8 + 12 ≤ symt_size)
unfolding bounded_sym_count
bounded_sym_count_bounds m p_symt index symt_size h = ground arith

-- Entry `j` is no local symbol, and its first word lies in the table.
abbrev pub IsNamed : Memory → ℕ → ℕ → ℕ → Type 0
IsNamed m p_symt words j =
    (sym_type (read32 m (p_symt + (j * 2 + 1) * 4)) ≢ type_internal) × (j * 2 + 1 < words)

module _ (m : Memory) (p_symt words : ℕ) where
  abbrev entry_type : ℕ → ℕ
  entry_type i = sym_type (read32 m (p_symt + (i * 2 + 1) * 4))

  -- What one round of the loop may do: stop at the end of the table, pass a local symbol, or take
  -- a named one.
  named_round :
      (left i last : ℕ) (local : Bool) (n : ℕ)
      → named_loop m p_symt words (suc left) i last local ≡ some n
      → (n ≡ last)
        ⊎ ((entry_type i ≡ type_internal)
            × (named_loop m p_symt words left (i + 1) last true ≡ some n))
        ⊎ ((i * 2 + 1 < words)
            × (entry_type i ≢ type_internal)
            × (local ≡ false)
            × (named_loop m p_symt words left (i + 1) (u16 i) false ≡ some n))
  unfolding named_loop
  named_round left i last local n e = ground arith

  named_loop-IsNamed :
      (left i last : ℕ) (local : Bool) (n : ℕ)
      → named_loop m p_symt words left i last local ≡ some n
      → (local ≡ false → last + 1 ≡ i)
      → i + left ≤ 2 ^ 16
      → ((j : ℕ) → 0 < j → j ≤ last → IsNamed m p_symt words j)
      → (j : ℕ) → 0 < j
      → j ≤ n
      → IsNamed m p_symt words j
  unfolding named_loop
  named_loop-IsNamed zero i last local n e prefix fits so_far j pos le = so_far j pos (ground arith)
  named_loop-IsNamed (suc left) i last local n e prefix fits so_far j pos le =
      elim (named_round left i last local n e) [
        | inl same ↦ so_far j pos (omega arith)
        | inr (inl (_, rest)) ↦
            named_loop-IsNamed left (i + 1) last true n rest (λ f. cc) (omega arith) so_far j pos le
        | inr (inr (room, named, prefixed, rest)) ↦
            let cut : u16 i ≡ i = omega arith in
            named_loop-IsNamed left (i + 1) (u16 i) false n rest (λ _. omega arith) (omega arith)
              (λ k kpos kle. elim (ℕ_discrete k i) [
                | yes e' ↦ rw e' (named, room)
                | no ne ↦ so_far k kpos (omega (arith, prefix prefixed))
              ])
              j pos le
      ]

  sorted_loop_lem :
      (symt_size left i j : ℕ)
      → sorted_loop m p_symt symt_size left i ≡ true
      → i ≤ j
      → j < i + left
      → names_in_order m p_symt symt_size j ≡ true
  unfolding sorted_loop
  sorted_loop_lem symt_size zero i j e le lt = absurd (omega arith)
  sorted_loop_lem symt_size (suc left) i j e le lt = elim (ℕ_discrete i j) [
    | yes same ↦ rw (← same) (ground arith)
    | no ne ↦ sorted_loop_lem symt_size left (i + 1) j (ground arith) (omega arith) (omega arith)
  ]

-- How the count comes about, where it is not 0.
count_cases :
    (m : Memory) (p_symt symt_size : ℕ)
    → let rounds = named_rounds (read32 m p_symt) (symt_size / 4) in
      (compute_num_named_syms_raw m p_symt symt_size ≡ 0)
      ⊎ ((n : ℕ) × (named_loop m p_symt (symt_size / 4) rounds 1 0 false ≡ some n)
          × (sorted_loop m p_symt symt_size (n - 1) 2 ≡ true)
          × (compute_num_named_syms_raw m p_symt symt_size ≡ n))
unfolding compute_num_named_syms_raw
count_cases m p_symt symt_size =
    let rounds = named_rounds (read32 m p_symt) (symt_size / 4) in
    elim (Option-cases (named_loop m p_symt (symt_size / 4) rounds 1 0 false)) [
      | inl stopped ↦ inl (ground (arith, stopped))
      | inr (n, found) ↦ elim (Bool-cases (sorted_loop m p_symt symt_size (n - 1) 2)) [
        | inl sorted ↦ elim (Bool-cases (ltb (symt_size / 4) 1)) [
          | inl tiny ↦ inl (ground arith)
          | inr room ↦ inr (n, found, sorted, ground arith)
        ]
        | inr unsorted ↦ inl (ground arith)
      ]
    ]

-- For a symbol table below 256 KiB, the count that allows the binary search is honest: every entry
-- from 1 up to it has a name and lies in the table, and each name from the second on is not below
-- the one before it.
compute_num_named_syms_raw_lem :
    (m : Memory) (p_symt symt_size j : ℕ)
    → symt_size < 2 ^ 18
    → 0 < j
    → j ≤ compute_num_named_syms_raw m p_symt symt_size
    → IsNamed m p_symt (symt_size / 4) j × (1 < j → names_in_order m p_symt symt_size j ≡ true)
compute_num_named_syms_raw_lem m p_symt symt_size j small pos le =
    elim (count_cases m p_symt symt_size) [
      | inl none_named ↦ absurd (omega arith)
      | inr (n, found, sorted, e) ↦ (
        named_loop-IsNamed m p_symt (symt_size / 4) _ 1 0 false n found (λ _. omega arith)
            (ground arith) (λ k p q. absurd (omega arith)) j pos (omega arith),
        λ second.
            sorted_loop_lem m p_symt (symt_size / 4) symt_size (n - 1) 2 j sorted (omega arith)
              (omega arith),
      )
    ]
