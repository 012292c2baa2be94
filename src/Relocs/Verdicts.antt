-- ===== src/Relocs/Verdicts.antt =====
-- What a relocation of an untagged module asks for, apart from the walk of udynlink/udynlink.c: it is
-- refused, it leaves its word alone, or it gives the word a value.
use udynlink.Prelude.{
  ℕ, ◌+◌, ◌-◌, ◌%◌, ◌^◌, ◌≡◌, inl, inr, arith, Option-cases, some, none, ltb, ◌==◌, ◌||◌, ◌&&◌,
  if◌then◌else◌, add32,
}
use udynlink.Memory.{Memory, read32, write32}
use udynlink.Header.{ErrorCode, ok, load_bad_relocation_table, load_unknown_symbol}
use udynlink.Symbols.{Sym, SymName, get_sym_at_raw, type_extern, type_module_name}
use udynlink.Modules.{
  Module, Resolver, sym_deferred, is_own, get_code_pointer, get_data_pointer, get_reloc_target,
  offset_sym, weak_override,
}
use udynlink.Relocs.{
  Walk, is_abs32, is_code_base, own_value, override_weak, apply_base, apply_extern, apply_symbol,
  apply_named, apply_one, Outcome,
}

pub data Verdict : Type 0 where
  refuse : ErrorCode → Verdict
  leave : Verdict
  put : ℕ → Verdict

-- A reference to a symbol: an extern symbol has the host's address, and 0 while that is deferred; an
-- own symbol has the value that a look-up of the symbol reports.
unfoldable pub symbol_verdict : Resolver → Memory → Module → Sym → Verdict
symbol_verdict resolve m p_mod s =
    let sym_addr = resolve m p_mod s.name in
    if s.type == type_extern
    then if sym_addr == sym_deferred
      then put 0
      else if sym_addr == 0
      then refuse load_unknown_symbol
      else put sym_addr
    else if is_own s.type
    then put (weak_override resolve m p_mod s.name (offset_sym m p_mod s)).val
    else if s.type == type_module_name
    then refuse load_bad_relocation_table
    else leave

-- A data word that holds a link-time address moves by the base of .data or of .text.
unfoldable pub verdict : Resolver → Memory → Walk → ℕ → ℕ → Verdict
unfolding symbol_verdict
verdict resolve m w lot symt =
    let is_base = is_abs32 symt || is_code_base symt in
    elim (get_reloc_target m w.p_mod w.tab lot) [
      | none ↦ refuse load_bad_relocation_table
      | some p ↦
          if is_base && ltb lot w.num_lot
          then refuse load_bad_relocation_table
          else if is_abs32 symt
          then put ((read32 m p + get_data_pointer m w.p_mod + 2 ^ 32 - symt % 2 ^ 31) % 2 ^ 32)
          else if is_code_base symt
          then put (add32 (read32 m p) (get_code_pointer m w.p_mod))
          else elim (get_sym_at_raw m w.p_symtab symt w.symt_size) [
            | none ↦ refuse load_bad_relocation_table
            | some s ↦ symbol_verdict resolve m w.p_mod s
          ]
    ]

abbrev pub code_of : Verdict → ErrorCode
code_of (refuse code) = code
code_of _ = ok

abbrev pub carry_out : Verdict → Memory → ℕ → Memory
carry_out (put v) m p = write32 m p v
carry_out _ m p = m

-- The address `a` as one of the bytes of the word at `p`.
abbrev pub SameAt : Memory → Memory → Type 0
SameAt m n = (a : ℕ) → n a ≡ m a

-- An outcome is what a verdict on the word at `p` says.
abbrev pub CarriesOut : Verdict → Memory → ℕ → Outcome → Type 0
CarriesOut v m p (code, m') = (code ≡ code_of v) × ((a : ℕ) → m' a ≡ carry_out v m p a)

write32-write32 : (m : Memory) (p v x a : ℕ) → write32 (write32 m p v) p x a ≡ write32 m p x a
unfolding write32
write32-write32 m p v x a = ground arith

offset_sym_type : (m : Memory) (p_mod : Module) (s : Sym) → (offset_sym m p_mod s).type ≡ s.type
unfolding offset_sym
offset_sym_type m p_mod s = ground arith

module _ (resolve : Resolver) (m : Memory) (w : Walk) (p : ℕ) (untagged : w.tab.num ≡ 0)
    (steady : (v : ℕ) (name : SymName)
      → resolve (write32 m p v) w.p_mod name ≡ resolve m w.p_mod name) where
  apply_extern-CarriesOut :
      (s : Sym)
      → s.type ≡ type_extern
      → CarriesOut (symbol_verdict resolve m w.p_mod s) m p (apply_extern resolve m w s p)
  unfolding apply_extern symbol_verdict
  apply_extern-CarriesOut s extern = (ground arith, λ a. ground arith)

  apply_symbol-CarriesOut :
      (s : Sym) → CarriesOut (symbol_verdict resolve m w.p_mod s) m p (apply_symbol resolve m w s p)
  unfolding apply_symbol symbol_verdict own_value override_weak weak_override
  apply_symbol-CarriesOut s = (
    ground arith,
    λ a. ground (
      arith,
      offset_sym_type m w.p_mod s,
      steady (offset_sym m w.p_mod s).val s.name,
      write32-write32 m p (offset_sym m w.p_mod s).val (resolve m w.p_mod s.name) a,
    ),
  )

  pub apply_one-CarriesOut :
      (lot symt : ℕ)
      → get_reloc_target m w.p_mod w.tab lot ≡ some p
      → CarriesOut (verdict resolve m w lot symt) m p (apply_one resolve m w lot symt)
  unfolding apply_one apply_base apply_named verdict
  apply_one-CarriesOut lot symt at =
      elim (Option-cases (get_sym_at_raw m w.p_symtab symt w.symt_size)) [
        | inl missing ↦ (ground (arith, at, missing), λ a. ground (arith, at, missing))
        | inr (s, found) ↦ (
          ground (arith, at, found, (apply_symbol-CarriesOut s).0),
          λ a. ground (arith, at, found, (apply_symbol-CarriesOut s).1 a),
        )
      ]
