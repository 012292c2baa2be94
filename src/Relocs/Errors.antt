-- ===== src/Relocs/Errors.antt =====
-- How the relocation walk of udynlink/udynlink.c ends: its results.
use udynlink.Prelude.{
  ℕ, zero, suc, ◌+◌, ◌≡◌, ◌⊎◌, inl, inr, refl, arith, false, Bool-cases, Option-cases,
}
use udynlink.Memory.{Memory}
use udynlink.Header.{
  header_at, is_sectioned, ErrorCode, ok, load_bad_relocation_table, load_unknown_symbol,
  load_bad_section_table,
}
use udynlink.Sections.{get_sectab}
use udynlink.Symbols.{Sym}
use udynlink.Modules.{Module, Resolver}
use udynlink.Relocs.{
  Walk, is_ok, apply_base, apply_extern, apply_symbol, apply_named, apply_one, apply_loop,
  load_apply_relocations, lot_word, symt_word,
}

-- The results of a step.
abbrev pub IsResult : ErrorCode → Type 0
IsResult code = (code ≡ ok) ⊎ ((code ≡ load_bad_relocation_table) ⊎ (code ≡ load_unknown_symbol))

apply_symbol-IsResult :
    (resolve : Resolver) (m : Memory) (w : Walk) (s : Sym) (p : ℕ)
    → IsResult (apply_symbol resolve m w s p).0
unfolding apply_symbol apply_extern
apply_symbol-IsResult resolve m w s p = ground arith

apply_one-IsResult :
    (resolve : Resolver) (m : Memory) (w : Walk) (lot symt : ℕ)
    → IsResult (apply_one resolve m w lot symt).0
unfolding apply_one apply_base apply_named
apply_one-IsResult resolve m w lot symt = ground (arith, apply_symbol-IsResult resolve m w)

apply_loop-IsResult :
    (resolve : Resolver) (w : Walk) (left i : ℕ) (m : Memory)
    → IsResult (apply_loop resolve w left i m).0
unfolding apply_loop
apply_loop-IsResult resolve w zero i m = inl refl
apply_loop-IsResult resolve w (suc left) i m =
    let one =
      apply_one resolve m w (lot_word m w.p_relocations i) (symt_word m w.p_relocations i) in
    let rest = apply_loop-IsResult resolve w left (i + 1) one.1 in
    elim (Bool-cases (is_ok one.0)) [
      | inl good ↦ rw good rest
      | inr bad ↦ rw bad (
          apply_one-IsResult resolve m w (lot_word m w.p_relocations i)
            (symt_word m w.p_relocations i))
    ]

-- The relocation walk of a load ends with no error, with a bad relocation table or with an unknown
-- symbol; or the section table cannot be read, and then nothing has been written.
pub load_apply_relocations-IsResult :
    (resolve : Resolver) (m : Memory) (p_mod : Module) (p_header p_relocations p_symtab : ℕ)
    → IsResult (load_apply_relocations resolve m p_mod p_header p_relocations p_symtab).0
      ⊎ (load_apply_relocations resolve m p_mod p_header p_relocations p_symtab
          ≡ (load_bad_section_table, m))
unfolding load_apply_relocations
load_apply_relocations-IsResult resolve m p_mod p_header p_relocations p_symtab =
    elim (Option-cases (get_sectab m p_header false)) [
      | inl bad ↦ elim (Bool-cases (is_sectioned (header_at m p_header))) [
        | inl sectioned ↦ inr (rw (bad, sectioned, load_apply_relocations))
        | inr plain ↦
            inl (rw (bad, plain, load_apply_relocations) (apply_loop-IsResult resolve _ _ 0 m))
      ]
      | inr (tab, good) ↦
          inl (rw (good, load_apply_relocations) (apply_loop-IsResult resolve _ _ 0 m))
    ]
