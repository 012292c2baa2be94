-- ===== src/Relocate/Untagged/Moved.antt =====
-- The pointers of a moved untagged module, udynlink/udynlink.c: what `rebase_module_pointers` leaves in
-- each word that a relocation of the module patches.
use udynlink.Prelude.{
  ℕ, zero, suc, ◌+◌, ◌%◌, ◌^◌, ◌≡◌, ◌≢◌, ◌⊎◌, ◌<◌, ◌||◌, refl, inl, inr, arith, true, false,
  Bool-cases, Option, some, none, ap, ◌∙◌, if◌then◌else◌, add32,
}
use udynlink.Memory.{Memory, read32}
use udynlink.Memory.Laws.{read32-write32}
use udynlink.Symbols.{Sym, get_sym_at_raw, type_internal, type_exported, type_weak}
use udynlink.Modules.{Module, header_of}
use udynlink.Relocs.{Walk, lot_word, symt_word, is_abs32, is_code_base}
use udynlink.Relocs.Passes.{SameBut}
use udynlink.Relocs.Wishes.{run, IsWalk, run_lem}
use udynlink.Relocs.Verdicts.{Verdict, leave, put, carry_out}
use udynlink.Relocs.Slots.{slot, rounds-apart}
use udynlink.Relink.Slots.{link_walk}
use udynlink.Relocate.Untagged.Rounds.{
  rebase_of, nobody, IsLoaded, rebase_verdict, rebase_verdict_same, rebase_carried, rebase_outside,
}
use udynlink.Relocate.Untagged.{
  Shift, Rebase, default_old, delta_of, rebase_one, rebase_loop, rebase_module_pointers,
}

-- The symbol that a relocation names, if it is not one that adds a base.
unfoldable pub named_symbol : Memory → Walk → ℕ → Option Sym
named_symbol m w symt =
    if is_abs32 symt || is_code_base symt
    then none
    else get_sym_at_raw m w.p_symtab symt w.symt_size

-- The word at `p` holds the module's own value of the symbol.
abbrev pub IsOwnValue : Memory → Rebase → ℕ → Sym → Type 0
IsOwnValue m r p s =
    (s.type ≡ type_internal)
    ⊎ ((s.type ≡ type_exported) ⊎ ((s.type ≡ type_weak) × (read32 m p ≡ default_old r s)))

abbrev round : Rebase → ℕ → ℕ → Memory → Memory
round r p_rels j n = rebase_one n r (lot_word n p_rels j) (symt_word n p_rels j)

rebase_loop-run :
    (r : Rebase) (p_rels left i : ℕ) (m : Memory)
    → rebase_loop r p_rels left i m ≡ run (round r p_rels) left i m
unfolding rebase_loop run
rebase_loop-run r p_rels zero i m = refl
rebase_loop-run r p_rels (suc left) i m = rebase_loop-run r p_rels left (i + 1) (round r p_rels i m)

rebase_module_pointers-run :
    (m : Memory) (p_mod : Module) (shift : Shift)
    → rebase_module_pointers m p_mod shift
      ≡ run
          (round (rebase_of m p_mod shift) (link_walk m p_mod).p_relocations)
          (header_of m p_mod).num_rels
          0
          m
unfolding rebase_module_pointers
rebase_module_pointers-run m p_mod shift =
    rebase_loop-run (rebase_of m p_mod shift) (link_walk m p_mod).p_relocations
      (header_of m p_mod).num_rels 0 m

rebase-IsWalk :
    (m : Memory) (p_mod : Module) (num_rels : ℕ) (shift : Shift)
    (loaded : IsLoaded m p_mod num_rels)
    → IsWalk
        (round (rebase_of m p_mod shift) (link_walk m p_mod).p_relocations)
        (slot m (link_walk m p_mod))
        num_rels
        m
        (λ j p.
          rebase_verdict m
            (rebase_of m p_mod shift)
            p
            (symt_word m (link_walk m p_mod).p_relocations j))
rebase-IsWalk m p_mod num_rels shift loaded = record {
  apart = rounds-apart nobody m (link_walk m p_mod) num_rels loaded.linkable;
  outside =
      λ j n a lt near outside. rebase_outside m p_mod num_rels shift loaded n near j a lt outside;
  carried = λ j p n a lt at near word.
      rebase_carried m p_mod num_rels shift loaded n near j p a lt at
      ∙ ap (λ v. carry_out v n p a)
          (rebase_verdict_same m p_mod num_rels shift loaded n near p
            (symt_word m (link_walk m p_mod).p_relocations j) word);
}

-- What is found in the slots behind a shift of the pointers: the word of a data relocation has moved
-- with .data or .text, and so has a reference to an own symbol; that to a weak symbol which the host
-- overrides, or to another module's, is as it was.
pub record AreMoved (m : Memory) (p_mod : Module) (shift : Shift) (m' : Memory) : Type 0 where
  pub data_based :
      (j p : ℕ)
      → j < (header_of m p_mod).num_rels
      → slot m (link_walk m p_mod) j ≡ some p
      → is_abs32 (symt_word m (link_walk m p_mod).p_relocations j) ≡ true
      → read32 m' p ≡ (read32 m p + shift.data_delta) % 2 ^ 32
  pub code_based :
      (j p : ℕ)
      → j < (header_of m p_mod).num_rels
      → slot m (link_walk m p_mod) j ≡ some p
      → is_abs32 (symt_word m (link_walk m p_mod).p_relocations j) ≡ false
      → is_code_base (symt_word m (link_walk m p_mod).p_relocations j) ≡ true
      → read32 m' p ≡ (read32 m p + shift.code_delta) % 2 ^ 32
  pub own :
      (j p : ℕ) (s : Sym)
      → j < (header_of m p_mod).num_rels
      → slot m (link_walk m p_mod) j ≡ some p
      → named_symbol m (link_walk m p_mod) (symt_word m (link_walk m p_mod).p_relocations j)
        ≡ some s
      → IsOwnValue m (rebase_of m p_mod shift) p s
      → read32 m' p
        ≡ (read32 m p + (if s.in_code then shift.code_delta else shift.data_delta)) % 2 ^ 32
  pub foreign :
      (j p : ℕ) (s : Sym)
      → j < (header_of m p_mod).num_rels
      → slot m (link_walk m p_mod) j ≡ some p
      → named_symbol m (link_walk m p_mod) (symt_word m (link_walk m p_mod).p_relocations j)
        ≡ some s
      → ¬ IsOwnValue m (rebase_of m p_mod shift) p s
      → read32 m' p ≡ read32 m p
  pub outside : SameBut (slot m (link_walk m p_mod)) (header_of m p_mod).num_rels m m'

module _ (m : Memory) (r : Rebase) (p symt : ℕ) where
  verdict_data :
      is_abs32 symt ≡ true → rebase_verdict m r p symt ≡ put (add32 (read32 m p) r.shift.data_delta)
  unfolding rebase_verdict
  verdict_data abs = ground (arith, abs)

  verdict_code :
      is_abs32 symt ≡ false
      → is_code_base symt ≡ true
      → rebase_verdict m r p symt ≡ put (add32 (read32 m p) r.shift.code_delta)
  unfolding rebase_verdict
  verdict_code abs base = ground (arith, abs, base)

  module _ (s : Sym) (named : (is_abs32 symt || is_code_base symt) ≡ false)
      (known : get_sym_at_raw m r.p_symt symt r.symt_size ≡ some s) where
    verdict_own :
        IsOwnValue m r p s → rebase_verdict m r p symt ≡ put (add32 (read32 m p) (delta_of r s))
    unfolding rebase_verdict
    verdict_own own = ground (arith, known)

    verdict_foreign : ¬ IsOwnValue m r p s → rebase_verdict m r p symt ≡ leave
    unfolding rebase_verdict
    verdict_foreign foreign =
        let inner : s.type ≢ type_internal = λ e. foreign (inl e) in
        let exported : s.type ≢ type_exported = λ e. foreign (inr (inl e)) in
        let weak : s.type ≡ type_weak → read32 m p ≢ default_old r s =
          λ e f. foreign (inr (inr (e, f))) in
        ground (arith, known)

named_parts :
    (m : Memory) (w : Walk) (symt : ℕ) (s : Sym)
    → named_symbol m w symt ≡ some s
    → ((is_abs32 symt || is_code_base symt) ≡ false)
      × (get_sym_at_raw m w.p_symtab symt w.symt_size ≡ some s)
unfolding named_symbol
named_parts m w symt s known = elim (Bool-cases (is_abs32 symt || is_code_base symt)) [
  | inl base ↦ absurd (ground (arith, known, base))
  | inr named ↦ (named, ground (arith, known, named))
]

-- Behind the walk each slot holds what its relocation asks for on the memory at the start.
pub rebase_module_pointers_slots :
    (m : Memory) (p_mod : Module) (shift : Shift)
    → IsLoaded m p_mod (header_of m p_mod).num_rels
    → SameBut
        (slot m (link_walk m p_mod))
        (header_of m p_mod).num_rels
        m
        (rebase_module_pointers m p_mod shift)
      × ((j p : ℕ)
          → j < (header_of m p_mod).num_rels
          → slot m (link_walk m p_mod) j ≡ some p
          → read32 (rebase_module_pointers m p_mod shift) p
            ≡ read32
                (carry_out
                  (rebase_verdict m
                    (rebase_of m p_mod shift)
                    p
                    (symt_word m (link_walk m p_mod).p_relocations j))
                  m
                  p)
                p)
rebase_module_pointers_slots m p_mod shift loaded = rw (rebase_module_pointers-run m p_mod shift) (
    run_lem (round (rebase_of m p_mod shift) (link_walk m p_mod).p_relocations)
      (slot m (link_walk m p_mod)) (header_of m p_mod).num_rels m
      (λ j p.
        rebase_verdict m (rebase_of m p_mod shift) p
          (symt_word m (link_walk m p_mod).p_relocations j))
      (rebase-IsWalk m p_mod (header_of m p_mod).num_rels shift loaded))

pub rebase_module_pointers-AreMoved :
    (m : Memory) (p_mod : Module) (shift : Shift)
    → IsLoaded m p_mod (header_of m p_mod).num_rels
    → AreMoved m p_mod shift (rebase_module_pointers m p_mod shift)
rebase_module_pointers-AreMoved m p_mod shift loaded =
    let w = link_walk m p_mod in
    let r = rebase_of m p_mod shift in
    let symt = λ (j : ℕ). symt_word m w.p_relocations j in
    let (outside, word) = rebase_module_pointers_slots m p_mod shift loaded in
    let written = λ (p v : ℕ) (verdict : Verdict) (asks : verdict ≡ put v).
      ap (λ v. read32 (carry_out v m p) p) asks ∙ read32-write32 m p v in
    record {
      data_based = λ j p lt at abs.
          word j p lt at ∙ written p _ _ (verdict_data m r p (symt j) abs) ∙ omega arith;
      code_based = λ j p lt at abs base.
          word j p lt at ∙ written p _ _ (verdict_code m r p (symt j) abs base) ∙ omega arith;
      own = λ j p s lt at known own.
          let (named, found) = named_parts m w (symt j) s known in
          word j p lt at
          ∙ written p _ _ (verdict_own m r p (symt j) s named found own)
          ∙ omega arith;
      foreign = λ j p s lt at known foreign.
          let (named, found) = named_parts m w (symt j) s known in
          word j p lt at
          ∙ ap (λ v. read32 (carry_out v m p) p)
              (verdict_foreign m r p (symt j) s named found foreign);
      outside = outside;
    }
