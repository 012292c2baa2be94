-- ===== src/Relocs/Linked.antt =====
-- The relocation walk of a load in udynlink/udynlink.c against what its relocations ask for, in an
-- untagged module.
use udynlink.Prelude.{ℕ, zero, suc, ◌+◌, ◌%◌, ◌^◌, ◌≡◌, ◌<◌, refl, arith, false, some, ap, ◌∙◌}
use udynlink.Memory.{Memory, read32}
use udynlink.Memory.Laws.{read32-write32}
use udynlink.Header.{ErrorCode, ok, is_sectioned, header_at}
use udynlink.Modules.{Module, Resolver}
use udynlink.Relocs.{Walk, apply_loop, load_apply_relocations}
use udynlink.Relocs.Passes.{attempt, first_error, SameBut, attempt_lem}
use udynlink.Relocs.Verdicts.{leave, put, code_of, carry_out}
use udynlink.Relocs.Slots.{slot, wish, round, IsLinkable}
use udynlink.Relocs.Rounds.{relocs-IsPass, round_code, slot_word}
use udynlink.Relocs.Entry.{load_walk, load_apply_relocations-untagged}

-- What is found in the slots: the values that the relocations ask for, modulo 2^32.
pub record AreSlots (resolve : Resolver) (m : Memory) (w : Walk) (num_rels : ℕ) (m' : Memory)
    : Type 0 where
  pub valued :
      (j p v : ℕ)
      → j < num_rels
      → slot m w j ≡ some p
      → wish resolve m w j ≡ put v
      → read32 m' p ≡ v % 2 ^ 32
  pub left :
      (j p : ℕ)
      → j < num_rels
      → slot m w j ≡ some p
      → wish resolve m w j ≡ leave
      → read32 m' p ≡ read32 m p
  pub outside : SameBut (slot m w) num_rels m m'

apply_loop-attempt :
    (resolve : Resolver) (w : Walk) (left i : ℕ) (m : Memory)
    → apply_loop resolve w left i m ≡ attempt (round resolve w) left i m
unfolding apply_loop attempt
apply_loop-attempt resolve w zero i m = refl
apply_loop-attempt resolve w (suc left) i m =
    rw (apply_loop-attempt resolve w left (i + 1) (round resolve w i m).1) refl

first_error-eq :
    (c d : ℕ → ErrorCode) (left i : ℕ)
    → ((j : ℕ) → j < i + left → c j ≡ d j)
    → first_error c left i ≡ first_error d left i
unfolding first_error
first_error-eq c d zero i same = refl
first_error-eq c d (suc left) i same =
    rw (same i (omega arith), first_error-eq c d left (i + 1) (λ j lt. same j (omega arith))) refl

attempt-AreSlots :
    (resolve : Resolver) (m : Memory) (w : Walk) (num_rels : ℕ)
    → IsLinkable resolve m w num_rels
    → let (code, m') = attempt (round resolve w) num_rels 0 m in
      (code ≡ first_error (λ j. code_of (wish resolve m w j)) num_rels 0)
      × (code ≡ ok → AreSlots resolve m w num_rels m')
attempt-AreSlots resolve m w num_rels link =
    let (code, rest) =
      attempt_lem (round resolve w) (slot m w) num_rels m
        (relocs-IsPass resolve m w num_rels link) in
    (
      code
          ∙ first_error-eq (λ j. (round resolve w j m).0) (λ j. code_of (wish resolve m w j))
              num_rels 0 (λ j lt. round_code resolve m w num_rels link j (omega arith)),
      λ fine.
          let (outside, done) = rest fine in
          record {
            valued = λ j p v lt at asks.
                slot_word resolve m w num_rels link j p _ lt at (λ a. done j a lt)
                ∙ ap (λ v. read32 (carry_out v m p) p) asks
                ∙ read32-write32 m p v;
            left = λ j p lt at asks.
                slot_word resolve m w num_rels link j p _ lt at (λ a. done j a lt)
                ∙ ap (λ v. read32 (carry_out v m p) p) asks;
            outside = outside;
          },
    )

-- The relocation walk of the load of an untagged module, whose relocations patch words apart from each
-- other and from what the walk reads, ends with the error of the first relocation that is refused on
-- the memory at the start, or with none. Then each slot holds the value that its own relocation asks
-- for, whatever the others are, and all other memory is as it was.
pub load_apply_relocations-AreSlots :
    (resolve : Resolver) (m : Memory) (p_mod : Module) (p_header p_relocations p_symtab : ℕ)
    → is_sectioned (header_at m p_header) ≡ false
    → IsLinkable resolve m
        (load_walk m p_mod p_header p_relocations p_symtab)
        (header_at m p_header).num_rels
    → let w = load_walk m p_mod p_header p_relocations p_symtab in
      let num_rels = (header_at m p_header).num_rels in
      let (code, m') = load_apply_relocations resolve m p_mod p_header p_relocations p_symtab in
      (code ≡ first_error (λ j. code_of (wish resolve m w j)) num_rels 0)
      × (code ≡ ok → AreSlots resolve m w num_rels m')
load_apply_relocations-AreSlots resolve m p_mod p_header p_relocations p_symtab untagged link =
    let w = load_walk m p_mod p_header p_relocations p_symtab in
    let num_rels = (header_at m p_header).num_rels in
    let run =
      load_apply_relocations-untagged resolve m p_mod p_header p_relocations p_symtab untagged
      ∙ apply_loop-attempt resolve w num_rels 0 m in
    rw run (attempt-AreSlots resolve m w num_rels link)
