-- ===== src/Examples/Walks.antt =====
-- Applications to the relocation walk.
use udynlink.Sections.{sectab_of, empty_view}
use udynlink.Relocs.Passes.{first_error}
use udynlink.Relocs.Verdicts.{code_of}
use mathlib.Core.Path.{subst}
use udynlink.Relink.{link}
use udynlink.Relink.Slots.{link_walk}
use udynlink.Relink.Linked.{AreLinked, link-AreLinked}
use udynlink.Prelude.{
  true, ◌*◌, zero, suc, ◌≢◌, false, inl, ℕ, ◌+◌, ◌≡◌, ◌<◌, ◌≤◌, refl, arith, some,
}
use udynlink.Memory.{Memory, read32}
use udynlink.Relocs.{load_apply_relocations, lot_word}
use udynlink.Relocs.Slots.{slot, wish, IsLinkable}
use udynlink.Relocs.Entry.{load_walk}
use udynlink.Relocs.Linked.{AreSlots, load_apply_relocations-AreSlots}
use udynlink.Header.{header_at, is_sectioned, ok, LoadMode, copy_text_data, load_bad_section_table}
use udynlink.Modules.{header_of, get_data_pointer, Module, Resolver, free_module, get_reloc_target}
use udynlink.Relocs.{Walk, apply_one}
use udynlink.Examples.Images.{related, base, from_words}

-- A host that knows one address for every symbol.
abbrev resolve : Resolver
resolve = λ m p_mod name. 0x5000

-- The module of `related`, with its data word at 0x8008.
abbrev linked : Module
linked = record free_module { p_header = base; p_ram = 0x8000; mode = copy_text_data }

abbrev linked_walk : Walk
linked_walk = load_walk related linked base (base + 32) (base + 48)

slot_zero : slot related linked_walk 0 ≡ some 0x8000
unfolding get_reloc_target header_at udynlink.Memory.read16 from_words read32
slot_zero = refl

slot_one : slot related linked_walk 1 ≡ some 0x8008
unfolding get_reloc_target header_at udynlink.Memory.read16 from_words read32 empty_view
    get_data_pointer
slot_one = refl

-- Both slots lie in the block.
in_block : (j p : ℕ) → j < 2 → slot related linked_walk j ≡ some p → 0x8000 ≤ p
in_block zero p lt at = ground (arith, at, slot_zero)
in_block (suc zero) p lt at = ground (arith, at, slot_one)
in_block (suc (suc j)) p lt at = absurd (ground (arith, lt))

pub two_words :
    (i j : ℕ)
    → i < 2
    → j < 2
    → i ≢ j
    → lot_word related (base + 32) i ≢ lot_word related (base + 32) j
unfolding from_words read32
two_words zero zero lt lt' ne = absurd (ne refl)
two_words zero (suc zero) lt lt' ne = omega arith
two_words (suc zero) zero lt lt' ne = omega arith
two_words (suc zero) (suc zero) lt lt' ne = absurd (ne refl)
two_words (suc (suc i)) j lt lt' ne = absurd (ground (arith, lt))
two_words i (suc (suc j)) lt lt' ne = absurd (ground (arith, lt'))

pub linked_untagged : is_sectioned (header_at related base) ≡ false
unfolding header_at udynlink.Memory.read16 from_words
linked_untagged = refl

pub two_rels : (header_at related base).num_rels ≡ 2
unfolding header_at udynlink.Memory.read16 from_words
two_rels = refl

short_table : linked_walk.symt_size ≡ 24
unfolding header_at udynlink.Memory.read16 read32 from_words
short_table = refl

no_table : linked_walk.tab.num ≡ 0
unfolding empty_view
no_table = refl

behind_entry :
    linked.p_ram + (header_of related linked).num_lot * 4 ≤ get_data_pointer related linked
unfolding header_at udynlink.Memory.read16 read32 from_words get_data_pointer
behind_entry = omega arith

linked-IsLinkable : IsLinkable resolve related linked_walk 2
linked-IsLinkable = record {
  untagged = linked_untagged;
  empty = no_table;
  once = two_words;
  behind_lot = behind_entry;
  header_apart = λ j a lt lo hi p at. inl (omega (arith, in_block j p lt at));
  rels_apart = λ j a lt lo hi p at. inl (omega (arith, in_block j p lt at));
  symt_apart = λ j a lt lo hi p at. inl (omega (arith, in_block j p lt at, short_table));
  steady = λ n name same. refl;
}

linked_at_count : IsLinkable resolve related linked_walk (header_at related base).num_rels
linked_at_count = rw two_rels linked-IsLinkable

load_apply_relocations-AreSlots_example :
    let (code, m') = load_apply_relocations resolve related linked base (base + 32) (base + 48) in
    (code
      ≡ first_error
          (λ j. code_of (wish resolve related linked_walk j))
          (header_at related base).num_rels
          0)
    × (code ≡ ok → AreSlots resolve related linked_walk (header_at related base).num_rels m')
load_apply_relocations-AreSlots_example =
    load_apply_relocations-AreSlots resolve related linked base (base + 32) (base + 48)
      linked_untagged linked_at_count

-- The walk over it ends well, so that its slots are described.
no_error : first_error (λ j. code_of (wish resolve related linked_walk j)) 2 0 ≡ ok
unfolding first_error udynlink.Relocs.Verdicts.verdict get_reloc_target read32 from_words header_at
    udynlink.Memory.read16 udynlink.Symbols.get_sym_at_raw empty_view
no_error = refl

same_walk : linked_walk ≡ link_walk related linked
unfolding sectab_of udynlink.Sections.get_sectab empty_view udynlink.Header.get_relocs_pointer
    udynlink.Header.get_sym_table_pointer header_at udynlink.Memory.read16 from_words
same_walk = refl

linked_again :
    IsLinkable resolve related (link_walk related linked) (header_of related linked).num_rels
linked_again =
    subst (λ w. IsLinkable resolve related w (header_of related linked).num_rels) same_walk
      linked_at_count

link-AreLinked_example :
    let (code, m') = link resolve true (some linked) related in
    (code ≡ ok)
    × AreLinked resolve true related
        (link_walk related linked)
        (header_of related linked).num_rels
        m'
link-AreLinked_example = link-AreLinked resolve true related linked (omega arith) linked_again
