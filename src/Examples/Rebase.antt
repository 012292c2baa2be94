-- ===== src/Examples/Rebase.antt =====
-- An application to the move of an untagged module with two relocations.
use udynlink.Prelude.{
  ℕ, zero, suc, ◌+◌, ◌*◌, ◌^◌, ◌≡◌, ◌≢◌, ◌<◌, ◌≤◌, ◌||◌, refl, arith, inl, true, false, some, [],
}
use udynlink.Memory.{Memory, memcpy, read32}
use udynlink.Header.{header_at, is_sectioned, copy_text_data}
use udynlink.Host.{World}
use udynlink.Sections.{sectab_of}
use udynlink.Modules.{Module, free_module, header_of, get_data_pointer}
use udynlink.Relocs.{lot_word, symt_word, is_abs32, is_code_base}
use udynlink.Relocs.Slots.{slot, IsLinkable}
use udynlink.Relink.Slots.{link_walk}
use udynlink.Relocate.{move_untagged, moved_module}
use udynlink.Relocate.Untagged.Rounds.{IsLoaded, nobody}
use udynlink.Relocate.Untagged.Moved.{AreMoved}
use udynlink.Relocate.Moving.{move_shift, move_untagged-AreMoved}
use udynlink.Examples.Images.{base, related, from_words}

abbrev loaded : Module
loaded = record free_module { p_header = base; p_ram = 0x8000; mode = copy_text_data }

abbrev running : World
running = record { mem = related; log = [] }

abbrev copied : Memory
copied = memcpy related 0x9000 0x8000 12

abbrev moved : Module
moved = moved_module loaded 0x9000 ((header_of copied loaded).num_lot * 4)

slot_zero : slot copied (link_walk copied moved) 0 ≡ some 0x9000
unfolding udynlink.Modules.get_reloc_target read32 memcpy udynlink.Header.get_relocs_pointer
    header_at udynlink.Memory.read16 from_words
slot_zero = refl

slot_one : slot copied (link_walk copied moved) 1 ≡ some 0x9008
unfolding udynlink.Modules.get_reloc_target read32 memcpy udynlink.Header.get_relocs_pointer
    header_at udynlink.Memory.read16 from_words sectab_of udynlink.Sections.get_sectab
    udynlink.Sections.empty_view get_data_pointer
slot_one = refl

in_block : (j p : ℕ) → j < 2 → slot copied (link_walk copied moved) j ≡ some p → 0x9000 ≤ p
in_block zero p lt at = ground (arith, at, slot_zero)
in_block (suc zero) p lt at = ground (arith, at, slot_one)
in_block (suc (suc j)) p lt at = absurd (ground (arith, lt))

lot_zero : lot_word copied (link_walk copied moved).p_relocations 0 ≡ 0
unfolding read32 memcpy udynlink.Header.get_relocs_pointer header_at udynlink.Memory.read16
    from_words
lot_zero = refl

lot_one : lot_word copied (link_walk copied moved).p_relocations 1 ≡ 1
unfolding read32 memcpy udynlink.Header.get_relocs_pointer header_at udynlink.Memory.read16
    from_words
lot_one = refl

two_words :
    (i j : ℕ)
    → i < 2
    → j < 2
    → i ≢ j
    → lot_word copied (link_walk copied moved).p_relocations i
      ≢ lot_word copied (link_walk copied moved).p_relocations j
two_words zero zero lt lt' ne = absurd (ne refl)
two_words zero (suc zero) lt lt' ne = omega (arith, lot_zero, lot_one)
two_words (suc zero) zero lt lt' ne = omega (arith, lot_zero, lot_one)
two_words (suc zero) (suc zero) lt lt' ne = absurd (ne refl)
two_words (suc (suc i)) j lt lt' ne = absurd (ground (arith, lt))
two_words i (suc (suc j)) lt lt' ne = absurd (ground (arith, lt'))

untagged : is_sectioned (header_of copied moved) ≡ false
unfolding header_at udynlink.Memory.read16 memcpy from_words
untagged = refl

no_table : (link_walk copied moved).tab.num ≡ 0
unfolding sectab_of udynlink.Sections.get_sectab header_at udynlink.Memory.read16 memcpy from_words
    udynlink.Sections.empty_view
no_table = refl

behind_entry : moved.p_ram + (header_of copied moved).num_lot * 4 ≤ get_data_pointer copied moved
unfolding header_at get_data_pointer udynlink.Memory.read16 memcpy from_words
behind_entry = omega arith

where_relocs : (link_walk copied moved).p_relocations ≡ base + 32
unfolding udynlink.Header.get_relocs_pointer header_at udynlink.Memory.read16 memcpy from_words
where_relocs = refl

where_symt : (link_walk copied moved).p_symtab ≡ base + 48
unfolding udynlink.Header.get_sym_table_pointer header_at udynlink.Memory.read16 memcpy from_words
where_symt = refl

short_table : (link_walk copied moved).symt_size ≡ 24
unfolding header_at read32 memcpy from_words
short_table = refl

where_header : moved.p_header ≡ base
where_header = refl

moved-IsLinkable : IsLinkable nobody copied (link_walk copied moved) 2
moved-IsLinkable = record {
  untagged = untagged;
  empty = no_table;
  once = two_words;
  behind_lot = behind_entry;
  header_apart = λ j a lt lo hi p at. inl (omega (arith, in_block j p lt at, where_header));
  rels_apart = λ j a lt lo hi p at. inl (omega (arith, in_block j p lt at, where_relocs));
  symt_apart =
      λ j a lt lo hi p at. inl (omega (arith, in_block j p lt at, where_symt, short_table));
  steady = λ n name same. refl;
}

placed :
    (j : ℕ) → j < 2 → (p : ℕ) × (slot copied (link_walk copied moved) j ≡ some p) × (p + 4 ≤ 2 ^ 32)
placed zero lt = (0x9000, slot_zero, omega arith)
placed (suc zero) lt = (0x9008, slot_one, omega arith)
placed (suc (suc j)) lt = absurd (ground (arith, lt))

lots_fit : (j : ℕ) → j < 2 → lot_word copied (link_walk copied moved).p_relocations j < 2 ^ 32
lots_fit zero lt = omega (arith, lot_zero)
lots_fit (suc zero) lt = omega (arith, lot_one)
lots_fit (suc (suc j)) lt = absurd (ground (arith, lt))

one_entry : (header_of copied moved).num_lot ≡ 1
unfolding header_at udynlink.Memory.read16 memcpy from_words
one_entry = refl

named :
    (is_abs32 (symt_word copied (link_walk copied moved).p_relocations 0)
      || is_code_base (symt_word copied (link_walk copied moved).p_relocations 0))
    ≡ false
unfolding read32 memcpy udynlink.Header.get_relocs_pointer header_at udynlink.Memory.read16
    from_words
named = refl

bases_in_data :
    (j : ℕ)
    → j < 2
    → (is_abs32 (symt_word copied (link_walk copied moved).p_relocations j)
        || is_code_base (symt_word copied (link_walk copied moved).p_relocations j))
      ≡ true
    → (header_of copied moved).num_lot ≤ lot_word copied (link_walk copied moved).p_relocations j
bases_in_data zero lt adds = absurd (cc (named, adds))
bases_in_data (suc zero) lt adds = omega (arith, lot_one, one_entry)
bases_in_data (suc (suc j)) lt adds = absurd (ground (arith, lt))

moved-IsLoaded : IsLoaded copied moved 2
moved-IsLoaded = record {
  linkable = moved-IsLinkable;
  placed = placed;
  lots_fit = lots_fit;
  bases_in_data = bases_in_data;
}

two_rels : (header_of copied moved).num_rels ≡ 2
unfolding header_at udynlink.Memory.read16 memcpy from_words
two_rels = refl

at_count : IsLoaded copied moved (header_of copied moved).num_rels
at_count = rw two_rels moved-IsLoaded

move_untagged-AreMoved_example :
    let s = move_untagged running loaded false 0x9000 12 in
    (s.p_mod ≡ moved) × AreMoved copied moved (move_shift running loaded 0x9000) s.world.mem
move_untagged-AreMoved_example =
    move_untagged-AreMoved running loaded false 0x9000 12 (omega arith) at_count
