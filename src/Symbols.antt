-- ===== src/Symbols.antt =====
-- The symbol table of an image, udynlink/udynlink.c: reading an entry, counting the entries, and
-- the test that allows a binary search.
pub mod Bounds
use udynlink.Prelude.{
  u32, ℕ, zero, suc, ◌+◌, ◌-◌, ◌*◌, ◌/◌, ◌%◌, ◌^◌, compare, Ordering, Bool, true, false, ◌&&◌, ◌||◌,
  not, Option, some, none, List, [], ◌∷◌, ltb, leb, ◌==◌, ◌!=◌, if◌then◌else◌, u16, field,
}
use udynlink.Memory.{Memory, read32, strcmp, strncmp}
use udynlink.Header.{Header, header_at, get_sym_table_pointer}

abbrev pub type_internal : ℕ
type_internal = 0

abbrev pub type_exported : ℕ
type_exported = 1

abbrev pub type_extern : ℕ
type_extern = 2

abbrev pub type_module_name : ℕ
type_module_name = 3

abbrev pub type_weak : ℕ
type_weak = 4

-- The name of a symbol is text in the image's pool, or the constant "(N/A)" of a local symbol.
pub data SymName : Type 0 where
  not_available : SymName
  pooled : ℕ → SymName

pub record Sym : Type 0 where
  pub name : SymName
  pub val : ℕ
  pub type : ℕ
  pub in_code : Bool

-- `strcmp` of two texts of the caller.
unfoldable pub compare_texts : List ℕ → List ℕ → Ordering
compare_texts [] [] = Ordering.eq
compare_texts [] (d ∷ ds) = Ordering.lt
compare_texts (c ∷ cs) [] = Ordering.gt
compare_texts (c ∷ cs) (d ∷ ds) =
    let rest = compare_texts cs ds in
    elim (compare c d) [ Ordering.lt ↦ Ordering.lt | Ordering.gt ↦ Ordering.gt | _ ↦ rest ]

-- The characters of "(N/A)".
abbrev pub na_text : List ℕ
na_text = b'(' ∷ b'N' ∷ b'/' ∷ b'A' ∷ b')' ∷ []

-- `strcmp(p_sym->name, name)`.
unfoldable pub compare_name : Memory → SymName → List ℕ → Ordering
compare_name m not_available name = compare_texts na_text name
compare_name m (pooled p) name = strcmp m p name

abbrev pub is_eq : Ordering → Bool
is_eq Ordering.eq = true
is_eq _ = false

abbrev pub is_gt : Ordering → Bool
is_gt Ordering.gt = true
is_gt _ = false

-- The parts of a `name_off` word: bits 26:0, bits 29:27 and bit 30.
abbrev pub name_offset : ℕ → ℕ
name_offset name_off = name_off % 2 ^ 27

abbrev pub sym_type : ℕ → ℕ
sym_type name_off = field name_off 27 3

-- Where the first word of entry `index` is read. The index of the word is a size_t: `index * 2 + 1` wraps,
-- and its last value is the word before the table.
abbrev pub name_off_at : ℕ → ℕ → ℕ
name_off_at p_symt index =
    let word = u32 (index * 2 + 1) in if word == 2 ^ 32 - 1 then p_symt - 4 else p_symt + word * 4

-- `none` is NULL. The index of the second word wraps in the same way.
unfoldable pub get_sym_at_raw : Memory → ℕ → ℕ → ℕ → Option Sym
get_sym_at_raw m p_symt index symt_size =
    let symt_words = symt_size / 4 in
    let second = u32 (index * 2 + 2) in
    let name_off = read32 m (name_off_at p_symt index) in
    let val = read32 m (p_symt + second * 4) in
    let type = sym_type name_off in
    let in_code = field name_off 30 1 != 0 in
    if ltb symt_words 1 || leb (read32 m p_symt) index || leb symt_words second
    then none
    else if index == 0 && type != type_module_name
    then none
    else if type == type_internal
    then some (record { name = not_available; val = val; type = type; in_code = in_code })
    else if leb symt_size (name_offset name_off)
    then none
    else some (record {
      name = pooled (p_symt + name_offset name_off);
      val = val;
      type = type;
      in_code = in_code;
    })

unfoldable pub get_sym_at : Memory → ℕ → ℕ → Option Sym
get_sym_at m p index =
    let h = header_at m p in get_sym_at_raw m (get_sym_table_pointer h p) index h.symt_size

unfoldable pub bounded_sym_count : Memory → ℕ → ℕ → ℕ
bounded_sym_count m p_symt symt_size =
    let symt_words = symt_size / 4 in
    let claimed = read32 m p_symt in
    let max_valid = if leb 3 symt_words then (symt_words - 1) / 2 else 0 in
    if ltb symt_words 1 then 0 else if ltb claimed max_valid then claimed else max_valid

-- The first loop of `compute_num_named_syms_raw`, at entry `i` with `left` entries to go. It runs
-- through the named entries; `none` is the return of 0 for a named entry behind a local one.
unfoldable pub named_loop : Memory → ℕ → ℕ → ℕ → ℕ → ℕ → Bool → Option ℕ
named_loop m p_symt symt_words zero i last_named found_local = some last_named
named_loop m p_symt symt_words (suc left) i last_named found_local =
    let type = sym_type (read32 m (p_symt + (i * 2 + 1) * 4)) in
    let rest =
      named_loop m p_symt symt_words left (i + 1)
        (if type == type_internal then last_named else u16 i)
        (found_local || type == type_internal) in
    if leb symt_words (i * 2 + 1)
    then some last_named
    else if found_local && type != type_internal
    then none
    else rest

-- One comparison of the second loop, of the names of entries `i - 1` and `i`.
unfoldable pub names_in_order : Memory → ℕ → ℕ → ℕ → Bool
names_in_order m p_symt symt_size i =
    let prev_off = name_offset (read32 m (p_symt + ((i - 1) * 2 + 1) * 4)) in
    let cur_off = name_offset (read32 m (p_symt + (i * 2 + 1) * 4)) in
    let prev_remaining = symt_size - prev_off in
    let cur_remaining = symt_size - cur_off in
    let cmp_bound = if ltb prev_remaining cur_remaining then prev_remaining else cur_remaining in
    if leb symt_size prev_off || leb symt_size cur_off
    then false
    else not (is_gt (strncmp m (p_symt + prev_off) (p_symt + cur_off) cmp_bound))

-- The second loop from entry `i`, with `left` entries to go.
unfoldable pub sorted_loop : Memory → ℕ → ℕ → ℕ → ℕ → Bool
sorted_loop m p_symt symt_size zero i = true
sorted_loop m p_symt symt_size (suc left) i =
    names_in_order m p_symt symt_size i && sorted_loop m p_symt symt_size left (i + 1)

-- The number of rounds of the first loop: its index stays below the entry count and below half of
-- the words of the table.
abbrev pub named_rounds : ℕ → ℕ → ℕ
named_rounds num_entries symt_words =
    if ltb num_entries (symt_words / 2 + 1) then num_entries - 1 else symt_words / 2

unfoldable pub compute_num_named_syms_raw : Memory → ℕ → ℕ → ℕ
compute_num_named_syms_raw m p_symt symt_size =
    let symt_words = symt_size / 4 in
    let rounds = named_rounds (read32 m p_symt) symt_words in
    if ltb symt_words 1 then 0 else elim (named_loop m p_symt symt_words rounds 1 0 false) [
      | none ↦ 0
      | some last_named ↦
          if sorted_loop m p_symt symt_size (last_named - 1) 2 then last_named else 0
    ]

unfoldable pub compute_num_named_syms : Memory → ℕ → ℕ
compute_num_named_syms m p =
    let h = header_at m p in compute_num_named_syms_raw m (get_sym_table_pointer h p) h.symt_size

-- The name of the entry at index 0, the module's own. `symt_size` is the bound that
-- `udynlink_image_get_module_name` disables by SIZE_MAX.
unfoldable pub name_of : Option Sym → Option SymName
name_of none = none
name_of (some sym) = some sym.name

unfoldable pub image_get_module_name : Memory → ℕ → Option SymName
unfolding name_of
image_get_module_name m p_symt =
    if p_symt == 0 then none else name_of (get_sym_at_raw m p_symt 0 (2 ^ 32 - 1))

-- `udynlink_get_module_name` with the module's header, and `udynlink_get_module_name_from_image`.
unfoldable pub get_module_name : Memory → ℕ → Option SymName
unfolding name_of
get_module_name m p = name_of (get_sym_at m p 0)
