-- ===== src/Examples/Symbols.antt =====
-- Applications to the symbols of an image: entries, counts and the search.
use udynlink.Prelude.{
  ℕ, zero, suc, ◌+◌, ◌-◌, ◌*◌, ◌≡◌, ◌<◌, ◌≤◌, refl, arith, true, false, some, List, [], ◌∷◌,
  Ordering,
}
use udynlink.Memory.{Memory, read32}
use udynlink.Header.{header_at, LoadMode, copy_text_data, ErrorCode, ok}
use udynlink.Symbols.{
  Sym, pooled, get_sym_at, get_sym_at_raw, bounded_sym_count, compare_name, type_module_name,
}
use udynlink.Symbols.Bounds.{NameInside, get_sym_at_raw_bounds}
use udynlink.Modules.{Module, free_module, find_symbol}
use udynlink.Modules.Search.{find_symbol_complete}
use udynlink.Examples.Images.{base, plain, from_words}

abbrev entries : ℕ → Sym
entries i = record {
  name = pooled (base + 32 + 28 + i * 2);
  val = (i - 1) * 4;
  type = 1;
  in_code = true;
}

get_sym_at_raw_bounds_example :
    (1 < bounded_sym_count plain (base + 32) 36)
    × (1 * 8 + 12 ≤ 36)
    × NameInside (base + 32) 36 (entries 1)
    × (◌≡◌ {A = ℕ} 1 0 → (entries 1).type ≡ type_module_name)
unfolding get_sym_at_raw read32 from_words
get_sym_at_raw_bounds_example = get_sym_at_raw_bounds plain (base + 32) 1 36 (omega arith) refl

abbrev loaded : Module
loaded = record free_module { p_header = base; num_named_syms = 2 }

-- The name of the second entry.
abbrev b_name : List ℕ
b_name = b'b' ∷ []

found_b : find_symbol plain loaded b_name ≡ some (entries 2)
unfolding find_symbol udynlink.Modules.search_names get_sym_at get_sym_at_raw header_at read32
    from_words udynlink.Memory.read16 udynlink.Memory.strcmp compare_name
    udynlink.Header.get_header_size udynlink.Header.get_sym_table_pointer
found_b = refl

reads :
    (i : ℕ)
    → 1 ≤ i
    → i ≤ loaded.num_named_syms
    → get_sym_at plain loaded.p_header i ≡ some (entries i)
unfolding get_sym_at get_sym_at_raw header_at read32 from_words
    udynlink.Header.get_sym_table_pointer udynlink.Memory.read16
reads zero h k = ground arith
reads (suc zero) h k = refl
reads (suc (suc zero)) h k = refl
reads (suc (suc (suc i))) h k = ground arith

below :
    (i j : ℕ)
    → 1 ≤ i
    → i < j
    → j ≤ loaded.num_named_syms
    → compare_name plain (entries j).name b_name ≡ Ordering.lt
    → compare_name plain (entries i).name b_name ≡ Ordering.lt
unfolding compare_name udynlink.Memory.strcmp from_words
below zero j h k l e = ground arith
below (suc zero) j h k l e = refl
below (suc (suc i)) j h k l e = ground arith

above :
    (i j : ℕ)
    → 1 ≤ i
    → i < j
    → j ≤ loaded.num_named_syms
    → compare_name plain (entries i).name b_name ≡ Ordering.gt
    → compare_name plain (entries j).name b_name ≡ Ordering.gt
unfolding compare_name udynlink.Memory.strcmp from_words
above zero j h k l e = ground arith
above (suc zero) j h k l e = ground (arith, e)
above (suc (suc i)) j h k l e = ground arith

find_symbol_complete_example :
    (j : ℕ) × (find_symbol plain loaded b_name ≡ some (entries j))
    × (compare_name plain (entries j).name b_name ≡ Ordering.eq)
unfolding compare_name udynlink.Memory.strcmp from_words
find_symbol_complete_example =
    find_symbol_complete plain loaded b_name entries reads below above 2 (omega arith) (omega arith)
      refl

-- The entry with the name of the module.
abbrev module_entry : Sym
module_entry = record { name = pooled (base + 32 + 28); val = 0; type = 3; in_code = false }
