-- ===== src/Examples/Copies.antt =====
-- An application to a load whose image has relocations.
use udynlink.Prelude.{ℕ, ◌+◌, ◌≡◌, refl, arith, true, inl, inr, some, List, [], ◌∷◌}
use udynlink.Memory.{read32}
use udynlink.Header.{header_at, copy_text_data, is_sectioned}
use udynlink.Modules.{Module, free_module, header_of}
use udynlink.Relocs.{is_ok, lot_word}
use udynlink.Host.{Host, World, external_malloc}
use udynlink.Loader.{Stage, load_module_image}
use udynlink.Loader.Copy.{Image}
use udynlink.Loader.Extents.{ram_of}
use udynlink.Loader.Loaded.{placed}
use udynlink.Loader.Faithful.{IsLoadable}
use udynlink.Loader.Contained.{block_at, load_module_image_beyond}
use udynlink.Memory.{IsBytes}
use udynlink.Memory.Laws.{write32-IsBytes}
use udynlink.Header.{copy_all}
use udynlink.Loader.Planning.{plan_load}
use udynlink.Loader.Result.{IsCopy, load_module_image-IsCopy}
use udynlink.Examples.Images.{base, related, related_words, from_words}
use udynlink.Examples.Walks.{two_words, linked_untagged, two_rels}

-- A host that knows one address for every symbol and gives a block at 0x8000.
abbrev host : Host
host = record { resolve = λ m p_mod name. 0x5000; malloc = λ log r. 0x8000 }

abbrev image : Image
image = record {
  p_header = base;
  p_relocations = base + 32;
  p_symtab = base + 48;
  p_code = base + 72;
  p_data = base + 76;
}

abbrev start : World
start = record { mem = related; log = [] }

abbrev load : Stage
load = load_module_image host start (some free_module) image 0 0 copy_text_data

good : is_ok load.code ≡ true
unfolding load_module_image udynlink.Header.validate_header header_at read32 from_words
    udynlink.Memory.read16 udynlink.Sections.get_sectab udynlink.Header.get_code_offset
    udynlink.Sections.empty_view udynlink.Layout.get_ram_size_for_header
    udynlink.Layout.get_ram_size_untagged udynlink.Host.external_malloc
    udynlink.Relocs.load_apply_relocations udynlink.Loader.Copy.clear_bss udynlink.Memory.memset
    udynlink.Modules.get_data_pointer udynlink.Loader.Copy.copy_untagged udynlink.Memory.memcpy
    udynlink.Header.get_sym_table_pointer udynlink.Symbols.get_sym_at_raw
    udynlink.Modules.get_reloc_target udynlink.Relocs.apply_one udynlink.Relocs.apply_loop
    udynlink.Relocs.apply_base udynlink.Relocs.apply_named udynlink.Modules.get_code_pointer
good = refl

at_block : load.p_mod.p_ram ≡ 0x8000
unfolding load_module_image udynlink.Header.validate_header header_at read32 from_words
    udynlink.Memory.read16 udynlink.Sections.get_sectab udynlink.Header.get_code_offset
    udynlink.Sections.empty_view udynlink.Layout.get_ram_size_for_header
    udynlink.Layout.get_ram_size_untagged udynlink.Host.external_malloc
    udynlink.Relocs.load_apply_relocations udynlink.Loader.Copy.clear_bss udynlink.Memory.memset
    udynlink.Modules.get_data_pointer udynlink.Loader.Copy.copy_untagged udynlink.Memory.memcpy
    udynlink.Header.get_sym_table_pointer udynlink.Symbols.get_sym_at_raw
    udynlink.Modules.get_reloc_target udynlink.Relocs.apply_one udynlink.Relocs.apply_loop
    udynlink.Relocs.apply_base udynlink.Relocs.apply_named udynlink.Modules.get_code_pointer
at_block = refl

abbrev handle : Module
handle = placed free_module image copy_text_data load.p_mod

small : ram_of (header_of related handle) copy_text_data ≡ 12
unfolding header_at udynlink.Memory.read16 from_words read32
small = refl

code_size : (header_of related handle).code_size ≡ 4
unfolding header_at read32 from_words
code_size = refl

symt_size : (header_of related handle).symt_size ≡ 24
unfolding header_at read32 from_words
symt_size = refl

handle-IsLoadable : IsLoadable host.resolve related image handle copy_text_data
handle-IsLoadable = record {
  here = refl;
  moded = refl;
  stays = refl;
  untagged = linked_untagged;
  whole = rw small (omega arith);
  data_behind = λ text. rw code_size refl;
  header_off = λ a lo hi. inl (omega (arith, hi, at_block));
  rels_off = λ a lo hi. inl (omega (arith, hi, at_block, two_rels));
  symt_off = λ a lo hi. inl (omega (arith, hi, at_block, symt_size));
  once = rw two_rels two_words;
  steady = λ n name same. refl;
}

load_module_image-IsCopy_example :
    IsCopy host.resolve related image handle copy_text_data load.world.mem
load_module_image-IsCopy_example =
    load_module_image-IsCopy host start free_module image 0 0 copy_text_data good handle-IsLoadable

-- The same image with its header copied, where the block is at 0x8000.
from_words-IsBytes : (p : ℕ) (ws : List ℕ) → IsBytes (from_words p ws)
unfolding from_words
from_words-IsBytes p [] = λ a. omega arith
from_words-IsBytes p (w ∷ ws) =
    write32-IsBytes (from_words (p + 4) ws) p w (from_words-IsBytes (p + 4) ws)

moved_size : ram_of (header_at related base) copy_all ≡ 84
unfolding header_at udynlink.Memory.read16 from_words read32 udynlink.Header.get_code_offset
moved_size = refl

given : block_at host start (plan_load related base copy_all) 0 ≡ 0x8000
unfolding external_malloc
given = refl

load_module_image_beyond_example :
    (load_module_image host start (some free_module) image 0 0 copy_all).world.mem 0x8054
    ≡ related 0x8054
load_module_image_beyond_example =
    load_module_image_beyond host start free_module image 0 0 copy_all 0x8054
      (from_words-IsBytes base related_words) linked_untagged (omega (arith, symt_size))
      (rw moved_size (omega arith)) (λ c lo hi. inl (omega (arith, hi, given)))
      (inr (omega (arith, given, moved_size)))
