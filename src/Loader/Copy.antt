-- ===== src/Loader/Copy.antt =====
-- The image of a module and its copying into RAM, udynlink/udynlink.c: `udynlink_image_from_memory`
-- and the middle part of `udynlink_load_module_image`.
use udynlink.Prelude.{
  ℕ, zero, suc, ◌+◌, ◌-◌, ◌*◌, ◌/◌, bit_and, Bool, true, false, ◌&&◌, some, none, ltb, ◌==◌, ◌!=◌,
  if◌then◌else◌, sub32, add32, u32,
}
use udynlink.Memory.{Memory, memset, memcpy}
use udynlink.Header.{
  Header, header_at, LoadMode, copy_all, copy_text_data, xip, ErrorCode, ok,
  load_section_unresolved, load_section_unaligned, get_code_offset, get_header_size, is_sectioned,
}
use udynlink.Sections.{
  SectView, sect_entry_at, sect_name, sect_host_flags, get_sectab, get_nonmain_bases_size,
  class_bss,
}
use udynlink.Layout.{get_main_section_offset, get_code_payload_size}
use udynlink.Modules.{Module, get_data_pointer, set_section_base_idx, is_xip}
use udynlink.Host.{Host, World, Request, external_malloc}

pub record Image : Type 0 where
  pub p_header : ℕ
  pub p_relocations : ℕ
  pub p_symtab : ℕ
  pub p_code : ℕ
  pub p_data : ℕ

unfoldable pub image_from_memory : Memory → ℕ → Image
image_from_memory m p =
    let h = header_at m p in
    let p_relocations = p + get_header_size h / 4 * 4 in
    let p_code = p + get_code_offset h in
    record {
      p_header = p;
      p_relocations = p_relocations;
      p_symtab = p_relocations + h.num_rels * 8;
      p_code = p_code;
      p_data =
          p_code
          + (if is_sectioned h
              then elim (get_sectab m p false) [
                | none ↦ h.code_size
                | some tab ↦ get_code_payload_size m h tab
              ]
              else h.code_size);
    }

-- The copy of the metadata of an untagged image to `dst`, part by part, and its padding.
unfoldable pub copy_metadata : Memory → Header → Image → ℕ → Memory
copy_metadata m h image dst =
    let hs = get_header_size h in
    let rels = h.num_rels * 8 in
    let pad = sub32 (get_code_offset h) (u32 (hs + rels + h.symt_size)) in
    let m1 = memcpy m dst image.p_header hs in
    let m2 = memcpy m1 (dst + hs) image.p_relocations rels in
    let m3 = memcpy m2 (dst + hs + rels) image.p_symtab h.symt_size in
    if ltb 0 pad && ltb pad 4 then memset m3 (dst + hs + rels + h.symt_size) 0 pad else m3

-- The untagged parts that a mode copies to `dst`, behind the LOT.
unfoldable pub copy_untagged : Memory → Header → Image → LoadMode → ℕ → Memory
unfolding copy_metadata
copy_untagged m h image copy_all dst =
    let code = dst + get_code_offset h in
    memcpy (memcpy (copy_metadata m h image dst) code image.p_code h.code_size) (code + h.code_size)
      image.p_data h.data_size
copy_untagged m h image copy_text_data dst =
    memcpy m dst image.p_code (add32 h.code_size h.data_size)
copy_untagged m h image xip dst = memcpy m dst image.p_data h.data_size

abbrev pub is_copy_all : LoadMode → Bool
is_copy_all copy_all = true
is_copy_all _ = false

-- The handle after the copy: in `copy_all` the header is the one in RAM.
abbrev pub moved_header : LoadMode → ℕ → Module → Module
moved_header mode dst p_mod = if is_copy_all mode then record p_mod { p_header = dst } else p_mod

-- The zeroing of .bss, whose address is computed from the handle.
unfoldable pub clear_bss : Memory → Header → Module → Memory
clear_bss m h p_mod =
    if ltb 0 h.bss_size then memset m (get_data_pointer m p_mod + h.data_size) 0 h.bss_size else m

-- The main sections of a sectioned image: metadata in `copy_all`, .text but under XIP, and .data.
unfoldable pub copy_main : Memory → Header → SectView → Image → LoadMode → Module → Memory
copy_main m h tab image mode p_mod =
    let dst = p_mod.p_ram + h.num_lot * 4 + get_nonmain_bases_size tab in
    let m1 = if is_copy_all mode then memcpy m dst image.p_header (get_code_offset h) else m in
    let m2 =
      if is_xip mode
      then m1
      else memcpy m1 (p_mod.p_ram + get_main_section_offset m h tab mode 0) image.p_code
          (get_code_payload_size m h tab) in
    memcpy m2 (p_mod.p_ram + get_main_section_offset m h tab mode 1) image.p_data
      (sect_entry_at m tab 1).size

-- The loop over the tagged sections from `k`, with `left` to go: an allocation each, its base
-- recorded, and its payload copied or zeroed.
unfoldable pub place_tagged :
    Host → Image → SectView → Module → ℕ → ℕ → ℕ → World → ErrorCode × World
place_tagged host image tab p_mod zero k payload_off w = (ok, w)
place_tagged host image tab p_mod (suc left) k payload_off w =
    let e = sect_entry_at w.mem tab k in
    let request : Request = record {
      size = e.size;
      section = sect_name tab e;
      align = e.align;
      flags = sect_host_flags e;
    } in
    let (sec, w1) = external_malloc host w request in
    let recorded : World = record w1 { mem = set_section_base_idx w1.mem p_mod (k - 3) sec } in
    let is_bss = e.cls == class_bss in
    let filled : World = record recorded {
      mem =
          if is_bss
          then memset recorded.mem sec 0 e.size
          else memcpy recorded.mem sec (image.p_code + payload_off) e.size;
    } in
    let next = if is_bss then payload_off else add32 payload_off e.size in
    let skipped = place_tagged host image tab p_mod left (k + 1) payload_off w in
    let rest = place_tagged host image tab p_mod left (k + 1) next filled in
    if e.size == 0
    then skipped
    else if sec == 0
    then (load_section_unresolved, w1)
    else if bit_and sec (e.align - 1) != 0
    then (load_section_unaligned, recorded)
    else rest

-- .bss of a sectioned module at its place in the block.
unfoldable pub clear_main_bss : Memory → Header → SectView → LoadMode → Module → Memory
clear_main_bss m h tab mode p_mod =
    memset m (p_mod.p_ram + get_main_section_offset m h tab mode 2) 0 (sect_entry_at m tab 2).size
