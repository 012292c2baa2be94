-- ===== src/Loader/Loaded.antt =====
-- What a successful load of an untagged image leaves in memory, udynlink/udynlink.c, in the modes that
-- keep the header where it is.
use mathlib.Core.Path.{subst}
use udynlink.Prelude.{ℕ, ◌≡◌, refl, arith, true, false, some, ap, sym, ◌∙◌}
use udynlink.Memory.{Memory}
use udynlink.Header.{header_at, LoadMode, ErrorCode, ok, is_sectioned}
use udynlink.Modules.{Module}
use udynlink.Relocs.{is_ok, load_apply_relocations}
use udynlink.Host.{Host, World, external_malloc, external_free}
use udynlink.Loader.{
  Stage, and_then, accept_block, allocate_block, provision_ram, copy_untagged_stage, copied_stage,
  relocate_image, load_exit, load_module_image,
}
use udynlink.Loader.Copy.{Image, is_copy_all}
use udynlink.Loader.Planning.{Plan, plan_load}
use udynlink.Loader.Leaks.{plan_load_untagged}
use udynlink.Loader.Checks.{and_then_ok, load_exit_ok}
use udynlink.Loader.Content.{filled}

-- A block is found for an untagged image; nothing is written.
provision_ram_untagged :
    (host : Host) (w : World) (p_mod : Module) (plan : Plan) (addr size : ℕ)
    → plan.tab.num ≡ 0
    → is_ok (provision_ram host w p_mod plan addr size).code ≡ true
    → let r = provision_ram host w p_mod plan addr size in
      (r.world.mem ≡ w.mem)
      × (r.p_mod ≡ record p_mod { p_ram = r.p_mod.p_ram; foreign_ram = r.p_mod.foreign_ram })
unfolding provision_ram allocate_block accept_block external_malloc external_free
provision_ram_untagged host w p_mod plan addr size untagged good = (ground arith, ground arith)

copied_stage_untagged :
    (host : Host) (image : Image) (plan : Plan) (s : Stage)
    → plan.tab.num ≡ 0
    → s.p_mod.p_header ≡ image.p_header
    → is_copy_all s.p_mod.mode ≡ false
    → ((copied_stage host image plan s).p_mod ≡ s.p_mod)
      × ((copied_stage host image plan s).world.mem ≡ filled s.world.mem image s.p_mod s.p_mod.mode)
unfolding copied_stage copy_untagged_stage filled
copied_stage_untagged host image plan s untagged here stays =
    (ground arith, rw (untagged, stays, here) refl)

pub relocate_image_mem :
    (host : Host) (image : Image) (s : Stage)
    → let r =
        load_apply_relocations host.resolve s.world.mem s.p_mod image.p_header image.p_relocations
          image.p_symtab in
      ((relocate_image host image image.p_header s).code ≡ r.0)
      × ((relocate_image host image image.p_header s).world.mem ≡ r.1)
      × ((relocate_image host image image.p_header s).p_mod.p_ram ≡ s.p_mod.p_ram)
      × ((relocate_image host image image.p_header s).p_mod.foreign_ram ≡ s.p_mod.foreign_ram)
unfolding relocate_image
relocate_image_mem host image s = (refl, refl, ground arith, ground arith)

-- The handle during the relocation of a load that ends with the handle `loaded`.
abbrev pub placed : Module → Image → LoadMode → Module → Module
placed p_mod image mode loaded = record p_mod {
  p_header = image.p_header;
  mode = mode;
  p_ram = loaded.p_ram;
  foreign_ram = loaded.foreign_ram;
}

is_ok→eq : (code : ErrorCode) → is_ok code ≡ true → code ≡ ok
is_ok→eq code good = ground arith

-- The last two stages, behind a stage `r` that has found the block.
relocated_lem :
    (host : Host) (image : Image) (m : Memory) (handle : Module) (r copied s : Stage)
    → r.world.mem ≡ m
    → r.p_mod ≡ record handle { p_ram = r.p_mod.p_ram; foreign_ram = r.p_mod.foreign_ram }
    → copied.p_mod ≡ r.p_mod
    → copied.world.mem ≡ filled r.world.mem image r.p_mod r.p_mod.mode
    → s ≡ relocate_image host image image.p_header copied
    → is_ok s.code ≡ true
    → let hd : Module = record handle {
      p_ram = s.p_mod.p_ram;
      foreign_ram = s.p_mod.foreign_ram;
    } in
      load_apply_relocations host.resolve
        (filled m image hd handle.mode)
        hd
        image.p_header
        image.p_relocations
        image.p_symtab
      ≡ (ok, s.world.mem)
relocated_lem host image m handle r copied s mem handed kept fill end good =
    let (code, behind, ram, foreign) = relocate_image_mem host image copied in
    let q = ap (λ (s : Stage). s.p_mod.p_ram) end ∙ ram ∙ ap (λ (p : Module). p.p_ram) kept in
    let q' =
      ap (λ (s : Stage). s.p_mod.foreign_ram) end
      ∙ foreign
      ∙ ap (λ (p : Module). p.foreign_ram) kept in
    let same : copied.p_mod
        ≡ record handle { p_ram = s.p_mod.p_ram; foreign_ram = s.p_mod.foreign_ram } =
      kept ∙ handed ∙ rw (q, q') refl in
    let mode = ap (λ (p : Module). p.mode) handed in
    let fine = is_ok→eq s.code good in
    let filled_same : copied.world.mem
        ≡ filled m image
            (record handle { p_ram = s.p_mod.p_ram; foreign_ram = s.p_mod.foreign_ram })
            handle.mode =
      fill ∙ cc in
    let code' = ap (λ (s : Stage). s.code) end in
    let mem' = ap (λ (s : Stage). s.world.mem) end in
    let r =
      load_apply_relocations host.resolve copied.world.mem copied.p_mod image.p_header
        image.p_relocations image.p_symtab in
    let code_path : r.0 ≡ ok = sym code ∙ sym code' ∙ fine in
    let mem_path : r.1 ≡ s.world.mem = sym behind ∙ sym mem' in
    let pair : r ≡ (ok, s.world.mem) = λ i. (code_path i, mem_path i) in cc

-- A successful load has relocated the copy of the image.
pub load_module_image_relocated :
    (host : Host) (w : World) (p_mod : Module) (image : Image) (addr size : ℕ) (mode : LoadMode)
    → is_sectioned (header_at w.mem image.p_header) ≡ false
    → is_copy_all mode ≡ false
    → is_ok (load_module_image host w (some p_mod) image addr size mode).code ≡ true
    → let s = load_module_image host w (some p_mod) image addr size mode in
      let handle = placed p_mod image mode s.p_mod in
      let r =
        load_apply_relocations host.resolve
          (filled w.mem image handle mode)
          handle
          image.p_header
          image.p_relocations
          image.p_symtab in
      (is_ok (plan_load w.mem image.p_header mode).code ≡ true) × (r ≡ (ok, s.world.mem))
unfolding load_module_image
load_module_image_relocated host w p_mod image addr size mode untagged stays good =
    let plan = plan_load w.mem image.p_header mode in
    let handle : Module = record p_mod { p_header = image.p_header; mode = mode } in
    let planned : Stage = record { code = plan.code; p_mod = handle; world = w } in
    let provide : Stage → Stage = λ s. provision_ram host s.world s.p_mod plan addr size in
    let provisioned = and_then planned provide in
    let copied = and_then provisioned (copied_stage host image plan) in
    let relocate : Stage → Stage = relocate_image host image image.p_header in
    let exited = load_exit_ok plan (and_then copied relocate) good in
    let ok_copied = and_then_ok copied relocate exited.0 in
    let ok_provisioned = and_then_ok provisioned (copied_stage host image plan) ok_copied.0 in
    let ok_planned = and_then_ok planned provide ok_provisioned.0 in
    let tagged = (plan_load_untagged w.mem image.p_header mode untagged).0 in
    let found =
      provision_ram_untagged host w handle plan addr size tagged
        (subst (λ s. is_ok s.code ≡ true) ok_planned.1 ok_provisioned.0) in
    let here = ap (λ (p : Module). p.p_header) found.1 in
    let stays' = ap is_copy_all (ap (λ (p : Module). p.mode) found.1) ∙ stays in
    let fill = copied_stage_untagged host image plan (provide planned) tagged here stays' in
    let linked : copied ≡ copied_stage host image plan (provide planned) =
      ok_provisioned.1 ∙ ap (copied_stage host image plan) ok_planned.1 in
    (
      ok_planned.0,
      relocated_lem host image w.mem handle (provide planned) copied
          (load_exit plan (and_then copied relocate)) found.0 found.1
          (ap (λ (s : Stage). s.p_mod) linked ∙ fill.0)
          (ap (λ (s : Stage). s.world.mem) linked ∙ fill.1) (exited.1 ∙ ok_copied.1) good,
    )
