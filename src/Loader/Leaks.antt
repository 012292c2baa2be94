-- ===== src/Loader/Leaks.antt =====
-- The accounts of udynlink_load_module_image and udynlink_unload_module with the host's
-- allocator, for untagged images: what was allocated is freed, once and with the same arguments.
use udynlink.Prelude.{
  ℕ, ◌+◌, ◌≡◌, ◌≢◌, inl, inr, refl, arith, true, false, ◌&&◌, not, Bool-cases, some, List, ◌!=◌,
  if◌then◌else◌,
}
use udynlink.Memory.{Memory}
use udynlink.Header.{header_at, LoadMode, ok, is_sectioned}
use udynlink.Sections.{get_sectab, empty_view}
use udynlink.Modules.{Module, free_module}
use udynlink.Relocs.{is_ok}
use udynlink.Host.{Host, World, Block, Event, external_malloc, external_free}
use udynlink.Host.Balance.{Balanced, handed_out, taken_back}
use udynlink.Loader.{
  Stage, and_then, accept_block, allocate_block, provision_ram, copied_stage, copy_untagged_stage,
  relocate_image, load_exit, load_module_image, unload_module,
}
use udynlink.Loader.Copy.{Image}
use udynlink.Loader.Planning.{Plan, plan_load}
use udynlink.Loader.Release.{main_block, free_nonmain_sections, free_main}

-- What a handle still has to give back.
abbrev pub held : (Block → ℕ) → Module → ℕ → ℕ
held hits p_mod align =
    if p_mod.p_ram != 0 && not p_mod.foreign_ram then hits (main_block p_mod.p_ram align) else 0

-- Since the log `old`, every block but the handle's own main block was freed as often as allocated.
abbrev pub Owes : ℕ → List Event → Module → World → Type 0
Owes align old p_mod w =
    (hits : Block → ℕ)
    → handed_out hits w.log + taken_back hits old
      ≡ handed_out hits old + taken_back hits w.log + held hits p_mod align

pub free_main-Balanced :
    (align : ℕ) (old : List Event) (p_mod : Module) (w : World)
    → Owes align old p_mod w
    → Balanced old (free_main p_mod align w).log
unfolding free_main external_free
free_main-Balanced align old p_mod w owes hits = ground (arith, owes hits)

module _ (old : List Event) (plan : Plan) where
  abbrev Keeps : Stage → Type 0
  Keeps s = Owes plan.main_align old s.p_mod s.world

  accept_block_own :
      (w : World) (p_mod : Module) (p : ℕ)
      → p_mod.p_ram ≡ 0
      → p_mod.foreign_ram ≡ false
      → p ≢ 0
      → ((hits : Block → ℕ)
          → handed_out hits w.log + taken_back hits old
            ≡ handed_out hits old + taken_back hits w.log + hits (main_block p plan.main_align))
      → Keeps (accept_block w p_mod plan true p)
  unfolding accept_block external_free
  accept_block_own w p_mod p clear own ne accounts hits = ground (arith, accounts hits)

  accept_block_foreign :
      (w : World) (p_mod : Module) (p : ℕ)
      → p_mod.p_ram ≡ 0
      → p_mod.foreign_ram ≡ true
      → ((hits : Block → ℕ)
          → handed_out hits w.log + taken_back hits old
            ≡ handed_out hits old + taken_back hits w.log)
      → Keeps (accept_block w p_mod plan false p)
  unfolding accept_block
  accept_block_foreign w p_mod p clear own accounts hits = ground (arith, accounts hits)

  allocate_block-Keeps :
      (host : Host) (w : World) (p_mod : Module)
      → w.log ≡ old
      → p_mod.p_ram ≡ 0
      → p_mod.foreign_ram ≡ false
      → Keeps (allocate_block host w p_mod plan)
  unfolding allocate_block external_malloc accept_block external_free
  allocate_block-Keeps host w p_mod e clear own hits = ground (arith, e)

  provision_ram-Keeps :
      (host : Host) (w : World) (p_mod : Module) (load_addr load_size : ℕ)
      → w.log ≡ old
      → p_mod.p_ram ≡ 0
      → Keeps (provision_ram host w p_mod plan load_addr load_size)
  unfolding provision_ram allocate_block external_malloc accept_block external_free
  provision_ram-Keeps host w p_mod load_addr load_size e clear hits = ground (arith, e)

  copied_stage-Keeps :
      (host : Host) (image : Image) (s : Stage)
      → plan.tab.num ≡ 0
      → Keeps s
      → Keeps (copied_stage host image plan s)
  unfolding copied_stage copy_untagged_stage
  copied_stage-Keeps host image s untagged kept hits = ground (arith, kept hits)

  relocate_image-Keeps :
      (host : Host) (image : Image) (p_header : ℕ) (s : Stage)
      → Keeps s
      → Keeps (relocate_image host image p_header s)
  unfolding relocate_image
  relocate_image-Keeps host image p_header s kept hits = ground (arith, kept hits)

  load_exit-Keeps : (s : Stage) → plan.tab.num ≡ 0 → Keeps s → Keeps (load_exit plan s)
  unfolding load_exit free_nonmain_sections free_main external_free
  load_exit-Keeps s untagged kept hits = ground (arith, kept hits)

  and_then-Keeps :
      (s : Stage) (next : Stage → Stage)
      → Keeps s
      → (Keeps s → Keeps (next s))
      → Keeps (and_then s next)
  and_then-Keeps s next kept after = elim (Bool-cases (is_ok s.code)) [
    | inl good ↦ λ hits. ground (arith, after kept hits)
    | inr bad ↦ λ hits. ground (arith, kept hits)
  ]

-- The plan of an untagged header has no section table and the word alignment.
pub plan_load_untagged :
    (m : Memory) (p_header : ℕ) (mode : LoadMode)
    → is_sectioned (header_at m p_header) ≡ false
    → ((plan_load m p_header mode).tab.num ≡ 0) × ((plan_load m p_header mode).main_align ≡ 4)
unfolding plan_load get_sectab empty_view
plan_load_untagged m p_header mode untagged = ground arith

-- Behind the last stage, on an untagged image.
pub load_module_image-Keeps :
    (host : Host) (w : World) (p_mod : Module) (image : Image) (addr size : ℕ) (mode : LoadMode)
    → p_mod.p_ram ≡ 0
    → is_sectioned (header_at w.mem image.p_header) ≡ false
    → Keeps w.log
        (plan_load w.mem image.p_header mode)
        (load_module_image host w (some p_mod) image addr size mode)
unfolding load_module_image
load_module_image-Keeps host w p_mod image addr size mode clear untagged =
    let plan = plan_load w.mem image.p_header mode in
    let planned : Stage = record {
      code = plan.code;
      p_mod = record p_mod { p_header = image.p_header; mode = mode };
      world = w;
    } in
    let provide : Stage → Stage = λ s. provision_ram host s.world s.p_mod plan addr size in
    let provisioned = and_then planned provide in
    let copied = and_then provisioned (copied_stage host image plan) in
    let relocated = and_then copied (relocate_image host image image.p_header) in
    let tagged = (plan_load_untagged w.mem image.p_header mode untagged).0 in
    let kept_planned : Keeps w.log plan planned = λ hits. ground (arith, clear) in
    let kept_provisioned : Keeps w.log plan provisioned =
      and_then-Keeps w.log plan planned provide kept_planned
        (λ _. provision_ram-Keeps w.log plan host w planned.p_mod addr size refl clear) in
    let kept_copied : Keeps w.log plan copied =
      and_then-Keeps w.log plan provisioned (copied_stage host image plan) kept_provisioned
        (copied_stage-Keeps w.log plan host image provisioned tagged) in
    let kept_relocated : Keeps w.log plan relocated =
      and_then-Keeps w.log plan copied (relocate_image host image image.p_header) kept_copied
        (relocate_image-Keeps w.log plan host image image.p_header copied) in
    load_exit-Keeps w.log plan relocated tagged kept_relocated

-- A failing load leaves the handle cleared.
pub load_exit_failed :
    (plan : Plan) (s : Stage)
    → is_ok (load_exit plan s).code ≡ false
    → (load_exit plan s).p_mod ≡ free_module
unfolding load_exit
load_exit_failed plan s failed = ground arith

-- Unloading an untagged module gives its main block back.
pub unload_module_untagged :
    (p_mod : Module) (w : World)
    → p_mod.p_header ≢ 0
    → is_sectioned (header_at w.mem p_mod.p_header) ≡ false
    → unload_module w (some p_mod) ≡ (ok, free_main p_mod 4 w)
unfolding unload_module get_sectab empty_view free_nonmain_sections
unload_module_untagged p_mod w loaded untagged = ground arith
