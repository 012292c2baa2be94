-- ===== src/Loader/Contained.antt =====
-- What the whole load of an untagged image can write, udynlink/udynlink.c, whether it ends well or not.
use mathlib.Core.Path.{subst}
use udynlink.Prelude.{
  ℕ, ◌+◌, ◌*◌, ◌^◌, ◌≡◌, ◌⊎◌, ◌<◌, ◌≤◌, refl, inl, inr, arith, true, false, some, ap, sym, ◌∙◌,
  ◌==◌, if◌then◌else◌, Bool-cases,
}
use udynlink.Memory.{Memory, IsBytes}
use udynlink.Header.{header_at, LoadMode, is_sectioned}
use udynlink.Header.Checks.{header_at-IsHeader}
use udynlink.Modules.{Module}
use udynlink.Relocs.{is_ok, load_apply_relocations}
use udynlink.Host.{Host, World, external_malloc, external_free}
use udynlink.Loader.{
  Stage, and_then, main_request, accept_block, allocate_block, provision_ram, copy_untagged_stage,
  copied_stage, relocate_image, load_exit, load_module_image,
}
use udynlink.Loader.Copy.{Image, copy_untagged, clear_bss, moved_header}
use udynlink.Loader.Planning.{Plan, plan_load}
use udynlink.Loader.Release.{free_nonmain_sections, free_main}
use udynlink.Loader.Leaks.{plan_load_untagged}
use udynlink.Loader.Extents.{ram_of}
use udynlink.Loader.Copied.{Fits}
use udynlink.Loader.Reach.{OutOf, cleared_beyond, relocated_beyond}
use udynlink.Loader.Checks.{and_then_ok}
use udynlink.Loader.Loaded.{relocate_image_mem}
use udynlink.Loader.Result.{plan_load_fits}

-- Where the block is: the caller's, or what the host answers.
abbrev pub block_at : Host → World → Plan → ℕ → ℕ
block_at host w plan addr =
    if addr == 0
    then (external_malloc host w (main_request plan.ram_size plan.main_align)).0
    else addr

provision_ram_place :
    (host : Host) (w : World) (p_mod : Module) (plan : Plan) (addr size : ℕ)
    → plan.tab.num ≡ 0
    → let r = provision_ram host w p_mod plan addr size in
      (r.world.mem ≡ w.mem)
      × (r.p_mod.p_header ≡ p_mod.p_header)
      × (r.p_mod.mode ≡ p_mod.mode)
      × (is_ok r.code ≡ true → (r.p_mod.p_ram ≡ block_at host w plan addr) ⊎ (plan.ram_size ≡ 0))
unfolding provision_ram allocate_block accept_block external_malloc external_free
provision_ram_place host w p_mod plan addr size untagged =
    (ground arith, ground arith, ground arith, ground arith)

load_exit_mem :
    (plan : Plan) (s : Stage) → plan.tab.num ≡ 0 → (load_exit plan s).world.mem ≡ s.world.mem
unfolding load_exit free_nonmain_sections free_main external_free
load_exit_mem plan s untagged = ground arith

copied_stage_lem :
    (host : Host) (image : Image) (plan : Plan) (r : Stage)
    → plan.tab.num ≡ 0
    → let h = header_at r.world.mem image.p_header in
      let dst = r.p_mod.p_ram + h.num_lot * 4 in
      let moved = moved_header r.p_mod.mode dst r.p_mod in
      let c = copied_stage host image plan r in
      (c.p_mod ≡ moved)
      × (c.world.mem ≡ clear_bss (copy_untagged r.world.mem h image r.p_mod.mode dst) h moved)
unfolding copied_stage copy_untagged_stage
copied_stage_lem host image plan r tab = (rw tab refl, rw tab refl)

-- The copying and the relocation, of an image whose block has been found.
filled_beyond :
    (host : Host) (image : Image) (plan : Plan) (r : Stage) (a : ℕ)
    → plan.tab.num ≡ 0
    → r.p_mod.p_header ≡ image.p_header
    → let h = header_at r.world.mem image.p_header in
      Fits h r.p_mod.mode
      → is_sectioned h ≡ false
      → ((c : ℕ)
          → r.p_mod.p_header ≤ c
          → c < r.p_mod.p_header + 32
          → OutOf r.p_mod.p_ram (ram_of h r.p_mod.mode) c)
      → OutOf r.p_mod.p_ram (ram_of h r.p_mod.mode) a
      → ((copied_stage host image plan r).world.mem a ≡ r.world.mem a)
        × ((relocate_image host image image.p_header (copied_stage host image plan r)).world.mem a
            ≡ r.world.mem a)
filled_beyond host image plan r a tab here fits untagged off out =
    let h = header_at r.world.mem image.p_header in
    let (moved, filled) = copied_stage_lem host image plan r tab in
    let behind = (relocate_image_mem host image (copied_stage host image plan r)).1 in
    let reach =
      relocated_beyond r.world.mem h image r.p_mod.mode r.p_mod fits refl here refl untagged off
        host.resolve a out in
    (
      ap (λ n. n a) filled
          ∙ cleared_beyond r.world.mem h image r.p_mod.mode r.p_mod fits refl here refl untagged off
              a out,
      ap (λ n. n a) behind
          ∙ (λ i.
              (load_apply_relocations host.resolve (filled i) (moved i) image.p_header
                  image.p_relocations image.p_symtab).1
                a)
          ∙ reach,
    )

-- The same from what is known of the memory `m` at the start and of the block.
placed_beyond :
    (host : Host) (image : Image) (plan : Plan) (m : Memory) (mode : LoadMode) (r : Stage)
    (block a : ℕ)
    → let h = header_at m image.p_header in
      plan.tab.num ≡ 0
      → Fits h mode
      → is_sectioned h ≡ false
      → r.world.mem ≡ m
      → r.p_mod.p_header ≡ image.p_header
      → r.p_mod.mode ≡ mode
      → (r.p_mod.p_ram ≡ block) ⊎ (ram_of h mode ≡ 0)
      → ((c : ℕ) → image.p_header ≤ c → c < image.p_header + 32 → OutOf block (ram_of h mode) c)
      → OutOf block (ram_of h mode) a
      → ((copied_stage host image plan r).world.mem a ≡ m a)
        × ((relocate_image host image image.p_header (copied_stage host image plan r)).world.mem a
            ≡ m a)
placed_beyond host image plan m mode r block a tab fits untagged same here moded placed off out =
    let h = header_at m image.p_header in
    let near : (c : ℕ) → OutOf block (ram_of h mode) c → OutOf r.p_mod.p_ram (ram_of h mode) c =
      λ c beyond. ground (arith, placed, beyond) in
    let own : ram_of (header_at r.world.mem image.p_header) r.p_mod.mode ≡ ram_of h mode =
      rw (same, moded) refl in
    let Off : ℕ → ℕ → Type 0 = λ size c. OutOf r.p_mod.p_ram size c in
    let done =
      filled_beyond host image plan r a tab here (rw (same, moded) fits) (rw same untagged)
        (λ c lo hi.
          subst (λ size. Off size c) (sym own)
            (near c (off c (omega (arith, lo, here)) (omega (arith, hi, here)))))
        (subst (λ size. Off size a) (sym own) (near a out)) in
    let at_start = ap (λ n. n a) same in (done.0 ∙ at_start, done.1 ∙ at_start)

and_then_mem :
    (s : Stage) (next : Stage → Stage) (v a : ℕ)
    → s.world.mem a ≡ v
    → (is_ok s.code ≡ true → (next s).world.mem a ≡ v)
    → (and_then s next).world.mem a ≡ v
and_then_mem s next v a before after = elim (Bool-cases (is_ok s.code)) [
  | inl good ↦ rw good (after good)
  | inr bad ↦ rw bad before
]

-- Three stages in a row.
stages_mem :
    (planned : Stage) (provide copy relocate : Stage → Stage) (v a : ℕ)
    → planned.world.mem a ≡ v
    → (provide planned).world.mem a ≡ v
    → (is_ok planned.code ≡ true
        → is_ok (provide planned).code ≡ true
        → ((copy (provide planned)).world.mem a ≡ v)
          × ((relocate (copy (provide planned))).world.mem a ≡ v))
    → (and_then (and_then (and_then planned provide) copy) relocate).world.mem a ≡ v
stages_mem planned provide copy relocate v a before provided filled =
    let provisioned = and_then planned provide in
    let Good : Stage → Type 0 = λ s. is_ok s.code ≡ true in
    let Same : Stage → Type 0 = λ s. s.world.mem a ≡ v in
    and_then_mem (and_then provisioned copy) relocate v a
      (and_then_mem provisioned copy v a
        (and_then_mem planned provide v a before (λ good. provided))
        (λ good.
          let (first, e) = and_then_ok planned provide good in
          subst (λ s. Same (copy s)) (sym e) (filled first (subst Good e good)).0))
      (λ good.
        let (second, e') = and_then_ok provisioned copy good in
        let (first, e) = and_then_ok planned provide second in
        subst (λ s. Same (relocate s)) (sym (e' ∙ ap copy e))
          (filled first (subst Good e second)).1)

-- The load of an untagged image, in any mode and whether it ends well or not, writes in the block only
-- that it is given or allocates: all memory beyond the size of the block is as it was. The header
-- lies beyond the block, the size of the block is a 32-bit number, and the symbol table
-- keeps clear of the end of the address space.
pub load_module_image_beyond :
    (host : Host) (w : World) (p_mod : Module) (image : Image) (addr size : ℕ) (mode : LoadMode)
    (a : ℕ)
    → let h = header_at w.mem image.p_header in
      let block = block_at host w (plan_load w.mem image.p_header mode) addr in
      IsBytes w.mem
      → is_sectioned h ≡ false
      → h.symt_size + 2 ^ 20 ≤ 2 ^ 32
      → ram_of h mode < 2 ^ 32
      → ((c : ℕ) → image.p_header ≤ c → c < image.p_header + 32 → OutOf block (ram_of h mode) c)
      → OutOf block (ram_of h mode) a
      → (load_module_image host w (some p_mod) image addr size mode).world.mem a ≡ w.mem a
unfolding load_module_image
load_module_image_beyond host w p_mod image addr size mode a bytes untagged small whole off out =
    let h = header_at w.mem image.p_header in
    let plan = plan_load w.mem image.p_header mode in
    let handle : Module = record p_mod { p_header = image.p_header; mode = mode } in
    let planned : Stage = record { code = plan.code; p_mod = handle; world = w } in
    let provide : Stage → Stage = λ s. provision_ram host s.world s.p_mod plan addr size in
    let copy = copied_stage host image plan in
    let relocate : Stage → Stage = relocate_image host image image.p_header in
    let tab = (plan_load_untagged w.mem image.p_header mode untagged).0 in
    let (same, here, moded, placed) = provision_ram_place host w handle plan addr size tab in
    let wf = header_at-IsHeader w.mem image.p_header bytes in
    ap (λ n. n a)
      (load_exit_mem plan (and_then (and_then (and_then planned provide) copy) relocate) tab)
    ∙ stages_mem planned provide copy relocate (w.mem a) a refl (ap (λ n. n a) same)
        (λ planned_ok good.
          let (sized, cap) = plan_load_fits w.mem image.p_header mode untagged whole planned_ok in
          placed_beyond host image plan w.mem mode (provide planned) (block_at host w plan addr) a
            tab (wf, small, cap) untagged same here moded
            (elim (placed good) [ inl at ↦ inl at | inr empty ↦ inr (sym sized ∙ empty) ]) off out)
