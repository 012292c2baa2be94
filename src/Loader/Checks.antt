-- ===== src/Loader/Checks.antt =====
-- What a load checks before it allocates, and what it has checked when it succeeds; for untagged and
-- sectioned images.
use udynlink.Prelude.{
  zero, suc, ◌⊎◌, ◌<◌, ◌≤◌, ℕ, ◌-◌, ◌≡◌, ◌≢◌, sym, arith, bit_and, true, false, some,
}
use std.Path.{subst}
use udynlink.Memory.{Memory}
use udynlink.Header.{max_image_size, max_ram_size, validate_header, header_at, LoadMode}
use udynlink.Sections.{SectView, sect_entry_at, get_sectab}
use udynlink.Layout.{get_main_align}
use udynlink.Modules.{Module, free_module}
use udynlink.Relocs.{is_ok}
use udynlink.Host.{Host, World, external_malloc, external_free}
use udynlink.Loader.{
  copy_sectioned_stage, Stage, and_then, accept_block, allocate_block, provision_ram, copied_stage,
  copy_untagged_stage, relocate_image, load_exit, load_module_image,
}
use udynlink.Loader.Copy.{Image}
use udynlink.Loader.Planning.{image_extent, block_size, Plan, plan_load, check_sizes}
use udynlink.Loader.Release.{main_block, free_nonmain_sections, free_main}

-- An image that fails the checks is refused with their code before anything is allocated or written:
-- the memory and the log stay as they are, and the handle is cleared. The handle has to come with a
-- NULL `p_ram`.
pub load_module_image-plan_load :
    (host : Host) (w : World) (p_mod : Module) (image : Image) (addr size : ℕ) (mode : LoadMode)
    → p_mod.p_ram ≡ 0
    → is_ok (plan_load w.mem image.p_header mode).code ≡ false
    → load_module_image host w (some p_mod) image addr size mode
      ≡ record { code = (plan_load w.mem image.p_header mode).code; p_mod = free_module; world = w }
unfolding load_module_image load_exit free_nonmain_sections free_main
load_module_image-plan_load host w p_mod image addr size mode clear bad = ground (arith, clear, bad)

-- A handle that is not cleared, with a `p_ram` that is not marked as the caller's: a load of an
-- image with a bad header frees what `p_ram` happens to hold.
pub load_module_image_stale :
    (host : Host) (w : World) (p_mod : Module) (image : Image) (addr size : ℕ) (mode : LoadMode)
    → p_mod.p_ram ≢ 0
    → p_mod.foreign_ram ≡ false
    → is_ok (validate_header (header_at w.mem image.p_header)) ≡ false
    → (load_module_image host w (some p_mod) image addr size mode).world
      ≡ external_free w (main_block p_mod.p_ram 4)
unfolding load_module_image load_exit free_nonmain_sections free_main plan_load
load_module_image_stale host w p_mod image addr size mode set own bad = ground (arith, bad)

-- What a stage guarantees of the main block for the later ones.
pub record IsPlaced (plan : Plan) (load_addr load_size : ℕ) (p_mod : Module) : Type 0 where
  pub aligned : 0 < plan.ram_size → bit_and p_mod.p_ram (plan.main_align - 1) ≡ 0
  pub empty : plan.ram_size ≡ 0 → p_mod.p_ram ≡ 0
  pub foreign :
      0 < plan.ram_size
      → load_addr ≢ 0
      → (p_mod.foreign_ram ≡ true) × (p_mod.p_ram ≡ load_addr) × (plan.ram_size ≤ load_size)
  pub own : 0 < plan.ram_size → load_addr ≡ 0 → (p_mod.foreign_ram ≡ false) × (p_mod.p_ram ≢ 0)

provision_ram-IsPlaced :
    (host : Host) (w : World) (p_mod : Module) (plan : Plan) (load_addr load_size : ℕ)
    → is_ok (provision_ram host w p_mod plan load_addr load_size).code ≡ true
    → IsPlaced plan load_addr load_size (provision_ram host w p_mod plan load_addr load_size).p_mod
unfolding provision_ram allocate_block external_malloc accept_block external_free
provision_ram-IsPlaced host w p_mod plan load_addr load_size good = record {
  aligned = λ pos. ground arith;
  empty = λ zero. ground arith;
  foreign = λ pos set. ground arith;
  own = λ pos null. ground arith;
}

copied_stage-IsPlaced :
    (host : Host) (image : Image) (plan : Plan) (load_addr load_size : ℕ) (s : Stage)
    → IsPlaced plan load_addr load_size s.p_mod
    → IsPlaced plan load_addr load_size (copied_stage host image plan s).p_mod
unfolding copied_stage copy_untagged_stage copy_sectioned_stage
copied_stage-IsPlaced host image plan load_addr load_size s placed = record {
  aligned = λ pos. ground (arith, placed.aligned pos);
  empty = λ zero. ground (arith, placed.empty zero);
  foreign = λ pos set. ground (arith, placed.foreign pos set);
  own = λ pos null. ground (arith, placed.own pos null);
}

relocate_image-IsPlaced :
    (host : Host) (image : Image) (plan : Plan) (load_addr load_size : ℕ) (s : Stage)
    → IsPlaced plan load_addr load_size s.p_mod
    → IsPlaced plan load_addr load_size (relocate_image host image image.p_header s).p_mod
unfolding relocate_image
relocate_image-IsPlaced host image plan load_addr load_size s placed = record {
  aligned = λ pos. ground (arith, placed.aligned pos);
  empty = λ zero. ground (arith, placed.empty zero);
  foreign = λ pos set. ground (arith, placed.foreign pos set);
  own = λ pos null. ground (arith, placed.own pos null);
}

-- A chain of stages that ends well went through both.
pub and_then_ok :
    (s : Stage) (next : Stage → Stage)
    → is_ok (and_then s next).code ≡ true
    → (is_ok s.code ≡ true) × (and_then s next ≡ next s)
and_then_ok s next good = ground arith

pub load_exit_ok :
    (plan : Plan) (s : Stage)
    → is_ok (load_exit plan s).code ≡ true
    → (is_ok s.code ≡ true) × (load_exit plan s ≡ s)
unfolding load_exit
load_exit_ok plan s good = ground arith

-- The largest alignment of the three main sections of a table, and 4 if there is none or all are less.
pub record IsLargest (m : Memory) (tab : SectView) (align : ℕ) : Type 0 where
  pub at_least : 4 ≤ align
  pub of_main : 0 < tab.num → (j : ℕ) → j < 3 → (sect_entry_at m tab j).align ≤ align
  pub no_more :
      (align ≡ 4)
      ⊎ ((0 < tab.num)
          × ((align ≡ (sect_entry_at m tab 0).align)
              ⊎ (align ≡ (sect_entry_at m tab 1).align)
              ⊎ (align ≡ (sect_entry_at m tab 2).align)))

-- What the checks of an accepted image have established.
pub record IsAccepted (m : Memory) (p_header : ℕ) (plan : Plan) : Type 0 where
  pub header : is_ok (validate_header (header_at m p_header)) ≡ true
  pub table : get_sectab m p_header true ≡ some plan.tab
  pub alignment : IsLargest m plan.tab plan.main_align
  pub extent : image_extent m (header_at m p_header) plan.tab ≤ max_image_size
  pub ram : plan.ram_size ≤ max_ram_size

align_of :
    (m : Memory) (tab : SectView)
    → 0 < tab.num
    → (j : ℕ) → j < 3
    → (sect_entry_at m tab j).align ≤ get_main_align m tab
unfolding get_main_align
align_of m tab pos zero below = ground arith
align_of m tab pos (suc zero) below = ground arith
align_of m tab pos (suc (suc zero)) below = ground arith
align_of m tab pos (suc (suc (suc j))) below = absurd (omega arith)

get_main_align-IsLargest : (m : Memory) (tab : SectView) → IsLargest m tab (get_main_align m tab)
unfolding get_main_align
get_main_align-IsLargest m tab = record {
  at_least = ground arith;
  of_main = λ pos j below. align_of m tab pos j below;
  no_more = ground arith;
}

plan_load-get_main_align :
    (m : Memory) (p_header : ℕ) (mode : LoadMode)
    → is_ok (plan_load m p_header mode).code ≡ true
    → (plan_load m p_header mode).main_align ≡ get_main_align m (plan_load m p_header mode).tab
unfolding plan_load get_main_align
plan_load-get_main_align m p_header mode good = ground arith

pub plan_load-IsAccepted :
    (m : Memory) (p_header : ℕ) (mode : LoadMode)
    → is_ok (plan_load m p_header mode).code ≡ true
    → IsAccepted m p_header (plan_load m p_header mode)
unfolding plan_load check_sizes block_size
plan_load-IsAccepted m p_header mode good = record {
  header = ground arith;
  table = ground arith;
  alignment =
      subst (IsLargest m (plan_load m p_header mode).tab)
        (sym (plan_load-get_main_align m p_header mode good))
        (get_main_align-IsLargest m (plan_load m p_header mode).tab);
  extent = ground arith;
  ram = ground arith;
}

-- A successful load has checked its image: the header is valid, the section table has passed its
-- tests, the extent of the image as the code adds it up is within its cap, and so is `ram_size`, the
-- size of the main block as the code adds it up in 32 bits; where these sums wrap, the sections
-- themselves may be larger. The alignment asked for is the largest of the main sections, and at least
-- 4. If `ram_size` is not 0, the block has no bit of that alignment less 1; it is the caller's, of at
-- least `ram_size` bytes and marked as the caller's, if an address was given, and else one of the
-- allocator's, not NULL and marked as such. If `ram_size` is 0, there is no block.
pub load_module_image-IsPlaced :
    (host : Host) (w : World) (p_mod : Module) (image : Image) (addr size : ℕ) (mode : LoadMode)
    → is_ok (load_module_image host w (some p_mod) image addr size mode).code ≡ true
    → IsAccepted w.mem image.p_header (plan_load w.mem image.p_header mode)
      × IsPlaced
          (plan_load w.mem image.p_header mode)
          addr
          size
          (load_module_image host w (some p_mod) image addr size mode).p_mod
unfolding load_module_image
load_module_image-IsPlaced host w p_mod image addr size mode good =
    let plan = plan_load w.mem image.p_header mode in
    let handle : Module = record p_mod { p_header = image.p_header; mode = mode } in
    let planned : Stage = record { code = plan.code; p_mod = handle; world = w } in
    let provide : Stage → Stage = λ s. provision_ram host s.world s.p_mod plan addr size in
    let provisioned = and_then planned provide in
    let copied = and_then provisioned (copied_stage host image plan) in
    let relocate : Stage → Stage = relocate_image host image image.p_header in
    let exited = load_exit_ok plan (and_then copied relocate) good in
    let ok_copied = and_then_ok copied relocate exited.0 in
    let ok_provisioned = and_then_ok provisioned (copied_stage host image plan) ok_copied.0 in
    let ok_planned = and_then_ok planned provide ok_provisioned.0 in
    let IsGood : Stage → Type 0 = λ s. IsPlaced plan addr size s.p_mod in
    let placed : IsGood (provide planned) =
      provision_ram-IsPlaced host w handle plan addr size
        (subst (λ s. is_ok s.code ≡ true) ok_planned.1 ok_provisioned.0) in
    let after_copy : IsGood copied = subst IsGood (sym ok_provisioned.1) (
      copied_stage-IsPlaced host image plan addr size provisioned
        (subst IsGood (sym ok_planned.1) placed)) in
    (
      plan_load-IsAccepted w.mem image.p_header mode ok_planned.0,
      subst IsGood (sym exited.1) (
          subst IsGood (sym ok_copied.1)
            (relocate_image-IsPlaced host image plan addr size copied after_copy)),
    )
