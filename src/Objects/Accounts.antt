-- ===== src/Objects/Accounts.antt =====
-- The objects of the C++ layer give back what they load, through moves, assignments and swaps, for
-- untagged images.
use udynlink.Prelude.{
  ℕ, ◌+◌, ◌≡◌, ◌≢◌, refl, ap, arith, true, false, not, Bool-cases, inl, inr, some,
}
use mathlib.Core.Path.{subst}
use udynlink.Memory.{Memory}
use udynlink.Header.{ok, LoadMode, header_at, is_sectioned}
use udynlink.Modules.{Module, free_module}
use udynlink.Relocs.{is_ok}
use udynlink.Host.{Host, World, Block, external_free}
use udynlink.Host.Balance.{handed_out, taken_back}
use udynlink.Loader.{Stage, load_module, load_module_image, unload_module}
use udynlink.Loader.Copy.{Image, image_from_memory}
use udynlink.Loader.Leaks.{
  Owes, held, load_module_image-Keeps, plan_load_untagged, load_exit_failed, unload_module_untagged,
}
use udynlink.Loader.Planning.{plan_load}
use udynlink.Loader.Release.{free_main}
use udynlink.Objects.{Object, loaded_object, object_unload, load_fresh, object_load}

-- What an object holds.
abbrev pub holding : (Block → ℕ) → Object → ℕ
holding hits o = held hits o.mod_ 4

-- An object that has loaded nothing has a handle without a block.
abbrev pub IsIdle : Object → Type 0
IsIdle o = o.loaded_ ≡ false → o.mod_.p_ram ≡ 0

-- The image of an object that has loaded one is in memory, with an untagged header.
pub record IsReady (m : Memory) (o : Object) : Type 0 where
  pub live : o.loaded_ ≡ true → o.mod_.p_header ≢ 0
  pub untagged : o.loaded_ ≡ true → is_sectioned (header_at m o.mod_.p_header) ≡ false

-- From one world to another, what is held changes as the log says.
abbrev pub Exchange : World → ((Block → ℕ) → ℕ) → World → ((Block → ℕ) → ℕ) → Type 0
Exchange w old w' new =
    (hits : Block → ℕ)
    → handed_out hits w'.log + taken_back hits w.log + old hits
      ≡ handed_out hits w.log + taken_back hits w'.log + new hits

unfoldable pub nothing : (Block → ℕ) → ℕ
nothing hits = 0

pub object_unload-Exchange :
    (w : World) (o : Object)
    → IsReady w.mem o
    → IsIdle o
    → ((object_unload w o).0 ≡ ok)
      × IsIdle (object_unload w o).1
      × Exchange w (λ hits. holding hits o) (object_unload w o).2 nothing
      × ((object_unload w o).1.mod_.p_ram ≡ 0)
unfolding object_unload free_main external_free nothing
object_unload-Exchange w o v idle = elim (Bool-cases o.loaded_) [
  | inl full ↦
      let e = unload_module_untagged o.mod_ w (v.live full) (v.untagged full) in
      rw (full, e) (refl, (λ _. refl), (λ hits. ground arith), refl)
  | inr empty ↦ rw empty (refl, (λ _. idle empty), (λ hits. ground (arith, idle empty)), idle empty)
]

module _ (call : Memory → ℕ → Memory) (host : Host) where
  loaded_object-Exchange :
      (w : World) (s : Stage)
      → Owes 4 w.log s.p_mod s.world
      → Exchange w nothing
          (loaded_object call host s).2
          (λ hits. holding hits (loaded_object call host s).1)
  unfolding loaded_object nothing
  loaded_object-Exchange w s owes hits = elim (Bool-cases (is_ok s.code)) [
    | inl good ↦ rw good (omega (arith, owes hits))
    | inr bad ↦ rw bad (omega (arith, owes hits))
  ]

  load_image-Owes :
      (w : World) (image : Image) (load_addr load_size : ℕ) (mode : LoadMode)
      → is_sectioned (header_at w.mem image.p_header) ≡ false
      → let s = load_module_image host w (some free_module) image load_addr load_size mode in
        Owes 4 w.log s.p_mod s.world
  load_image-Owes w image load_addr load_size mode untagged =
      let s = load_module_image host w (some free_module) image load_addr load_size mode in
      subst (λ align. Owes align w.log s.p_mod s.world)
        (plan_load_untagged w.mem image.p_header mode untagged).1
        (load_module_image-Keeps host w free_module image load_addr load_size mode refl untagged)

  load_fresh-Exchange :
      (w : World) (base_addr load_addr load_size : ℕ) (mode : LoadMode)
      → is_sectioned (header_at w.mem base_addr) ≡ false
      → let (err, o, w') = load_fresh call host w base_addr load_addr load_size mode in
        Exchange w nothing w' (λ hits. holding hits o)
  unfolding load_fresh load_module image_from_memory
  load_fresh-Exchange w base_addr load_addr load_size mode untagged =
      let image = image_from_memory w.mem base_addr in
      loaded_object-Exchange w
        (load_module_image host w (some free_module) image load_addr load_size mode)
        (load_image-Owes w image load_addr load_size mode untagged)

  load_image_failed :
      (w : World) (image : Image) (load_addr load_size : ℕ) (mode : LoadMode)
      → let s = load_module_image host w (some free_module) image load_addr load_size mode in
        is_ok s.code ≡ false → s.p_mod ≡ free_module
  unfolding load_module_image
  load_image_failed w image load_addr load_size mode bad =
      load_exit_failed (plan_load w.mem image.p_header mode) _ bad

  loaded_object-IsIdle :
      (s : Stage)
      → (is_ok s.code ≡ false → s.p_mod ≡ free_module)
      → IsIdle (loaded_object call host s).1
  unfolding loaded_object
  loaded_object-IsIdle s cleared = elim (Bool-cases (is_ok s.code)) [
    | inl good ↦ rw good (λ h. absurd (ground (arith, h)))
    | inr bad ↦ rw bad (λ _. ap (λ (p : Module). p.p_ram) (cleared bad))
  ]

  load_fresh-IsIdle :
      (w : World) (base_addr load_addr load_size : ℕ) (mode : LoadMode)
      → IsIdle (load_fresh call host w base_addr load_addr load_size mode).1
  unfolding load_fresh load_module image_from_memory
  load_fresh-IsIdle w base_addr load_addr load_size mode =
      let image = image_from_memory w.mem base_addr in
      loaded_object-IsIdle
        (load_module_image host w (some free_module) image load_addr load_size mode)
        (load_image_failed w image load_addr load_size mode)

  -- A load on an object unloads it first.
  object_load_lem :
      (w : World) (o : Object) (base_addr load_addr load_size : ℕ) (mode : LoadMode)
      → (object_unload w o).0 ≡ ok
      → object_load call host w o base_addr load_addr load_size mode
        ≡ load_fresh call host (object_unload w o).2 base_addr load_addr load_size mode
  unfolding object_load object_unload
  object_load_lem w o base_addr load_addr load_size mode good = elim (Bool-cases (not o.loaded_)) [
    | inl empty ↦ rw empty refl
    | inr full ↦
        let fine : (unload_module w (some o.mod_)).0 ≡ ok = rw full at good in rw (full, fine) refl
  ]

  -- A load gives back what the object held, and what it then holds is what it allocated.
  pub object_load-Exchange :
      (w : World) (o : Object) (base_addr load_addr load_size : ℕ) (mode : LoadMode)
      → IsReady w.mem o
      → IsIdle o
      → is_sectioned (header_at (object_unload w o).2.mem base_addr) ≡ false
      → let (err, o', w') = object_load call host w o base_addr load_addr load_size mode in
        IsIdle o' × Exchange w (λ hits. holding hits o) w' (λ hits. holding hits o')
  unfolding nothing
  object_load-Exchange w o base_addr load_addr load_size mode v idle untagged =
      let (good, _, before, _) = object_unload-Exchange w o v idle in
      let between = (object_unload w o).2 in
      let after = load_fresh-Exchange between base_addr load_addr load_size mode untagged in
      rw (object_load_lem w o base_addr load_addr load_size mode good) (
        load_fresh-IsIdle between base_addr load_addr load_size mode,
        λ hits. omega (arith, before hits, after hits),
      )
