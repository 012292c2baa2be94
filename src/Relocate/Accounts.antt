-- ===== src/Relocate/Accounts.antt =====
-- What a move leaves behind: the accounts with the host's allocator, and the handle after an error.
use udynlink.Prelude.{◌≤◌, ℕ, ◌≡◌, ◌≢◌, arith, true, false, some, List, ◌∷◌}
use udynlink.Header.{ok, load_out_of_memory, is_sectioned}
use udynlink.Modules.{Module, header_of}
use udynlink.Relocs.{is_ok}
use udynlink.Host.{Host, World, Event, refused, external_malloc, external_free}
use udynlink.Loader.{main_request, unload_module}
use udynlink.Loader.Leaks.{Owes, unload_module_untagged}
use udynlink.Loader.Release.{main_block, free_main}
use udynlink.Relocate.{
  get_ram_size, move_untagged, relocate_untagged, move_sectioned, relocate_sectioned,
  relocate_main_block, relocate_module_sections,
}
use udynlink.Relocate.Sectioned.{SectionMove}

-- A move of a sectioned module that is refused leaves its handle and all memory as they were.
pub relocate_module_sections_refused :
    (host : Host) (w : World) (p_mod : Module) (new_ram new_size : ℕ) (moves : List SectionMove)
    → is_sectioned (header_of w.mem p_mod) ≡ true
    → is_ok (relocate_module_sections host w (some p_mod) new_ram new_size moves).code ≡ false
    → ((relocate_module_sections host w (some p_mod) new_ram new_size moves).p_mod ≡ p_mod)
      × ((relocate_module_sections host w (some p_mod) new_ram new_size moves).world.mem ≡ w.mem)
unfolding relocate_module_sections relocate_main_block relocate_sectioned move_sectioned
    external_malloc
relocate_module_sections_refused host w p_mod new_ram new_size moves sectioned bad = ground arith

-- Moving an untagged module that has a block, successfully and to another block, hands the old one
-- back, if it was the loader's, and keeps the accounts: if before the move nothing but the main
-- block of the handle had still to be freed, then so it is after it, with the new main block.
pub relocate_untagged-Owes :
    (host : Host) (w : World) (old : List Event) (p_mod : Module) (new_ram new_size : ℕ)
    → p_mod.p_ram ≢ 0
    → get_ram_size w.mem p_mod ≢ 0
    → Owes 4 old p_mod w
    → is_ok (relocate_untagged host w p_mod new_ram new_size).code ≡ true
    → (relocate_untagged host w p_mod new_ram new_size).p_mod.p_ram ≢ p_mod.p_ram
    → Owes 4 old
        (relocate_untagged host w p_mod new_ram new_size).p_mod
        (relocate_untagged host w p_mod new_ram new_size).world
unfolding relocate_untagged move_untagged external_malloc external_free
relocate_untagged-Owes host w old p_mod new_ram new_size live sized owes good apart hits =
    ground (arith, owes hits)

-- What the refused allocation leaves.
relocate_untagged_full :
    (host : Host) (w : World) (p_mod : Module) (new_size : ℕ)
    → get_ram_size w.mem p_mod ≢ 0
    → host.malloc w.log (main_request (get_ram_size w.mem p_mod) 4) ≡ 0
    → relocate_untagged host w p_mod 0 new_size ≡ record {
      code = load_out_of_memory;
      p_mod = record p_mod { foreign_ram = false };
      world = record w { log = refused (main_request (get_ram_size w.mem p_mod) 4) ∷ w.log };
    }
unfolding relocate_untagged external_malloc
relocate_untagged_full host w p_mod new_size sized full = ground (arith, full)

-- A loaded untagged module in a block of the caller's, moved to a block of the loader's that the
-- host refuses, is marked as the owner of the caller's block afterwards: the unload frees it.
pub relocate_untagged_refused :
    (host : Host) (w : World) (p_mod : Module) (new_size : ℕ)
    → p_mod.p_header ≢ 0
    → p_mod.p_ram ≢ 0
    → p_mod.foreign_ram ≡ true
    → is_sectioned (header_of w.mem p_mod) ≡ false
    → get_ram_size w.mem p_mod ≢ 0
    → host.malloc w.log (main_request (get_ram_size w.mem p_mod) 4) ≡ 0
    → (unload_module
        (relocate_untagged host w p_mod 0 new_size).world
        (some (relocate_untagged host w p_mod 0 new_size).p_mod)).1
      ≡ external_free (relocate_untagged host w p_mod 0 new_size).world (main_block p_mod.p_ram 4)
unfolding free_main
relocate_untagged_refused host w p_mod new_size loaded live lent untagged sized full =
    rw (relocate_untagged_full host w p_mod new_size sized full) (
      rw
        (unload_module_untagged (record p_mod { foreign_ram = false })
          (record w { log = refused (main_request (get_ram_size w.mem p_mod) 4) ∷ w.log }) loaded
          untagged)
        (ground arith))

-- Moving an untagged module of the loader's to the block that it is in already, handed over with a
-- sufficient size, frees this block, and leaves the handle in it.
relocate_untagged_same :
    (host : Host) (w : World) (p_mod : Module) (new_size : ℕ)
    → p_mod.p_ram ≢ 0
    → p_mod.foreign_ram ≡ false
    → get_ram_size w.mem p_mod ≢ 0
    → get_ram_size w.mem p_mod ≤ new_size
    → relocate_untagged host w p_mod p_mod.p_ram new_size ≡ record {
      code = ok;
      p_mod = record p_mod { foreign_ram = true };
      world = external_free w (main_block p_mod.p_ram 4);
    }
unfolding relocate_untagged move_untagged
relocate_untagged_same host w p_mod new_size live own sized enough = ground arith
