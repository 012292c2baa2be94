-- ===== src/Relocate/Moving.antt =====
-- Moving an untagged module to another block, udynlink/udynlink.c: what its words hold behind the move.
use mathlib.Core.Path.{subst}
use udynlink.Prelude.{ℕ, ◌*◌, ◌≡◌, ◌≢◌, arith, Bool, sym, if◌then◌else◌, sub32}
use udynlink.Modules.{Module, header_of, get_data_pointer}
use udynlink.Modules.{is_xip, get_code_pointer}
use udynlink.Memory.{memcpy}
use udynlink.Relocate.{move_untagged, moved_module}
use udynlink.Host.{World, external_free}
use udynlink.Relocate.Untagged.Rounds.{IsLoaded}
use udynlink.Relocate.Untagged.{Shift, rebase_module_pointers}
use udynlink.Relocate.Untagged.Moved.{AreMoved, rebase_module_pointers-AreMoved}

-- By how much a move to `dest` shifts the module.
abbrev pub move_shift : World → Module → ℕ → Shift
move_shift w p_mod dest =
    let data_delta = sub32 dest p_mod.p_ram in
    record {
      code_delta = if is_xip p_mod.mode then 0 else data_delta;
      data_delta = data_delta;
      old_code = get_code_pointer w.mem p_mod;
      old_data = get_data_pointer w.mem p_mod;
    }

move_untagged_lem :
    (w : World) (p_mod : Module) (old_foreign : Bool) (dest ram_size : ℕ)
    → dest ≢ p_mod.p_ram
    → let copied = memcpy w.mem dest p_mod.p_ram ram_size in
      let moved = moved_module p_mod dest ((header_of copied p_mod).num_lot * 4) in
      let s = move_untagged w p_mod old_foreign dest ram_size in
      (s.p_mod ≡ moved)
      × (s.world.mem ≡ rebase_module_pointers copied moved (move_shift w p_mod dest))
unfolding move_untagged external_free
move_untagged_lem w p_mod old_foreign dest ram_size apart = (ground arith, ground arith)

-- Moving an untagged module, as its load has left it, to another block copies the block and shifts the
-- pointers in the copy: each word that a relocation patches holds the word of the copy moved by as
-- much as what it points to has moved, and unchanged where it points outside the module; nothing
-- else differs from the copy.
pub move_untagged-AreMoved :
    (w : World) (p_mod : Module) (old_foreign : Bool) (dest ram_size : ℕ)
    → dest ≢ p_mod.p_ram
    → let copied = memcpy w.mem dest p_mod.p_ram ram_size in
      let moved = moved_module p_mod dest ((header_of copied p_mod).num_lot * 4) in
      IsLoaded copied moved (header_of copied moved).num_rels
      → let copied = memcpy w.mem dest p_mod.p_ram ram_size in
        let moved = moved_module p_mod dest ((header_of copied p_mod).num_lot * 4) in
        let s = move_untagged w p_mod old_foreign dest ram_size in
        (s.p_mod ≡ moved) × AreMoved copied moved (move_shift w p_mod dest) s.world.mem
move_untagged-AreMoved w p_mod old_foreign dest ram_size apart loaded =
    let copied = memcpy w.mem dest p_mod.p_ram ram_size in
    let moved = moved_module p_mod dest ((header_of copied p_mod).num_lot * 4) in
    let (handle, mem) = move_untagged_lem w p_mod old_foreign dest ram_size apart in
    (
      handle,
      subst (AreMoved copied moved (move_shift w p_mod dest)) (sym mem)
          (rebase_module_pointers-AreMoved copied moved (move_shift w p_mod dest) loaded),
    )
