-- ===== src/Host.antt =====
-- What the host implements for the loader, udynlink/udynlink_externals.h: the allocator and the
-- symbol resolver. The allocator's answer may depend on all calls so far, which the log keeps,
-- newest first. The callbacks do not write the memory that the loader works on.
pub mod Balance
use udynlink.Prelude.{ℕ, ◌≡◌, ◌<◌, ◌+◌, Bool, Option, List, [], ◌∷◌, ◌==◌, if◌then◌else◌}
use udynlink.Memory.{Memory}
use udynlink.Modules.{Resolver}

-- The arguments of `udynlink_external_malloc`. `section` is the address of the name of a tagged
-- section, and `none` for the main block.
pub record Request : Type 0 where
  pub size : ℕ
  pub section : Option ℕ
  pub align : ℕ
  pub flags : ℕ

-- The arguments of `udynlink_external_free`.
pub record Block : Type 0 where
  pub address : ℕ
  pub section : Option ℕ
  pub align : ℕ
  pub flags : ℕ

pub data Event : Type 0 where
  allocated : Request → ℕ → Event
  refused : Request → Event
  freed : Block → Event

-- An allocator answers a request with an address, or with 0 for NULL.
pub record Host : Type 0 where
  pub resolve : Resolver
  pub malloc : List Event → Request → ℕ

pub record World : Type 0 where
  pub mem : Memory
  pub log : List Event

-- `udynlink_external_malloc`: the address and the world with the call in its log.
unfoldable pub external_malloc : Host → World → Request → ℕ × World
external_malloc host w r =
    let p = host.malloc w.log r in
    (p, record w { log = (if p == 0 then refused r else allocated r p) ∷ w.log })

unfoldable pub external_free : World → Block → World
external_free w b = record w { log = freed b ∷ w.log }
