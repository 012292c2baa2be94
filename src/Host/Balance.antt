-- ===== src/Host/Balance.antt =====
-- Accounts of the allocations in a log.
use udynlink.Prelude.{ℕ, ◌+◌, ◌≡◌, List, [], ◌∷◌}
use udynlink.Host.{Request, Block, Event, allocated, refused, freed}

-- The block that an allocation hands out is to be freed with these arguments.
abbrev pub block_of : Request → ℕ → Block
block_of r p = record { address = p; section = r.section; align = r.align; flags = r.flags }

-- How often the log hands out or takes back a block that `hits` counts.
module _ (hits : Block → ℕ) where
  abbrev pub handed_out : List Event → ℕ
  handed_out [] = 0
  handed_out (allocated r p ∷ log) = hits (block_of r p) + handed_out log
  handed_out (refused r ∷ log) = handed_out log
  handed_out (freed b ∷ log) = handed_out log

  abbrev pub taken_back : List Event → ℕ
  taken_back [] = 0
  taken_back (allocated r p ∷ log) = taken_back log
  taken_back (refused r ∷ log) = taken_back log
  taken_back (freed b ∷ log) = hits b + taken_back log

-- Between the two logs every block was freed as often as it was allocated, with the arguments of
-- its allocation.
abbrev pub Balanced : List Event → List Event → Type 0
Balanced old new =
    (hits : Block → ℕ)
    → handed_out hits new + taken_back hits old ≡ handed_out hits old + taken_back hits new
