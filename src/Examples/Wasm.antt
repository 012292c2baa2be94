-- ===== src/Examples/Wasm.antt =====
-- Applications to a linear memory of one page, and to a table of four elements.
use udynlink.Prelude.{
  ℕ, ◌+◌, ◌≡◌, ◌⊎◌, inr, ◌<◌, ◌≤◌, refl, arith, false, [], ◌∷◌, ◌==◌, if◌then◌else◌,
}
use udynlink.Memory.{Memory, IsBytes, memcpy}
use udynlink.Host.{Host, World}
use udynlink.Host.Balance.{Balanced}
use udynlink.Wasm.{LinearMemory, dynamic_memory, page_size, grow_refused, grow_memory}
use udynlink.Wasm.Bytes.{memmove, memmove-memcpy}
use udynlink.Wasm.Growth.{IsMemory, grow_memory-IsMemory}
use udynlink.Wasm.Runs.{run_memory, run_memory-Balanced}
use udynlink.Wasm.Tables.{Table, grow_table, grow_table_lem}

abbrev bytes : Memory
bytes = λ a. if a == 0x1000 then 7 else 1

bytes-IsBytes : IsBytes bytes
bytes-IsBytes a = ground arith

-- Eight bytes, moved up by one.
memmove-memcpy_example : memmove bytes 0x1001 0x1000 8 0x1001 ≡ memcpy bytes 0x1001 0x1000 8 0x1001
memmove-memcpy_example = memmove-memcpy bytes 0x1001 0x1000 8 0x1001 bytes-IsBytes

abbrev host : Host
host = record { resolve = λ m p_mod name. 0; malloc = λ log r. 0x80000 }

abbrev start : World
start = record { mem = bytes; log = [] }

abbrev one_page : LinearMemory
one_page = record { data_at = 0x1000; pages = 1; max_pages = 8; size = page_size; is64 = false }

one_page-IsMemory : IsMemory one_page
one_page-IsMemory = record {
  narrow = refl;
  sized = refl;
  some_pages = omega arith;
  under_max = omega arith;
  max_small = omega arith;
  present = λ e. omega (arith, e);
}

abbrev after : ℕ × LinearMemory × World
after = grow_memory dynamic_memory host start one_page 2

grow_memory-IsMemory_example :
    ((after.0 ≡ grow_refused) × (after.1 ≡ one_page) × (after.2.mem ≡ bytes))
    ⊎ ((after.0 ≡ 1)
        × IsMemory after.1
        × (after.1.pages ≡ 3)
        × (after.2.mem (after.1.data_at + 0) ≡ bytes (0x1000 + 0)))
grow_memory-IsMemory_example =
    grow_memory-IsMemory host start one_page 2 one_page-IsMemory (omega arith) 0 bytes-IsBytes
      (inr (omega arith)) (omega arith)

run_memory-Balanced_example : Balanced [] (run_memory host start 1 8 (2 ∷ 100 ∷ 1 ∷ [])).log
run_memory-Balanced_example =
    run_memory-Balanced host start 1 8 (2 ∷ 100 ∷ 1 ∷ []) (omega arith) (omega arith) (omega arith)
      (omega arith, (omega arith, (omega arith, tt)))

abbrev table : Table ℕ
table = record { data_at = 0x2000; max_size = 4; size = 1; elems = λ i. 5 }

grow_table_lem_example :
    (((grow_table table 2 9).0 ≡ grow_refused) × ((grow_table table 2 9).1 ≡ table) × (4 < 1 + 2))
    ⊎ (((grow_table table 2 9).0 ≡ 1)
        × ((grow_table table 2 9).1.size ≡ 3)
        × ((grow_table table 2 9).1.size ≤ (grow_table table 2 9).1.max_size)
        × ((grow_table table 2 9).1.elems 2 ≡ 9))
grow_table_lem_example = grow_table_lem table 2 9 2 (omega arith)
