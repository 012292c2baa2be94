-- ===== src/Wasm/Runs.antt =====
-- The life of a dynamic linear memory: what is allocated is freed.
use udynlink.Prelude.{
  ℕ, ◌*◌, ◌^◌, ◌≡◌, ◌<◌, ◌≤◌, refl, arith, true, false, Bool-cases, inl, inr, List, [], ◌∷◌, ◌==◌,
  ◌!=◌,
}
use udynlink.Host.{Host, World, Event, allocated, external_malloc, external_free}
use udynlink.Host.Balance.{Balanced}
use udynlink.Wasm.{
  LinearMemory, finished, trapped_oom, dynamic_memory, page_size, bytes_of, rt_request, rt_malloc,
  rt_mem_free, allocate_memory, grow_memory, free_memory,
}
use udynlink.Wasm.Growth.{IsMemory, Holds, grow_memory-Holds}

-- The guest grows its memory by each of these numbers of pages.
unfoldable pub run_grows : Host → List ℕ → LinearMemory → World → LinearMemory × World
run_grows host [] mem w = (mem, w)
run_grows host (pages ∷ rest) mem w =
    let (result, mem', w') = grow_memory dynamic_memory host w mem pages in
    run_grows host rest mem' w'

-- Numbers of 32 bits.
abbrev pub AreNarrow : List ℕ → Type 0
AreNarrow [] = Unit
AreNarrow (pages ∷ rest) = (pages < 2 ^ 32) × AreNarrow rest

run_grows-Holds :
    (old : List Event) (host : Host) (steps : List ℕ) (mem : LinearMemory) (w : World)
    → IsMemory mem
    → AreNarrow steps
    → Holds old mem w
    → let (mem', w') = run_grows host steps mem w in IsMemory mem' × Holds old mem' w'
unfolding run_grows
run_grows-Holds old host [] mem w v narrow holds = (v, holds)
run_grows-Holds old host (pages ∷ rest) mem w v (here, later) holds =
    let (v', holds') = grow_memory-Holds old host w mem pages v here holds in
    run_grows-Holds old host rest (grow_memory dynamic_memory host w mem pages).1
      (grow_memory dynamic_memory host w mem pages).2 v' later holds'

-- A module's memory from its allocation to its end: allocated, grown, freed, or trapped at once.
unfoldable pub run_memory : Host → World → ℕ → ℕ → List ℕ → World
unfolding run_grows
run_memory host w initial_pages max_pages steps =
    elim (allocate_memory dynamic_memory host w initial_pages max_pages false) [
      | trapped_oom w' ↦ w'
      | finished mem w' ↦
          let (mem', w'') = run_grows host steps mem w' in (free_memory dynamic_memory w'' mem').1
    ]

free_memory-Balanced :
    (old : List Event) (mem : LinearMemory) (w : World)
    → IsMemory mem
    → Holds old mem w
    → Balanced old (free_memory dynamic_memory w mem).1.log
unfolding free_memory rt_mem_free external_free
free_memory-Balanced old mem w v holds hits =
    let there : (mem.data_at == 0) ≡ false = ground (arith, v.present) in
    rw there (omega (arith, rw there at (holds hits)))

-- Over the life of a dynamic linear memory of a 32-bit module, one that the runtime takes from the
-- host's allocator, with at least one page and below 4 GiB, every block that the runtime allocates
-- is freed once, and no other, however often the guest grows it by numbers of pages of 32 bits, and
-- whichever allocations the host refuses. Static and external memories are not covered.
pub run_memory-Balanced :
    (host : Host) (w : World) (initial_pages max_pages : ℕ) (steps : List ℕ)
    → 0 < initial_pages
    → initial_pages ≤ max_pages
    → max_pages < 2 ^ 16
    → AreNarrow steps
    → Balanced w.log (run_memory host w initial_pages max_pages steps).log
unfolding run_memory allocate_memory rt_malloc external_malloc
run_memory-Balanced host w initial_pages max_pages steps some_pages under small narrow =
    let need : bytes_of initial_pages false ≡ initial_pages * page_size = omega arith in
    let positive : (initial_pages * page_size != 0) ≡ true = ground arith in
    let p = host.malloc w.log (rt_request (initial_pages * page_size)) in
    elim (Bool-cases (p == 0)) [
      | inl null ↦ rw (run_memory, need, positive, null) (λ hits. refl)
      | inr given ↦
          let mem : LinearMemory = record {
            data_at = p;
            pages = initial_pages;
            max_pages = max_pages;
            size = initial_pages * page_size;
            is64 = false;
          } in
          let w' : World = record {
            mem = w.mem;
            log = allocated (rt_request (initial_pages * page_size)) p ∷ w.log;
          } in
          let v : IsMemory mem = record {
            narrow = refl;
            sized = refl;
            some_pages = some_pages;
            under_max = under;
            max_small = small;
            present = ground (arith, given);
          } in
          let holds : Holds w.log mem w' = λ hits. rw given (omega arith) in
          let (v', holds') = run_grows-Holds w.log host steps mem w' v narrow holds in
          rw (run_memory, need, positive, given)
            (free_memory-Balanced w.log (run_grows host steps mem w').0
              (run_grows host steps mem w').1 v' holds')
    ]
