-- ===== src/Wasm.antt =====
-- The runtime of a WebAssembly module on a 32-bit target, udynlink/wasm2c_runtime: traps, linear
-- memory, tables. The blocks come from the host's allocator. A size_t has 32 bits, the page counts 64.
pub mod Bytes
pub mod Traps
pub mod TrapNames
pub mod Growth
pub mod Runs
pub mod Tables
use udynlink.Prelude.{
  ℕ, zero, suc, ◌+◌, ◌-◌, ◌*◌, ◌/◌, ◌%◌, ◌^◌, Bool, true, false, ◌&&◌, ◌||◌, Option, some, none,
  ltb, leb, ◌==◌, ◌!=◌, if◌then◌else◌, u32, add32,
}
use udynlink.Memory.{Memory}
use udynlink.Host.{Host, World, Request, Block, external_malloc, external_free}
use Bytes.{copy_up}

-- The three models of linear memory, which the build chooses. A static memory has its buffer and its
-- pages, an external one the buffer and the capacity that the host registered.
pub data Config : Type 0 where
  static_memory : ℕ → ℕ → Config
  external_memory : ℕ → ℕ → Config
  dynamic_memory : Config

-- WASM_RT_PAGE_SIZE.
abbrev pub page_size : ℕ
page_size = 65536

-- `wasm_rt_memory_t`.
pub record LinearMemory : Type 0 where
  pub data_at : ℕ
  pub pages : ℕ
  pub max_pages : ℕ
  pub size : ℕ
  pub is64 : Bool

-- `wasm_rt_malloc` and `wasm_rt_mem_free`, with WASM_RT_HOOK_ALIGN.
abbrev pub hook_align : ℕ
hook_align = 8

abbrev pub rt_request : ℕ → Request
rt_request size = record { size = size; section = none; align = hook_align; flags = 0 }

abbrev pub rt_block : ℕ → Block
rt_block p = record { address = p; section = none; align = hook_align; flags = 0 }

unfoldable pub rt_malloc : Host → World → ℕ → ℕ × World
rt_malloc host w size = external_malloc host w (rt_request size)

unfoldable pub rt_mem_free : World → ℕ → World
rt_mem_free w p = external_free w (rt_block p)

-- The copying in `wasm_rt_mem_realloc`, to a block that is not NULL.
unfoldable pub moved_to : World → ℕ → ℕ → ℕ → ℕ → World
unfolding rt_mem_free
moved_to w np p old_size new_size =
    if p == 0
    then w
    else rt_mem_free
        (record w {
          mem = copy_up w.mem np p (if ltb old_size new_size then old_size else new_size);
        })
        p

-- `wasm_rt_mem_realloc`.
unfoldable pub rt_mem_realloc : Host → World → ℕ → ℕ → ℕ → ℕ × World
unfolding rt_malloc rt_mem_free moved_to
rt_mem_realloc host w p old_size new_size =
    let (np, w') = rt_malloc host w new_size in
    if new_size == 0
    then (0, if p == 0 then w else rt_mem_free w p)
    else if np == 0
    then (0, w')
    else (np, moved_to w' np p old_size new_size)

-- `is64 ? (1ULL << 48) : WASM_RT_PAGE_SIZE` as a size_t.
abbrev pub page_bytes : Bool → ℕ
page_bytes is64 = if is64 then u32 (2 ^ 48) else page_size

-- `(size_t)(pages * page_size)`, where the product has 64 bits.
abbrev pub bytes_of : ℕ → Bool → ℕ
bytes_of pages is64 = u32 (pages * page_bytes is64 % 2 ^ 64)

-- A call that may trap: the value and the world behind it, or the world at a trap for want of memory.
pub data Outcome {ℓ} (A : Type ℓ) : Type ℓ where
  trapped_oom : World → Outcome A
  finished : A → World → Outcome A

-- `wasm_rt_allocate_memory`. A 64-bit page size of 0 divides by zero in an external memory.
unfoldable pub allocate_memory : Config → Host → World → ℕ → ℕ → Bool → Outcome LinearMemory
unfolding rt_malloc
allocate_memory (static_memory buf count) host w initial_pages max_pages is64 =
    finished
      (record {
        data_at = buf;
        pages = count;
        max_pages = count;
        size = count * page_size;
        is64 = is64;
      })
      w
allocate_memory (external_memory buf capacity) host w initial_pages max_pages is64 =
    let need = bytes_of initial_pages is64 in
    let capacity_pages = capacity / page_bytes is64 in
    if buf == 0 || ltb capacity need
    then trapped_oom w
    else finished
        (record {
          data_at = buf;
          pages = initial_pages;
          max_pages = if ltb max_pages capacity_pages then max_pages else capacity_pages;
          size = need;
          is64 = is64;
        })
        w
allocate_memory dynamic_memory host w initial_pages max_pages is64 =
    let need = bytes_of initial_pages is64 in
    let (p, w') = rt_malloc host w need in
    if need != 0 && p == 0
    then trapped_oom w'
    else finished
        (record {
          data_at = p;
          pages = initial_pages;
          max_pages = max_pages;
          size = need;
          is64 = is64;
        })
        w'

-- What a refused growth returns.
abbrev pub grow_refused : ℕ
grow_refused = 0xffffffff

unfoldable pub grow_by_realloc : Host → World → LinearMemory → ℕ → ℕ × LinearMemory × World
unfolding rt_mem_realloc
grow_by_realloc host w mem pages =
    let old_size = u32 mem.size in
    let new_size = add32 old_size (bytes_of pages mem.is64) in
    let (new_data, w') = rt_mem_realloc host w mem.data_at old_size new_size in
    if new_data == 0 then (grow_refused, mem, w') else (
      mem.pages,
      record mem { data_at = new_data; pages = (mem.pages + pages) % 2 ^ 64; size = new_size },
      w',
    )

-- `wasm_rt_grow_memory`: the result, the memory and the world.
unfoldable pub grow_memory : Config → Host → World → LinearMemory → ℕ → ℕ × LinearMemory × World
unfolding grow_by_realloc
grow_memory cfg host w mem pages =
    let total = (mem.pages + pages) % 2 ^ 64 in
    if ltb mem.max_pages total then (grow_refused, mem, w) else elim cfg [
      | static_memory buf count ↦ grow_by_realloc host w mem pages
      | external_memory buf capacity ↦
          (mem.pages, record mem { pages = total; size = bytes_of total mem.is64 }, w)
      | dynamic_memory ↦ grow_by_realloc host w mem pages
    ]

-- `wasm_rt_free_memory`.
unfoldable pub free_memory : Config → World → LinearMemory → LinearMemory × World
unfolding rt_mem_free
free_memory (static_memory buf count) w mem = (mem, w)
free_memory (external_memory buf capacity) w mem = (mem, w)
free_memory dynamic_memory w mem =
    if mem.data_at == 0 then (mem, w) else (record mem { data_at = 0 }, rt_mem_free w mem.data_at)
