-- ===== src/Wasm/Growth.antt =====
-- Growing a dynamic linear memory: what the guest sees, and what the host's allocator does.
use udynlink.Prelude.{
  ℕ, ◌+◌, ◌-◌, ◌*◌, ◌^◌, ◌%◌, ◌≡◌, ◌≢◌, ◌<◌, ◌≤◌, ◌⊎◌, refl, arith, true, false, Bool-cases, inl,
  inr, ltb, ◌==◌, if◌then◌else◌, u32, add32, List,
}
use udynlink.Memory.{IsBytes, memcpy}
use udynlink.Host.{Host, World, Event, Block, external_malloc, external_free}
use udynlink.Host.Balance.{handed_out, taken_back}
use udynlink.Wasm.{
  LinearMemory, dynamic_memory, page_size, bytes_of, rt_request, rt_block, rt_malloc, rt_mem_free,
  moved_to, rt_mem_realloc, grow_refused, grow_by_realloc, grow_memory,
}
use udynlink.Wasm.Bytes.{copy_up_lem}

-- A memory of a 32-bit module that has pages, fewer than 4 GiB in all.
pub record IsMemory (mem : LinearMemory) : Type 0 where
  pub narrow : mem.is64 ≡ false
  pub sized : mem.size ≡ mem.pages * page_size
  pub some_pages : 0 < mem.pages
  pub under_max : mem.pages ≤ mem.max_pages
  pub max_small : mem.max_pages < 2 ^ 16
  pub present : mem.data_at ≢ 0

-- The memory behind a growth to the block at `np`.
abbrev pub grown : LinearMemory → ℕ → ℕ → LinearMemory
grown mem np pages = record mem {
  data_at = np;
  pages = mem.pages + pages;
  size = (mem.pages + pages) * page_size;
}

abbrev pub grown_size : LinearMemory → ℕ → ℕ
grown_size mem pages = (mem.pages + pages) * page_size

-- The address that the host hands out for the growth.
abbrev pub new_block : Host → World → LinearMemory → ℕ → ℕ
new_block host w mem pages = host.malloc w.log (rt_request (grown_size mem pages))

-- The world behind the allocation.
abbrev pub allocated_world : Host → World → LinearMemory → ℕ → World
allocated_world host w mem pages = (external_malloc host w (rt_request (grown_size mem pages))).1

module _ (host : Host) (w : World) (mem : LinearMemory) (pages : ℕ) (v : IsMemory mem)
    (narrow_delta : pages < 2 ^ 32) where
  grown-IsMemory :
      (np : ℕ) → np ≢ 0 → mem.pages + pages ≤ mem.max_pages → IsMemory (grown mem np pages)
  grown-IsMemory np given fits = record {
    narrow = v.narrow;
    sized = refl;
    some_pages = omega (arith, v.some_pages);
    under_max = fits;
    max_small = v.max_small;
    present = given;
  }

  -- The three ends of a growth.
  pub grow_memory-cases :
      (grow_memory dynamic_memory host w mem pages ≡ (grow_refused, mem, w))
      ⊎ (((new_block host w mem pages ≡ 0)
            × (grow_memory dynamic_memory host w mem pages
                ≡ (grow_refused, mem, allocated_world host w mem pages)))
          ⊎ ((new_block host w mem pages ≢ 0)
              × (mem.pages + pages ≤ mem.max_pages)
              × (grow_memory dynamic_memory host w mem pages ≡ (
                mem.pages,
                grown mem (new_block host w mem pages) pages,
                moved_to
                    (allocated_world host w mem pages)
                    (new_block host w mem pages)
                    mem.data_at
                    mem.size
                    (grown_size mem pages),
              ))))
  unfolding grow_memory grow_by_realloc rt_mem_realloc rt_malloc external_malloc
  grow_memory-cases =
      let small : mem.pages + pages < 2 ^ 64 = omega (arith, v.under_max, v.max_small) in
      let total : (mem.pages + pages) % 2 ^ 64 ≡ mem.pages + pages = omega arith in
      elim (Bool-cases (ltb mem.max_pages (mem.pages + pages))) [
        | inl over ↦ rw (total, over) (inl refl)
        | inr fits ↦
            let room : mem.pages + pages ≤ mem.max_pages = ground (arith, fits) in
            let old_size : u32 mem.size ≡ mem.size =
              omega (arith, v.sized, v.under_max, v.max_small) in
            let new_size : add32 mem.size (bytes_of pages mem.is64) ≡ grown_size mem pages =
              rw (v.narrow, v.sized) (omega (arith, room, v.max_small)) in
            let positive : (grown_size mem pages == 0) ≡ false = ground (arith, v.some_pages) in
            elim (Bool-cases (new_block host w mem pages == 0)) [
              | inl null ↦
                  let zero_block : new_block host w mem pages ≡ 0 = ground (arith, null) in
                  inr (
                    inl (
                      zero_block,
                      rw
                          (
                            grow_memory, total, fits, grow_by_realloc, old_size, new_size,
                            rt_mem_realloc, positive, null,
                          )
                          refl,
                    ))
              | inr given ↦
                  let block : new_block host w mem pages ≢ 0 = ground (arith, given) in
                  inr (
                    inr (
                      block,
                      room,
                      rw
                          (
                            grow_memory, total, fits, grow_by_realloc, old_size, new_size,
                            rt_mem_realloc, positive, given,
                          )
                          (rw given refl),
                    ))
            ]
      ]

  -- The bytes of the old block, behind the move.
  moved_to_contents :
      (np i : ℕ)
      → np ≢ 0
      → mem.pages ≤ mem.pages + pages
      → IsBytes w.mem
      → (np + grown_size mem pages ≤ mem.data_at) ⊎ (mem.data_at + mem.size ≤ np)
      → i < mem.size
      → (moved_to
            (allocated_world host w mem pages)
            np
            mem.data_at
            mem.size
            (grown_size mem pages)).mem
          (np + i)
        ≡ w.mem (mem.data_at + i)
  unfolding moved_to rt_mem_free external_free external_malloc memcpy
  moved_to_contents np i given more bytes apart inside =
      let there : (mem.data_at == 0) ≡ false = ground (arith, v.present) in
      let length : (if ltb mem.size (grown_size mem pages) then mem.size else grown_size mem pages)
          ≡ mem.size =
        ground (arith, v.sized) in
      let size_up : mem.size ≤ grown_size mem pages = omega (arith, v.sized) in
      let way : (np ≤ mem.data_at) ⊎ (mem.data_at + mem.size ≤ np) = ground (arith, apart) in
      let copied = copy_up_lem mem.size w.mem np mem.data_at (np + i) bytes way in
      let index : np + i - np ≡ i = omega arith in
      rw (there, length) (ground (arith, copied, inside, index))

  -- Growing a dynamic memory, one of the host's allocator, of a 32-bit module, with at least one
  -- page and below 4 GiB, by a number of pages of 32 bits, is refused, with the memory as it was, or
  -- gives the old number of pages, a memory with so many pages more, and the old contents in it. The
  -- block of the host must keep clear of the memory, and memory holds bytes. Static and external
  -- memories and a memory without pages are not covered.
  pub grow_memory-IsMemory :
      (i : ℕ)
      → IsBytes w.mem
      → (new_block host w mem pages + grown_size mem pages ≤ mem.data_at)
        ⊎ (mem.data_at + mem.size ≤ new_block host w mem pages)
      → i < mem.size
      → let (result, mem', w') = grow_memory dynamic_memory host w mem pages in
        ((result ≡ grow_refused) × (mem' ≡ mem) × (w'.mem ≡ w.mem))
        ⊎ ((result ≡ mem.pages)
            × IsMemory mem'
            × (mem'.pages ≡ mem.pages + pages)
            × (w'.mem (mem'.data_at + i) ≡ w.mem (mem.data_at + i)))
  unfolding external_malloc
  grow_memory-IsMemory i bytes apart inside = elim grow_memory-cases [
    | inl e ↦ rw e (inl (refl, refl, refl))
    | inr (inl (null, e)) ↦ rw e (inl (refl, refl, refl))
    | inr (inr (given, fits, e)) ↦
        let np = new_block host w mem pages in
        rw e (
          inr (
            refl,
            grown-IsMemory np given fits,
            refl,
            moved_to_contents np i given (omega arith) bytes apart inside,
          ))
  ]

-- Since the log `old`, every block but the memory's own was freed as often as it was allocated.
abbrev pub Holds : List Event → LinearMemory → World → Type 0
Holds old mem w =
    (hits : Block → ℕ)
    → handed_out hits w.log + taken_back hits old
      ≡ handed_out hits old
        + taken_back hits w.log
        + (if mem.data_at == 0 then 0 else hits (rt_block mem.data_at))

pub grow_memory-Holds :
    (old : List Event) (host : Host) (w : World) (mem : LinearMemory) (pages : ℕ)
    → IsMemory mem
    → pages < 2 ^ 32
    → Holds old mem w
    → let (result, mem', w') = grow_memory dynamic_memory host w mem pages in
      IsMemory mem' × Holds old mem' w'
unfolding external_malloc moved_to rt_mem_free external_free
grow_memory-Holds old host w mem pages v narrow_delta holds =
    elim (grow_memory-cases host w mem pages v narrow_delta) [
      | inl e ↦ rw e (v, holds)
      | inr (inl (null, e)) ↦ rw e (
        v,
        λ hits.
            let it : (new_block host w mem pages == 0) ≡ true = ground (arith, null) in
            rw it (holds hits),
      )
      | inr (inr (given, fits, e)) ↦
          let it : (new_block host w mem pages == 0) ≡ false = ground (arith, given) in
          let there : (mem.data_at == 0) ≡ false = ground (arith, v.present) in
          rw e (
            grown-IsMemory host w mem pages v narrow_delta (new_block host w mem pages) given fits,
            λ hits. rw (it, there) (omega (arith, rw there at (holds hits))),
          )
    ]
