-- ===== src/Wasm/Tables.antt =====
-- The tables of function and external references, udynlink/wasm2c_runtime/wasm-rt-udynlink.c. Both
-- kinds have the same functions, over elements of different sizes. The elements behind `data` are a
-- function of the index.
use udynlink.Prelude.{
  ℕ, zero, suc, ◌+◌, ◌*◌, ◌^◌, ◌≡◌, ◌<◌, ◌≤◌, ◌⊎◌, refl, arith, false, ◌&&◌, Bool-cases, inl, inr,
  ltb, leb, ◌==◌, if◌then◌else◌, u32, add32, sub32,
}
use udynlink.Host.{Host, World}
use udynlink.Wasm.{Outcome, finished, trapped_oom, rt_malloc, rt_mem_free, grow_refused}

-- `wasm_rt_funcref_table_t` and `wasm_rt_externref_table_t`.
pub record Table (A : Type 0) : Type 0 where
  pub data_at : ℕ
  pub max_size : ℕ
  pub size : ℕ
  pub elems : ℕ → A

-- What `sizeof` gives for the two kinds of reference, of four pointers and of one.
abbrev pub funcref_size : ℕ
funcref_size = 16

abbrev pub externref_size : ℕ
externref_size = 4

module _ {A : Type 0} where
  -- `wasm_rt_allocate_funcref_table` and `wasm_rt_allocate_externref_table`. `found` is what the memory
  -- of the block holds; `memset` clears the elements that it reaches to the end of.
  unfoldable pub allocate_table : ℕ → A → (ℕ → A) → Host → World → ℕ → ℕ → Outcome (Table A)
  unfolding rt_malloc
  allocate_table elem_size null found host w elements max_elements =
      let bytes = u32 (max_elements * elem_size) in
      let (p, w') = rt_malloc host w bytes in
      if max_elements == 0
      then finished (record { data_at = 0; max_size = 0; size = 0; elems = found }) w
      else if p == 0
      then trapped_oom w'
      else finished
          (record {
            data_at = p;
            max_size = max_elements;
            size = elements;
            elems = λ i. if leb ((i + 1) * elem_size) bytes then null else found i;
          })
          w'

  -- `wasm_rt_free_funcref_table` and `wasm_rt_free_externref_table`.
  unfoldable pub free_table : World → Table A → Table A × World
  unfolding rt_mem_free
  free_table w table =
      if table.data_at == 0
      then (table, w)
      else (record table { data_at = 0 }, rt_mem_free w table.data_at)

  unfoldable pub set_elem : (ℕ → A) → ℕ → A → ℕ → A
  set_elem elems k v i = if i == k then v else elems i

  -- The loop of a growth at `i`, with `left` rounds to go.
  unfoldable pub init_loop : ℕ → A → ℕ → ℕ → (ℕ → A) → ℕ → A
  unfolding set_elem
  init_loop size init zero i elems = elems
  init_loop size init (suc left) i elems =
      init_loop size init left (i + 1) (set_elem elems (add32 size i) init)

  -- `wasm_rt_grow_funcref_table` and `wasm_rt_grow_externref_table`: the result and the table.
  unfoldable pub grow_table : Table A → ℕ → A → ℕ × Table A
  unfolding init_loop
  grow_table table delta init =
      let size = add32 table.size delta in
      if ltb table.max_size size then (grow_refused, table) else (
        sub32 size delta,
        record table { size = size; elems = init_loop table.size init delta 0 table.elems },
      )

  init_loop_lem :
      (size : ℕ) (init : A) (left i : ℕ) (elems : ℕ → A) (k : ℕ)
      → size + i + left < 2 ^ 32
      → init_loop size init left i elems k
        ≡ (if leb (size + i) k && ltb k (size + i + left) then init else elems k)
  unfolding init_loop set_elem
  init_loop_lem size init zero i elems k small =
      let outside : (leb (size + i) k && ltb k (size + i + 0)) ≡ false = ground arith in
      rw outside refl
  init_loop_lem size init (suc left) i elems k small =
      let here : add32 size i ≡ size + i = omega arith in
      let rest =
        init_loop_lem size init left (i + 1) (set_elem elems (size + i) init) k (omega arith) in
      rw here (ground (arith, rest))

  -- Growing a table is refused, with the table as it was, or gives the old size, a table with so many
  -- elements more, no more than it can hold, the old elements in their places, and the initial one in
  -- the new places, when the sizes add up to fewer than 2^32 elements.
  pub grow_table_lem :
      (table : Table A) (delta : ℕ) (init : A) (k : ℕ)
      → table.size + delta < 2 ^ 32
      → let (result, table') = grow_table table delta init in
        ((result ≡ grow_refused) × (table' ≡ table) × (table.max_size < table.size + delta))
        ⊎ ((result ≡ table.size)
            × (table'.size ≡ table.size + delta)
            × (table'.size ≤ table'.max_size)
            × (table'.elems k
                ≡ (if leb table.size k && ltb k (table.size + delta) then init else table.elems k)))
  unfolding grow_table
  grow_table_lem table delta init k small =
      let total : add32 table.size delta ≡ table.size + delta = omega arith in
      let old : sub32 (table.size + delta) delta ≡ table.size = omega arith in
      let filled = init_loop_lem table.size init delta 0 table.elems k (omega arith) in
      elim (Bool-cases (ltb table.max_size (table.size + delta))) [
        | inl over ↦ rw (total, over) (inl (refl, refl, ground (arith, over)))
        | inr fits ↦
            rw (total, fits, old) (inr (refl, refl, ground (arith, fits), ground (arith, filled)))
      ]
