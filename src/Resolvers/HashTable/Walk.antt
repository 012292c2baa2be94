-- ===== src/Resolvers/HashTable/Walk.antt =====
-- Walks along the chains of a hash table end, and find the symbol of a name.
use udynlink.Prelude.{
  ◌/◌, IsPow2, bit_or_step, bit_or, ap, ℕ, zero, suc, ◌+◌, ◌%◌, ◌^◌, ◌≡◌, ◌≢◌, ◌≤◌, ◌<◌, refl,
  arith, true, false, ◌&&◌, Bool-cases, inl, inr, some, none, List, ltb, add32,
}
use native.Mathlib.Decide.{ℕ_discrete}
use udynlink.Memory.{Memory, strcmp}
use udynlink.Symbols.{is_eq}
use udynlink.Texts.{IsName, IsText, strcmp_self, strcmp_eq}
use udynlink.Resolvers.HashTable.Bloom.{InFilter, in_bloom-InFilter}
use udynlink.Resolvers.HashTable.{
  HashTable, gnu_hash, hash_value, is_last, same_hash, sym_name, chain_loop, resolve_hashed_symbol,
}

-- The indices of the `n` symbols.
abbrev pub IsIndex : HashTable → ℕ → ℕ → Type 0
IsIndex table n k = (table.symoffset ≤ k) × (k < table.symoffset + n)

-- The chain in which a name belongs begins here.
abbrev pub chain_start : HashTable → List ℕ → ℕ
chain_start table name = table.buckets (gnu_hash name % table.nbuckets)

-- The chains stay among the `n` symbols: the buckets are below their end, and the last is marked.
pub record IsClosed (table : HashTable) (n : ℕ) : Type 0 where
  pub small : table.symoffset + n < 2 ^ 32
  pub has_bucket : 0 < table.nbuckets
  pub bucket_below : (b : ℕ) → b < table.nbuckets → table.buckets b < table.symoffset + n
  pub marked : (k : ℕ) → k + 1 ≡ table.symoffset + n → is_last (hash_value table k) ≡ true

-- A table of `n` symbols with these names: the stored hash of each is that of its name but for the
-- lowest bit, which marks the end of a chain, and the filter has both bits of it.
pub record IsTable (m : Memory) (table : HashTable) (names : ℕ → List ℕ) (n : ℕ) : Type 0 where
  pub closed : IsClosed table n
  pub named : (k : ℕ) → IsIndex table n k → IsName (names k)
  pub texts : (k : ℕ) → IsIndex table n k → IsText m (sym_name table k) (names k)
  pub filter_pow2 : IsPow2 table.bloom_size
  pub filter_fits : table.bloom_size < 2 ^ 32
  pub hashed :
      (k : ℕ)
      → IsIndex table n k
      → (hash_value table k / 2 ≡ gnu_hash (names k) / 2) × InFilter table (gnu_hash (names k))
  pub started :
      (k : ℕ)
      → IsIndex table n k
      → (table.symoffset ≤ chain_start table (names k)) × (chain_start table (names k) ≤ k)
  pub unmarked :
      (j k : ℕ)
      → IsIndex table n k
      → chain_start table (names k) ≤ j
      → j < k
      → is_last (hash_value table j) ≡ false
  pub distinct : (j k : ℕ) → IsIndex table n j → IsIndex table n k → names j ≡ names k → j ≡ k

same_hash_of : (hv h : ℕ) → hv / 2 ≡ h / 2 → same_hash hv h ≡ true
unfolding same_hash
same_hash_of hv h same =
    let upper = ap (λ q. bit_or q 0) same in
    ground (arith, bit_or_step hv 1, bit_or_step h 1, upper)

module _ (m : Memory) (table : HashTable) (n : ℕ) where
  -- A walk ends within as many steps as there are symbols from its start on.
  chain_loop_ends :
      (fuel idx h : ℕ) (name : List ℕ)
      → IsClosed table n
      → idx < table.symoffset + n
      → table.symoffset + n ≤ idx + fuel
      → chain_loop fuel table m h name idx ≢ none
  unfolding chain_loop
  chain_loop_ends zero idx h name closed below enough = absurd (omega arith)
  chain_loop_ends (suc fuel) idx h name closed below enough =
      elim (ℕ_discrete (idx + 1) (table.symoffset + n)) [
        | yes last ↦ ground (arith, closed.marked idx last)
        | no more ↦
            let next : add32 idx 1 ≡ idx + 1 = omega (arith, closed.small) in
            let rest = chain_loop_ends fuel (idx + 1) h name closed (omega arith) (omega arith) in
            rw next (ground (arith, rest))
      ]

  start_below : (name : List ℕ) → IsClosed table n → chain_start table name < table.symoffset + n
  start_below name closed =
      closed.bucket_below (gnu_hash name % table.nbuckets) (ground (arith, closed.has_bucket))

  -- A lookup in a table whose chains are closed returns, with fuel for every symbol, whatever the
  -- hashes, the names and the texts are.
  pub resolve_hashed_symbol_returns :
      (name : List ℕ) → IsClosed table n → resolve_hashed_symbol n table m name ≢ none
  unfolding resolve_hashed_symbol
  resolve_hashed_symbol_returns name closed =
      elim (Bool-cases (ltb (chain_start table name) table.symoffset)) [
        | inl outside ↦ ground (arith, outside)
        | inr inside ↦
            let walk =
              chain_loop_ends n (chain_start table name) (gnu_hash name) name closed
                (start_below name closed) (ground (arith, inside)) in
            ground (arith, walk)
      ]

  module _ (names : ℕ → List ℕ) (t : IsTable m table names n) where
    -- At an index, the walk stops for the name of the symbol there only.
    hit :
        (idx h : ℕ) (name : List ℕ)
        → IsIndex table n idx
        → IsName name
        → (same_hash (hash_value table idx) h && is_eq (strcmp m (sym_name table idx) name)) ≡ true
        → names idx ≡ name
    hit idx h name here good e =
        strcmp_eq m (sym_name table idx) (names idx) name (t.named idx here) good (t.texts idx here)
          (ground (arith, e))

    chain_loop_absent :
        (fuel idx h : ℕ) (name : List ℕ)
        → IsName name
        → ((k : ℕ) → IsIndex table n k → names k ≢ name)
        → IsIndex table n idx
        → table.symoffset + n ≤ idx + fuel
        → chain_loop fuel table m h name idx ≡ some 0
    unfolding chain_loop
    chain_loop_absent zero idx h name good absent here enough = absurd (omega (arith, here))
    chain_loop_absent (suc fuel) idx h name good absent here enough =
        elim (Bool-cases
          (same_hash (hash_value table idx) h && is_eq (strcmp m (sym_name table idx) name))) [
            | inl same ↦ absurd (absent idx here (hit idx h name here good same))
            | inr other ↦ elim (ℕ_discrete (idx + 1) (table.symoffset + n)) [
              | yes last ↦ rw (other, t.closed.marked idx last) refl
              | no more ↦
                  let next : add32 idx 1 ≡ idx + 1 = omega (arith, t.closed.small, here) in
                  let rest =
                    chain_loop_absent fuel (idx + 1) h name good absent
                      (omega (arith, here), omega (arith, here)) (omega arith) in
                  rw (other, next, rest) (ground arith)
            ]
          ]

    chain_loop_found :
        (fuel idx k : ℕ)
        → IsIndex table n k
        → chain_start table (names k) ≤ idx
        → idx ≤ k
        → k < idx + fuel
        → chain_loop fuel table m (gnu_hash (names k)) (names k) idx ≡ some (table.sym_addrs k)
    unfolding chain_loop
    chain_loop_found zero idx k there from up enough = absurd (omega arith)
    chain_loop_found (suc fuel) idx k there from up enough = elim (ℕ_discrete idx k) [
      | yes same ↦
          rw
            (
              same,
              same_hash_of (hash_value table k) (gnu_hash (names k)) (t.hashed k there).0,
              strcmp_self m (sym_name table k) (names k) (t.texts k there),
            )
            refl
      | no before ↦
          let here : IsIndex table n idx =
            (omega (arith, t.started k there), omega (arith, there)) in
          elim (Bool-cases (
            same_hash (hash_value table idx) (gnu_hash (names k))
            && is_eq (strcmp m (sym_name table idx) (names k)))) [
              | inl same ↦ absurd (
                  before (
                    t.distinct idx k here there
                      (hit idx (gnu_hash (names k)) (names k) here (t.named k there) same)))
              | inr other ↦
                  let next : add32 idx 1 ≡ idx + 1 = omega (arith, t.closed.small, here) in
                  let rest =
                    chain_loop_found fuel (idx + 1) k there (omega arith) (omega arith)
                      (omega arith) in
                  rw (other, t.unmarked idx k there from (omega arith), next) rest
            ]
    ]

    -- A lookup of the name of a symbol of a table as IsTable has it gives its address: the filter, read bit
    -- by bit, has the two bits of its hash, and the symbol stands in the chain of its bucket.
    pub resolve_hashed_symbol_found :
        (k : ℕ)
        → IsIndex table n k
        → resolve_hashed_symbol n table m (names k) ≡ some (table.sym_addrs k)
    unfolding resolve_hashed_symbol
    resolve_hashed_symbol_found k there =
        let (above, up) = t.started k there in
        let inside : ltb (chain_start table (names k)) table.symoffset ≡ false =
          ground (arith, above) in
        let (width, size) = t.filter_pow2 in
        let through =
          in_bloom-InFilter table (gnu_hash (names k)) width size t.filter_fits
            (t.hashed k there).1 in
        rw (through, inside)
          (chain_loop_found n (chain_start table (names k)) k there (omega arith) up
            (omega (arith, there, above)))

    -- A lookup of a name that no symbol has gives NULL, though a hash may be in the filter and in a
    -- chain.
    pub resolve_hashed_symbol_absent :
        (name : List ℕ)
        → IsName name
        → ((k : ℕ) → IsIndex table n k → names k ≢ name)
        → resolve_hashed_symbol n table m name ≡ some 0
    unfolding resolve_hashed_symbol
    resolve_hashed_symbol_absent name good absent =
        elim (Bool-cases (ltb (chain_start table name) table.symoffset)) [
          | inl outside ↦ ground (arith, outside)
          | inr inside ↦
              let from : table.symoffset ≤ chain_start table name = ground (arith, inside) in
              let walk =
                chain_loop_absent n (chain_start table name) (gnu_hash name) name good absent
                  (from, start_below name t.closed) (omega (arith, from)) in
              ground (arith, walk)
        ]
