-- ===== src/Resolvers/HashTable.antt =====
-- The hash table resolver, udynlink/udynlink_hash.h. The arrays behind the table's pointers are
-- functions of the index, the string table is in memory, and a size_t has 32 bits. The walk along a
-- chain runs on fuel: `none` is a walk that has not ended, and NULL is 0.
pub mod Bloom
pub mod Walk
use udynlink.Prelude.{
  ℕ, zero, suc, ◌+◌, ◌-◌, ◌*◌, ◌/◌, ◌%◌, ◌^◌, bit_and, bit_or, Bool, true, false, ◌&&◌, Option,
  some, none, List, [], ◌∷◌, ltb, ◌==◌, ◌!=◌, not, if◌then◌else◌, u32, add32, sub32, shl, shr,
}
use udynlink.Memory.{Memory, strcmp}
use udynlink.Symbols.{is_eq}

-- `udynlink_hash_table_t`.
pub record HashTable : Type 0 where
  pub nbuckets : ℕ
  pub symoffset : ℕ
  pub bloom_size : ℕ
  pub bloom_shift : ℕ
  pub bloom : ℕ → ℕ
  pub buckets : ℕ → ℕ
  pub hash_values : ℕ → ℕ
  pub sym_addrs : ℕ → ℕ
  pub strtab : ℕ
  pub strtab_offsets : ℕ → ℕ

-- The loop of `gnu_hash`, over the characters.
unfoldable pub gnu_hash_loop : ℕ → List ℕ → ℕ
gnu_hash_loop h [] = h
gnu_hash_loop h (c ∷ cs) = gnu_hash_loop (u32 (h * 33 + c)) cs

abbrev pub gnu_hash : List ℕ → ℕ
gnu_hash name = gnu_hash_loop 5381 name

unfoldable pub bloom_mask : HashTable → ℕ → ℕ
bloom_mask table h = bit_or (shl 1 (h % 32)) (shl 1 (shr h table.bloom_shift % 32))

-- Whether the Bloom filter lets the hash through.
unfoldable pub in_bloom : HashTable → ℕ → Bool
in_bloom table h =
    let bloom_idx = bit_and (h / 32) (sub32 table.bloom_size 1) in
    bit_and (table.bloom bloom_idx) (bloom_mask table h) == bloom_mask table h

-- The hash of the symbol with this index, as the table stores it.
unfoldable pub hash_value : HashTable → ℕ → ℕ
hash_value table idx = table.hash_values (sub32 idx table.symoffset)

unfoldable pub is_last : ℕ → Bool
is_last hv = bit_and hv 1 != 0

unfoldable pub same_hash : ℕ → ℕ → Bool
same_hash hv h = bit_or hv 1 == bit_or h 1

unfoldable pub sym_name : HashTable → ℕ → ℕ
sym_name table idx = add32 table.strtab (table.strtab_offsets idx)

-- The walk along a chain.
unfoldable pub chain_loop : ℕ → HashTable → Memory → ℕ → List ℕ → ℕ → Option ℕ
chain_loop zero table m h name idx = none
chain_loop (suc fuel) table m h name idx =
    let rest = chain_loop fuel table m h name (add32 idx 1) in
    if same_hash (hash_value table idx) h && is_eq (strcmp m (sym_name table idx) name)
    then some (table.sym_addrs idx)
    else if is_last (hash_value table idx)
    then some 0
    else rest

-- `udynlink_resolve_hashed_symbol`.
unfoldable pub resolve_hashed_symbol : ℕ → HashTable → Memory → List ℕ → Option ℕ
resolve_hashed_symbol fuel table m name =
    let h = gnu_hash name in
    let idx = table.buckets (h % table.nbuckets) in
    if not (in_bloom table h)
    then some 0
    else if ltb idx table.symoffset
    then some 0
    else chain_loop fuel table m h name idx
