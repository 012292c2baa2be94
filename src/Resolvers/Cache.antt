-- ===== src/Resolvers/Cache.antt =====
-- The cache in front of a host's symbol resolver, udynlink/udynlink_host_utils.h. An entry holds the
-- caller's pointer to the name that it was made for, and 0 is NULL. The text behind it is read again at
-- each comparison. A name is handed over as its pointer and its text.
pub mod Fresh
use udynlink.Prelude.{
  ℕ, zero, suc, ◌+◌, ◌*◌, ◌%◌, ◌^◌, Bool, true, false, ◌&&◌, List, [], ◌∷◌, ltb, ◌==◌, ◌!=◌,
  if◌then◌else◌, u32,
}
use udynlink.Memory.{Memory, strcmp}
use udynlink.Symbols.{is_eq}
use udynlink.Modules.{Module}

-- `udynlink_host_sym_cache_entry_t`.
pub record CacheEntry : Type 0 where
  pub name : ℕ
  pub addr : ℕ

-- The entries by their index.
abbrev pub Cache : Type 0
Cache = ℕ → CacheEntry

-- The loop over the characters.
unfoldable pub cache_hash : ℕ → List ℕ → ℕ
cache_hash h [] = h
cache_hash h (c ∷ cs) = cache_hash (u32 (h * 31 + c)) cs

abbrev pub Fallback : Type 0
Fallback = Module → List ℕ → ℕ

-- Whether an entry is for this text.
unfoldable pub holds : Memory → CacheEntry → List ℕ → Bool
holds m entry name = entry.name != 0 && is_eq (strcmp m entry.name name)

unfoldable pub store : Cache → ℕ → CacheEntry → Cache
store cache idx entry i = if i == idx then entry else cache i

-- `udynlink_host_sym_cache_lookup`: the address, and the cache after the call.
unfoldable pub cache_lookup : Memory → Cache → ℕ → Fallback → Module → ℕ → List ℕ → ℕ × Cache
unfolding cache_hash holds store
cache_lookup m cache cache_size fallback p_mod p_name name =
    let idx = cache_hash 0 name % cache_size in
    let addr = fallback p_mod name in
    if holds m (cache idx) name
    then ((cache idx).addr, cache)
    else if addr != 0
    then (addr, store cache idx (record { name = p_name; addr = addr }))
    else (addr, cache)

-- `udynlink_host_sym_cache_invalidate`: the entries below the size are zeroed.
unfoldable pub cache_invalidate : Cache → ℕ → Cache
cache_invalidate cache cache_size i =
    if ltb i cache_size then record { name = 0; addr = 0 } else cache i
