-- ===== src/Resolvers/Cache/Fresh.antt =====
-- The cache gives the answers of the resolver behind it, udynlink/udynlink_host_utils.h.
use udynlink.Prelude.{
  ℕ, ◌%◌, ◌≡◌, ◌≢◌, ◌<◌, refl, arith, true, false, Bool-cases, inl, inr, List, [], ◌∷◌, ◌==◌, ◌!=◌,
  ltb, ap, ◌∙◌,
}
use native.Mathlib.Decide.{ℕ_discrete}
use udynlink.Memory.{Memory}
use udynlink.Texts.{IsName, IsText, strcmp_eq}
use udynlink.Modules.{Module, free_module}
use udynlink.Resolvers.Cache.{
  Cache, CacheEntry, Fallback, cache_hash, holds, store, cache_lookup, cache_invalidate,
}

-- An entry is empty, or the text behind its pointer stands with its answer.
abbrev pub IsAnswer : Memory → Fallback → Module → CacheEntry → Type 0
IsAnswer m fallback p_mod entry =
    entry.name ≢ 0
    → (text : List ℕ) × IsName text × IsText m entry.name text × (entry.addr ≡ fallback p_mod text)

module _ (m : Memory) (fallback : Fallback) (size : ℕ) (p_mod : Module) where
  -- So are all the entries of the cache.
  abbrev pub IsFresh : Cache → Type 0
  IsFresh cache = (i : ℕ) → i < size → IsAnswer m fallback p_mod (cache i)

  holds_answer :
      (entry : CacheEntry) (name : List ℕ)
      → IsName name
      → IsAnswer m fallback p_mod entry
      → holds m entry name ≡ true
      → entry.addr ≡ fallback p_mod name
  unfolding holds
  holds_answer entry name good answer e =
      let (text, named, at, same) = answer (ground (arith, e)) in
      let texts = strcmp_eq m entry.name text name named good at (ground (arith, e)) in
      same ∙ ap (fallback p_mod) texts

  store-IsFresh :
      (cache : Cache) (idx p_name : ℕ) (name : List ℕ)
      → IsName name
      → IsText m p_name name
      → IsFresh cache
      → IsFresh (store cache idx (record { name = p_name; addr = fallback p_mod name }))
  unfolding store
  store-IsFresh cache idx p_name name good at fresh i below = elim (ℕ_discrete i idx) [
    | yes same ↦
        let hit : (i == idx) ≡ true = ground (arith, same) in rw hit (λ _. (name, good, at, refl))
    | no differ ↦ let miss : (i == idx) ≡ false = ground (arith, differ) in rw miss (fresh i below)
  ]

  cache_lookup-IsFresh :
      (cache : Cache) (p_name : ℕ) (name : List ℕ)
      → 0 < size
      → IsName name
      → IsText m p_name name
      → IsFresh cache
      → ((cache_lookup m cache size fallback p_mod p_name name).0 ≡ fallback p_mod name)
        × IsFresh (cache_lookup m cache size fallback p_mod p_name name).1
  unfolding cache_lookup
  cache_lookup-IsFresh cache p_name name some_entry good at fresh =
      let idx = cache_hash 0 name % size in
      let below : idx < size = ground arith in
      elim (Bool-cases (holds m (cache idx) name)) [
        | inl there ↦ rw there (holds_answer (cache idx) name good (fresh idx below) there, fresh)
        | inr missing ↦ elim (Bool-cases (fallback p_mod name != 0)) [
          | inl known ↦
              rw (missing, known) (refl, store-IsFresh cache idx p_name name good at fresh)
          | inr unknown ↦ rw (missing, unknown) (refl, fresh)
        ]
      ]

-- What a host does with its cache: it looks names up, and it invalidates the cache, also when it
-- changes what its resolver answers or what is in memory, the texts of the names included.
pub data CacheOp : Type 0 where
  lookup : Module → ℕ → List ℕ → CacheOp
  invalidate : CacheOp
  renew : Memory → Fallback → CacheOp

-- The answers of a run of such calls.
unfoldable pub run : Memory → Fallback → ℕ → List CacheOp → Cache → List ℕ
run m fallback size [] cache = []
run m fallback size (lookup p_mod p_name name ∷ ops) cache =
    let (addr, after) = cache_lookup m cache size fallback p_mod p_name name in
    addr ∷ run m fallback size ops after
run m fallback size (invalidate ∷ ops) cache = run m fallback size ops (cache_invalidate cache size)
run m fallback size (renew m' fallback' ∷ ops) cache =
    run m' fallback' size ops (cache_invalidate cache size)

-- The same calls without a cache.
unfoldable pub answers : Fallback → List CacheOp → List ℕ
answers fallback [] = []
answers fallback (lookup p_mod p_name name ∷ ops) = fallback p_mod name ∷ answers fallback ops
answers fallback (invalidate ∷ ops) = answers fallback ops
answers fallback (renew m' fallback' ∷ ops) = answers fallback' ops

-- A resolver that answers a name alike for every module.
abbrev pub IsAlike : Fallback → Type 0
IsAlike fallback = (p q : Module) (name : List ℕ) → fallback p name ≡ fallback q name

-- Each lookup is of a text in memory, and the resolvers answer alike for every module.
pub data AreSound : Memory → List CacheOp → Type 0 where
  no_calls : {m : Memory} → AreSound m []
  with_lookup :
      {m : Memory} {ops : List CacheOp} (p_mod : Module) (p_name : ℕ) (name : List ℕ)
      → IsName name
      → IsText m p_name name
      → AreSound m ops
      → AreSound m (lookup p_mod p_name name ∷ ops)
  with_invalidate :
      {m : Memory} {ops : List CacheOp} → AreSound m ops → AreSound m (invalidate ∷ ops)
  with_renew :
      {m : Memory} {ops : List CacheOp} (m' : Memory) (fallback' : Fallback)
      → IsAlike fallback'
      → AreSound m' ops
      → AreSound m (renew m' fallback' ∷ ops)

-- An invalidated cache is fresh for any memory and any resolver.
cache_invalidate-IsFresh :
    (m : Memory) (fallback : Fallback) (size : ℕ) (p_mod : Module) (cache : Cache)
    → IsFresh m fallback size p_mod (cache_invalidate cache size)
unfolding cache_invalidate
cache_invalidate-IsFresh m fallback size p_mod cache i below =
    let cleared : ltb i size ≡ true = ground (arith, below) in rw cleared (λ ne. absurd (ne refl))

-- A run of lookups and invalidations gives the answers that the resolver gives at the time, from a
-- cache of at least one entry whose entries are the resolver's answers for the texts behind their
-- pointers. Whenever the host changes its resolver or the memory that the pointers of earlier lookups
-- lead to, it invalidates the cache before the next lookup. A resolver has to answer a name alike for
-- every module, since an entry does not say which module it was made for.
pub run_refines :
    (m : Memory) (fallback : Fallback) (size : ℕ) (ops : List CacheOp) (cache : Cache)
    → 0 < size
    → IsAlike fallback
    → AreSound m ops
    → IsFresh m fallback size free_module cache
    → run m fallback size ops cache ≡ answers fallback ops
unfolding run answers
run_refines _ fallback size _ cache pos alike no_calls fresh = refl
run_refines _ fallback size _ cache pos alike
      (with_lookup {m} {ops} p_mod p_name name good at sound) fresh =
    let retarget : (p q : Module) (cache : Cache)
        → IsFresh m fallback size p cache
        → IsFresh m fallback size q cache =
      λ p q cache there i below set.
        let (text, named, read, same) = there i below set in
        (text, named, read, same ∙ alike p q text) in
    let (answer, after) =
      cache_lookup-IsFresh m fallback size p_mod cache p_name name pos good at
        (retarget free_module p_mod cache fresh) in
    let next = (cache_lookup m cache size fallback p_mod p_name name).1 in
    let rest =
      run_refines m fallback size ops next pos alike sound
        (retarget p_mod free_module next after) in
    λ i. answer i ∷ rest i
run_refines _ fallback size _ cache pos alike (with_invalidate {m} {ops} sound) fresh =
    run_refines m fallback size ops (cache_invalidate cache size) pos alike sound
      (cache_invalidate-IsFresh m fallback size free_module cache)
run_refines _ fallback size _ cache pos alike (with_renew {m} {ops} m' fallback' alike' sound)
      fresh =
    run_refines m' fallback' size ops (cache_invalidate cache size) pos alike' sound
      (cache_invalidate-IsFresh m' fallback' size free_module cache)
