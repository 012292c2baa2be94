-- ===== src/Examples/Resolvers.antt =====
-- Applications to a cache, a hash table of two symbols and a trie of three nodes.
use udynlink.Prelude.{
  ◌/◌, ◌^◌, ℕ, ◌+◌, ◌≡◌, ◌≢◌, ◌⊎◌, inl, inr, ◌<◌, ◌≤◌, refl, arith, true, false, some, none, List,
  [], ◌∷◌, length, ◌==◌, if◌then◌else◌,
}
use mathlib.Core.Path.{subst}
use udynlink.Memory.{Memory}
use udynlink.Modules.{free_module}
use udynlink.Texts.{IsName, IsText}
use udynlink.Resolvers.Cache.{Cache, Fallback}
use udynlink.Resolvers.Cache.Fresh.{
  AreSound, no_calls, with_lookup, with_invalidate, with_renew, renew, CacheOp, lookup, invalidate,
  run, answers, run_refines, IsFresh,
}
use udynlink.Resolvers.HashTable.Bloom.{InFilter, bit_at}
use udynlink.Resolvers.HashTable.{
  HashTable, gnu_hash, in_bloom, hash_value, is_last, same_hash, sym_name, resolve_hashed_symbol,
}
use udynlink.Resolvers.HashTable.Walk.{
  chain_start, IsIndex, IsClosed, IsTable, resolve_hashed_symbol_returns,
  resolve_hashed_symbol_found, resolve_hashed_symbol_absent,
}
use udynlink.Resolvers.Trie.{TrieNode, TrieTable, trie_none, node_ch, is_leaf, resolve_trie_symbol}
use udynlink.Resolvers.Trie.Walk.{
  IsTrie, IsChild, here, along, Spells, last, step, resolve_trie_symbol_returns,
  resolve_trie_symbol_found, resolve_trie_symbol_absent,
}

abbrev a_name : List ℕ
a_name = 97 ∷ []

abbrev b_name : List ℕ
b_name = 98 ∷ []

-- A resolver that knows every name.
abbrev known : Fallback
known = λ p_mod name. 0x8000 + length name

-- The same behind an update that moved everything.
abbrev moved : Fallback
moved = λ p_mod name. 0x9000 + length name

abbrev texts : Memory
texts = λ a. if a == 100 then 97 else if a == 102 then 98 else 0

abbrev no_entries : Cache
no_entries = λ i. record { name = 0; addr = 0 }

-- The texts "a" and "b", with the second one in the place of the first behind an update.
abbrev new_texts : Memory
new_texts = λ a. if a == 100 then 98 else 0

abbrev calls : List CacheOp
calls =
    lookup free_module 100 a_name
    ∷ lookup free_module 100 a_name
    ∷ lookup free_module 102 b_name
    ∷ invalidate
    ∷ lookup free_module 100 a_name
    ∷ renew new_texts moved
    ∷ lookup free_module 100 b_name
    ∷ []

calls-AreSound : AreSound texts calls
calls-AreSound =
    with_lookup free_module 100 a_name (ground arith, tt) (refl, refl)
      (with_lookup free_module 100 a_name (ground arith, tt) (refl, refl)
        (with_lookup free_module 102 b_name (ground arith, tt) (refl, refl)
          (with_invalidate (
            with_lookup free_module 100 a_name (ground arith, tt) (refl, refl)
              (with_renew new_texts moved (λ p q name. refl)
                (with_lookup free_module 100 b_name (ground arith, tt) (refl, refl) no_calls))))))

no_entries-IsFresh : IsFresh texts known 4 free_module no_entries
no_entries-IsFresh i below set = absurd (set refl)

run_refines_example : run texts known 4 calls no_entries ≡ answers known calls
run_refines_example =
    run_refines texts known 4 calls no_entries (omega arith) (λ p q name. refl) calls-AreSound
      no_entries-IsFresh

-- Two symbols in one chain, with their names at 100.
abbrev names : ℕ → List ℕ
names k = if k == 1 then a_name else b_name

abbrev pair_table : HashTable
pair_table = record {
  nbuckets = 1;
  symoffset = 1;
  bloom_size = 2;
  bloom_shift = 5;
  bloom = λ i. if i == 0 then 2 ^ 6 + 2 ^ 7 + 2 ^ 16 else 0;
  buckets = λ b. 1;
  hash_values = λ i. if i == 0 then 177670 else 177671;
  sym_addrs = λ k. 0x4000 + k;
  strtab = 100;
  strtab_offsets = λ k. if k == 1 then 0 else 2;
}

at_index : (P : ℕ → Type 0) → P 1 → P 2 → (k : ℕ) → IsIndex pair_table 2 k → P k
at_index P one two k (from, below) =
    let which : (1 ≡ k) ⊎ (2 ≡ k) = ground arith in
    elim which [ inl e ↦ subst P e one | inr e ↦ subst P e two ]

last_marked : is_last (hash_value pair_table 2) ≡ true
unfolding is_last hash_value
last_marked = refl

pair-IsClosed : IsClosed pair_table 2
pair-IsClosed = record {
  small = omega arith;
  has_bucket = omega arith;
  bucket_below = λ b below. omega arith;
  marked = λ k e.
      let which : 2 ≡ k = omega (arith, e) in
      subst (λ n. is_last (hash_value pair_table n) ≡ true) which last_marked;
}

resolve_hashed_symbol_returns_example : resolve_hashed_symbol 2 pair_table texts a_name ≢ none
resolve_hashed_symbol_returns_example =
    resolve_hashed_symbol_returns texts pair_table 2 a_name pair-IsClosed

pair_texts : (k : ℕ) → IsIndex pair_table 2 k → IsText texts (sym_name pair_table k) (names k)
unfolding sym_name
pair_texts =
    at_index (λ k. IsText texts (sym_name pair_table k) (names k)) (refl, refl) (refl, refl)

pair_hashed :
    (k : ℕ)
    → IsIndex pair_table 2 k
    → (hash_value pair_table k / 2 ≡ gnu_hash (names k) / 2)
      × InFilter pair_table (gnu_hash (names k))
unfolding hash_value udynlink.Resolvers.HashTable.gnu_hash_loop bit_at
pair_hashed =
    at_index
      (λ k.
        (hash_value pair_table k / 2 ≡ gnu_hash (names k) / 2)
        × InFilter pair_table (gnu_hash (names k)))
      (refl, record { first = refl; second = refl }) (refl, record { first = refl; second = refl })

first_unmarked : is_last (hash_value pair_table 1) ≡ false
unfolding is_last hash_value
first_unmarked = refl

pair_unmarked :
    (j k : ℕ)
    → IsIndex pair_table 2 k
    → chain_start pair_table (names k) ≤ j
    → j < k
    → is_last (hash_value pair_table j) ≡ false
pair_unmarked j k (_, below) from before =
    let which : 1 ≡ j = omega (arith, below, from, before) in
    subst (λ n. is_last (hash_value pair_table n) ≡ false) which first_unmarked

pair_distinct :
    (j k : ℕ) → IsIndex pair_table 2 j → IsIndex pair_table 2 k → names j ≡ names k → j ≡ k
pair_distinct = λ j k in_j in_k.
    at_index (λ j. names j ≡ names k → j ≡ k)
      (at_index (λ k. names 1 ≡ names k → 1 ≡ k) (λ _. refl) (λ e. absurd (ground (arith, e))) k
        in_k)
      (at_index (λ k. names 2 ≡ names k → 2 ≡ k) (λ e. absurd (ground (arith, e))) (λ _. refl) k
        in_k)
      j in_j

pair-IsTable : IsTable texts pair_table names 2
pair-IsTable = record {
  closed = pair-IsClosed;
  named =
      at_index (λ k. IsName (names k)) ((λ e. ground (arith, e)), tt)
        ((λ e. ground (arith, e)), tt);
  texts = pair_texts;
  filter_pow2 = (1, refl);
  filter_fits = omega arith;
  hashed = pair_hashed;
  started = λ k (from, below). (omega arith, from);
  unmarked = pair_unmarked;
  distinct = pair_distinct;
}

resolve_hashed_symbol_found_example : resolve_hashed_symbol 2 pair_table texts b_name ≡ some 0x4002
resolve_hashed_symbol_found_example =
    resolve_hashed_symbol_found texts pair_table 2 names pair-IsTable 2 (omega arith, omega arith)

other_name : (k : ℕ) → IsIndex pair_table 2 k → names k ≢ (97 ∷ 98 ∷ [])
other_name =
    at_index (λ k. names k ≢ (97 ∷ 98 ∷ [])) (λ e. ground (arith, e)) (λ e. ground (arith, e))

-- The name has the characters of both.
resolve_hashed_symbol_absent_example :
    resolve_hashed_symbol 2 pair_table texts (97 ∷ 98 ∷ []) ≡ some 0
resolve_hashed_symbol_absent_example =
    resolve_hashed_symbol_absent texts pair_table 2 names pair-IsTable (97 ∷ 98 ∷ [])
      ((λ e. ground (arith, e)), ((λ e. ground (arith, e)), tt)) other_name

-- The names "ab" and "b".
abbrev nodes : ℕ → TrieNode
nodes i =
    if i == 0
    then record { ch_flags = 0x261; sibling = 1; child = 2; leaf_index = 0 }
    else if i == 1
    then record { ch_flags = 0x162; sibling = 0xFFFF; child = 0xFFFF; leaf_index = 0 }
    else record { ch_flags = 0x162; sibling = 0xFFFF; child = 0xFFFF; leaf_index = 1 }

abbrev trie : TrieTable
trie = record {
  num_nodes = 3;
  num_leaves = 2;
  root_child = 0;
  nodes = nodes;
  leaf_addrs = λ i. 0x5000 + i;
}

at_node : (P : ℕ → Type 0) → P 0 → P 1 → P 2 → (k : ℕ) → k < 3 → P k
at_node P none_yet one two k below =
    let which : (0 ≡ k) ⊎ ((1 ≡ k) ⊎ (2 ≡ k)) = ground arith in
    elim which [
      | inl e ↦ subst P e none_yet
      | inr (inl e) ↦ subst P e one
      | inr (inr e) ↦ subst P e two
    ]

trie_siblings :
    (i : ℕ)
    → i < 3
    → (nodes i).sibling ≢ trie_none
    → ((nodes i).sibling < 3) × (node_ch trie i < node_ch trie (nodes i).sibling)
unfolding node_ch
trie_siblings =
    at_node
      (λ i.
        (nodes i).sibling ≢ trie_none
        → ((nodes i).sibling < 3) × (node_ch trie i < node_ch trie (nodes i).sibling))
      (λ _. (omega arith, omega arith)) (λ off. absurd (off refl)) (λ off. absurd (off refl))

trie-IsTrie : IsTrie trie
trie-IsTrie = record {
  few = omega arith;
  root = λ _. omega arith;
  child =
      at_node (λ i. (nodes i).child ≢ trie_none → (nodes i).child < 3) (λ _. omega arith)
        (λ off. absurd (off refl)) (λ off. absurd (off refl));
  sibling = trie_siblings;
}

resolve_trie_symbol_returns_example : resolve_trie_symbol 257 trie (97 ∷ 98 ∷ []) ≢ none
resolve_trie_symbol_returns_example = resolve_trie_symbol_returns trie trie-IsTrie (97 ∷ 98 ∷ [])

ab_spelt : Spells trie 0 (97 ∷ 98 ∷ []) 2
unfolding node_ch
ab_spelt = step (here (λ e. ground (arith, e)) refl) (last (here (λ e. ground (arith, e)) refl))

resolve_trie_symbol_found_example :
    resolve_trie_symbol 257 trie (97 ∷ 98 ∷ [])
    ≡ some (if is_leaf trie 2 then trie.leaf_addrs (trie.nodes 2).leaf_index else 0)
resolve_trie_symbol_found_example =
    resolve_trie_symbol_found trie trie-IsTrie (97 ∷ 98 ∷ []) 2 ab_spelt

a_node : (idx : ℕ) → IsChild trie 0 97 idx → is_leaf trie idx ≡ false
unfolding is_leaf node_ch
a_node _ (here _ _) = refl
a_node idx (along _ (here _ same)) = absurd (omega (arith, same))
a_node idx (along _ (along _ (here off _))) = absurd (off refl)
a_node idx (along _ (along _ (along off _))) = absurd (off refl)

-- "a" is the beginning of a name only.
a_no_leaf : (idx : ℕ) → Spells trie 0 a_name idx → is_leaf trie idx ≡ false
a_no_leaf idx (last child) = a_node idx child
a_no_leaf idx (step _ none_left) = elim none_left [ ]

resolve_trie_symbol_absent_example : resolve_trie_symbol 257 trie a_name ≡ some 0
resolve_trie_symbol_absent_example = resolve_trie_symbol_absent trie trie-IsTrie a_name a_no_leaf
