-- ===== src/Resolvers/Trie/Walk.antt =====
-- Lookups in a trie with ascending levels end, and find the node that a name spells.
use udynlink.Prelude.{
  ℕ, zero, suc, ◌+◌, ◌≡◌, ◌≢◌, ◌≤◌, ◌<◌, refl, arith, bit_and_mask, false, inl, inr, ◌⊎◌,
  Option-cases, some, none, List, [], ◌∷◌, if◌then◌else◌,
}
use native.Mathlib.Decide.{ℕ_discrete}
use udynlink.Resolvers.Trie.{
  TrieTable, matched, ended, passed, trie_none, node_ch, is_leaf, level_loop, leaf_answer,
  name_loop, resolve_trie_symbol,
}

-- The links lead to nodes, and the characters of a level ascend.
pub record IsTrie (table : TrieTable) : Type 0 where
  pub few : table.num_nodes ≤ trie_none
  pub root : table.root_child ≢ trie_none → table.root_child < table.num_nodes
  pub child :
      (i : ℕ)
      → i < table.num_nodes
      → (table.nodes i).child ≢ trie_none
      → (table.nodes i).child < table.num_nodes
  pub sibling :
      (i : ℕ)
      → i < table.num_nodes
      → (table.nodes i).sibling ≢ trie_none
      → ((table.nodes i).sibling < table.num_nodes)
        × (node_ch table i < node_ch table (table.nodes i).sibling)

-- A walk of the siblings from the first node leads to the second, which has the character.
pub data IsChild (table : TrieTable) : ℕ → ℕ → ℕ → Type 0 where
  here : {level c : ℕ} → level ≢ trie_none → node_ch table level ≡ c → IsChild table level c level
  along :
      {level c idx : ℕ}
      → level ≢ trie_none
      → IsChild table (table.nodes level).sibling c idx
      → IsChild table level c idx

-- The name spells the node, from the level of the first.
pub data Spells (table : TrieTable) : ℕ → List ℕ → ℕ → Type 0 where
  last : {level c idx : ℕ} → IsChild table level c idx → Spells table level (c ∷ []) idx
  step :
      {level c mid idx : ℕ} {cs : List ℕ}
      → IsChild table level c mid
      → Spells table (table.nodes mid).child cs idx
      → Spells table level (c ∷ cs) idx

module _ (table : TrieTable) (t : IsTrie table) where
  node_ch_below : (i : ℕ) → node_ch table i < 256
  unfolding node_ch
  node_ch_below i = ground (arith, bit_and_mask 8 (table.nodes i).ch_flags)

  -- A level ends within one step for each character that may still come.
  level_loop_ends :
      (fuel c cur : ℕ)
      → (cur ≢ trie_none → cur < table.num_nodes)
      → (cur ≢ trie_none → 257 ≤ node_ch table cur + fuel)
      → 0 < fuel
      → level_loop fuel table c cur ≢ none
  unfolding level_loop
  level_loop_ends zero c cur link enough some_fuel = absurd (omega arith)
  level_loop_ends (suc fuel) c cur link enough some_fuel = elim (ℕ_discrete cur trie_none) [
    | yes end ↦ ground (arith, end)
    | no more ↦
        let low = node_ch_below cur in
        let rest =
          level_loop_ends fuel c (table.nodes cur).sibling
            (λ other. (t.sibling cur (link more) other).0)
            (λ other. omega (arith, (t.sibling cur (link more) other).1, enough more))
            (omega (arith, low, enough more)) in
        ground (arith, rest)
  ]

  child_here : (level c idx : ℕ) → IsChild table level c idx → level ≢ trie_none
  child_here level c _ (here more _) = more
  child_here level c idx (along more _) = more

  -- The children of a level have at least its first character.
  child_from :
      (level c idx : ℕ)
      → level < table.num_nodes
      → IsChild table level c idx
      → node_ch table level ≤ c
  child_from level c _ link (here _ same) = omega (arith, same)
  child_from level c idx link (along more rest) =
      let (link', up) = t.sibling level link (child_here (table.nodes level).sibling c idx rest) in
      omega (arith, up, child_from (table.nodes level).sibling c idx link' rest)

  level_loop_child :
      (fuel c level idx : ℕ)
      → level < table.num_nodes
      → 257 ≤ node_ch table level + fuel
      → IsChild table level c idx
      → (level_loop fuel table c level ≡ some (matched idx)) × (idx < table.num_nodes)
  unfolding level_loop
  level_loop_child zero c level idx link enough child = absurd (omega (arith, node_ch_below level))
  level_loop_child (suc fuel) c level _ link enough (here more same) =
      (ground (arith, more, same), link)
  level_loop_child (suc fuel) c level idx link enough (along more rest) =
      let (link', up) = t.sibling level link (child_here (table.nodes level).sibling c idx rest) in
      let from = child_from (table.nodes level).sibling c idx link' rest in
      let (found, below) =
        level_loop_child fuel c (table.nodes level).sibling idx link' (omega (arith, up, enough))
          rest in
      (ground (arith, more, from, up, found), below)

  -- Where the walk stops, there is a child.
  level_loop-IsChild :
      (fuel c level idx : ℕ)
      → (level ≢ trie_none → level < table.num_nodes)
      → level_loop fuel table c level ≡ some (matched idx)
      → IsChild table level c idx × (idx < table.num_nodes)
  unfolding level_loop
  level_loop-IsChild zero c level idx link e = absurd (ground (arith, e))
  level_loop-IsChild (suc fuel) c level idx link e = elim (ℕ_discrete level trie_none) [
    | yes end ↦ absurd (ground (arith, end, e))
    | no more ↦ elim (ℕ_discrete (node_ch table level) c) [
      | yes same ↦
          let it : level ≡ idx = ground (arith, more, same, e) in
          rw (← it) (here more same, link more)
      | no other ↦
          let rest : level_loop fuel table c (table.nodes level).sibling ≡ some (matched idx) =
            ground (arith, more, other, e) in
          let (child, below) =
            level_loop-IsChild fuel c (table.nodes level).sibling idx
              (λ on. (t.sibling level (link more) on).0) rest in
          (along more child, below)
    ]
  ]

  -- The ends of a walk along a level, with enough fuel.
  level_outcome :
      (c level : ℕ)
      → (level ≢ trie_none → level < table.num_nodes)
      → ((idx : ℕ) × (level_loop 257 table c level ≡ some (matched idx)))
        ⊎ ((level_loop 257 table c level ≡ some ended)
            ⊎ (level_loop 257 table c level ≡ some passed))
  level_outcome c level link = elim (Option-cases (level_loop 257 table c level)) [
    | inl stuck ↦
        absurd (level_loop_ends 257 c level link (λ more. omega arith) (omega arith) stuck)
    | inr (matched idx, e) ↦ inl (idx, e)
    | inr (ended, e) ↦ inr (inl e)
    | inr (passed, e) ↦ inr (inr e)
  ]

  name_loop_ends :
      (name : List ℕ) (level matched_idx : ℕ)
      → (level ≢ trie_none → level < table.num_nodes)
      → name_loop 257 table name level matched_idx ≢ none
  unfolding name_loop
  name_loop_ends [] level matched_idx link = ground arith
  name_loop_ends (c ∷ cs) level matched_idx link = elim (level_outcome c level link) [
    | inl (idx, e) ↦
        let below = (level_loop-IsChild 257 c level idx link e).1 in
        rw (e, name_loop) (name_loop_ends cs (table.nodes idx).child idx (t.child idx below))
    | inr (inl e) ↦ rw (e, name_loop) (ground arith)
    | inr (inr e) ↦ rw (e, name_loop) (ground arith)
  ]

  -- A lookup in a trie returns, with fuel for each character of a level and one step more.
  pub resolve_trie_symbol_returns : (name : List ℕ) → resolve_trie_symbol 257 table name ≢ none
  unfolding resolve_trie_symbol
  resolve_trie_symbol_returns name =
      ground (arith, name_loop_ends name table.root_child trie_none t.root)

  name_loop_found :
      (name : List ℕ) (level matched_idx idx : ℕ)
      → (level ≢ trie_none → level < table.num_nodes)
      → Spells table level name idx
      → (name_loop 257 table name level matched_idx ≡ some (leaf_answer table idx))
        × (idx < table.num_nodes)
  unfolding name_loop
  name_loop_found [] level matched_idx idx link spelt = elim spelt [ ]
  name_loop_found (c ∷ _) level matched_idx idx link (last child) =
      let there = link (child_here level c idx child) in
      let (found, below) = level_loop_child 257 c level idx there (omega arith) child in
      rw (found, name_loop) (refl, below)
  name_loop_found (c ∷ cs) level matched_idx idx link (step {mid = mid} child rest) =
      let there = link (child_here level c mid child) in
      let (found, below) = level_loop_child 257 c level mid there (omega arith) child in
      rw (found, name_loop)
        (name_loop_found cs (table.nodes mid).child mid idx (t.child mid below) rest)

  name_loop_absent :
      (c : ℕ) (cs : List ℕ) (level matched_idx : ℕ)
      → (level ≢ trie_none → level < table.num_nodes)
      → ((idx : ℕ) → Spells table level (c ∷ cs) idx → is_leaf table idx ≡ false)
      → name_loop 257 table (c ∷ cs) level matched_idx ≡ some 0
  unfolding name_loop leaf_answer
  name_loop_absent c [] level matched_idx link absent = elim (level_outcome c level link) [
    | inl (idx, e) ↦
        let child = (level_loop-IsChild 257 c level idx link e).0 in
        rw (e, name_loop) (ground (arith, absent idx (last child)))
    | inr (inl e) ↦ rw (e, name_loop) refl
    | inr (inr e) ↦ rw (e, name_loop) refl
  ]
  name_loop_absent c (d ∷ ds) level matched_idx link absent = elim (level_outcome c level link) [
    | inl (idx, e) ↦
        let (child, below) = level_loop-IsChild 257 c level idx link e in
        rw (e, name_loop)
          (name_loop_absent d ds (table.nodes idx).child idx (t.child idx below)
            (λ i rest. absent i (step child rest)))
    | inr (inl e) ↦ rw (e, name_loop) refl
    | inr (inr e) ↦ rw (e, name_loop) refl
  ]

  -- A name that spells a node gives the address of its leaf, and NULL when the node is no leaf.
  pub resolve_trie_symbol_found :
      (name : List ℕ) (idx : ℕ)
      → Spells table table.root_child name idx
      → resolve_trie_symbol 257 table name
        ≡ some (if is_leaf table idx then table.leaf_addrs (table.nodes idx).leaf_index else 0)
  unfolding resolve_trie_symbol leaf_answer
  resolve_trie_symbol_found name idx spelt =
      let (found, below) = name_loop_found name table.root_child trie_none idx t.root spelt in
      ground (arith, found, below, t.few)

  -- A name that spells no leaf gives NULL.
  pub resolve_trie_symbol_absent :
      (name : List ℕ)
      → ((idx : ℕ) → Spells table table.root_child name idx → is_leaf table idx ≡ false)
      → resolve_trie_symbol 257 table name ≡ some 0
  unfolding resolve_trie_symbol name_loop leaf_answer
  resolve_trie_symbol_absent [] absent = ground arith
  resolve_trie_symbol_absent (c ∷ cs) absent =
      ground (arith, name_loop_absent c cs table.root_child trie_none t.root absent)
