-- ===== src/Resolvers/Trie.antt =====
-- The trie resolver, udynlink/udynlink_trie.h. The arrays behind the table's pointers are functions
-- of the index. The walk along the nodes of a level runs on fuel: `none` is a walk that has not
-- ended, and NULL is 0.
pub mod Walk
use udynlink.Prelude.{
  ℕ, zero, suc, bit_and, Bool, true, false, ◌&&◌, Option, some, none, List, [], ◌∷◌, ltb, ◌==◌,
  ◌!=◌, if◌then◌else◌,
}

-- UDYNLINK_TRIE_NONE.
abbrev pub trie_none : ℕ
trie_none = 0xFFFF

-- `udynlink_trie_node_t`.
pub record TrieNode : Type 0 where
  pub ch_flags : ℕ
  pub sibling : ℕ
  pub child : ℕ
  pub leaf_index : ℕ

-- `udynlink_trie_table_t`.
pub record TrieTable : Type 0 where
  pub num_nodes : ℕ
  pub num_leaves : ℕ
  pub root_child : ℕ
  pub nodes : ℕ → TrieNode
  pub leaf_addrs : ℕ → ℕ

unfoldable pub node_ch : TrieTable → ℕ → ℕ
node_ch table cur = bit_and (table.nodes cur).ch_flags 0xFF

unfoldable pub is_leaf : TrieTable → ℕ → Bool
is_leaf table idx = bit_and (table.nodes idx).ch_flags 0x0100 != 0

-- How the walk along a level ends: at a node, behind the last, or at a greater character.
pub data Level : Type 0 where
  matched : ℕ → Level
  ended : Level
  passed : Level

unfoldable pub level_loop : ℕ → TrieTable → ℕ → ℕ → Option Level
level_loop zero table c cur = none
level_loop (suc fuel) table c cur =
    let rest = level_loop fuel table c (table.nodes cur).sibling in
    if cur == trie_none
    then some ended
    else if node_ch table cur == c
    then some (matched cur)
    else if ltb c (node_ch table cur)
    then some passed
    else rest

-- What the function returns when the name has been read.
unfoldable pub leaf_answer : TrieTable → ℕ → ℕ
leaf_answer table matched_idx =
    if matched_idx != trie_none && is_leaf table matched_idx
    then table.leaf_addrs (table.nodes matched_idx).leaf_index
    else 0

-- The loop over the characters.
unfoldable pub name_loop : ℕ → TrieTable → List ℕ → ℕ → ℕ → Option ℕ
name_loop fuel table [] next_level matched_idx = some (leaf_answer table matched_idx)
name_loop fuel table (c ∷ cs) next_level matched_idx = elim (level_loop fuel table c next_level) [
  | none ↦ none
  | some (matched cur) ↦ name_loop fuel table cs (table.nodes cur).child cur
  | some ended ↦ some 0
  | some passed ↦ some 0
]

-- `udynlink_resolve_trie_symbol`.
unfoldable pub resolve_trie_symbol : ℕ → TrieTable → List ℕ → Option ℕ
resolve_trie_symbol fuel table name =
    if table.num_nodes == 0 then some 0 else name_loop fuel table name table.root_child trie_none
