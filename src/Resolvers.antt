-- ===== src/Resolvers.antt =====
-- The symbol tables that a host may resolve names with: a cache, a hash table and a trie.
pub mod Cache
pub mod HashTable
pub mod Trie
