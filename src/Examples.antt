-- ===== src/Examples.antt =====
-- Applications of the theorems to concrete images, modules and pools.
mod Images
mod Loading
mod Moving
mod Symbols
mod Tables
mod Thunks
mod Walks
mod Resolvers
mod Deps
mod Wasm
mod Objects
mod Calls
mod Copies
mod Rebase
