-- ===== src/Deps/Names.antt =====
-- The names of dependency declarations, udynlink/udynlink_deps.c and udynlink_deps_api.h.
use udynlink.Prelude.{
  ℕ, zero, suc, ◌+◌, ◌^◌, ◌≡◌, refl, ap, arith, Bool, true, false, ◌&&◌, Bool-cases, inl, inr,
  Option, some, none, List, [], ◌∷◌, ◌++◌, length, ◌↔◌, sym, ◌==◌, if◌then◌else◌,
}
use mathlib.Core.Option
use udynlink.Memory.{Memory}
use udynlink.Symbols.{SymName, not_available, pooled, na_text}

-- The characters of a NUL-terminated text in memory. A text ends below the end of the address space.
unfoldable pub read_text : ℕ → Memory → ℕ → List ℕ
read_text zero m p = []
read_text (suc fuel) m p = elim (m p) [ zero ↦ [] | suc c ↦ suc c ∷ read_text fuel m (p + 1) ]

unfoldable pub name_text : Memory → SymName → List ℕ
name_text m not_available = na_text
name_text m (pooled p) = read_text (2 ^ 32) m p

-- ".udynlink.mod.requires."
abbrev pub dep_prefix : List ℕ
dep_prefix =
    b'.' ∷ b'u' ∷ b'd' ∷ b'y' ∷ b'n' ∷ b'l' ∷ b'i' ∷ b'n' ∷ b'k' ∷ b'.' ∷ b'm' ∷ b'o' ∷ b'd' ∷ b'.'
    ∷ b'r' ∷ b'e' ∷ b'q' ∷ b'u' ∷ b'i' ∷ b'r' ∷ b'e' ∷ b's' ∷ b'.' ∷ []

-- ".udynlink.thunk_export."
abbrev pub thunk_export_prefix : List ℕ
thunk_export_prefix =
    b'.' ∷ b'u' ∷ b'd' ∷ b'y' ∷ b'n' ∷ b'l' ∷ b'i' ∷ b'n' ∷ b'k' ∷ b'.' ∷ b't' ∷ b'h' ∷ b'u' ∷ b'n'
    ∷ b'k' ∷ b'_' ∷ b'e' ∷ b'x' ∷ b'p' ∷ b'o' ∷ b'r' ∷ b't' ∷ b'.' ∷ []

-- "udynlink_thunk_gateway"
abbrev pub thunk_gateway_name : List ℕ
thunk_gateway_name =
    b'u' ∷ b'd' ∷ b'y' ∷ b'n' ∷ b'l' ∷ b'i' ∷ b'n' ∷ b'k' ∷ b'_' ∷ b't' ∷ b'h' ∷ b'u' ∷ b'n' ∷ b'k'
    ∷ b'_' ∷ b'g' ∷ b'a' ∷ b't' ∷ b'e' ∷ b'w' ∷ b'a' ∷ b'y' ∷ []

-- The lengths of both prefixes, as the headers give them.
abbrev pub prefix_len : ℕ
prefix_len = 23

-- `strncmp(name, prefix, prefix_len) == 0`, for a prefix of that length.
unfoldable pub starts_with : List ℕ → List ℕ → Bool
starts_with [] cs = true
starts_with (p ∷ ps) [] = false
starts_with (p ∷ ps) (c ∷ cs) = (p == c) && starts_with ps cs

-- `text + n`.
unfoldable pub skip : ℕ → List ℕ → List ℕ
skip zero cs = cs
skip (suc n) [] = []
skip (suc n) (c ∷ cs) = skip n cs

-- `udynlink_dep_is_dependency`; NULL is `none`.
unfoldable pub is_dependency : Option (List ℕ) → Bool
is_dependency none = false
is_dependency (some name) = starts_with dep_prefix name

-- `udynlink_dep_get_name`.
unfoldable pub dep_get_name : Option (List ℕ) → Option (List ℕ)
dep_get_name none = none
dep_get_name (some name) = if is_dependency (some name) then some (skip prefix_len name) else none

starts_with-skip : (ps cs : List ℕ) → starts_with ps cs ≡ true → ps ++ skip (length ps) cs ≡ cs
unfolding starts_with skip
starts_with-skip [] cs e = refl
starts_with-skip (p ∷ ps) [] e = absurd (ground (arith, e))
starts_with-skip (p ∷ ps) (c ∷ cs) e =
    let same : p ≡ c = ground (arith, e) in
    rw same (ap (◌∷◌ c) (starts_with-skip ps cs (ground (arith, e))))

-- The module of a dependency is what follows the prefix in the name of the symbol.
pub dep_get_name-append : (name : List ℕ) → dep_get_name (some (dep_prefix ++ name)) ≡ some name
unfolding dep_get_name is_dependency starts_with skip
dep_get_name-append name = refl

-- A symbol that names a module is the prefix and that name.
pub dep_get_name_iff :
    (name mod_name : List ℕ)
    → (dep_get_name (some name) ≡ some mod_name) ↔ (name ≡ dep_prefix ++ mod_name)
unfolding dep_get_name is_dependency skip starts_with
dep_get_name_iff name mod_name = (
  λ e. elim (Bool-cases (starts_with dep_prefix name)) [
    | inl there ↦
        let same : skip prefix_len name ≡ mod_name = ap (λ o. Option.get_or o []) (rw there at e) in
        rw (← same) (sym (starts_with-skip dep_prefix name there))
    | inr other ↦ absurd (ground (arith, other, e))
  ],
  λ e. rw e refl,
)
