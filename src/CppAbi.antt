-- ===== src/CppAbi.antt =====
-- The stubs for the C++ symbols that a module refers to, udynlink/udynlink_cpp_abi.h: the forms of
-- `operator new` and `operator delete`, and the resolver that maps their names to them.
use udynlink.Prelude.{
  ℕ, ◌≡◌, ◌↔◌, refl, ap, sym, ◌∙◌, arith, Bool, true, false, Bool-cases, inl, inr, Option, some,
  none, List, [], ◌∷◌, ◌==◌, if◌then◌else◌,
}
use mathlib.Core.Option
use udynlink.Symbols.{compare_texts, is_eq}
use udynlink.Texts.{compare_texts_eq}
use udynlink.Host.{Host, World, Request, external_malloc, external_free}
use udynlink.Host.Balance.{Balanced}

-- The stubs, in the order in which the resolver looks for their names.
pub data Stub : Type 0 where
  delete_sized : Stub
  delete_unsized : Stub
  delete_array_sized : Stub
  delete_array_unsized : Stub
  delete_aligned : Stub
  delete_array_aligned : Stub
  new_plain : Stub
  new_array : Stub
  new_aligned : Stub
  new_array_aligned : Stub
  new_nothrow : Stub
  new_array_nothrow : Stub
  pure_virtual : Stub

-- The names that the compiler gives to the symbols.
unfoldable pub symbol_name : Stub → List ℕ
symbol_name delete_sized = b'_' ∷ b'Z' ∷ b'd' ∷ b'l' ∷ b'P' ∷ b'v' ∷ b'j' ∷ []
symbol_name delete_unsized = b'_' ∷ b'Z' ∷ b'd' ∷ b'l' ∷ b'P' ∷ b'v' ∷ []
symbol_name delete_array_sized = b'_' ∷ b'Z' ∷ b'd' ∷ b'a' ∷ b'P' ∷ b'v' ∷ b'j' ∷ []
symbol_name delete_array_unsized = b'_' ∷ b'Z' ∷ b'd' ∷ b'a' ∷ b'P' ∷ b'v' ∷ []
symbol_name delete_aligned =
    b'_' ∷ b'Z' ∷ b'd' ∷ b'l' ∷ b'P' ∷ b'v' ∷ b'j' ∷ b'S' ∷ b't' ∷ b'1' ∷ b'1' ∷ b'a' ∷ b'l' ∷ b'i'
    ∷ b'g' ∷ b'n' ∷ b'_' ∷ b'v' ∷ b'a' ∷ b'l' ∷ b'_' ∷ b't' ∷ []
symbol_name delete_array_aligned =
    b'_' ∷ b'Z' ∷ b'd' ∷ b'a' ∷ b'P' ∷ b'v' ∷ b'j' ∷ b'S' ∷ b't' ∷ b'1' ∷ b'1' ∷ b'a' ∷ b'l' ∷ b'i'
    ∷ b'g' ∷ b'n' ∷ b'_' ∷ b'v' ∷ b'a' ∷ b'l' ∷ b'_' ∷ b't' ∷ []
symbol_name new_plain = b'_' ∷ b'Z' ∷ b'n' ∷ b'w' ∷ b'j' ∷ []
symbol_name new_array = b'_' ∷ b'Z' ∷ b'n' ∷ b'a' ∷ b'j' ∷ []
symbol_name new_aligned =
    b'_' ∷ b'Z' ∷ b'n' ∷ b'w' ∷ b'j' ∷ b'S' ∷ b't' ∷ b'1' ∷ b'1' ∷ b'a' ∷ b'l' ∷ b'i' ∷ b'g' ∷ b'n'
    ∷ b'_' ∷ b'v' ∷ b'a' ∷ b'l' ∷ b'_' ∷ b't' ∷ []
symbol_name new_array_aligned =
    b'_' ∷ b'Z' ∷ b'n' ∷ b'a' ∷ b'j' ∷ b'S' ∷ b't' ∷ b'1' ∷ b'1' ∷ b'a' ∷ b'l' ∷ b'i' ∷ b'g' ∷ b'n'
    ∷ b'_' ∷ b'v' ∷ b'a' ∷ b'l' ∷ b'_' ∷ b't' ∷ []
symbol_name new_nothrow =
    b'_' ∷ b'Z' ∷ b'n' ∷ b'w' ∷ b'j' ∷ b'R' ∷ b'K' ∷ b'S' ∷ b't' ∷ b'9' ∷ b'n' ∷ b'o' ∷ b't' ∷ b'h'
    ∷ b'r' ∷ b'o' ∷ b'w' ∷ b'_' ∷ b't' ∷ []
symbol_name new_array_nothrow =
    b'_' ∷ b'Z' ∷ b'n' ∷ b'a' ∷ b'j' ∷ b'R' ∷ b'K' ∷ b'S' ∷ b't' ∷ b'9' ∷ b'n' ∷ b'o' ∷ b't' ∷ b'h'
    ∷ b'r' ∷ b'o' ∷ b'w' ∷ b'_' ∷ b't' ∷ []
symbol_name pure_virtual =
    b'_' ∷ b'_' ∷ b'c' ∷ b'x' ∷ b'a' ∷ b'_' ∷ b'p' ∷ b'u' ∷ b'r' ∷ b'e' ∷ b'_' ∷ b'v' ∷ b'i' ∷ b'r'
    ∷ b't' ∷ b'u' ∷ b'a' ∷ b'l' ∷ []

abbrev pub all_stubs : List Stub
all_stubs =
    delete_sized ∷ delete_unsized ∷ delete_array_sized ∷ delete_array_unsized ∷ delete_aligned
    ∷ delete_array_aligned ∷ new_plain ∷ new_array ∷ new_aligned ∷ new_array_aligned ∷ new_nothrow
    ∷ new_array_nothrow ∷ pure_virtual ∷ []

unfoldable pub resolve_stub : List Stub → List ℕ → Option Stub
unfolding symbol_name
resolve_stub [] name = none
resolve_stub (s ∷ rest) name =
    let later = resolve_stub rest name in
    if is_eq (compare_texts (symbol_name s) name) then some s else later

-- `udynlink_cpp_resolve_abi_symbol`, with the stub in place of its address; `none` is 0.
unfoldable pub resolve_abi_symbol : List ℕ → Option Stub
unfolding resolve_stub
resolve_abi_symbol name = resolve_stub all_stubs name

-- The forms that are handed an alignment.
unfoldable pub is_aligned : Stub → Bool
is_aligned delete_aligned = true
is_aligned delete_array_aligned = true
is_aligned new_aligned = true
is_aligned new_array_aligned = true
is_aligned _ = false

-- The alignment that a form passes on: the one that it is handed, or UDYNLINK_CPP_NEW_ALIGN.
unfoldable pub stub_align : ℕ → Stub → ℕ → ℕ
unfolding is_aligned
stub_align new_align s al = if is_aligned s then al else new_align

-- A form of `operator new`.
unfoldable pub cpp_new : ℕ → Host → World → Stub → ℕ → ℕ → ℕ × World
unfolding stub_align
cpp_new new_align host w s sz al =
    external_malloc host w
      (record { size = sz; section = none; align = stub_align new_align s al; flags = 0 })

-- A form of `operator delete`.
unfoldable pub cpp_delete : ℕ → World → Stub → ℕ → ℕ → World
unfolding stub_align
cpp_delete new_align w s p al =
    external_free w
      (record { address = p; section = none; align = stub_align new_align s al; flags = 0 })

resolve_stub_sound :
    (stubs : List Stub) (name : List ℕ) (s : Stub)
    → resolve_stub stubs name ≡ some s
    → name ≡ symbol_name s
unfolding resolve_stub
resolve_stub_sound [] name s e = absurd (ground (arith, e))
resolve_stub_sound (t ∷ rest) name s e =
    elim (Bool-cases (is_eq (compare_texts (symbol_name t) name))) [
      | inl hit ↦
          let same : t ≡ s = ap (λ o. Option.get_or o t) (rw hit at e) in
          let text = compare_texts_eq (symbol_name t) name (ground (arith, hit)) in
          sym text ∙ ap symbol_name same
      | inr other ↦ resolve_stub_sound rest name s (rw other at e)
    ]

resolve_abi_symbol_own : (s : Stub) → resolve_abi_symbol (symbol_name s) ≡ some s
unfolding resolve_abi_symbol resolve_stub symbol_name compare_texts
resolve_abi_symbol_own delete_sized = refl
resolve_abi_symbol_own delete_unsized = refl
resolve_abi_symbol_own delete_array_sized = refl
resolve_abi_symbol_own delete_array_unsized = refl
resolve_abi_symbol_own delete_aligned = refl
resolve_abi_symbol_own delete_array_aligned = refl
resolve_abi_symbol_own new_plain = refl
resolve_abi_symbol_own new_array = refl
resolve_abi_symbol_own new_aligned = refl
resolve_abi_symbol_own new_array_aligned = refl
resolve_abi_symbol_own new_nothrow = refl
resolve_abi_symbol_own new_array_nothrow = refl
resolve_abi_symbol_own pure_virtual = refl

-- The resolver gives a stub for its own name, and for no other.
resolve_abi_symbol_iff :
    (name : List ℕ) (s : Stub) → (resolve_abi_symbol name ≡ some s) ↔ (name ≡ symbol_name s)
unfolding resolve_abi_symbol
resolve_abi_symbol_iff name s =
    (resolve_stub_sound all_stubs name s, λ e. ap resolve_abi_symbol e ∙ resolve_abi_symbol_own s)

-- The forms of `operator new`, and whether the language hands them an alignment.
pub data IsNew : Stub → Bool → Type 0 where
  of_plain : IsNew new_plain false
  of_array : IsNew new_array false
  of_nothrow : IsNew new_nothrow false
  of_array_nothrow : IsNew new_array_nothrow false
  of_aligned : IsNew new_aligned true
  of_array_aligned : IsNew new_array_aligned true

-- The same for `operator delete`.
pub data IsDelete : Stub → Bool → Type 0 where
  by_sized : IsDelete delete_sized false
  by_unsized : IsDelete delete_unsized false
  by_array_sized : IsDelete delete_array_sized false
  by_array_unsized : IsDelete delete_array_unsized false
  by_aligned : IsDelete delete_aligned true
  by_array_aligned : IsDelete delete_array_aligned true

is_aligned-IsNew : (s : Stub) (b : Bool) → IsNew s b → is_aligned s ≡ b
unfolding is_aligned
is_aligned-IsNew _ _ of_plain = refl
is_aligned-IsNew _ _ of_array = refl
is_aligned-IsNew _ _ of_nothrow = refl
is_aligned-IsNew _ _ of_array_nothrow = refl
is_aligned-IsNew _ _ of_aligned = refl
is_aligned-IsNew _ _ of_array_aligned = refl

is_aligned-IsDelete : (s : Stub) (b : Bool) → IsDelete s b → is_aligned s ≡ b
unfolding is_aligned
is_aligned-IsDelete _ _ by_sized = refl
is_aligned-IsDelete _ _ by_unsized = refl
is_aligned-IsDelete _ _ by_array_sized = refl
is_aligned-IsDelete _ _ by_array_unsized = refl
is_aligned-IsDelete _ _ by_aligned = refl
is_aligned-IsDelete _ _ by_array_aligned = refl

-- Each form of `operator new` asks the host for the size at the alignment that it is handed, or at the
-- default one if the language hands it none, and gives what the host answers. A form of `operator
-- delete` that is handed an alignment exactly when that one was frees the block with the arguments
-- of its allocation; a refused allocation leaves nothing to free.
pub cpp_delete-cpp_new :
    (new_align : ℕ) (host : Host) (w : World) (s t : Stub) (given : Bool) (sz al : ℕ)
    → IsNew s given
    → IsDelete t given
    → let (p, w') = cpp_new new_align host w s sz al in
      let wanted = if given then al else new_align in
      (p ≡ host.malloc w.log (record { size = sz; section = none; align = wanted; flags = 0 }))
      × Balanced w.log (if p == 0 then w' else cpp_delete new_align w' t p al).log
unfolding cpp_new cpp_delete external_malloc external_free stub_align
cpp_delete-cpp_new new_align host w s t given sz al new delete =
    let wanted = if given then al else new_align in
    let at_new : stub_align new_align s al ≡ wanted =
      ap (λ b. if b then al else new_align) (is_aligned-IsNew s given new) in
    let at_delete : stub_align new_align t al ≡ wanted =
      ap (λ b. if b then al else new_align) (is_aligned-IsDelete t given delete) in
    let request : Request = record { size = sz; section = none; align = wanted; flags = 0 } in
    (
      rw at_new refl,
      λ hits. elim (Bool-cases (host.malloc w.log request == 0)) [
        | inl null ↦ rw (at_new, null) refl
        | inr found ↦ rw (at_new, found, cpp_delete, at_delete) (omega arith)
      ],
    )
