-- ===== src/Texts.antt =====
-- NUL-terminated text in memory, as the string functions of the C library read it. A text that a
-- caller holds is the list of its characters, none of them 0.
use udynlink.Prelude.{ℕ, ◌+◌, ◌≡◌, ◌≢◌, refl, ap, arith, Ordering, List, [], ◌∷◌}
use native.Mathlib.Decide.{ℕ_discrete}
use udynlink.Memory.{Memory, strcmp}
use udynlink.Symbols.{compare_texts}

-- Every character is one that a text can hold.
abbrev pub IsName : List ℕ → Type 0
IsName [] = Unit
IsName (c ∷ cs) = (c ≢ 0) × IsName cs

-- The text at `p` is `cs`.
abbrev pub IsText : Memory → ℕ → List ℕ → Type 0
IsText m p [] = m p ≡ 0
IsText m p (c ∷ cs) = (m p ≡ c) × IsText m (p + 1) cs

-- A text compares equal with itself.
pub strcmp_self : (m : Memory) (p : ℕ) (cs : List ℕ) → IsText m p cs → strcmp m p cs ≡ Ordering.eq
unfolding strcmp
strcmp_self m p [] end = ground arith
strcmp_self m p (c ∷ cs) (first, rest) = ground (arith, strcmp_self m (p + 1) cs rest)

-- And with no other.
pub strcmp_eq :
    (m : Memory) (p : ℕ) (cs ds : List ℕ)
    → IsName cs
    → IsName ds
    → IsText m p cs
    → strcmp m p ds ≡ Ordering.eq
    → cs ≡ ds
unfolding strcmp
strcmp_eq m p [] [] _ _ end e = refl
strcmp_eq m p [] (d ∷ ds) _ (char, _) end e = ground (arith, char, end, e)
strcmp_eq m p (c ∷ cs) [] (char, _) _ (first, _) e = ground (arith, char, first, e)
strcmp_eq m p (c ∷ cs) (d ∷ ds) (_, names) (_, others) (first, rest) e = elim (ℕ_discrete c d) [
  | yes same ↦
      rw same (ap (◌∷◌ d) (strcmp_eq m (p + 1) cs ds names others rest (ground (arith, first, e))))
  | no differ ↦ ground (arith, first, e)
]

-- Texts that compare equal are equal.
pub compare_texts_eq : (cs ds : List ℕ) → compare_texts cs ds ≡ Ordering.eq → cs ≡ ds
unfolding compare_texts
compare_texts_eq [] [] e = refl
compare_texts_eq [] (d ∷ ds) e = ground (arith, e)
compare_texts_eq (c ∷ cs) [] e = ground (arith, e)
compare_texts_eq (c ∷ cs) (d ∷ ds) e = elim (ℕ_discrete c d) [
  | yes same ↦ rw same (ap (◌∷◌ d) (compare_texts_eq cs ds (ground (arith, e))))
  | no differ ↦ ground (arith, e)
]
