-- ===== src/Relocs/Passes.antt =====
-- Walks that patch one word a round, and stop at the first error: what such a walk does is what each
-- of its rounds does alone to the memory at the start, if the words are apart and no round reads a
-- word of another. The walks of udynlink/udynlink.c over a relocation table are of this kind.
use mathlib.Core.Path.{subst}
use udynlink.Prelude.{
  sym, ap, ◌∙◌, ℕ, zero, suc, ◌+◌, ◌≡◌, ◌≢◌, ◌⊎◌, ◌<◌, ◌≤◌, refl, inl, inr, arith, true, false,
  Bool-cases, Option, some, if◌then◌else◌,
}
use udynlink.Memory.{Memory}
use udynlink.Header.{ErrorCode, ok}
use udynlink.Relocs.{Outcome, is_ok}

-- `left` rounds from round `i` on.
unfoldable pub attempt : (ℕ → Memory → Outcome) → ℕ → ℕ → Memory → Outcome
attempt round zero i m = (ok, m)
attempt round (suc left) i m =
    let (code, m') = round i m in
    let rest = attempt round left (i + 1) m' in if is_ok code then rest else (code, m')

-- The first error of `left` rounds from round `i` on.
unfoldable pub first_error : (ℕ → ErrorCode) → ℕ → ℕ → ErrorCode
first_error code zero i = ok
first_error code (suc left) i = if is_ok (code i) then first_error code left (i + 1) else code i

-- The address is in none of the four bytes of a word, or in one of them.
abbrev pub AwayFrom : ℕ → Option ℕ → Type 0
AwayFrom a word = (p : ℕ) → word ≡ some p → (a < p) ⊎ (p + 4 ≤ a)

abbrev pub Within : ℕ → Option ℕ → Type 0
Within a word = (p : ℕ) × (word ≡ some p) × (p ≤ a) × (a < p + 4)

-- Two memories that differ in the words of the first `i` rounds at most.
abbrev pub SameBut : (ℕ → Option ℕ) → ℕ → Memory → Memory → Type 0
SameBut word i m n = (a : ℕ) → ((j : ℕ) → j < i → AwayFrom a (word j)) → n a ≡ m a

-- The rounds from the memory `m` on, of which the one with number `j` patches the word `word j`.
pub record IsPass (round : ℕ → Memory → Outcome) (word : ℕ → Option ℕ) (rounds : ℕ) (m : Memory)
    : Type 0 where
  pub apart :
      (i j a : ℕ) → i < rounds → j < rounds → i ≢ j → Within a (word i) → AwayFrom a (word j)
  pub frame :
      (j : ℕ) (n : Memory) (a : ℕ)
      → j < rounds
      → SameBut word j m n
      → AwayFrom a (word j)
      → (round j n).1 a ≡ n a
  pub alone :
      (j : ℕ) (n : Memory)
      → j < rounds
      → SameBut word j m n
      → ((a : ℕ) → Within a (word j) → n a ≡ m a)
      → ((round j n).0 ≡ (round j m).0)
        × ((a : ℕ) → Within a (word j) → (round j n).1 a ≡ (round j m).1 a)

lt-or-eq : (j i : ℕ) → j < i + 1 → (j < i) ⊎ (j ≡ i)
lt-or-eq j i h = ground arith

-- What the first `i` rounds have left behind.
abbrev Patched : (ℕ → Memory → Outcome) → (ℕ → Option ℕ) → ℕ → Memory → Memory → Type 0
Patched round word i m n =
    SameBut word i m n × ((j a : ℕ) → j < i → Within a (word j) → n a ≡ (round j m).1 a)

module _ (round : ℕ → Memory → Outcome) (word : ℕ → Option ℕ) (rounds : ℕ) (m : Memory)
    (pass : IsPass round word rounds m) where
  round-Patched :
      (i : ℕ) (n : Memory)
      → i < rounds
      → Patched round word i m n
      → ((round i n).0 ≡ (round i m).0) × Patched round word (i + 1) m (round i n).1
  round-Patched i n inside (same, done) =
      let fresh : (a : ℕ) → Within a (word i) → n a ≡ m a =
        λ a within. same a (λ j lt. pass.apart i j a inside (omega arith) (omega arith) within) in
      let (code, patched) = pass.alone i n inside same fresh in
      (
        code,
        (
          (λ a outside.
              pass.frame i n a inside same (outside i (omega arith))
              ∙ same a (λ j lt. outside j (omega arith))),
          λ j a lt within. elim (lt-or-eq j i lt) [
            | inl before ↦
                pass.frame i n a inside same
                  (pass.apart j i a (omega arith) inside (omega arith) within)
                ∙ done j a before within
            | inr now ↦
                subst (λ k. Within a (word k) → (round i n).1 a ≡ (round k m).1 a) (sym now)
                  (patched a) within
          ],
        ),
      )

  attempt-Patched :
      (left i : ℕ) (n : Memory)
      → i + left ≡ rounds
      → Patched round word i m n
      → ((attempt round left i n).0 ≡ first_error (λ j. (round j m).0) left i)
        × ((attempt round left i n).0 ≡ ok → Patched round word rounds m (attempt round left i n).1)
  unfolding attempt first_error
  attempt-Patched zero i n count patched =
      (refl, λ _. subst (λ k. Patched round word k m n) (omega arith) patched)
  attempt-Patched (suc left) i n count patched =
      let (code, next) = round-Patched i n (omega arith) patched in
      elim (Bool-cases (is_ok (round i n).0)) [
        | inl good ↦
            let good' : is_ok (round i m).0 ≡ true = ap is_ok (sym code) ∙ good in
            rw (good, good') (attempt-Patched left (i + 1) (round i n).1 (omega arith) next)
        | inr bad ↦
            let bad' : is_ok (round i m).0 ≡ false = ap is_ok (sym code) ∙ bad in
            rw (bad, bad') (code, λ e. absurd (ground (arith, bad, e)))
      ]

  -- The walk ends with the first error that a round gives on the memory at the start. With no error,
  -- each word holds what its round writes there, and all else is as it was.
  pub attempt_lem :
      ((attempt round rounds 0 m).0 ≡ first_error (λ j. (round j m).0) rounds 0)
      × ((attempt round rounds 0 m).0 ≡ ok
          → SameBut word rounds m (attempt round rounds 0 m).1
            × ((j a : ℕ)
                → j < rounds
                → Within a (word j)
                → (attempt round rounds 0 m).1 a ≡ (round j m).1 a))
  attempt_lem =
      attempt-Patched rounds 0 m (omega arith) ((λ a outside. refl), λ j a lt. absurd (omega arith))
