-- ===== src/Relocs/Wishes.antt =====
-- Walks over a relocation table in which no round fails: behind such a walk each slot holds what its
-- own relocation asks for.
use udynlink.Prelude.{
  ℕ, zero, suc, ◌+◌, ◌≡◌, ◌≢◌, ◌<◌, ◌≤◌, refl, arith, Option, some, ap, sym, ◌∙◌,
}
use udynlink.Memory.{Memory, read32}
use udynlink.Header.{ok}
use udynlink.Relocs.Passes.{attempt, AwayFrom, Within, SameBut, IsPass, attempt_lem}
use udynlink.Relocs.Reads.{read32-Agree}
use udynlink.Relocs.Verdicts.{Verdict, carry_out}
use udynlink.Relocs.Slots.{carry_out_within}

-- `left` rounds from round `i` on.
unfoldable pub run : (ℕ → Memory → Memory) → ℕ → ℕ → Memory → Memory
run round zero i m = m
run round (suc left) i m = run round left (i + 1) (round i m)

-- Round `j` writes at most its slot, the word at `p`, and carries out its wish there, on every memory
-- that differs from the first in the slots of others only.
pub record IsWalk (round : ℕ → Memory → Memory) (slot : ℕ → Option ℕ) (rounds : ℕ) (m : Memory)
    (wish : ℕ → ℕ → Verdict) : Type 0 where
  pub apart :
      (i j a : ℕ) → i < rounds → j < rounds → i ≢ j → Within a (slot i) → AwayFrom a (slot j)
  pub outside :
      (j : ℕ) (n : Memory) (a : ℕ)
      → j < rounds
      → SameBut slot rounds m n
      → AwayFrom a (slot j)
      → round j n a ≡ n a
  pub carried :
      (j p : ℕ) (n : Memory) (a : ℕ)
      → j < rounds
      → slot j ≡ some p
      → SameBut slot rounds m n
      → read32 n p ≡ read32 m p
      → round j n a ≡ carry_out (wish j p) n p a

attempt-run :
    (round : ℕ → Memory → Memory) (left i : ℕ) (m : Memory)
    → attempt (λ j n. (ok, round j n)) left i m ≡ (ok, run round left i m)
unfolding attempt run
attempt-run round zero i m = refl
attempt-run round (suc left) i m = attempt-run round left (i + 1) (round i m)

module _ (round : ℕ → Memory → Memory) (slot : ℕ → Option ℕ) (rounds : ℕ) (m : Memory)
    (wish : ℕ → ℕ → Verdict) (walk : IsWalk round slot rounds m wish) where
  weaken : (j : ℕ) (n : Memory) → j < rounds → SameBut slot j m n → SameBut slot rounds m n
  weaken j n lt near a outside = near a (λ i inside. outside i (omega arith))

  own_byte :
      (j p : ℕ) (n : Memory) (a : ℕ)
      → j < rounds
      → slot j ≡ some p
      → SameBut slot rounds m n
      → ((a : ℕ) → Within a (slot j) → n a ≡ m a)
      → p ≤ a
      → a < p + 4
      → round j n a ≡ carry_out (wish j p) m p a
  own_byte j p n a lt at near fresh lo hi =
      walk.carried j p n a lt at near (read32-Agree p m n (λ a lo hi. fresh a (p, at, lo, hi)))
      ∙ carry_out_within (wish j p) m n p a lo hi (fresh a (p, at, lo, hi))

  walk-IsPass : IsPass (λ j n. (ok, round j n)) slot rounds m
  walk-IsPass = record {
    apart = walk.apart;
    frame = λ j n a lt near outside. walk.outside j n a lt (weaken j n lt near) outside;
    alone = λ j n lt near fresh. (
      refl,
      λ a (p, at, lo, hi).
          own_byte j p n a lt at (weaken j n lt near) fresh lo hi
          ∙ sym (own_byte j p m a lt at (λ a outside. refl) (λ a within. refl) lo hi),
    );
  }

  pub run_lem :
      SameBut slot rounds m (run round rounds 0 m)
      × ((j p : ℕ)
          → j < rounds
          → slot j ≡ some p
          → read32 (run round rounds 0 m) p ≡ read32 (carry_out (wish j p) m p) p)
  run_lem =
      let whole = attempt-run round rounds 0 m in
      let (outside, done) =
        (attempt_lem (λ j n. (ok, round j n)) slot rounds m walk-IsPass).1 (ap (λ o. o.0) whole) in
      let behind = ap (λ o. o.1) whole in
      (
        λ a out. sym (ap (λ (n : Memory). n a) behind) ∙ outside a out,
        λ j p lt at. read32-Agree p (carry_out (wish j p) m p) (run round rounds 0 m) (λ a lo hi.
            sym (ap (λ (n : Memory). n a) behind)
            ∙ done j a lt (p, at, lo, hi)
            ∙ own_byte j p m a lt at (λ a outside. refl) (λ a within. refl) lo hi),
      )
