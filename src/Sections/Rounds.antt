-- ===== src/Sections/Rounds.antt =====
-- The loop of `get_sectab` of udynlink/udynlink.c over the entries of a table.
use udynlink.Prelude.{refl, ℕ, zero, suc, ◌+◌, ◌≤◌, ◌<◌, ◌≡◌, arith, Bool, true}
use native.Mathlib.Decide.{ℕ_discrete}
use udynlink.Memory.{Memory}
use udynlink.Header.{Header}
use udynlink.Sections.{
  SectEntry, SectView, sect_entry_at, entry_fields_ok, entry_role_ok, entry_order_ok, entry_name_ok,
  entries_ok,
}

-- What the loop of `get_sectab` has checked of the `left` entries from `i`.
pub record Checked (m : Memory) (h : Header) (view : SectView) (names : Bool) (left i : ℕ)
    (prev : SectEntry) : Type 0 where
  pub first : 0 < left → entry_order_ok i prev (sect_entry_at m view i) ≡ true
  pub fields : (j : ℕ) → i ≤ j → j < i + left → entry_fields_ok (sect_entry_at m view j) ≡ true
  pub role : (j : ℕ) → i ≤ j → j < i + left → entry_role_ok j (sect_entry_at m view j) ≡ true
  pub named :
      (j : ℕ)
      → i ≤ j
      → j < i + left
      → entry_name_ok m h view.p_pool names (sect_entry_at m view j) ≡ true
  pub order :
      (j : ℕ)
      → i ≤ j
      → j + 1 < i + left
      → entry_order_ok (j + 1) (sect_entry_at m view j) (sect_entry_at m view (j + 1)) ≡ true

module _ (m : Memory) (h : Header) (view : SectView) (names : Bool) where
  -- Taking the conjunction of one round apart.
  round :
      (left i : ℕ) (prev : SectEntry)
      → entries_ok m h view names (suc left) i prev ≡ true
      → (entry_fields_ok (sect_entry_at m view i) ≡ true)
        × (entry_role_ok i (sect_entry_at m view i) ≡ true)
        × (entry_name_ok m h view.p_pool names (sect_entry_at m view i) ≡ true)
        × (entry_order_ok i prev (sect_entry_at m view i) ≡ true)
        × (entries_ok m h view names left (i + 1) (sect_entry_at m view i) ≡ true)
  unfolding entries_ok
  round left i prev e = ground arith

  pub entries_ok-Checked :
      (left i : ℕ) (prev : SectEntry)
      → entries_ok m h view names left i prev ≡ true
      → Checked m h view names left i prev
  entries_ok-Checked zero i prev e = record {
    first = λ k. absurd (omega arith);
    fields = λ j p q. absurd (omega arith);
    role = λ j p q. absurd (omega arith);
    named = λ j p q. absurd (omega arith);
    order = λ j p q. absurd (omega arith);
  }
  entries_ok-Checked (suc left) i prev e =
      let (f, r, n, o, rest) = round left i prev e in
      let c = entries_ok-Checked left (i + 1) (sect_entry_at m view i) rest in
      record {
        first = λ _. o;
        fields = λ j p q. elim (ℕ_discrete i j) [
          | yes same ↦ rw (← same) f
          | no ne ↦ c.fields j (omega arith) (omega arith)
        ];
        role = λ j p q. elim (ℕ_discrete i j) [
          | yes same ↦ rw (← same) r
          | no ne ↦ c.role j (omega arith) (omega arith)
        ];
        named = λ j p q. elim (ℕ_discrete i j) [
          | yes same ↦ rw (← same) n
          | no ne ↦ c.named j (omega arith) (omega arith)
        ];
        order = λ j p q. elim (ℕ_discrete i j) [
          | yes same ↦ rw (← same) (c.first (omega arith))
          | no ne ↦ c.order j (omega arith) (omega arith)
        ];
      }

  -- And putting it together again.
  pub Checked-entries_ok :
      (left i : ℕ) (prev : SectEntry)
      → Checked m h view names left i prev
      → entries_ok m h view names left i prev ≡ true
  unfolding entries_ok
  Checked-entries_ok zero i prev c = refl
  Checked-entries_ok (suc left) i prev c =
      let rest = Checked-entries_ok left (i + 1) (sect_entry_at m view i) (record {
        first = λ pos. c.order i (omega arith) (omega arith);
        fields = λ j p q. c.fields j (omega arith) (omega arith);
        role = λ j p q. c.role j (omega arith) (omega arith);
        named = λ j p q. c.named j (omega arith) (omega arith);
        order = λ j p q. c.order j (omega arith) (omega arith);
      }) in
      let f = c.fields i (omega arith) (omega arith) in
      let r = c.role i (omega arith) (omega arith) in
      let n = c.named i (omega arith) (omega arith) in
      let o = c.first (omega arith) in rw (f, r, n, o, rest) refl
