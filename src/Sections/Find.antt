-- ===== src/Sections/Find.antt =====
-- `sect_find_by_va` of udynlink/udynlink.c: which section a link-time address belongs to.
use udynlink.Prelude.{
  ℕ, zero, suc, ◌+◌, ◌-◌, ◌^◌, ◌≤◌, ◌<◌, ◌≡◌, ◌↔◌, arith, some, ltb, ◌&&◌, if◌then◌else◌,
  Bool-cases, inl, inr,
}
use native.Mathlib.Decide.{ℕ_discrete}
use mathlib.Core.Path.{subst, sym}
use udynlink.Memory.{Memory}
use udynlink.Sections.{SectView, sect_entry_at, sect_span, find_by_va_loop, sect_find_by_va}

-- The entries come in the order of their addresses and do not overlap; a section's end fits 33 bits.
pub record IsSorted (m : Memory) (tab : SectView) : Type 0 where
  pub start_fits : (j : ℕ) → j < tab.num → (sect_entry_at m tab j).va < 2 ^ 32
  pub apart :
      (j : ℕ)
      → j + 1 < tab.num
      → (sect_entry_at m tab j).va + (sect_entry_at m tab j).size ≤ (sect_entry_at m tab (j + 1)).va

-- Where the range ends that section `i` answers for: the first two main sections run up to the next
-- entry, and every other section up to its own end.
abbrev pub range_end : Memory → SectView → ℕ → ℕ
range_end m tab i =
    if ltb i 2 && ltb (i + 1) tab.num
    then (sect_entry_at m tab (i + 1)).va
    else (sect_entry_at m tab i).va + (sect_entry_at m tab i).size

-- `va` lies in that range.
abbrev pub Contains : Memory → SectView → ℕ → ℕ → Type 0
Contains m tab i va = (i < tab.num) × ((sect_entry_at m tab i).va ≤ va) × (va < range_end m tab i)

module _ (m : Memory) (tab : SectView) (s : IsSorted m tab) where
  -- The span of the code comes to the same end.
  span_end :
      (j : ℕ) → j < tab.num → (sect_entry_at m tab j).va + sect_span m tab j ≡ range_end m tab j
  unfolding sect_span
  span_end j k = elim (Bool-cases (ltb (j + 1) tab.num)) [
    | inl more ↦ ground (arith, s.apart j, s.start_fits j, s.start_fits (j + 1))
    | inr last ↦ ground (arith, last)
  ]

  -- A section answers for addresses below the next one only.
  span_below_next :
      (j : ℕ)
      → j + 1 < tab.num
      → (sect_entry_at m tab j).va + sect_span m tab j ≤ (sect_entry_at m tab (j + 1)).va
  unfolding sect_span
  span_below_next j k = ground (arith, s.apart j, s.start_fits j, s.start_fits (j + 1))

  starts_mono :
      (d i : ℕ) → i + d < tab.num → (sect_entry_at m tab i).va ≤ (sect_entry_at m tab (i + d)).va
  starts_mono zero i k = let e : i + 0 ≡ i = omega arith in rw e (omega arith)
  starts_mono (suc d) i k =
      let e : i + suc d ≡ i + d + 1 = omega arith in
      rw e (omega (arith, starts_mono d i (omega arith), s.apart (i + d) (omega arith)))

  -- No later section answers for an address before the start of section `i`.
  below_start : (i j va : ℕ) → i ≤ j → Contains m tab j va → (sect_entry_at m tab i).va ≤ va
  below_start i j va le (inside, start, end) =
      let e : i + (j - i) ≡ j = omega arith in
      let start_le : (sect_entry_at m tab i).va ≤ (sect_entry_at m tab j).va =
        rw e at (starts_mono (j - i) i (omega arith)) in
      omega arith

  loop_sound :
      (left i va k : ℕ)
      → i + left ≡ tab.num
      → find_by_va_loop m tab va left i ≡ some k
      → Contains m tab k va
  unfolding find_by_va_loop
  loop_sound zero i va k e found = ground arith
  loop_sound (suc left) i va k e found = ground (arith, span_end i, loop_sound left (i + 1) va k)

  loop_complete :
      (left i va k : ℕ)
      → i + left ≡ tab.num
      → i ≤ k
      → Contains m tab k va
      → find_by_va_loop m tab va left i ≡ some k
  unfolding find_by_va_loop
  loop_complete zero i va k e le c = absurd (omega arith)
  loop_complete (suc left) i va k e le c = elim (ℕ_discrete i k) [
    | yes same ↦ rw (← same) (here (subst (λ j. Contains m tab j va) (sym same) c))
    | no ne ↦ ground (
      arith,
      below_start i k va (omega arith) c,
      below_start (i + 1) k va (omega arith) c,
      span_below_next i (ground arith),
      loop_complete left (i + 1) va k (omega arith) (omega arith) c,
    )
  ]
    where
      here : Contains m tab i va → find_by_va_loop m tab va (suc left) i ≡ some i
      here d = ground (arith, span_end i)

-- In a sorted table `sect_find_by_va` gives an index exactly when the address lies in the range of
-- that section: the section's own bytes, and for the first two main sections also the padding up to
-- the next. So at most one section answers for an address, and -1 means that none does.
pub sect_find_by_va_iff :
    (m : Memory) (tab : SectView) (va i : ℕ)
    → IsSorted m tab
    → (sect_find_by_va m tab va ≡ some i) ↔ Contains m tab i va
unfolding sect_find_by_va
sect_find_by_va_iff m tab va i s = (
  loop_sound m tab s tab.num 0 va i (omega arith),
  loop_complete m tab s tab.num 0 va i (omega arith) (omega arith),
)
