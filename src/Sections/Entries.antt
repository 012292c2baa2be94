-- ===== src/Sections/Entries.antt =====
-- The tests of one entry of a section table, udynlink/udynlink.c, against what they are to find.
use udynlink.Prelude.{
  ◌/◌, ◌-◌, ◌^◌, bit_and, bit_and_low, refl, ◌∙◌, ap, sym, ◌*◌, ℕ, zero, suc, ◌+◌, ◌%◌, ◌≤◌, ◌<◌,
  ◌≡◌, ◌≢◌, ◌⊎◌, arith, Bool, true, false, IsPow2, IsPow2-of-bit_and,
}
use native.Mathlib.Decide.{ℕ_discrete}
use native.Mathlib.Nat.{one-le-pow}
use udynlink.Memory.{Memory, has_nul}
use udynlink.Header.{Header}
use udynlink.Sections.{
  SectEntry, SectView, entry_fields_ok, entry_role_ok, entry_name_ok, is_main, has_reserved,
  class_bss,
}

-- An entry whose own fields make sense.
pub record IsEntry (e : SectEntry) : Type 0 where
  pub align_ge : 4 ≤ e.align
  pub align_pow2 : IsPow2 e.align
  pub size_words : e.size % 4 ≡ 0
  pub class_known : e.cls ≤ class_bss
  pub reserved_clear : has_reserved e.flags ≡ false

-- The role that its index gives an entry.
abbrev pub HasRole : ℕ → SectEntry → Type 0
HasRole i e =
    ((i < 3) × (is_main e.flags ≡ true) × (e.cls ≡ i))
    ⊎ ((3 ≤ i) × (is_main e.flags ≡ false) × (e.name_off ≢ 0))

pub entry_fields_ok-IsEntry : (e : SectEntry) → entry_fields_ok e ≡ true → IsEntry e
unfolding entry_fields_ok
entry_fields_ok-IsEntry e h = record {
  align_ge = ground arith;
  align_pow2 = IsPow2-of-bit_and e.align (ground arith) (ground arith);
  size_words = ground arith;
  class_known = ground arith;
  reserved_clear = ground arith;
}

pub IsEntry-entry_fields_ok : (e : SectEntry) → IsEntry e → entry_fields_ok e ≡ true
unfolding entry_fields_ok
IsEntry-entry_fields_ok e entry =
    let (k, pow2) = entry.align_pow2 in
    let shared : bit_and e.align (e.align - 1) ≡ 0 =
      let whole : 1 * 2 ^ k + 0 ≡ 2 ^ k = omega arith in
      let power = one-le-pow k 2 in
      let low : bit_and (2 ^ k) (2 ^ k - 1) ≡ 0 =
        ap (λ x. bit_and x (2 ^ k - 1)) (sym whole) ∙ bit_and_low k 1 0 (ground (arith, power)) in
      rw pow2 low in
    ground
      (arith, shared, entry.align_ge, entry.size_words, entry.class_known, entry.reserved_clear)

pub HasRole-entry_role_ok : (i : ℕ) (e : SectEntry) → HasRole i e → entry_role_ok i e ≡ true
unfolding entry_role_ok
HasRole-entry_role_ok i e role = ground (arith, role)

pub entry_role_ok-HasRole : (i : ℕ) (e : SectEntry) → entry_role_ok i e ≡ true → HasRole i e
unfolding entry_role_ok
entry_role_ok-HasRole i e h = ground arith

-- The name of an entry ends inside of the symbol table.
abbrev pub HasName : Memory → Header → SectView → SectEntry → Type 0
HasName m h view e =
    e.name_off ≢ 0
    → (e.name_off < h.symt_size)
      × ((k : ℕ) × (k < h.symt_size - e.name_off) × (m (view.p_pool + e.name_off + k) ≡ 0))

-- What the header promises besides: clear upper flags, the version that has section tables, and a
-- symbol table within the cap on images.
pub record IsTagged (h : Header) : Type 0 where
  pub upper_clear : h.flags / 2 ^ 8 % 2 ^ 8 ≡ 0
  pub version_ge : 3 * 2 ^ 8 + 1 ≤ h.udynlink_version
  pub symt_capped : h.symt_size ≤ 4 * 1024 * 1024

has_nul_sound : (m : Memory) (p n : ℕ) → has_nul m p n ≡ true → (k : ℕ) × (k < n) × (m (p + k) ≡ 0)
unfolding has_nul
has_nul_sound m p zero e = absurd (ground (arith, e))
has_nul_sound m p (suc n) e = elim (ℕ_discrete (m p) 0) [
  | yes nul ↦ let here : p + 0 ≡ p = omega arith in (0, omega arith, ap m here ∙ nul)
  | no other ↦
      let (k, below, at) = has_nul_sound m (p + 1) n (ground arith) in
      let next : p + suc k ≡ p + 1 + k = omega arith in
      (suc k, omega (arith, below), ap m next ∙ at)
]

has_nul_complete : (m : Memory) (p n k : ℕ) → k < n → m (p + k) ≡ 0 → has_nul m p n ≡ true
unfolding has_nul
has_nul_complete m p zero k below at = absurd (omega arith)
has_nul_complete m p (suc n) zero below at =
    let here : p + 0 ≡ p = omega arith in let nul = ap m (sym here) ∙ at in ground (arith, nul)
has_nul_complete m p (suc n) (suc k) below at =
    let next : p + suc k ≡ p + 1 + k = omega arith in
    let rest = has_nul_complete m (p + 1) n k (omega arith) (ap m (sym next) ∙ at) in
    ground (arith, rest)

module _ (m : Memory) (h : Header) (view : SectView) (e : SectEntry) where
  pub entry_name_ok-HasName : entry_name_ok m h view.p_pool true e ≡ true → HasName m h view e
  unfolding entry_name_ok
  entry_name_ok-HasName good named = (
    ground (arith, good, named),
    has_nul_sound m (view.p_pool + e.name_off) (h.symt_size - e.name_off)
        (ground (arith, good, named)),
  )

  pub HasName-entry_name_ok :
      (names : Bool)
      → (names ≡ true → HasName m h view e)
      → entry_name_ok m h view.p_pool names e ≡ true
  unfolding entry_name_ok
  HasName-entry_name_ok false sound = refl
  HasName-entry_name_ok true sound = elim (ℕ_discrete e.name_off 0) [
    | yes nameless ↦ ground (arith, nameless)
    | no named ↦
        let (below, (k, inside, nul)) = sound refl named in
        let ends =
          has_nul_complete m (view.p_pool + e.name_off) (h.symt_size - e.name_off) k inside nul in
        ground (arith, below, ends)
  ]
