-- ===== src/Sections/Table.antt =====
-- What a table that `get_sectab` of udynlink/udynlink.c accepts satisfies.
use udynlink.Prelude.{
  some, ◌∙◌, ap, sym, ◌↔◌, ℕ, ◌+◌, ◌≤◌, ◌<◌, ◌≡◌, ◌⊎◌, inl, inr, arith, Bool, true, false,
}
use mathlib.Core.Path.{subst}
use udynlink.Memory.{Memory}
use udynlink.Header.{Header, header_at, is_sectioned, hdr_num_sections}
use udynlink.Header.Offsets.{get_num_sections_raw-le}
use udynlink.Sections.{
  SectEntry, SectView, sect_entry_at, no_entry, entry_order_ok, entry_name_ok, entries_ok,
  main_sections_ok, table_view, sectioned_header_ok, get_sectab, align_up_u32, empty_view,
}
use udynlink.Sections.Entries.{
  IsEntry, HasRole, HasName, IsTagged, entry_fields_ok-IsEntry, IsEntry-entry_fields_ok,
  entry_role_ok-HasRole, HasRole-entry_role_ok, entry_name_ok-HasName, HasName-entry_name_ok,
}
use udynlink.Sections.Rounds.{Checked, entries_ok-Checked, Checked-entries_ok}

-- A section table in memory that keeps every promise of the format: each entry is sound and has
-- the role of its index, the first starts at address 0 and each other at or behind the end of the
-- one before, and the sections of the header are there.
pub record IsSectab (m : Memory) (h : Header) (view : SectView) : Type 0 where
  pub some_entry : 0 < view.num
  pub count : view.num ≤ 63
  pub entry : (j : ℕ) → j < view.num → IsEntry (sect_entry_at m view j)
  pub role : (j : ℕ) → j < view.num → HasRole j (sect_entry_at m view j)
  pub starts_at_zero : (sect_entry_at m view 0).va ≡ 0
  pub sorted :
      (j : ℕ)
      → j + 1 < view.num
      → (sect_entry_at m view j).va + (sect_entry_at m view j).size
        ≤ (sect_entry_at m view (j + 1)).va
  pub text_size : (sect_entry_at m view 0).size ≡ (sect_entry_at m view 1).va
  pub data_start :
      (sect_entry_at m view 1).va ≡ align_up_u32 h.code_size (sect_entry_at m view 1).align
  pub data_size : (sect_entry_at m view 1).size ≡ h.data_size
  pub bss_start :
      (sect_entry_at m view 2).va
      ≡ align_up_u32 ((sect_entry_at m view 1).va + h.data_size) (sect_entry_at m view 2).align
  pub bss_size : (sect_entry_at m view 2).size ≡ h.bss_size

module _ (m : Memory) (h : Header) (view : SectView) (names : Bool) where
  order_first : (e : SectEntry) → entry_order_ok 0 no_entry e ≡ true → e.va ≡ 0
  unfolding entry_order_ok
  order_first e o = ground arith

  order_next : (j : ℕ) (a b : SectEntry) → entry_order_ok (j + 1) a b ≡ true → a.va + a.size ≤ b.va
  unfolding entry_order_ok
  order_next j a b o = ground arith

  Checked-IsSectab :
      0 < view.num
      → view.num ≤ 63
      → Checked m h view names view.num 0 no_entry
      → main_sections_ok m h view ≡ true
      → IsSectab m h view
  unfolding main_sections_ok
  Checked-IsSectab pos count c mains = record {
    some_entry = pos;
    count = count;
    entry = λ j k. entry_fields_ok-IsEntry _ (c.fields j (omega arith) (omega arith));
    role = λ j k. entry_role_ok-HasRole j _ (c.role j (omega arith) (omega arith));
    starts_at_zero = order_first _ (c.first pos);
    sorted = λ j k. order_next j _ _ (c.order j (omega arith) (omega arith));
    text_size = ground arith;
    data_start = ground arith;
    data_size = ground arith;
    bss_start = ground arith;
    bss_size = ground arith;
  }

get_sectab_cases :
    (m : Memory) (p : ℕ) (names : Bool) {tab : SectView}
    → get_sectab m p names ≡ some tab
    → let h = header_at m p in
      ((is_sectioned h ≡ false) × (hdr_num_sections h.flags ≡ 0) × (tab ≡ empty_view m p))
      ⊎ ((is_sectioned h ≡ true)
          × (tab ≡ table_view m p)
          × (sectioned_header_ok h ≡ true)
          × (entries_ok m h (table_view m p) names (table_view m p).num 0 no_entry ≡ true)
          × (main_sections_ok m h (table_view m p) ≡ true))
unfolding get_sectab
get_sectab_cases m p names e = ground arith

table_view-num :
    (m : Memory) (p : ℕ)
    → sectioned_header_ok (header_at m p) ≡ true
    → (0 < (table_view m p).num) × ((table_view m p).num ≤ 63)
unfolding sectioned_header_ok table_view
table_view-num m p ok = ground (arith, get_num_sections_raw-le (header_at m p))

-- What makes `get_sectab` accept a table.
pub record IsValid (m : Memory) (h : Header) (view : SectView) (names : Bool) : Type 0 where
  pub tagged : IsTagged h
  pub table : IsSectab m h view
  pub named : names ≡ true → (j : ℕ) → j < view.num → HasName m h view (sect_entry_at m view j)

module _ (m : Memory) (h : Header) (view : SectView) (names : Bool) where
  entries_ok-IsValid :
      IsTagged h
      → 0 < view.num
      → view.num ≤ 63
      → entries_ok m h view names view.num 0 no_entry ≡ true
      → main_sections_ok m h view ≡ true
      → IsValid m h view names
  entries_ok-IsValid tagged pos count entries mains =
      let c = entries_ok-Checked m h view names _ 0 no_entry entries in
      record {
        tagged = tagged;
        table = Checked-IsSectab m h view names pos count c mains;
        named = λ on j below. entry_name_ok-HasName m h view (sect_entry_at m view j) (
            subst (λ b. entry_name_ok m h view.p_pool b (sect_entry_at m view j) ≡ true) on
              (c.named j (omega arith) (omega arith)));
      }

  IsValid-Checked : IsValid m h view names → Checked m h view names view.num 0 no_entry
  unfolding entry_order_ok
  IsValid-Checked valid = record {
    first = λ pos. ground (arith, valid.table.starts_at_zero);
    fields = λ j p q.
        IsEntry-entry_fields_ok (sect_entry_at m view j) (valid.table.entry j (omega arith));
    role = λ j p q.
        HasRole-entry_role_ok j (sect_entry_at m view j) (valid.table.role j (omega arith));
    named = λ j p q.
        HasName-entry_name_ok m h view (sect_entry_at m view j) names
          (λ on. valid.named on j (omega arith));
    order = λ j p q. ground (arith, valid.table.sorted j (omega arith));
  }

  IsValid-main_sections_ok : IsValid m h view names → main_sections_ok m h view ≡ true
  unfolding main_sections_ok
  IsValid-main_sections_ok valid =
      let t = valid.table in
      let bss : (sect_entry_at m view 2).va
          ≡ align_up_u32 (align_up_u32 h.code_size (sect_entry_at m view 1).align + h.data_size)
              (sect_entry_at m view 2).align =
        t.bss_start
        ∙ ap (λ va. align_up_u32 (va + h.data_size) (sect_entry_at m view 2).align) t.data_start in
      ground (arith, t.text_size, t.data_start, t.data_size, t.bss_size, bss)

header_ok-IsTagged : (h : Header) → sectioned_header_ok h ≡ true → IsTagged h
unfolding sectioned_header_ok
header_ok-IsTagged h ok = record {
  upper_clear = ground arith;
  version_ge = ground arith;
  symt_capped = ground arith;
}

IsValid-header_ok :
    (m : Memory) (p : ℕ) (names : Bool)
    → IsValid m (header_at m p) (table_view m p) names
    → sectioned_header_ok (header_at m p) ≡ true
unfolding sectioned_header_ok table_view
IsValid-header_ok m p names valid =
    let t = valid.tagged in
    let some_entry = valid.table.some_entry in
    ground (arith, t.upper_clear, t.version_ge, t.symt_capped, some_entry)

get_sectab_untagged :
    (m : Memory) (p : ℕ) (names : Bool) (tab : SectView)
    → let h = header_at m p in
      (is_sectioned h ≡ false) × (hdr_num_sections h.flags ≡ 0) × (tab ≡ empty_view m p)
      → get_sectab m p names ≡ some tab
unfolding get_sectab
get_sectab_untagged m p names tab (untagged, clear, same) =
    rw (untagged, clear) (ap some (sym same))

get_sectab_tagged :
    (m : Memory) (p : ℕ) (names : Bool) (tab : SectView)
    → is_sectioned (header_at m p) ≡ true
    → tab ≡ table_view m p
    → IsValid m (header_at m p) (table_view m p) names
    → get_sectab m p names ≡ some tab
unfolding get_sectab
get_sectab_tagged m p names tab tagged same valid =
    let h = header_at m p in
    let view = table_view m p in
    let header_ok = IsValid-header_ok m p names valid in
    let mains = IsValid-main_sections_ok m h view names valid in
    let entries =
      Checked-entries_ok m h view names view.num 0 no_entry
        (IsValid-Checked m h view names valid) in
    rw (tagged, header_ok, entries, mains) (ap some (sym same))

-- `get_sectab` succeeds in two cases exactly: for an untagged header with clear count bits, with the
-- empty view, and for a sectioned header with the view of its table, if the header has clear upper
-- flags, the version of section tables and a symbol table within the cap, its table keeps every promise
-- of the format, and, where names are looked at, each of them ends inside of the symbol table. All
-- else is rejected, whatever the bytes behind the header are.
pub get_sectab-IsSectab :
    (m : Memory) (p : ℕ) (names : Bool) (tab : SectView)
    → let h = header_at m p in
      (get_sectab m p names ≡ some tab) ↔ (
        ((is_sectioned h ≡ false) × (hdr_num_sections h.flags ≡ 0) × (tab ≡ empty_view m p))
        ⊎ ((is_sectioned h ≡ true) × (tab ≡ table_view m p) × IsValid m h tab names))
get_sectab-IsSectab m p names tab = (
  λ e. elim (get_sectab_cases m p names e) [
    | inl untagged ↦ inl untagged
    | inr (tagged, same, header_ok, entries, mains) ↦
        let (pos, count) = table_view-num m p header_ok in
        inr (
          tagged,
          same,
          rw same (
              entries_ok-IsValid m (header_at m p) (table_view m p) names
                (header_ok-IsTagged (header_at m p) header_ok) pos count entries mains),
        )
  ],
  λ either. elim either [
    | inl untagged ↦ get_sectab_untagged m p names tab untagged
    | inr (tagged, same, valid) ↦ get_sectab_tagged m p names tab tagged same (rw same at valid)
  ],
)
