-- ===== src/Modules/Search.antt =====
-- The binary search of udynlink_lookup_symbol, udynlink/udynlink.c: a hit has the name, enough fuel
-- is given, and over entries in the order of their names every name that is there is found.
use udynlink.Prelude.{
  ℕ, zero, suc, ◌+◌, ◌-◌, ◌/◌, ◌≡◌, ◌⊎◌, ◌<◌, ◌≤◌, inl, inr, refl, sym, ◌∙◌, arith, Ordering,
  Option-cases, some, List,
}
use native.Mathlib.Decide.{dec_lt, ℕ_discrete}
use mathlib.Core.Path.{ap}
use udynlink.Memory.{Memory}
use udynlink.Symbols.{Sym, get_sym_at, compare_name}
use udynlink.Modules.{search_names, find_symbol, Module}

Ordering-cases : (o : Ordering) → (o ≡ Ordering.lt) ⊎ ((o ≡ Ordering.eq) ⊎ (o ≡ Ordering.gt))
Ordering-cases Ordering.lt = inl refl
Ordering-cases Ordering.eq = inr (inl refl)
Ordering-cases Ordering.gt = inr (inr refl)

module _ (m : Memory) (p_header : ℕ) (name : List ℕ) where
  -- An entry whose name is the one looked for.
  abbrev IsHit : ℕ → Sym → Type 0
  IsHit i entry =
      (get_sym_at m p_header i ≡ some entry) × (compare_name m entry.name name ≡ Ordering.eq)

  abbrev middle : ℕ → ℕ → ℕ
  middle lo hi = lo + (hi - lo) / 2

  -- One round of the search, by what it finds in the middle.
  module _ (fuel lo hi : ℕ) (entry : Sym) (ordered : lo ≤ hi)
      (at : get_sym_at m p_header (middle lo hi) ≡ some entry) where
    round_hit :
        compare_name m entry.name name ≡ Ordering.eq
        → search_names m p_header name (suc fuel) lo hi ≡ some entry
    unfolding search_names
    round_hit same = ground (arith, at, same)

    round_above :
        compare_name m entry.name name ≡ Ordering.lt
        → search_names m p_header name (suc fuel) lo hi
          ≡ search_names m p_header name fuel (middle lo hi + 1) hi
    unfolding search_names
    round_above less = ground (arith, at, less)

    round_below :
        compare_name m entry.name name ≡ Ordering.gt
        → search_names m p_header name (suc fuel) lo hi
          ≡ search_names m p_header name fuel lo (middle lo hi - 1)
    unfolding search_names
    round_below more = ground (arith, at, more)

  -- A round that finds something reads an entry in the middle.
  round_reads :
      (fuel lo hi : ℕ) {found : Sym}
      → search_names m p_header name (suc fuel) lo hi ≡ some found
      → (lo ≤ hi) × (entry : Sym) × (get_sym_at m p_header (middle lo hi) ≡ some entry)
  unfolding search_names
  round_reads fuel lo hi e = elim (Option-cases (get_sym_at m p_header (middle lo hi))) [
    | inl out ↦ ground (arith, out)
    | inr (entry, at) ↦ (ground arith, entry, at)
  ]

  -- What a search finds stands between its bounds and has the name.
  search_names-IsHit :
      (fuel lo hi : ℕ) {found : Sym}
      → 1 ≤ lo
      → search_names m p_header name fuel lo hi ≡ some found
      → (i : ℕ) × (lo ≤ i) × (i ≤ hi) × IsHit i found
  unfolding search_names
  search_names-IsHit zero lo hi one e = ground arith
  search_names-IsHit (suc fuel) lo hi {found} one e =
      let (ordered, entry, at) = round_reads fuel lo hi e in
      elim (Ordering-cases (compare_name m entry.name name)) [
        | inl less ↦
            let (i, from, to, hit) =
              search_names-IsHit fuel (middle lo hi + 1) hi (omega arith)
                (sym (round_above fuel lo hi entry ordered at less) ∙ e) in
            (i, omega arith, to, hit)
        | inr (inl same) ↦
            let same_entry = sym (round_hit fuel lo hi entry ordered at same) ∙ e in
            (
              middle lo hi,
              omega arith,
              omega arith,
              (ground (arith, at, same_entry), ground (arith, same, same_entry)),
            )
        | inr (inr more) ↦
            let (i, from, to, hit) =
              search_names-IsHit fuel lo (middle lo hi - 1) one
                (sym (round_below fuel lo hi entry ordered at more) ∙ e) in
            (i, from, omega arith, hit)
      ]

  module _ (entries : ℕ → Sym) (n : ℕ)
      (all : (i : ℕ) → 1 ≤ i → i ≤ n → get_sym_at m p_header i ≡ some (entries i))
      (low : (i j : ℕ)
        → 1 ≤ i
        → i < j
        → j ≤ n
        → compare_name m (entries j).name name ≡ Ordering.lt
        → compare_name m (entries i).name name ≡ Ordering.lt)
      (high : (i j : ℕ)
        → 1 ≤ i
        → i < j
        → j ≤ n
        → compare_name m (entries i).name name ≡ Ordering.gt
        → compare_name m (entries j).name name ≡ Ordering.gt) where
    -- The entry looked for stands above an entry with a smaller name, and below one with a greater.
    hit_above :
        (mid k : ℕ)
        → 1 ≤ k
        → mid ≤ n
        → compare_name m (entries mid).name name ≡ Ordering.lt
        → compare_name m (entries k).name name ≡ Ordering.eq
        → mid < k
    hit_above mid k one end less hit = elim (dec_lt mid k) [
      | yes after ↦ after
      | no miss ↦ elim (ℕ_discrete k mid) [
        | yes same ↦ ground (arith, ap (λ i. compare_name m (entries i).name name) same, less, hit)
        | no apart ↦ ground (arith, low k mid one (omega arith) end less, hit)
      ]
    ]

    hit_below :
        (mid k : ℕ)
        → 1 ≤ mid
        → k ≤ n
        → compare_name m (entries mid).name name ≡ Ordering.gt
        → compare_name m (entries k).name name ≡ Ordering.eq
        → k < mid
    hit_below mid k one end more hit = elim (dec_lt k mid) [
      | yes before ↦ before
      | no miss ↦ elim (ℕ_discrete k mid) [
        | yes same ↦ ground (arith, ap (λ i. compare_name m (entries i).name name) same, more, hit)
        | no apart ↦ ground (arith, high mid k one (omega arith) end more, hit)
      ]
    ]

    search_names_complete :
        (fuel lo hi k : ℕ)
        → hi - lo < fuel
        → 1 ≤ lo
        → lo ≤ k
        → k ≤ hi
        → hi ≤ n
        → compare_name m (entries k).name name ≡ Ordering.eq
        → (j : ℕ) × (search_names m p_header name fuel lo hi ≡ some (entries j))
          × (compare_name m (entries j).name name ≡ Ordering.eq)
    unfolding search_names
    search_names_complete zero lo hi k enough one from to end hit = ground arith
    search_names_complete (suc fuel) lo hi k enough one from to end hit =
        let mid = middle lo hi in
        let at = all mid (omega arith) (omega arith) in
        elim (Ordering-cases (compare_name m (entries mid).name name)) [
          | inl less ↦
              let after = hit_above mid k (omega arith) (omega arith) less hit in
              let (j, e, same) =
                search_names_complete fuel (mid + 1) hi k (omega arith) (omega arith) (omega arith)
                  to end hit in
              (j, round_above fuel lo hi (entries mid) (omega arith) at less ∙ e, same)
          | inr (inl same) ↦ (mid, round_hit fuel lo hi (entries mid) (omega arith) at same, same)
          | inr (inr more) ↦
              let before = hit_below mid k (omega arith) (omega arith) more hit in
              let (j, e, same) =
                search_names_complete fuel lo (mid - 1) k (omega arith) one from (omega arith)
                  (omega arith) hit in
              (j, round_below fuel lo hi (entries mid) (omega arith) at more ∙ e, same)
        ]

-- A module whose names are known to be in order is searched by bisection, with fuel enough. If an
-- entry that the count covers has the name, an entry with this name is found. That the names are in
-- order is asked of the comparisons with the name looked for: below an entry that compares less all
-- compare less, and above one that compares greater all compare greater.
pub find_symbol_complete :
    (m : Memory) (p_mod : Module) (name : List ℕ) (entries : ℕ → Sym)
    → ((i : ℕ)
        → 1 ≤ i
        → i ≤ p_mod.num_named_syms
        → get_sym_at m p_mod.p_header i ≡ some (entries i))
    → ((i j : ℕ)
        → 1 ≤ i
        → i < j
        → j ≤ p_mod.num_named_syms
        → compare_name m (entries j).name name ≡ Ordering.lt
        → compare_name m (entries i).name name ≡ Ordering.lt)
    → ((i j : ℕ)
        → 1 ≤ i
        → i < j
        → j ≤ p_mod.num_named_syms
        → compare_name m (entries i).name name ≡ Ordering.gt
        → compare_name m (entries j).name name ≡ Ordering.gt)
    → (k : ℕ) → 1 ≤ k
    → k ≤ p_mod.num_named_syms
    → compare_name m (entries k).name name ≡ Ordering.eq
    → (j : ℕ) × (find_symbol m p_mod name ≡ some (entries j))
      × (compare_name m (entries j).name name ≡ Ordering.eq)
unfolding find_symbol
find_symbol_complete m p_mod name entries all low high k one end hit =
    let n = p_mod.num_named_syms in
    let (j, e, same) =
      search_names_complete m p_mod.p_header name entries n all low high (n + 1) 1 n k (omega arith)
        (omega arith) one end (omega arith) hit in
    (j, ground (arith, e), same)

-- What the bisection finds is an entry of the table, among those that the count covers, and it has
-- the name.
find_symbol-IsHit :
    (m : Memory) (p_mod : Module) (name : List ℕ) {found : Sym}
    → 0 < p_mod.num_named_syms
    → find_symbol m p_mod name ≡ some found
    → (i : ℕ) × (1 ≤ i) × (i ≤ p_mod.num_named_syms) × IsHit m p_mod.p_header name i found
unfolding find_symbol
find_symbol-IsHit m p_mod name {found} sorted e =
    search_names-IsHit m p_mod.p_header name (p_mod.num_named_syms + 1) 1 p_mod.num_named_syms
      (omega arith) (ground (arith, e))
