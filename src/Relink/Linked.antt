-- ===== src/Relink/Linked.antt =====
-- Linking a loaded, untagged module again, in udynlink/udynlink.c, against what its relocations ask
-- for.
use udynlink.Prelude.{
  ℕ, zero, suc, ◌+◌, ◌%◌, ◌^◌, ◌≡◌, ◌≢◌, ◌⊎◌, ◌<◌, refl, inl, inr, arith, Bool, true, false,
  Option-cases, some, none, ap, ◌∙◌,
}
use udynlink.Memory.{Memory, read32}
use udynlink.Memory.Laws.{read32-write32}
use udynlink.Header.{ok}
use udynlink.Symbols.{Sym}
use udynlink.Modules.{Module, Resolver, header_of}
use udynlink.Relocs.{Walk, symt_word}
use udynlink.Relocs.Passes.{SameBut}
use udynlink.Relocs.Wishes.{run, IsWalk, run_lem}
use udynlink.Relocs.Verdicts.{carry_out, leave, put}
use udynlink.Relocs.Slots.{slot, IsLinkable, rounds-apart}
use udynlink.Relink.{relink_loop, apply_extern_relocations, link}
use udynlink.Relink.Slots.{
  link_walk, extern_symbol, host_address, extern_verdict, round, round_byte, round_outside,
}

-- What is found in the slots.
pub record AreLinked (resolve : Resolver) (incremental : Bool) (m : Memory) (w : Walk)
    (num_rels : ℕ) (m' : Memory) : Type 0 where
  pub addressed :
      (j p : ℕ) (s : Sym)
      → j < num_rels
      → slot m w j ≡ some p
      → extern_symbol m w (symt_word m w.p_relocations j) ≡ some s
      → (incremental ≡ false) ⊎ (read32 m p ≡ 0)
      → read32 m' p ≡ host_address resolve m w.p_mod s.name % 2 ^ 32
  pub filled :
      (j p : ℕ)
      → j < num_rels
      → slot m w j ≡ some p
      → incremental ≡ true
      → read32 m p ≢ 0
      → read32 m' p ≡ read32 m p
  pub other :
      (j p : ℕ)
      → j < num_rels
      → slot m w j ≡ some p
      → extern_symbol m w (symt_word m w.p_relocations j) ≡ none
      → read32 m' p ≡ read32 m p
  pub outside : SameBut (slot m w) num_rels m m'

module _ (resolve : Resolver) (incremental : Bool) (m : Memory) (p_mod : Module) (num_rels : ℕ)
    (linkable : IsLinkable resolve m (link_walk m p_mod) num_rels) where
  link-IsWalk :
      IsWalk
        (round resolve incremental (link_walk m p_mod))
        (slot m (link_walk m p_mod))
        num_rels
        m
        (λ j p.
          extern_verdict resolve incremental m
            (link_walk m p_mod)
            p
            (symt_word m (link_walk m p_mod).p_relocations j))
  link-IsWalk = record {
    apart = rounds-apart resolve m (link_walk m p_mod) num_rels linkable;
    outside = λ j n a lt near outside.
        round_outside resolve incremental m (link_walk m p_mod) num_rels linkable refl refl n near j
          a lt outside;
    carried = λ j p n a lt at near word.
        round_byte resolve incremental m (link_walk m p_mod) num_rels linkable refl refl n near j p
          a lt at word;
  }

-- What a relocation asks for.
module _ (resolve : Resolver) (incremental : Bool) (m : Memory) (w : Walk) (p symt : ℕ) where
  verdict_addressed :
      (s : Sym)
      → extern_symbol m w symt ≡ some s
      → (incremental ≡ false) ⊎ (read32 m p ≡ 0)
      → extern_verdict resolve incremental m w p symt ≡ put (host_address resolve m w.p_mod s.name)
  unfolding extern_verdict
  verdict_addressed s known open_slot = ground (arith, known)

  verdict_filled :
      incremental ≡ true → read32 m p ≢ 0 → extern_verdict resolve incremental m w p symt ≡ leave
  unfolding extern_verdict
  verdict_filled on full = elim (Option-cases (extern_symbol m w symt)) [
    | inl missing ↦ ground (arith, missing)
    | inr (s, known) ↦ ground (arith, known)
  ]

  verdict_other :
      extern_symbol m w symt ≡ none → extern_verdict resolve incremental m w p symt ≡ leave
  unfolding extern_verdict
  verdict_other missing = rw (missing, extern_verdict) refl

relink_loop-run :
    (resolve : Resolver) (incremental : Bool) (w : Walk) (left i : ℕ) (m : Memory)
    → run (round resolve incremental w) left i m
      ≡ relink_loop resolve incremental w.p_mod w.tab w.p_relocations left i m
unfolding relink_loop run
relink_loop-run resolve incremental w zero i m = refl
relink_loop-run resolve incremental w (suc left) i m =
    relink_loop-run resolve incremental w left (i + 1) (round resolve incremental w i m)

link-run :
    (resolve : Resolver) (incremental : Bool) (m : Memory) (p_mod : Module)
    → p_mod.p_header ≢ 0
    → link resolve incremental (some p_mod) m
      ≡ (ok, run (round resolve incremental (link_walk m p_mod)) (header_of m p_mod).num_rels 0 m)
unfolding link apply_extern_relocations
link-run resolve incremental m p_mod live =
    let walked =
      relink_loop-run resolve incremental (link_walk m p_mod) (header_of m p_mod).num_rels 0 m in
    ground (arith, walked)

-- Linking an untagged module again, whose relocations patch words apart from each other and from what
-- the walk reads, succeeds. It writes the host's address of an extern symbol, or 0 while that is
-- deferred, into each slot that refers to one, or, if it is incremental, into those of them that hold
-- 0. Every other slot, and all other memory, is as it was.
pub link-AreLinked :
    (resolve : Resolver) (incremental : Bool) (m : Memory) (p_mod : Module)
    → p_mod.p_header ≢ 0
    → IsLinkable resolve m (link_walk m p_mod) (header_of m p_mod).num_rels
    → let (code, m') = link resolve incremental (some p_mod) m in
      (code ≡ ok)
      × AreLinked resolve incremental m (link_walk m p_mod) (header_of m p_mod).num_rels m'
link-AreLinked resolve incremental m p_mod live linkable =
    let w = link_walk m p_mod in
    let num_rels = (header_of m p_mod).num_rels in
    let asked =
      λ (j p : ℕ). extern_verdict resolve incremental m w p (symt_word m w.p_relocations j) in
    let (outside, word) =
      run_lem (round resolve incremental w) (slot m w) num_rels m asked
        (link-IsWalk resolve incremental m p_mod num_rels linkable) in
    rw (link-run resolve incremental m p_mod live) (
      refl,
      record {
        addressed = λ j p s lt at known free.
            word j p lt at
            ∙ ap (λ v. read32 (carry_out v m p) p)
                (verdict_addressed resolve incremental m w p (symt_word m w.p_relocations j) s known
                  free)
            ∙ read32-write32 m p (host_address resolve m p_mod s.name);
        filled = λ j p lt at on full.
            word j p lt at
            ∙ ap (λ v. read32 (carry_out v m p) p)
                (verdict_filled resolve incremental m w p (symt_word m w.p_relocations j) on full);
        other = λ j p lt at missing.
            word j p lt at
            ∙ ap (λ v. read32 (carry_out v m p) p)
                (verdict_other resolve incremental m w p (symt_word m w.p_relocations j) missing);
        outside = outside;
      },
    )
