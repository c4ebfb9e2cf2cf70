-- ===== src/Compare/Symbols/Meaning.antt =====
-- The comparison of symbols and of programs in src/analysis/ProgramComparator.cpp against the
-- relation that it decides.
pub mod Programs
use Prim.Native.String.{String}
use ppc2cpp.Prelude.{
  ℕ, zero, suc, ◌+◌, ◌*◌, ◌<◌, ◌≤◌, ◌≡◌, ◌↔◌, ◌⊎◌, inl, inr, refl, ap, subst, sym, ◌∙◌, Bool, true,
  false, not, ◌&&◌, ◌||◌, Option, none, some, List, [], ◌∷◌, if◌then◌else◌, ◌==◌, ltb, arith,
  Bool-cases, Option-cases,
}
use ppc2cpp.Common.Endian.{Endian, be32, load32}
use ppc2cpp.Model.Location.{ProgramLocation, advance}
use ppc2cpp.Model.Symbol.{Symbol, Relocation}
use ppc2cpp.Model.SymbolTable.{is_local, lookup_by_name}
use ppc2cpp.Model.RelocationTable.{lookup_by_source, lookup_by_insn_loc}
use ppc2cpp.Program.{
  Buffer, Outcome, ok, err, assertion_failed, ◌>>=◌, ◌>>◌, value, assert, bind-eq-ok, if-eq-ok,
  if-eq-true,
}
use ppc2cpp.Loading.{
  SectionType, type_text, type_data, type_bss, type_noload, eq_section_type, BinarySection,
  ProgramLoader, section_at, get_buffer_at_location,
}
use ppc2cpp.Compare.Symbols.{
  RelocTypes, get_reloc_mask, masked_equal, compare_relocations, compare_at, compare_insn,
  compare_word, compare_each, compare_size, rounds_of, close_sizes, equal_bytes, unaligned,
  compare_functions, compare_data, by_section_type, compare_symbols, compare_all, compare_programs,
}
use ppc2cpp.Compare.Symbols.Match.{
  AgreeOutside, compare_each_iff, equal_bytes_iff, masked_equal_iff, RelocationsMatch,
  compare_relocations_iff, PlacesMatch, both_buffers_iff,
}

module _ (host : Endian) (types : RelocTypes) (p1 p2 : ProgramLoader) where
  module _ (Same : Symbol → Symbol → Type 0) where
    -- The words agree but for the bits that a relocation fills in.
    abbrev pub InsnsMatch : Symbol → Symbol → ℕ → Type 0
    InsnsMatch source target off =
        let pos1 = advance target.location off in
        let pos2 = advance source.location off in
        PlacesMatch host types p1 p2 Same
          (λ r b1 b2.
            AgreeOutside 32 (get_reloc_mask types r.type) (be32 host (load32 host b1))
              (be32 host (load32 host b2)))
          (lookup_by_insn_loc p1.reloctab pos1) (lookup_by_insn_loc p2.reloctab pos2) pos1 pos2

    abbrev pub WordsMatch : Symbol → Symbol → ℕ → Type 0
    WordsMatch source target off =
        let pos1 = advance target.location off in
        let pos2 = advance source.location off in
        PlacesMatch host types p1 p2 Same (λ r b1 b2. Unit {0}) (lookup_by_source p1.reloctab pos1)
          (lookup_by_source p2.reloctab pos2) pos1 pos2

    -- The sizes differ by less than eight, and all instructions up to the larger one match.
    abbrev pub FunctionsMatch : Symbol → Symbol → Type 0
    FunctionsMatch source target =
        (close_sizes source.size target.size ≡ true)
        × ((k : ℕ) → 4 * k < compare_size source target → InsnsMatch source target (4 * k))

    -- Both have a buffer. If one of the places and sizes is no multiple of four, all words match;
    -- otherwise all bytes are equal.
    abbrev pub DataMatch : Symbol → Symbol → Type 0
    DataMatch source target =
        (b1 : Buffer) × (b2 : Buffer) × (get_buffer_at_location p1 target.location ≡ some b1)
        × (get_buffer_at_location p2 source.location ≡ some b2)
        × (((unaligned source target ≡ true)
              × ((k : ℕ) → 4 * k < compare_size source target → WordsMatch source target (4 * k)))
            ⊎ ((unaligned source target ≡ false)
                × ((i : ℕ) → i < compare_size source target → b1 i ≡ b2 i)))

  module _ (compare : Symbol → Symbol → Outcome Bool) (Same : Symbol → Symbol → Type 0)
      (agrees : (a b : Symbol) → (compare a b ≡ ok true) ↔ Same a b) where
    compare_at_iff :
        (related : Relocation → Relocation → Buffer → Buffer → Outcome Bool)
        (Related : Relocation → Buffer → Buffer → Type 0) (o1 o2 : Option Relocation)
        (pos1 pos2 : ProgramLocation)
        → ((r1 r2 : Relocation) (b1 b2 : Buffer)
            → (related r1 r2 b1 b2 ≡ ok true)
              ↔ (RelocationsMatch host types p1 p2 Same r1 r2 × Related r1 b1 b2))
        → (compare_at host types p1 p2 related o1 o2 pos1 pos2 ≡ ok true)
          ↔ PlacesMatch host types p1 p2 Same Related o1 o2 pos1 pos2
    unfolding compare_at
    compare_at_iff related Related none none pos1 pos2 h =
        let bufs =
          both_buffers_iff host types p1 p2 pos1 pos2
            (λ b. ok (load32 host b.0 == load32 host b.1)) in
        (
          λ e.
              let (b1, b2, h1, h2, equal) = bufs.0 e in
              record {
                buf1 = b1;
                buf2 = b2;
                has1 = h1;
                has2 = h2;
                agree = inl (refl, refl, ground arith);
              },
          λ m. bufs.1 (
            m.buf1,
            m.buf2,
            m.has1,
            m.has2,
            elim m.agree [
              | inl (n1, n2, equal) ↦ ground arith
              | inr (r1, r2, s1, s2, rest, w) ↦ absurd (cc)
            ],
          ),
        )
    compare_at_iff related Related (some r1) (some r2) pos1 pos2 h =
        let bufs = both_buffers_iff host types p1 p2 pos1 pos2 (λ b. related r1 r2 b.0 b.1) in
        (
          λ e.
              let (b1, b2, h1, h2, equal) = bufs.0 e in
              record {
                buf1 = b1;
                buf2 = b2;
                has1 = h1;
                has2 = h2;
                agree =
                    let (match, words) = (h r1 r2 b1 b2).0 equal in
                    inr (r1, r2, refl, refl, match, words);
              },
          λ m. bufs.1 (
            m.buf1,
            m.buf2,
            m.has1,
            m.has2,
            elim m.agree [
              | inl (n1, n2, equal) ↦ absurd (cc)
              | inr (r1', r2', s1, s2, rest, w) ↦ (h r1 r2 m.buf1 m.buf2).1 (
                  subst
                    (λ (r : Relocation).
                      RelocationsMatch host types p1 p2 Same r r2 × Related r m.buf1 m.buf2)
                    {x = r1'} {y = r1} (cc)
                    (subst
                      (λ (r : Relocation).
                        RelocationsMatch host types p1 p2 Same r1' r × Related r1' m.buf1 m.buf2)
                      {x = r2'} {y = r2} (cc) (rest, w)))
            ],
          ),
        )
    compare_at_iff related Related none (some r2) pos1 pos2 h = (
      λ e. absurd (ground arith),
      λ m. elim m.agree [
        | inl (n1, n2, equal) ↦ absurd (cc)
        | inr (r1', r2', s1, s2, rest, w) ↦ absurd (cc)
      ],
    )
    compare_at_iff related Related (some r1) none pos1 pos2 h = (
      λ e. absurd (ground arith),
      λ m. elim m.agree [
        | inl (n1, n2, equal) ↦ absurd (cc)
        | inr (r1', r2', s1, s2, rest, w) ↦ absurd (cc)
      ],
    )

    compare_insn_iff :
        (source target : Symbol) (off : ℕ)
        → (compare_insn host types p1 p2 compare source target off ≡ ok true)
          ↔ InsnsMatch Same source target off
    unfolding compare_insn
    compare_insn_iff source target off =
        let pos1 = advance target.location off in
        let pos2 = advance source.location off in
        compare_at_iff
          (λ r1 r2 b1 b2. compare_relocations host types p1 p2 compare r1 r2 >>= λ same.
            ok (if same then masked_equal host types p1 p2 r1 b1 b2 else false))
          (λ r b1 b2.
            AgreeOutside 32 (get_reloc_mask types r.type) (be32 host (load32 host b1))
              (be32 host (load32 host b2)))
          (lookup_by_insn_loc p1.reloctab pos1) (lookup_by_insn_loc p2.reloctab pos2) pos1 pos2
          (λ r1 r2 b1 b2.
            let relocs = compare_relocations_iff host types p1 p2 compare Same agrees r1 r2 in
            let masked = masked_equal_iff host types p1 p2 r1 b1 b2 in
            (
              λ e.
                  let (same, run, e1) =
                    bind-eq-ok (compare_relocations host types p1 p2 compare r1 r2) _ e in
                  let (t, m) =
                    if-eq-true same (masked_equal host types p1 p2 r1 b1 b2) (ground arith) in
                  (relocs.0 (run ∙ ap ok t), masked.0 m),
              λ h. rw (relocs.1 h.0, ◌>>=◌) (ap ok (masked.1 h.1)),
            ))

    compare_word_iff :
        (source target : Symbol) (off : ℕ)
        → (compare_word host types p1 p2 compare source target off ≡ ok true)
          ↔ WordsMatch Same source target off
    unfolding compare_word
    compare_word_iff source target off =
        let pos1 = advance target.location off in
        let pos2 = advance source.location off in
        compare_at_iff (λ r1 r2 b1 b2. compare_relocations host types p1 p2 compare r1 r2)
          (λ r b1 b2. Unit {0}) (lookup_by_source p1.reloctab pos1)
          (lookup_by_source p2.reloctab pos2) pos1 pos2
          (λ r1 r2 b1 b2.
            let relocs = compare_relocations_iff host types p1 p2 compare Same agrees r1 r2 in
            (λ e. (relocs.0 e, tt), λ h. relocs.1 h.0))

    each_iff :
        (round : ℕ → Outcome Bool) (Round : ℕ → Type 0) (size : ℕ)
        → ((off : ℕ) → (round off ≡ ok true) ↔ Round off)
        → (compare_each round (rounds_of size) 0 ≡ ok true)
          ↔ ((k : ℕ) → 4 * k < size → Round (4 * k))
    each_iff round Round size h =
        let each = compare_each_iff round (rounds_of size) 0 in
        (
          λ e k l. (h (4 * k)).0 (
              subst (λ m. round m ≡ ok true) {x = 0 + 4 * k} {y = 4 * k} (omega arith)
                (each.0 e k (omega arith))),
          λ all. each.1 (λ k l.
              subst (λ m. round m ≡ ok true) {x = 4 * k} {y = 0 + 4 * k} (omega arith)
                ((h (4 * k)).1 (all k (omega arith)))),
        )

    pub compare_functions_iff :
        (source target : Symbol)
        → (compare_functions host types p1 p2 compare source target ≡ ok true)
          ↔ FunctionsMatch Same source target
    unfolding compare_functions
    compare_functions_iff source target =
        let each =
          each_iff (compare_insn host types p1 p2 compare source target)
            (InsnsMatch Same source target) (compare_size source target)
            (compare_insn_iff source target) in
        (
          λ e. elim (Bool-cases (close_sizes source.size target.size)) [
            | inl t ↦ (t, each.0 (rw (t, compare_functions) at e))
            | inr f ↦ absurd (
                let no : ◌≡◌ {A = Outcome Bool} (err assertion_failed) (ok true) =
                  rw (f, compare_functions) at e in
                cc)
          ],
          λ h. rw (h.0, compare_functions) (each.1 h.1),
        )

    pub compare_data_iff :
        (source target : Symbol)
        → (compare_data host types p1 p2 compare source target ≡ ok true)
          ↔ DataMatch Same source target
    unfolding compare_data
    compare_data_iff source target =
        let size = compare_size source target in
        let bufs = both_buffers_iff host types p1 p2 target.location source.location (λ b.
          if unaligned source target
          then compare_each (compare_word host types p1 p2 compare source target) (rounds_of size) 0
          else ok (equal_bytes size b.0 b.1)) in
        let each =
          each_iff (compare_word host types p1 p2 compare source target)
            (WordsMatch Same source target) size (compare_word_iff source target) in
        (
          λ e.
              let (b1, b2, h1, h2, run) = bufs.0 e in
              (
                b1,
                b2,
                h1,
                h2,
                elim (Bool-cases (unaligned source target)) [
                  | inl t ↦ inl (t, each.0 (rw t at run))
                  | inr f ↦
                      let equal : ◌≡◌ {A = Outcome Bool} (ok (equal_bytes size b1 b2)) (ok true) =
                        rw f at run in
                      inr (f, (equal_bytes_iff size b1 b2).0 (ground arith))
                ],
              ),
          λ h.
              let (b1, b2, h1, h2, match) = h in
              bufs.1 (
                b1,
                b2,
                h1,
                h2,
                elim match [
                  | inl (t, all) ↦ rw t (each.1 all)
                  | inr (f, all) ↦ rw f (ap ok ((equal_bytes_iff size b1 b2).1 all))
                ],
              ),
        )
