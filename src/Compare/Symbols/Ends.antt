-- ===== src/Compare/Symbols/Ends.antt =====
-- When the recursion of `compareSymbols` in src/analysis/ProgramComparator.cpp ends.
use text.Mathlib.Text.{◌==◌ as str_eq}
use ppc2cpp.Prelude.{
  ℕ, zero, suc, ◌+◌, ◌*◌, ◌<◌, ◌≡◌, ◌≢◌, ◌==◌, is_some, refl, subst, Bool, true, false, ◌||◌,
  Option, none, some, List, [], ◌∷◌, if◌then◌else◌, arith, get_elem?, Bool-cases, Option-cases, inl,
  inr,
}
use ppc2cpp.Common.Endian.{Endian}
use ppc2cpp.Model.Location.{ProgramLocation, advance}
use ppc2cpp.Model.Symbol.{Symbol, Relocation}
use ppc2cpp.Model.SymbolTable.{is_local, lookup_by_name, lookup_by_location}
use ppc2cpp.Model.RelocationTable.{RelocationTable, lookup_by_source, lookup_by_insn_loc}
use ppc2cpp.Program.{Buffer, Outcome, ok, err, out_of_fuel, ◌>>=◌, value, assert}
use ppc2cpp.Loading.{
  SectionType, type_text, type_data, type_bss, type_noload, eq_section_type, BinarySection,
  ProgramLoader, section_at, get_buffer_at_location,
}
use ppc2cpp.Compare.Symbols.Fuel.{
  Ends, Ends-bind, Ends-ok, Ends-value, Ends-assert, Ends-if, compare_each-Ends,
}
use ppc2cpp.Compare.Symbols.{
  RelocTypes, compare_relocations, both_buffers, masked_equal, compare_at, compare_insn,
  compare_word, compare_each, compare_size, rounds_of, close_sizes, equal_bytes, unaligned,
  compare_functions, compare_data, by_section_type, compare_symbols, compare_all, compare_programs,
}

lookup_by_insn_loc-source :
    (t : RelocationTable) (loc : ProgramLocation) (r : Relocation)
    → lookup_by_source t loc ≡ some r
    → lookup_by_insn_loc t loc ≡ some r
unfolding lookup_by_insn_loc
lookup_by_insn_loc-source t loc r e = rw (e, lookup_by_insn_loc) refl

module _ (p1 p2 : ProgramLoader) where
  -- At an offset that the comparison of the symbols reads, both programs have a relocation, and the
  -- symbols that these lead to are compared by recursion, as one of them is local.
  pub record Refers (source target s1 s2 : Symbol) : Type 0 where
    pub word : ℕ
    pub inside : word < rounds_of (compare_size source target)
    pub r1 : Relocation
    pub r2 : Relocation
    pub reloc1 : lookup_by_insn_loc p1.reloctab (advance target.location (4 * word)) ≡ some r1
    pub reloc2 : lookup_by_insn_loc p2.reloctab (advance source.location (4 * word)) ≡ some r2
    pub symbol1 : lookup_by_location p1.symtab r1.destination ≡ some s1
    pub symbol2 : lookup_by_location p2.symtab r2.destination ≡ some s2
    pub local : is_local s1 || is_local s2 ≡ true

  -- No chain of such references from the symbols has n links.
  abbrev pub Nested : ℕ → Symbol → Symbol → Type 0
  Nested zero source target = ⊥
  Nested (suc n) source target = (s1 s2 : Symbol) → Refers source target s1 s2 → Nested n s1 s2

  module _ (host : Endian) (types : RelocTypes) where
    both_buffers-Ends :
        (pos1 pos2 : ProgramLocation) → Ends (both_buffers host types p1 p2 pos1 pos2)
    both_buffers-Ends pos1 pos2 =
        let o1 = get_buffer_at_location p1 pos1 in
        let o2 = get_buffer_at_location p2 pos2 in
        let both : Buffer → Outcome (Buffer × Buffer) = λ b1. value o2 >>= λ b2. ok (b1, b2) in
        Ends-bind (assert (is_some o1)) (λ _. assert (is_some o2) >>= λ _. value o1 >>= both)
          (Ends-assert (is_some o1))
          (λ _.
            Ends-bind (assert (is_some o2)) (λ _. value o1 >>= both) (Ends-assert (is_some o2))
              (λ _.
                Ends-bind (value o1) both (Ends-value o1) (λ b1.
                  Ends-bind (value o2) (λ b2. ok (b1, b2)) (Ends-value o2) (λ b2. Ends-ok _))))

    module _ (compare : Symbol → Symbol → Outcome Bool) where
      compare_relocations-Ends :
          (r1 r2 : Relocation)
          → ((s1 s2 : Symbol)
              → lookup_by_location p1.symtab r1.destination ≡ some s1
              → lookup_by_location p2.symtab r2.destination ≡ some s2
              → is_local s1 || is_local s2 ≡ true
              → Ends (compare s1 s2))
          → Ends (compare_relocations host types p1 p2 compare r1 r2)
      unfolding compare_relocations
      compare_relocations-Ends r1 r2 h =
          elim (Option-cases (lookup_by_location p1.symtab r1.destination)) [
            | inl n ↦ rw (n, compare_relocations) (λ e. cc)
            | inr (s1, f1) ↦ elim (Option-cases (lookup_by_location p2.symtab r2.destination)) [
              | inl n ↦ rw (f1, n, compare_relocations) (λ e. cc)
              | inr (s2, f2) ↦ elim (Bool-cases (is_local s1 || is_local s2)) [
                | inl l ↦ rw (f1, f2, l, compare_relocations) (h s1 s2 f1 f2 l)
                | inr l ↦
                    rw (f1, f2, l, compare_relocations)
                      (Ends-if (str_eq s1.name s2.name)
                        (if r1.type == r2.type then ok (r1.addend == r2.addend) else ok false)
                        (ok false)
                        (Ends-if (r1.type == r2.type) (ok (r1.addend == r2.addend)) (ok false)
                          (Ends-ok _) (Ends-ok false))
                        (Ends-ok false))
              ]
            ]
          ]

      compare_at-Ends :
          (related : Relocation → Relocation → Buffer → Buffer → Outcome Bool)
          (o1 o2 : Option Relocation) (pos1 pos2 : ProgramLocation)
          → ((r1 r2 : Relocation) (b1 b2 : Buffer)
              → o1 ≡ some r1
              → o2 ≡ some r2
              → Ends (related r1 r2 b1 b2))
          → Ends (compare_at host types p1 p2 related o1 o2 pos1 pos2)
      unfolding compare_at
      compare_at-Ends related none none pos1 pos2 h =
          Ends-bind (both_buffers host types p1 p2 pos1 pos2) _ (both_buffers-Ends pos1 pos2)
            (λ b. Ends-ok _)
      compare_at-Ends related none (some r2) pos1 pos2 h = Ends-ok false
      compare_at-Ends related (some r1) none pos1 pos2 h = Ends-ok false
      compare_at-Ends related (some r1) (some r2) pos1 pos2 h =
          Ends-bind (both_buffers host types p1 p2 pos1 pos2) (λ b. related r1 r2 b.0 b.1)
            (both_buffers-Ends pos1 pos2) (λ b. h r1 r2 b.0 b.1 refl refl)

      module _ (source target : Symbol)
          (ends : (s1 s2 : Symbol) → Refers source target s1 s2 → Ends (compare s1 s2)) where
        related-Ends :
            (word : ℕ) (r1 r2 : Relocation)
            → word < rounds_of (compare_size source target)
            → lookup_by_insn_loc p1.reloctab (advance target.location (4 * word)) ≡ some r1
            → lookup_by_insn_loc p2.reloctab (advance source.location (4 * word)) ≡ some r2
            → Ends (compare_relocations host types p1 p2 compare r1 r2)
        related-Ends word r1 r2 l at1 at2 = compare_relocations-Ends r1 r2 (λ s1 s2 f1 f2 is.
            ends s1 s2 (record {
              word = word;
              inside = l;
              r1 = r1;
              r2 = r2;
              reloc1 = at1;
              reloc2 = at2;
              symbol1 = f1;
              symbol2 = f2;
              local = is;
            }))

        compare_insn-Ends :
            (word : ℕ)
            → word < rounds_of (compare_size source target)
            → Ends (compare_insn host types p1 p2 compare source target (4 * word))
        unfolding compare_insn
        compare_insn-Ends word l =
            let pos1 = advance target.location (4 * word) in
            let pos2 = advance source.location (4 * word) in
            let last : Relocation → Buffer → Buffer → Bool → Outcome Bool = λ r1 b1 b2 same.
              ok (if same then masked_equal host types p1 p2 r1 b1 b2 else false) in
            compare_at-Ends
              (λ r1 r2 b1 b2. compare_relocations host types p1 p2 compare r1 r2 >>= last r1 b1 b2)
              (lookup_by_insn_loc p1.reloctab pos1) (lookup_by_insn_loc p2.reloctab pos2) pos1 pos2
              (λ r1 r2 b1 b2 at1 at2.
                Ends-bind (compare_relocations host types p1 p2 compare r1 r2) (last r1 b1 b2)
                  (related-Ends word r1 r2 l at1 at2) (λ same. Ends-ok _))

        compare_word-Ends :
            (word : ℕ)
            → word < rounds_of (compare_size source target)
            → Ends (compare_word host types p1 p2 compare source target (4 * word))
        unfolding compare_word
        compare_word-Ends word l =
            let pos1 = advance target.location (4 * word) in
            let pos2 = advance source.location (4 * word) in
            compare_at-Ends (λ r1 r2 b1 b2. compare_relocations host types p1 p2 compare r1 r2)
              (lookup_by_source p1.reloctab pos1) (lookup_by_source p2.reloctab pos2) pos1 pos2
              (λ r1 r2 b1 b2 at1 at2.
                related-Ends word r1 r2 l (lookup_by_insn_loc-source p1.reloctab pos1 r1 at1)
                  (lookup_by_insn_loc-source p2.reloctab pos2 r2 at2))

        compare_each_word-Ends :
            (round : ℕ → Outcome Bool) (rounds : ℕ)
            → ((word : ℕ) → word < rounds → Ends (round (4 * word)))
            → Ends (compare_each round rounds 0)
        compare_each_word-Ends round rounds h =
            compare_each-Ends round rounds 0 (λ i l.
              subst (λ n. Ends (round n)) {x = 4 * i} {y = 4 * (0 + i)} (omega arith) (h i l))

        by_section_type-Ends :
            (type : SectionType)
            → Ends (by_section_type host types p1 p2 type compare source target)
        unfolding compare_functions compare_data
        by_section_type-Ends type_noload = Ends-ok true
        by_section_type-Ends type_bss = Ends-ok true
        by_section_type-Ends type_text =
            let rounds = rounds_of (compare_size source target) in
            let insn = compare_insn host types p1 p2 compare source target in
            Ends-bind (assert (close_sizes source.size target.size))
              (λ _. compare_each insn rounds 0) (Ends-assert (close_sizes source.size target.size))
              (λ _. compare_each_word-Ends insn rounds (λ i l. compare_insn-Ends i l))
        by_section_type-Ends type_data =
            let size = compare_size source target in
            let words =
              compare_each (compare_word host types p1 p2 compare source target) (rounds_of size)
                0 in
            let bytes : Buffer × Buffer → Outcome Bool = λ b. ok (equal_bytes size b.0 b.1) in
            Ends-bind (both_buffers host types p1 p2 target.location source.location)
              (λ b. if unaligned source target then words else bytes b)
              (both_buffers-Ends target.location source.location)
              (λ b.
                Ends-if (unaligned source target) words (bytes b)
                  (compare_each_word-Ends (compare_word host types p1 p2 compare source target)
                    (rounds_of size) (λ i l. compare_word-Ends i l))
                  (Ends-ok _))

    -- If no chain of references between local symbols from a pair is as long as the depth, the
    -- comparison of the pair ends within it.
    compare_symbols-Ends :
        (depth : ℕ) (source target : Symbol)
        → Nested depth source target
        → Ends (compare_symbols host types p1 p2 depth source target)
    unfolding compare_symbols
    compare_symbols-Ends zero source target n = absurd n
    compare_symbols-Ends (suc depth) source target n =
        let at1 = value (section_at p1 source.location) in
        let at2 = value (section_at p2 target.location) in
        let contents = λ (s1 : BinarySection).
          by_section_type host types p1 p2 s1.section_type (compare_symbols host types p1 p2 depth)
            source target in
        let after : BinarySection → BinarySection → Outcome Bool = λ s2 s1.
          if eq_section_type s1.section_type s2.section_type then contents s1 else ok false in
        Ends-bind at2 (λ s2. at1 >>= after s2) (Ends-value (section_at p2 target.location))
          (λ s2. Ends-bind at1 (after s2) (Ends-value (section_at p1 source.location)) (λ s1.
            Ends-if (eq_section_type s1.section_type s2.section_type) (contents s1) (ok false)
              (by_section_type-Ends (compare_symbols host types p1 p2 depth) source target
                (λ a b r. compare_symbols-Ends depth a b (n a b r)) s1.section_type)
              (Ends-ok false)))

    compare_all-Ends :
        (depth : ℕ) (targets : List Symbol)
        → ((i : ℕ) (source target : Symbol)
            → get_elem? targets i ≡ some target
            → is_local target ≡ false
            → lookup_by_name p1.symtab target.name ≡ some source
            → Nested depth source target)
        → Ends (compare_all host types p1 p2 depth targets)
    unfolding compare_all
    compare_all-Ends depth [] h = Ends-ok true
    compare_all-Ends depth (target ∷ targets) h =
        let rest = compare_all host types p1 p2 depth targets in
        let ends =
          compare_all-Ends depth targets (λ i s t at is found. h (suc i) s t at is found) in
        elim (Bool-cases (is_local target)) [
          | inl l ↦ rw (l, compare_all) ends
          | inr l ↦ elim (Option-cases (lookup_by_name p1.symtab target.name)) [
            | inl n ↦ rw (l, n, compare_all) (Ends-ok false)
            | inr (source, found) ↦
                rw (l, found, compare_all)
                  (Ends-bind (compare_symbols host types p1 p2 depth source target)
                    (λ same. if same then rest else ok false)
                    (compare_symbols-Ends depth source target (h 0 source target refl l found))
                    (λ same. Ends-if same rest (ok false) ends (Ends-ok false)))
          ]
        ]

    -- If for each symbol of the second program that is not local, and the symbol that a lookup of its
    -- name finds in the first program, no chain of references that lead from the two to local symbols is as long
    -- as the depth, then `comparePrograms` ends, with nested calls of `compareSymbols` to that depth
    -- at most: with an answer, or with a failed assertion or a location that is not there.
    pub compare_programs-ends :
        (depth : ℕ)
        → ((i : ℕ) (source target : Symbol)
            → get_elem? p2.symtab.symbols i ≡ some target
            → is_local target ≡ false
            → lookup_by_name p1.symtab target.name ≡ some source
            → Nested depth source target)
        → compare_programs host types p1 p2 depth ≢ err out_of_fuel
    unfolding compare_programs
    compare_programs-ends depth h = compare_all-Ends depth p2.symtab.symbols h
