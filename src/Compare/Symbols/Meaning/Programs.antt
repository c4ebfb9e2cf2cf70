-- ===== src/Compare/Symbols/Meaning/Programs.antt =====
-- `compareSymbols` and `comparePrograms` in src/analysis/ProgramComparator.cpp.
use ppc2cpp.Prelude.{
  ℕ, zero, suc, ◌≡◌, ◌↔◌, ◌⊎◌, inl, inr, refl, ap, subst, ◌∙◌, Bool, true, false, some, List, [],
  ◌∷◌, arith, Bool-cases, Option-cases,
}
use ppc2cpp.Common.Endian.{Endian}
use ppc2cpp.Model.Symbol.{Symbol}
use ppc2cpp.Model.SymbolTable.{is_local, lookup_by_name}
use ppc2cpp.Program.{Outcome, ok, ◌>>=◌, value, value-eq-ok, bind-eq-ok, if-eq-ok}
use ppc2cpp.Loading.{
  SectionType, type_text, type_data, type_bss, type_noload, eq_section_type, BinarySection,
  ProgramLoader, section_at,
}
use ppc2cpp.Compare.Symbols.{
  RelocTypes, by_section_type, compare_symbols, compare_all, compare_programs,
}
use ppc2cpp.Compare.Symbols.Meaning.{
  FunctionsMatch, DataMatch, compare_functions_iff, compare_data_iff,
}

eq_section_type-eq : (a b : SectionType) → eq_section_type a b ≡ true → a ≡ b
eq_section_type-eq type_noload type_noload e = refl
eq_section_type-eq type_text type_text e = refl
eq_section_type-eq type_data type_data e = refl
eq_section_type-eq type_bss type_bss e = refl
eq_section_type-eq type_noload type_text e = absurd (ground arith)
eq_section_type-eq type_noload type_data e = absurd (ground arith)
eq_section_type-eq type_noload type_bss e = absurd (ground arith)
eq_section_type-eq type_text type_noload e = absurd (ground arith)
eq_section_type-eq type_text type_data e = absurd (ground arith)
eq_section_type-eq type_text type_bss e = absurd (ground arith)
eq_section_type-eq type_data type_noload e = absurd (ground arith)
eq_section_type-eq type_data type_text e = absurd (ground arith)
eq_section_type-eq type_data type_bss e = absurd (ground arith)
eq_section_type-eq type_bss type_noload e = absurd (ground arith)
eq_section_type-eq type_bss type_text e = absurd (ground arith)
eq_section_type-eq type_bss type_data e = absurd (ground arith)

eq_section_type_refl : (a : SectionType) → eq_section_type a a ≡ true
eq_section_type_refl type_noload = refl
eq_section_type_refl type_text = refl
eq_section_type_refl type_data = refl
eq_section_type_refl type_bss = refl

module _ (host : Endian) (types : RelocTypes) (p1 p2 : ProgramLoader) where
  -- Functions and data are compared, other sections hold nothing.
  abbrev pub ContentsMatch : (Symbol → Symbol → Type 0) → SectionType → Symbol → Symbol → Type 0
  ContentsMatch Same type_text source target = FunctionsMatch host types p1 p2 Same source target
  ContentsMatch Same type_data source target = DataMatch host types p1 p2 Same source target
  ContentsMatch Same _ source target = Unit

  -- The symbols are in sections of one type, and the contents of them match, where local symbols
  -- that relocations refer to are to match to a depth that is smaller by one.
  abbrev pub SymbolsMatch : ℕ → Symbol → Symbol → Type 0
  SymbolsMatch zero source target = ⊥
  SymbolsMatch (suc depth) source target =
      (section1 : BinarySection) × (section2 : BinarySection) × (section_at p1 source.location
        ≡ some section1)
      × (section_at p2 target.location ≡ some section2)
      × (section1.section_type ≡ section2.section_type)
      × ContentsMatch (SymbolsMatch depth) section1.section_type source target

  by_section_type_iff :
      (compare : Symbol → Symbol → Outcome Bool) (Same : Symbol → Symbol → Type 0)
      (type : SectionType) (source target : Symbol)
      → ((a b : Symbol) → (compare a b ≡ ok true) ↔ Same a b)
      → (by_section_type host types p1 p2 type compare source target ≡ ok true)
        ↔ ContentsMatch Same type source target
  by_section_type_iff compare Same type_text source target agrees =
      compare_functions_iff host types p1 p2 compare Same agrees source target
  by_section_type_iff compare Same type_data source target agrees =
      compare_data_iff host types p1 p2 compare Same agrees source target
  by_section_type_iff compare Same type_noload source target agrees = (λ e. tt, λ h. refl)
  by_section_type_iff compare Same type_bss source target agrees = (λ e. tt, λ h. refl)

  pub compare_symbols_iff :
      (fuel : ℕ) (source target : Symbol)
      → (compare_symbols host types p1 p2 fuel source target ≡ ok true)
        ↔ SymbolsMatch fuel source target
  unfolding compare_symbols
  compare_symbols_iff zero source target = (λ e. absurd (cc), λ h. absurd h)
  compare_symbols_iff (suc fuel) source target =
      let contents = λ (type : SectionType).
        by_section_type_iff (compare_symbols host types p1 p2 fuel) (SymbolsMatch fuel) type source
          target (compare_symbols_iff fuel) in
      (
        λ e.
            let (section2, run2, e1) = bind-eq-ok (value (section_at p2 target.location)) _ e in
            let (section1, run1, e2) = bind-eq-ok (value (section_at p1 source.location)) _ e1 in
            let (same, e3) =
              if-eq-ok (eq_section_type section1.section_type section2.section_type) _ e2 in
            (
              section1,
              section2,
              value-eq-ok (section_at p1 source.location) section1 run1,
              value-eq-ok (section_at p2 target.location) section2 run2,
              eq_section_type-eq section1.section_type section2.section_type same,
              (contents section1.section_type).0 e3,
            ),
        λ h.
            let (section1, section2, at1, at2, same, match) = h in
            let equal : eq_section_type section1.section_type section2.section_type ≡ true =
              subst (λ t. eq_section_type section1.section_type t ≡ true)
                {x = section1.section_type} {y = section2.section_type} same
                (eq_section_type_refl section1.section_type) in
            rw (at2, at1, ◌>>=◌, equal, compare_symbols) ((contents section1.section_type).1 match),
      )

  -- Each symbol of the list that is not local has one of its name in the first program, and the two
  -- match.
  abbrev pub AllMatch : ℕ → List Symbol → Type 0
  AllMatch depth [] = Unit
  AllMatch depth (target ∷ targets) =
      ((is_local target ≡ true)
        ⊎ ((is_local target ≡ false)
            × (source : Symbol) × (lookup_by_name p1.symtab target.name ≡ some source)
            × SymbolsMatch depth source target))
      × AllMatch depth targets

  compare_all_iff :
      (fuel : ℕ) (targets : List Symbol)
      → (compare_all host types p1 p2 fuel targets ≡ ok true) ↔ AllMatch fuel targets
  unfolding compare_all
  compare_all_iff fuel [] = (λ e. tt, λ h. refl)
  compare_all_iff fuel (target ∷ targets) =
      let rest = compare_all_iff fuel targets in
      (
        λ e. elim (Bool-cases (is_local target)) [
          | inl l ↦ (inl l, rest.0 (rw (l, compare_all) at e))
          | inr l ↦ elim (Option-cases (lookup_by_name p1.symtab target.name)) [
            | inl n ↦ absurd (
                let no : ◌≡◌ {A = Outcome Bool} (ok false) (ok true) =
                  rw (l, n, compare_all) at e in
                ground arith)
            | inr (source, found) ↦
                let (same, run, e1) =
                  bind-eq-ok (compare_symbols host types p1 p2 fuel source target) _
                    (rw (l, found, compare_all) at e) in
                let (t, e2) = if-eq-ok same _ e1 in
                (
                  inr (
                    l,
                    source,
                    found,
                    (compare_symbols_iff fuel source target).0 (run ∙ ap ok t),
                  ),
                  rest.0 e2,
                )
          ]
        ],
        λ h. elim h.0 [
          | inl l ↦ rw (l, compare_all) (rest.1 h.1)
          | inr (l, source, found, match) ↦
              rw (l, found, (compare_symbols_iff fuel source target).1 match, ◌>>=◌, compare_all)
                (rest.1 h.1)
        ],
      )

  -- `comparePrograms` answers true, at each depth of nested local symbols, exactly when each symbol of
  -- the second program that is not local has one of its name in the first and the two match: they are
  -- in sections of one type; functions differ in size by less than eight and have, place by place, either
  -- equal words or relocations that match and words that agree outside the bits of the relocation; data
  -- have equal bytes, or equal words or matching relocations where a place or size is no multiple of
  -- four. The first program is read at the place of the second's symbol, and the second at that of the
  -- first's.
  pub compare_programs_iff :
      (depth : ℕ)
      → (compare_programs host types p1 p2 depth ≡ ok true) ↔ AllMatch depth p2.symtab.symbols
  unfolding compare_programs
  compare_programs_iff depth = compare_all_iff depth p2.symtab.symbols
