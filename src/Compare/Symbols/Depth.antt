-- ===== src/Compare/Symbols/Depth.antt =====
-- How deep the recursion of `compareSymbols` in src/analysis/ProgramComparator.cpp goes.
use ppc2cpp.Prelude.{ℕ, zero, suc, ◌+◌, ◌*◌, ◌<◌, ◌≡◌, refl, subst, Bool, true, some, arith}
use ppc2cpp.Common.Endian.{Endian}
use ppc2cpp.Model.Location.{advance}
use ppc2cpp.Model.Symbol.{Symbol, Relocation}
use ppc2cpp.Model.SymbolTable.{is_local, lookup_by_location}
use ppc2cpp.Model.RelocationTable.{lookup_by_insn_loc}
use ppc2cpp.Program.{Buffer, Fault, Outcome, ok, err, out_of_fuel}
use ppc2cpp.Loading.{type_text, BinarySection, ProgramLoader, section_at, get_buffer_at_location}
use ppc2cpp.Compare.Symbols.{
  RelocTypes, compare_relocations, compare_at, compare_insn, compare_each, compare_size, rounds_of,
  close_sizes, compare_functions, compare_symbols,
}

compare_each-stops :
    (round : ℕ → Outcome Bool) (e : Fault) (k rounds off : ℕ)
    → k < rounds
    → ((j : ℕ) → j < k → round (off + 4 * j) ≡ ok true)
    → round (off + 4 * k) ≡ err e
    → compare_each round rounds off ≡ err e
unfolding compare_each
compare_each-stops round e k zero off l before at = absurd (omega arith)
compare_each-stops round e zero (suc rounds) off l before at =
    let here : round off ≡ err e =
      subst (λ m. round m ≡ err e) {x = off + 4 * 0} {y = off} (omega arith) at in
    rw (here, compare_each) refl
compare_each-stops round e (suc k) (suc rounds) off l before at =
    let here : round off ≡ ok true =
      subst (λ m. round m ≡ ok true) {x = off + 4 * 0} {y = off} (omega arith)
        (before 0 (omega arith)) in
    rw (here, compare_each)
      (compare_each-stops round e k rounds (off + 4) (omega arith)
        (λ j m.
          subst (λ n. round n ≡ ok true) {x = off + 4 * suc j} {y = off + 4 + 4 * j} (omega arith)
            (before (suc j) (omega arith)))
        (subst (λ n. round n ≡ err e) {x = off + 4 * suc k} {y = off + 4 + 4 * k} (omega arith) at))

module _ (host : Endian) (types : RelocTypes) (p1 p2 : ProgramLoader) where
  -- Take two functions in text sections, the first local, of sizes that are close, and an offset in
  -- them at which the first program has, counted from the second symbol's location, a relocation that
  -- refers to the first symbol, and the second program has, counted from the first symbol's location,
  -- one that refers to the second, with buffers at both places. If the places at all smaller offsets
  -- compare as equal, then `compareSymbols` calls itself for the same symbols: no depth of the recursion
  -- is enough.
  pub compare_symbols-self_reference :
      (source target : Symbol) (section1 section2 : BinarySection) (reloc1 reloc2 : Relocation)
      (buf1 buf2 : Buffer) (k : ℕ)
      → section_at p1 source.location ≡ some section1
      → section_at p2 target.location ≡ some section2
      → section1.section_type ≡ type_text
      → section2.section_type ≡ type_text
      → is_local source ≡ true
      → close_sizes source.size target.size ≡ true
      → 4 * k < compare_size source target
      → lookup_by_insn_loc p1.reloctab (advance target.location (4 * k)) ≡ some reloc1
      → lookup_by_insn_loc p2.reloctab (advance source.location (4 * k)) ≡ some reloc2
      → lookup_by_location p1.symtab reloc1.destination ≡ some source
      → lookup_by_location p2.symtab reloc2.destination ≡ some target
      → get_buffer_at_location p1 (advance target.location (4 * k)) ≡ some buf1
      → get_buffer_at_location p2 (advance source.location (4 * k)) ≡ some buf2
      → ((compare : Symbol → Symbol → Outcome Bool) (j : ℕ)
          → j < k
          → compare_insn host types p1 p2 compare source target (4 * j) ≡ ok true)
      → (fuel : ℕ) → compare_symbols host types p1 p2 fuel source target ≡ err out_of_fuel
  unfolding compare_symbols compare_functions compare_insn compare_relocations compare_at
  compare_symbols-self_reference source target section1 section2 reloc1 reloc2 buf1 buf2 k at1 at2
        text1 text2 local close within found1 found2 refers1 refers2 has1 has2 before zero =
      refl
  compare_symbols-self_reference source target section1 section2 reloc1 reloc2 buf1 buf2 k at1 at2
        text1 text2 local close within found1 found2 refers1 refers2 has1 has2 before (suc fuel) =
      let compare = compare_symbols host types p1 p2 fuel in
      let again : compare source target ≡ err out_of_fuel =
        compare_symbols-self_reference source target section1 section2 reloc1 reloc2 buf1 buf2 k at1
          at2 text1 text2 local close within found1 found2 refers1 refers2 has1 has2 before fuel in
      let related : compare_relocations host types p1 p2 compare reloc1 reloc2 ≡ err out_of_fuel =
        rw (refers1, refers2, local, compare_relocations) again in
      let at : compare_insn host types p1 p2 compare source target (4 * k) ≡ err out_of_fuel =
        rw (found1, found2, has1, has2, related, compare_insn, compare_at) refl in
      let stops =
        compare_each-stops (compare_insn host types p1 p2 compare source target) out_of_fuel k
          (rounds_of (compare_size source target)) 0 (omega arith)
          (λ j l.
            subst (λ m. compare_insn host types p1 p2 compare source target m ≡ ok true) {x = 4 * j}
              {y = 0 + 4 * j} (omega arith) (before compare j l))
          (subst (λ m. compare_insn host types p1 p2 compare source target m ≡ err out_of_fuel)
            {x = 4 * k} {y = 0 + 4 * k} (omega arith) at) in
      rw (at2, at1, text1, text2, close, compare_symbols, compare_functions) stops
