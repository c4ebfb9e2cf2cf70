-- ===== src/Compare/Symbols/Examples.antt =====
-- The comparison by symbols at concrete inputs: a program with a global function of one `blr`, and
-- a local one that calls itself.
use ppc2cpp.Prelude.{
  ℕ, zero, suc, ◌+◌, ◌*◌, ◌/◌, ◌-◌, ◌%◌, ◌<◌, ◌≡◌, ◌≢◌, ◌↔◌, refl, sym, subst, false, get_elem?,
  Bool, true, some, none, List, [], ◌∷◌, arith, bits, get_or,
}
use ppc2cpp.Common.Endian.{little}
use ppc2cpp.Model.Location.{ProgramLocation, advance, eq_binary}
use ppc2cpp.Model.Symbol.{Symbol, Relocation, function_symbol, local_binding, global_binding}
use ppc2cpp.Model.SymbolTable.{
  SymbolTable, is_local, construct_name_index, construct_location_index, lookup_by_name,
  lookup_by_location,
}
use ppc2cpp.Model.RelocationTable.{RelocationTable, construct_source_index, lookup_by_insn_loc}
use ppc2cpp.Program.{Buffer, Outcome, ok, err, out_of_fuel}
use ppc2cpp.Loading.{BinarySection, type_text, ProgramLoader, get_buffer_at_location}
use ppc2cpp.Compare.Symbols.{
  RelocTypes, compare_insn, compare_symbols, compare_programs, close_sizes,
}
use ppc2cpp.Compare.Symbols.Meaning.Programs.{AllMatch, compare_programs_iff}
use ppc2cpp.Compare.Symbols.Depth.{compare_symbols-self_reference}
use ppc2cpp.Compare.Symbols.Ends.{Nested, compare_programs-ends}

abbrev pub types : RelocTypes
types = record {
  addr16 = 3;
  addr16_lo = 4;
  addr16_hi = 5;
  addr16_ha = 6;
  addr14 = 7;
  addr14_brtaken = 8;
  addr14_brntaken = 9;
  addr24 = 2;
  rel24 = 10;
  rel14 = 11;
  rel14_brtaken = 12;
  rel14_brntaken = 13;
  addr32 = 1;
  emb_sda21 = 109;
}

-- `blr` of the global function, then `nop` and `bl` of the local one.
abbrev code : List ℕ
code = 0x4e80_0020 ∷ 0x6000_0000 ∷ 0x4800_0001 ∷ []

abbrev text_at : ℕ → Buffer
text_at offset n = bits (get_or code ((offset + n) / 4) 0) (24 - 8 * ((offset + n) % 4)) 8

abbrev section : BinarySection
section = record {
  name = ".text";
  offset = 0;
  length = 12;
  section_type = type_text;
  get_address = none;
  get_buffer_at_offset = λ o. some (text_at o);
  get_buffer_at_address = λ _. none;
}

abbrev at : ℕ → ProgramLocation
at offset = record { binary_idx = 0; section_idx = 0; section_offset = offset }

abbrev leaf : Symbol
leaf = record {
  name = "leaf";
  location = at 0;
  size = 4;
  symbol_type = function_symbol;
  symbol_binding = global_binding;
}

abbrev endless : Symbol
endless = record {
  name = "endless";
  location = at 4;
  size = 8;
  symbol_type = function_symbol;
  symbol_binding = local_binding;
}

abbrev call : Relocation
call = record { source = at 8; destination = at 4; type = 10; addend = 0 }

abbrev symbols : SymbolTable
unfolding construct_name_index construct_location_index eq_binary
symbols = construct_location_index (
    construct_name_index
      (record { symbols = leaf ∷ endless ∷ []; name_index = []; loc_index = [] }))

abbrev relocations : RelocationTable
unfolding construct_source_index eq_binary
relocations = construct_source_index (record { relocs = call ∷ []; source_index = [] })

abbrev program : ProgramLoader
program = record {
  binaries = record { name = "main.rel"; sections = section ∷ [] } ∷ [];
  symtab = symbols;
  reloctab = relocations;
  get_reference_at_location = λ _ _. none;
}

programs_match : compare_programs little types program program 1 ≡ ok true
unfolding compare_programs symbols relocations close_sizes lookup_by_name lookup_by_insn_loc
    get_buffer_at_location
programs_match = refl

compare_programs_iff_example :
    (compare_programs little types program program 1 ≡ ok true)
    ↔ AllMatch little types program program 1 program.symtab.symbols
compare_programs_iff_example = compare_programs_iff little types program program 1

-- A program with a global function of a `bl` and a `blr`, and the local one of one `blr` that it calls.
abbrev caller : Symbol
caller = record leaf { name = "caller"; size = 8 }

abbrev callee : Symbol
callee = record endless { name = "callee"; location = at 8; size = 4 }

abbrev call_of_callee : Relocation
call_of_callee = record { source = at 0; destination = at 8; type = 10; addend = 0 }

abbrev caller_code : List ℕ
caller_code = 0x4800_0001 ∷ 0x4e80_0020 ∷ 0x4e80_0020 ∷ []

abbrev caller_text : BinarySection
caller_text = record section {
  get_buffer_at_offset =
      λ o. some (λ n. bits (get_or caller_code ((o + n) / 4) 0) (24 - 8 * ((o + n) % 4)) 8);
}

abbrev calling : ProgramLoader
unfolding construct_name_index construct_location_index construct_source_index eq_binary
calling = record program {
  binaries = record { name = "main.rel"; sections = caller_text ∷ [] } ∷ [];
  symtab = construct_location_index (
      construct_name_index
        (record { symbols = caller ∷ callee ∷ []; name_index = []; loc_index = [] }));
  reloctab = construct_source_index (record { relocs = call_of_callee ∷ []; source_index = [] });
}

-- With a depth of one the call is not followed.
calling-shallow : compare_programs little types calling calling 1 ≡ err out_of_fuel
unfolding compare_programs calling close_sizes lookup_by_name lookup_by_insn_loc
    get_buffer_at_location lookup_by_location
calling-shallow = refl

no_reloc :
    (n : ℕ) → n < 1 → lookup_by_insn_loc calling.reloctab (advance callee.location (4 * n)) ≡ none
unfolding lookup_by_insn_loc calling advance
no_reloc zero l = refl
no_reloc (suc n) l = absurd (omega arith)

called :
    (n : ℕ) (r : Relocation)
    → n < 2
    → lookup_by_insn_loc calling.reloctab (advance caller.location (4 * n)) ≡ some r
    → r ≡ call_of_callee
unfolding lookup_by_insn_loc calling advance
called zero r l e = cc
called (suc zero) r l e = absurd (cc)
called (suc (suc n)) r l e = absurd (omega arith)

callee-Nested : Nested calling calling 1 callee callee
callee-Nested s1 s2 r = let no_one = no_reloc r.word r.inside in let one = r.reloc1 in absurd (cc)

callee_at : lookup_by_location calling.symtab call_of_callee.destination ≡ some callee
unfolding lookup_by_location calling
callee_at = refl

to_callee :
    (r : Relocation) (s : Symbol)
    → r ≡ call_of_callee
    → lookup_by_location calling.symtab r.destination ≡ some s
    → s ≡ callee
to_callee r s e found =
    let there =
      subst (λ (q : Relocation). lookup_by_location calling.symtab q.destination ≡ some s) {x = r}
        {y = call_of_callee} e found in
    let is = callee_at in (cc)

caller-Nested : Nested calling calling 2 caller caller
caller-Nested s1 s2 r =
    let e1 = to_callee r.r1 s1 (called r.word r.r1 r.inside r.reloc1) r.symbol1 in
    let e2 = to_callee r.r2 s2 (called r.word r.r2 r.inside r.reloc2) r.symbol2 in
    subst (λ (s : Symbol). Nested calling calling 1 s s2) {x = callee} {y = s1} (sym e1)
      (subst (λ (s : Symbol). Nested calling calling 1 callee s) {x = callee} {y = s2} (sym e2)
        callee-Nested)

globals-Nested :
    (i : ℕ) (source target : Symbol)
    → get_elem? calling.symtab.symbols i ≡ some target
    → is_local target ≡ false
    → lookup_by_name calling.symtab target.name ≡ some source
    → Nested calling calling 2 source target
unfolding lookup_by_name calling
globals-Nested zero source target at is found =
    let same : target ≡ caller = cc in
    let by_name =
      subst (λ (s : Symbol). lookup_by_name calling.symtab s.name ≡ some source) {x = target}
        {y = caller} same found in
    let same_source : source ≡ caller = cc in
    subst (λ (s : Symbol). Nested calling calling 2 source s) {x = caller} {y = target} (sym same)
      (subst (λ (s : Symbol). Nested calling calling 2 s caller) {x = caller} {y = source}
        (sym same_source) caller-Nested)
globals-Nested (suc zero) source target at is found =
    let same : target ≡ callee = cc in
    let local_one = subst (λ (s : Symbol). is_local s ≡ false) {x = target} {y = callee} same is in
    absurd (cc)
globals-Nested (suc (suc i)) source target at is found = absurd (cc)

compare_programs-ends_example : compare_programs little types calling calling 2 ≢ err out_of_fuel
compare_programs-ends_example = compare_programs-ends calling calling little types 2 globals-Nested

first_equal :
    (compare : Symbol → Symbol → Outcome Bool) (j : ℕ)
    → j < 1
    → compare_insn little types program program compare endless endless (4 * j) ≡ ok true
unfolding compare_insn symbols relocations lookup_by_insn_loc get_buffer_at_location
first_equal compare zero l = refl
first_equal compare (suc j) l = absurd (omega arith)

found : lookup_by_insn_loc program.reloctab (advance endless.location (4 * 1)) ≡ some call
unfolding lookup_by_insn_loc relocations advance
found = refl

refers : lookup_by_location program.symtab call.destination ≡ some endless
unfolding lookup_by_location symbols
refers = refl

buffer : get_buffer_at_location program (advance endless.location (4 * 1)) ≡ some (text_at 8)
unfolding get_buffer_at_location advance
buffer = refl

close : close_sizes 8 8 ≡ true
unfolding close_sizes
close = refl

compare_symbols-self_reference_example :
    compare_symbols little types program program 1000 endless endless ≡ err out_of_fuel
compare_symbols-self_reference_example =
    compare_symbols-self_reference little types program program endless endless section section call
      call (text_at 8) (text_at 8) 1 refl refl refl refl refl close (omega arith) found found refers
      refers buffer buffer first_equal 1000
