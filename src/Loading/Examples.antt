-- ===== src/Loading/Examples.antt =====
-- The loader at concrete inputs: one binary with two sections.
use Prim.Native.String.{String}
use ppc2cpp.Prelude.{◌↔◌, ℕ, ◌<◌, ◌≡◌, refl, false, none, some, [], ◌∷◌, arith, get_elem?}
use ppc2cpp.Model.Location.{ProgramLocation, advance}
use ppc2cpp.Program.{Buffer}
use ppc2cpp.Model.SymbolTable.{empty}
use ppc2cpp.Loading.{
  type_text, BinarySection, Binary, ProgramLoader, resolve_in_binaries, resolve_in_sections,
  location_in_binaries, location_in_sections, first_section_idx, section_at, contains_address,
  find_section_by_offset, get_location, resolve_vma, resolve_target, get_location_vma,
}
use ppc2cpp.Loading.Resolve.{resolve_vma-get_location_vma, resolve_vma-total, resolve_target-within}
use ppc2cpp.Loading.Lookup.{
  contains_address-any, find_section_by_offset_iff, Behind, get_location-named,
}

abbrev nops : Buffer
nops n = 0x60

abbrev section : String → ℕ → ℕ → BinarySection
section name offset address = record {
  name = name;
  offset = offset;
  length = 0x100;
  section_type = type_text;
  get_address = some address;
  get_buffer_at_offset = λ _. some nops;
  get_buffer_at_address = λ _. none;
}

abbrev text_section : BinarySection
text_section = section ".text" 0x100 0x8000_4000

abbrev data_section : BinarySection
data_section = section ".data" 0x200 0x8000_8000

abbrev main : Binary
main = record { name = "main.dol"; sections = text_section ∷ data_section ∷ [] }

abbrev program : ProgramLoader
program = record {
  binaries = main ∷ [];
  symtab = empty;
  reloctab = record { relocs = []; source_index = [] };
  get_reference_at_location = λ _ _. none;
}

abbrev at : ℕ → ProgramLocation
at offset = record { binary_idx = 0; section_idx = 1; section_offset = offset }

resolved : resolve_vma program 0x8000_8010 ≡ some (at 0x10)
unfolding resolve_vma resolve_in_binaries resolve_in_sections
resolved = refl

target : resolve_target program (at 0x20) 4 false ≡ some (at 0x24)
unfolding resolve_target advance
target = refl

located : get_location program "main.dol" ".data" 0x30 ≡ some (at 0x30)
unfolding get_location location_in_binaries location_in_sections
located = refl

found : find_section_by_offset main 0x90 ≡ some 0
unfolding find_section_by_offset first_section_idx
found = refl

resolve_vma-get_location_vma_example :
    (get_location_vma program (at 0x10) ≡ some 0x8000_8010)
    × (s : BinarySection) × (section_at program (at 0x10) ≡ some s)
    × (0x10 < s.length)
resolve_vma-get_location_vma_example =
    resolve_vma-get_location_vma program 0x8000_8010 (at 0x10) (omega arith) resolved

resolve_vma-total_example :
    (loc : ProgramLocation) × (resolve_vma program 0x8000_8010 ≡ some loc)
    × (get_location_vma program loc ≡ some 0x8000_8010)
resolve_vma-total_example =
    resolve_vma-total program 0x8000_8010 (at 0) data_section (omega arith) refl refl

resolve_target-within_example :
    ((s : BinarySection) × (section_at program (at 0x24) ≡ some s) × (0x24 < s.length))
    × (false ≡ false → at 0x24 ≡ advance (at 0x20) 4)
resolve_target-within_example =
    resolve_target-within program (at 0x20) 4 false (at 0x24) (omega arith) refl target

get_location-named_example :
    ((at 0x30).section_offset ≡ 0x30)
    × (b : Binary) × (get_elem? program.binaries 0 ≡ some b)
    × (b.name ≡ "main.dol")
    × (s : BinarySection) × (get_elem? b.sections 1 ≡ some s)
    × (s.name ≡ ".data")
    × (0x30 < s.length)
get_location-named_example = get_location-named program "main.dol" ".data" 0x30 (at 0x30) located

contains_address-any_example : contains_address main 0x8000_4000 ≡ contains_address main 0
contains_address-any_example = contains_address-any main 0x8000_4000 0

find_section_by_offset_iff_example : (find_section_by_offset main 0x90 ≡ some 0) ↔ (
    ((s : BinarySection) × (get_elem? main.sections 0 ≡ some s) × Behind 0x90 s)
    × ((m : ℕ) (s : BinarySection) → m < 0 → get_elem? main.sections m ≡ some s → ¬ Behind 0x90 s))
find_section_by_offset_iff_example = find_section_by_offset_iff main 0x90 0
