-- ===== src/Loading/Nin/Examples.antt =====
-- The loader for DOL and REL at concrete inputs: a DOL, and a REL with a branch.
use ppc2cpp.Prelude.{
  ℕ, ◌*◌, ◌/◌, ◌-◌, ◌%◌, ◌≡◌, refl, true, false, none, some, List, [], ◌∷◌, bits, get_or, get_elem?,
  All,
}
use ppc2cpp.Common.Endian.{little}
use ppc2cpp.Common.Insn.{branch_value, is_branch_unconditional}
use ppc2cpp.Model.Location.{ProgramLocation, eq_binary}
use ppc2cpp.Model.Index.{first_match}
use ppc2cpp.Model.RelocationTable.{RelocationTable, lookup_by_source}
use ppc2cpp.Program.{Buffer, ok, word_at}
use ppc2cpp.Loading.{type_text, find_section_by_offset}
use ppc2cpp.Loading.Nin.{
  DolFile, RelFile, RelReloc, RelSection, NinBinary, dol, rel, dol_file, rel_file, load_nin,
  binary_of, reloc_key, get_reference_at_location,
}
use ppc2cpp.Loading.Nin.Branches.{InRel, load_nin-relocations}
use ppc2cpp.Loading.Nin.References.{LeadsTo, get_reference_at_location-module}

-- `b` of the word at 0x40, at the offset 0x48 of the file, and `blr`.
abbrev contents : Buffer
contents n =
    let word = get_or (0x4bff_fff8 ∷ 0x4e80_0020 ∷ []) ((n - 0x48) / 4) 0 in
    bits word (24 - 8 * (n % 4)) 8

abbrev main_dol : DolFile
main_dol = record { filename = "main.dol"; contents = λ _. 0; secs = [] }

-- At the first word of the text, a reference to the module itself.
abbrev to_itself : RelReloc
to_itself = record {
  section_idx = 0;
  offset = 4;
  src_module_id = 7;
  src_section_idx = 0;
  src_offset = 0;
}

abbrev module_rel : RelFile
module_rel = record {
  filename = "module.rel";
  id = 7;
  load_addr = 0;
  bss_load_addr = 0;
  contents = contents;
  secs_raw = record { name = ""; offset = 0x48; length = 12; exec = true; is_bss = false } ∷ [];
  rels = to_itself ∷ [];
}

abbrev text_section : RelSection
text_section = record {
  name = ".text";
  offset = 0x48;
  length = 12;
  section_type = type_text;
  load_address = 0x48;
}

abbrev binaries : List NinBinary
binaries = dol main_dol ∷ rel module_rel (text_section ∷ []) ∷ []

abbrev at : ℕ → ProgramLocation
at offset = record { binary_idx = 1; section_idx = 0; section_offset = offset }

-- The target, at offset 0x40 of the file, is taken to be in the section behind it.
abbrev table : RelocationTable
table = record {
  relocs = record { source = at 0; destination = at 0x40; type = 10; addend = 0 } ∷ [];
  source_index = [];
}

loaded : load_nin little 10 (dol_file main_dol ∷ rel_file module_rel ∷ []) ≡ ok (binaries, table)
unfolding load_nin branch_value is_branch_unconditional word_at find_section_by_offset binary_of
loaded = refl

load_nin-relocations_example :
    All (InRel little 10 binaries) table.relocs
    × ((loc : ProgramLocation) → lookup_by_source table loc ≡ none)
load_nin-relocations_example =
    load_nin-relocations little 10 (dol_file main_dol ∷ rel_file module_rel ∷ []) binaries table
      loaded

referred : get_reference_at_location binaries (at 4) ≡ ok (some (at 0))
unfolding get_reference_at_location eq_binary
referred = refl

get_reference_at_location-module_example :
    (file : RelFile) × (ss : List RelSection) × (reloc : RelReloc) × (get_elem? binaries 1
      ≡ some (rel file ss))
    × (first_match (λ r. eq_binary (reloc_key r) (at 4)) file.rels ≡ some reloc)
    × LeadsTo binaries reloc (at 0)
get_reference_at_location-module_example =
    get_reference_at_location-module binaries (at 4) (at 0) referred
