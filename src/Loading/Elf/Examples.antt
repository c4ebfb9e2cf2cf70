-- ===== src/Loading/Elf/Examples.antt =====
-- The ELF loader at concrete inputs: two object files, the first of which refers to a function that
-- the second defines.
use Prim.Native.String.{String}
use ppc2cpp.Prelude.{ℕ, ◌≡◌, refl, true, some, List, [], ◌∷◌, Each}
use ppc2cpp.Model.Location.{eq_binary}
use ppc2cpp.Model.Symbol.{Symbol, Relocation}
use ppc2cpp.Model.SymbolTable
use ppc2cpp.Model.SymbolTable.{construct_name_index, construct_location_index}
use ppc2cpp.Model.RelocationTable
use ppc2cpp.Model.RelocationTable.{construct_source_index}
use ppc2cpp.Program.{Outcome, ok, err}
use ppc2cpp.Loading.{ProgramLoader}
use ppc2cpp.Loading.Elf.{ElfConstants, SymbolEntry, FileSection, ElfFile, no_program, load_elf}
use ppc2cpp.Loading.Elf.Symbols.{Imports, all_registered, load_elf-symbols}
use ppc2cpp.Loading.Elf.Relocations.{Links, all_relocations, load_elf-relocations}

abbrev pub constants : ElfConstants
constants = record {
  et_rel = 1;
  pt_load = 1;
  sht_symtab = 2;
  sht_rela = 4;
  sht_nobits = 8;
  shn_undef = 0;
  shn_abs = 0xfff1;
  shn_loreserve = 0xff00;
  stt_notype = 0;
  stt_object = 1;
  stt_func = 2;
}

abbrev section : String → ℕ → FileSection
section name type = record {
  name = name;
  type = type;
  offset = 0x40;
  size = 8;
  address = 0;
  alloc = true;
  execinstr = true;
  info = 0;
  link = 0;
  contents = λ _. 0x60;
  symbols = [];
  entries = [];
}

abbrev function : String → ℕ → SymbolEntry
function name section_index = record {
  name = name;
  value = 0;
  size = 8;
  bind = 1;
  type = 2;
  section_index = section_index;
}

-- The sections of a file: none, the text, the symbols, and the relocations of the text.
abbrev file : String → List SymbolEntry → List FileSection → ElfFile
file name symbols relocations = record {
  filename = name;
  type = 1;
  sections =
      section "" 0
      ∷ section ".text" 1
      ∷ record (section ".symtab" 2) { symbols = symbols }
      ∷ relocations;
  segments = [];
}

abbrev pub files : List ElfFile
files =
    file "main.o" (function "main" 1 ∷ function "helper" 0 ∷ []) (
      record (section ".rela.text" 4) {
        info = 1;
        link = 2;
        entries = record { offset = 4; symbol_idx = 1; type = 10; addend = 0 } ∷ [];
      }
      ∷ [])
    ∷ file "helper.o" (function "helper" 1 ∷ []) []
    ∷ []

-- What is loaded, if it is.
abbrev loaded_or : ProgramLoader → Outcome ProgramLoader → ProgramLoader
loaded_or p (ok q) = q
loaded_or p (err e) = p

abbrev pub program : ProgramLoader
program = loaded_or no_program (load_elf constants files)

pub files-loaded : load_elf constants files ≡ ok program
unfolding load_elf
files-loaded = refl

load_elf-symbols_example :
    (symbols : List Symbol) × (program.symtab
      ≡ construct_location_index
          (construct_name_index (record SymbolTable.empty { symbols = symbols })))
    × Each (Imports constants program) (all_registered constants 0 files) symbols
load_elf-symbols_example = load_elf-symbols constants files program files-loaded

load_elf-relocations_example :
    (relocs : List Relocation) × (program.reloctab
      ≡ construct_source_index (record RelocationTable.empty { relocs = relocs }))
    × Each (Links constants program) (all_relocations constants 0 files) relocs
load_elf-relocations_example = load_elf-relocations constants files program files-loaded

-- The call in the first file leads to the second.
call-linked :
    program.get_reference_at_location program.reloctab
      (record { binary_idx = 0; section_idx = 1; section_offset = 4 })
    ≡ some (record { binary_idx = 1; section_idx = 1; section_offset = 0 })
unfolding load_elf eq_binary
call-linked = refl
