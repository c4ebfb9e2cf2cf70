-- ===== src/Loading/Project/Examples.antt =====
-- A project that is saved and opened again: its program of two ELF files has one symbol and one
-- relocation, which are not those of the files.
use Prim.Native.String.{String}
use ppc2cpp.Prelude.{ℕ, ◌≡◌, refl, Bool, Option, some, [], ◌∷◌, arith}
use ppc2cpp.Model.Location.{ProgramLocation, eq_binary}
use ppc2cpp.Model.Symbol.{Symbol, Relocation, function_symbol, global_binding}
use ppc2cpp.Model.Index.{or_else}
use ppc2cpp.Model.SymbolTable
use ppc2cpp.Model.RelocationTable
use ppc2cpp.Model.Persistence.{HasByteTypes}
use ppc2cpp.Program.{ok}
use ppc2cpp.Loading.{resolve_target}
use ppc2cpp.Loading.Elf.Examples.{constants, files, program, files-loaded}
use ppc2cpp.Loading.Project.{
  Versions, ProjectProto, SavedLoader, LoadProgram, Project, save_project, open_project,
  SymbolsRestored, RelocationsRestored, open_project-save_project,
}
use ppc2cpp.Loading.Project.Elf.{destination_at, unrelocated, open_project-resolve_target}

abbrev versions : Versions
versions = record { loader = 1; project = 1 }

abbrev start : Symbol
start = record {
  name = "start";
  location = record { binary_idx = 0; section_idx = 0; section_offset = 0 };
  size = 8;
  symbol_type = function_symbol;
  symbol_binding = global_binding;
}

-- A relocation that the files do not have in this way.
abbrev edited : Relocation
edited = record {
  source = record { binary_idx = 0; section_idx = 1; section_offset = 4 };
  destination = record { binary_idx = 0; section_idx = 1; section_offset = 0 };
  type = 10;
  addend = 0;
}

abbrev loaded : SavedLoader
loaded = record {
  loader_type = 2;
  files =
      record { file_path = "main.o"; contents = "" }
      ∷ record { file_path = "helper.o"; contents = "" }
      ∷ [];
  program = program;
}

abbrev project : Project
project = record {
  name = "game";
  project_file = "game.ppc2cpp";
  loader = record loaded {
    program = record program {
      symtab = record SymbolTable.empty { symbols = start ∷ [] };
      reloctab = record RelocationTable.empty { relocs = edited ∷ [] };
    };
  };
}

abbrev read : String → Option ProjectProto
read file = some (save_project versions project)

abbrev load : LoadProgram
load version type paths = ok loaded

edited-HasByteTypes : HasByteTypes project.loader.program.reloctab
edited-HasByteTypes = (omega arith, tt)

open_project-save_project_example :
    (opened : Project) × (open_project read load "game.ppc2cpp" ≡ ok opened)
    × (opened.name ≡ "game")
    × (opened.loader.program.binaries ≡ program.binaries)
    × (opened.loader.program.get_reference_at_location ≡ program.get_reference_at_location)
    × SymbolsRestored (start ∷ []) program.symtab opened.loader.program.symtab
    × RelocationsRestored (edited ∷ []) program.reloctab opened.loader.program.reloctab
open_project-save_project_example =
    open_project-save_project versions read load project "game.ppc2cpp" loaded refl refl
      edited-HasByteTypes

open_project-resolve_target_example :
    (opened : Project) × (open_project read load "game.ppc2cpp" ≡ ok opened)
    × ((pc : ProgramLocation) (value : ℕ) (is_absolute : Bool)
        → resolve_target opened.loader.program pc value is_absolute
          ≡ or_else
              (destination_at (edited ∷ []) pc)
              (unrelocated opened.loader.program pc value is_absolute))
open_project-resolve_target_example =
    open_project-resolve_target versions read load project "game.ppc2cpp" constants files loaded
      edited [] refl refl files-loaded edited-HasByteTypes refl

-- The call in the saved project leads to its own function.
edited-call : destination_at (edited ∷ []) edited.source ≡ some edited.destination
unfolding eq_binary
edited-call = refl
