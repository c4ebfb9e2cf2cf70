-- ===== src/Cli/Examples.antt =====
-- The commands at concrete inputs: a project with the program of one function, `add r3, r4, r5` and
-- no more, against itself.
use ppc2cpp.Prelude.{ℕ, ◌+◌, ◌*◌, ◌-◌, ◌%◌, ◌≡◌, ◌↔◌, refl, true, none, some, [], ◌∷◌, bits}
use ppc2cpp.Common.Endian.{little}
use ppc2cpp.Model.Symbol.{Symbol, function_symbol, global_binding}
use ppc2cpp.Model.SymbolTable.{lookup_by_name}
use ppc2cpp.Model.RelocationTable.{lookup_by_insn_loc}
use ppc2cpp.Program.{Buffer, ok, word_at}
use ppc2cpp.DataFlow.Analysis.Examples.{disassembler}
use ppc2cpp.Compare.Symbols.Examples.{types}
use ppc2cpp.Loading.{type_text, ProgramLoader, get_buffer_at_location}
use ppc2cpp.ControlFlow.Graph.{find_internal_block_by_position}
use ppc2cpp.Cli.{Setting, cli_checkflow, cli_compare}
use ppc2cpp.Cli.Checkflow.{AllAlike, cli_checkflow_iff}

abbrev bytes : ℕ → Buffer
bytes offset n = bits 0x7c64_2a14 (24 - 8 * ((offset + n) % 4)) 8

abbrev sum : Symbol
sum = record {
  name = "sum";
  location = record { binary_idx = 0; section_idx = 0; section_offset = 0 };
  size = 4;
  symbol_type = function_symbol;
  symbol_binding = global_binding;
}

abbrev program : ProgramLoader
program = record {
  binaries =
      record {
        name = "main.dol";
        sections =
            record {
              name = ".text";
              offset = 0;
              length = 4;
              section_type = type_text;
              get_address = none;
              get_buffer_at_offset = λ o. some (bytes o);
              get_buffer_at_address = λ _. none;
            }
            ∷ [];
      }
      ∷ [];
  symtab = record {
    symbols = sum ∷ [];
    name_index = ("sum", 0) ∷ [];
    loc_index = (sum.location, 0) ∷ [];
  };
  reloctab = record { relocs = []; source_index = [] };
  get_reference_at_location = λ _ _. none;
}

abbrev setting : Setting
setting = record {
  host = little;
  dis = disassembler;
  lookup = λ w. w;
  types = types;
  rounds = 10;
  depth = 10;
  is_regular_file = λ _. true;
  open_project = λ _. ok program;
  atol = λ _. 0;
}

cli_checkflow_iff_example :
    (cli_checkflow setting ("a.ppc2cpp" ∷ "b.ppc2cpp" ∷ "sum" ∷ []) ≡ ok 0)
    ↔ AllAlike setting program program ("sum" ∷ [])
cli_checkflow_iff_example =
    cli_checkflow_iff setting "a.ppc2cpp" "b.ppc2cpp" "sum" [] program program (λ k d b. b) refl
      refl refl refl

sum_alike : cli_checkflow setting ("a.ppc2cpp" ∷ "b.ppc2cpp" ∷ "sum" ∷ []) ≡ ok 0
unfolding cli_checkflow get_buffer_at_location word_at find_internal_block_by_position
sum_alike = refl

missing : cli_checkflow setting ("a.ppc2cpp" ∷ "b.ppc2cpp" ∷ "difference" ∷ []) ≡ ok 22
unfolding cli_checkflow lookup_by_name
missing = refl

programs_equal : cli_compare setting ("a.ppc2cpp" ∷ "b.ppc2cpp" ∷ []) ≡ ok 0
unfolding cli_compare lookup_by_name lookup_by_insn_loc get_buffer_at_location
programs_equal = refl
