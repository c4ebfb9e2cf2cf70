-- ===== src/ControlFlow/Examples.antt =====
-- The control flow analysis of a function of four instructions: `li`, a conditional branch over the
-- next one, `li` and `blr`. The fields that ppcdisasm would decode are decoded here.
use ppc2cpp.Prelude.{
  ℕ, ◌*◌, ◌-◌, ◌/◌, ◌%◌, ◌<◌, ◌≡◌, ◌≢◌, refl, Bool, true, Option, none, some, List, [], ◌∷◌, arith,
  get_or, bits, ltb, if◌then◌else◌, u32_mod,
}
use ppc2cpp.Common.Endian.{little}
use ppc2cpp.Common.Insn.{branch_value, is_branch_unconditional, is_branch_conditional}
use ppc2cpp.Model.Location.{ProgramLocation, advance}
use ppc2cpp.Model.Symbol.{Symbol, function_symbol, global_binding}
use ppc2cpp.Program.{Buffer, Loader, OperandValue, word_at, Field, ok, err, out_of_fuel}
use ppc2cpp.ControlFlow.Graph.{
  ControlFlowGraph, BasicBlock, internal, runtime, new_block, empty,
  find_internal_block_by_position, try_create_successor_internal, mark, create_successor_runtime,
  create_successor_fallthrough,
}
use ppc2cpp.ControlFlow.Graph.Edit.{IsWellFormed}
use ppc2cpp.ControlFlow.Analysis.{function_cfa}
use ppc2cpp.ControlFlow.Analysis.Sound.{
  function_cfa-terminates, function_cfa-IsWellFormed, function_cfa-Straight,
}
use ppc2cpp.ControlFlow.Analysis.Walk.{Straight}

abbrev code : List ℕ
code = 0x3860_0001 ∷ 0x4082_0008 ∷ 0x3860_0002 ∷ 0x4e80_0020 ∷ []

-- The big-endian bytes of the code.
abbrev bytes : Buffer
bytes n = bits (get_or code (n / 4) 0) (24 - 8 * (n % 4)) 8

abbrev section_size : ℕ
section_size = 16

-- Targets are relative, inside the section.
abbrev resolve : ProgramLocation → ℕ → Bool → Option ProgramLocation
resolve l v a = let t = advance l v in if ltb t.section_offset section_size then some t else none

abbrev loader : Loader
loader = record {
  get_buffer_at_location = λ _. some bytes;
  resolve_target = resolve;
  lookup_by_insn_loc = λ _. none;
}

abbrev fields : OperandValue
fields Field.li insn = branch_value insn
fields Field.bd insn = 4 * bits insn 2 14
fields Field.bo insn = bits insn 21 5
fields Field.bi insn = bits insn 16 5

abbrev func : Symbol
func = record {
  name = "f";
  location = record { binary_idx = 0; section_idx = 0; section_offset = 0 };
  size = 16;
  symbol_type = function_symbol;
  symbol_binding = global_binding;
}

abbrev ends_at : ℕ → BasicBlock → BasicBlock
ends_at e b = record b { end = e }

abbrev graph : ControlFlowGraph
graph = record {
  blocks =
      ends_at 1 (new_block internal 0)
      ∷ record (new_block internal 3) { is_exit = true }
      ∷ new_block runtime 3
      ∷ new_block internal 2
      ∷ [];
  ps_table =
      record { pred = []; succ = 1 ∷ 3 ∷ [] }
      ∷ record { pred = 0 ∷ 3 ∷ []; succ = 2 ∷ [] }
      ∷ record { pred = 1 ∷ []; succ = [] }
      ∷ record { pred = 0 ∷ []; succ = 1 ∷ [] }
      ∷ [];
}

function_cfa-graph : function_cfa little fields loader func empty ≡ ok graph
unfolding function_cfa branch_value advance is_branch_unconditional word_at is_branch_conditional
    find_internal_block_by_position try_create_successor_internal mark create_successor_runtime
    create_successor_fallthrough
function_cfa-graph = refl

resolve-lt :
    (l : ProgramLocation) (v : ℕ) (a : Bool) (t : ProgramLocation)
    → loader.resolve_target l v a ≡ some t
    → t.section_offset < u32_mod
unfolding advance
resolve-lt l v a t h = ground arith

function_cfa-terminates_example : function_cfa little fields loader func empty ≢ err out_of_fuel
function_cfa-terminates_example =
    function_cfa-terminates little fields loader func bytes (omega arith) resolve-lt refl

function_cfa-IsWellFormed_example : IsWellFormed graph
function_cfa-IsWellFormed_example =
    function_cfa-IsWellFormed little fields loader func bytes (omega arith) resolve-lt refl graph
      function_cfa-graph

function_cfa-Straight_example : Straight little bytes 0 1
function_cfa-Straight_example =
    function_cfa-Straight little fields loader func bytes (omega arith) resolve-lt refl graph 0
      function_cfa-graph (omega arith)
