-- ===== src/DataFlow/Analysis/Examples.antt =====
-- The data flow analysis at a concrete input: a function of the one instruction `adde. r3, r4, r5`,
-- in one block, which is an exit.
use ppc2cpp.Prelude.{
  bit, ◌+◌, ◌/◌, get_or, ◌==◌, if◌then◌else◌, ℕ, zero, suc, ◌<◌, ◌≡◌, refl, true, false, none, some,
  List, [], ◌∷◌, arith, count, bits, modify, ◌≤◌, ◌%◌, ◌*◌, ◌-◌, length,
}
use ppc2cpp.Common.Endian.{little}
use ppc2cpp.ControlFlow.Analysis.{function_cfa}
use ppc2cpp.Common.Insn.{branch_value, is_branch_conditional, is_branch, is_branch_unconditional}
use ppc2cpp.Model.Location.{advance}
use ppc2cpp.Model.CpuMemory.{gpr}
use ppc2cpp.Model.Symbol.{Symbol, function_symbol, global_binding}
use ppc2cpp.Program.{OperandValue, Field, ◌>>=◌, err, out_of_fuel, Buffer, Loader, ok, word_at}
use ppc2cpp.ControlFlow.Graph.{
  empty, find_internal_block_by_position, try_create_successor_internal, mark,
  create_successor_runtime, create_successor_fallthrough, ControlFlowGraph, new_block, internal,
  empty_entry, entry_at,
}
use ppc2cpp.DataFlow.Node.{NodeHeap, function_input, result, returned}
use ppc2cpp.DataFlow.Function.{Function, empty_graph}
use ppc2cpp.DataFlow.InsnSets.Lists.{store_insn}
use ppc2cpp.DataFlow.InstructionUd.{Operand, loc, is_operand_register}
use ppc2cpp.DataFlow.Form.{index}
use ppc2cpp.DataFlow.Block.{Disassembler}
use ppc2cpp.DataFlow.Form.{Form}
use ppc2cpp.DataFlow.Context.{FlowContext}
use ppc2cpp.DataFlow.Analysis.{init_worklist, function_dfa, empty_context}
use ppc2cpp.DataFlow.Analysis.Acyclic.{GraphOk, function_dfa-GraphOk, empty_graph-GraphOk}
use ppc2cpp.DataFlow.Analysis.Worklist.{is_internal, init_worklist-Queued}

abbrev bytes : Buffer
bytes n = bits 0x7c64_2915 (24 - 8 * (n % 4)) 8

abbrev loader : Loader
loader = record {
  get_buffer_at_location = λ _. some bytes;
  resolve_target = λ _ _ _. none;
  lookup_by_insn_loc = λ _. none;
}

abbrev register : ℕ → ℕ → Operand
register idx v = record {
  idx = idx;
  flags = record {
    is_gpr = true;
    is_gpr_0 = false;
    is_fpr = false;
    is_gqr = false;
    is_cr_bit = false;
    is_spr = false;
    is_cr_reg = false;
    is_optional32 = false;
    others = false;
  };
  value = λ _. v;
}

-- ppcdisasm for this one instruction.
abbrev pub disassembler : Disassembler
disassembler = record {
  lookup_opcode = λ _. record {
    opcode = index Form.add;
    operands = register 1 3 ∷ register 2 4 ∷ register 3 5 ∷ [];
  };
  operand_value = λ _ _. 0;
  tables = record {
    form = index;
    sets = record {
      non_store_insn = Form.add ∷ [];
      supported_insn = Form.add ∷ [];
      can_have_reloc_insn = [];
    };
    ral = 40;
    ras = 41;
  };
  rel24 = 10;
  iterate = λ d. d;
  iterate_locations = λ ls. ls;
}

abbrev graph : ControlFlowGraph
graph = record {
  blocks = record (new_block internal 0) { is_exit = true } ∷ [];
  ps_table = empty_entry ∷ [];
}

abbrev func : Symbol
func = record {
  name = "f";
  location = record { binary_idx = 0; section_idx = 0; section_offset = 0 };
  size = 4;
  symbol_type = function_symbol;
  symbol_binding = global_binding;
}

abbrev before : Function
before = record { symbol = func; cfg = graph; dfg = empty_graph }

-- Two inputs of the function, the sum, and the sink for the value that is returned.
abbrev nodes : NodeHeap
nodes =
    record { kind = function_input 0 (loc gpr 4); inputs = [] }
    ∷ record { kind = function_input 0 (loc gpr 5); inputs = [] }
    ∷ record { kind = result 0 0 (loc gpr 3); inputs = 0 ∷ 1 ∷ [] }
    ∷ record { kind = returned 0 (loc gpr 3); inputs = 2 ∷ [] }
    ∷ []

abbrev context : FlowContext
context = record empty_context { gprs = modify empty_context.gprs 3 (λ _. 2 ∷ []) }

abbrev after : Function
after = record before {
  dfg = record { sinks = (3 ∷ []) ∷ []; block_contexts = context ∷ []; heap = nodes };
}

function_dfa-after : function_dfa little disassembler loader 1 before ≡ ok after
unfolding function_dfa advance is_branch_unconditional word_at is_operand_register store_insn
    is_branch
function_dfa-after = refl

function_dfa-GraphOk_example :
    GraphOk after.dfg × (after.symbol ≡ before.symbol) × (after.cfg ≡ before.cfg)
function_dfa-GraphOk_example =
    function_dfa-GraphOk little disassembler loader 1 before after (λ k d b. b) empty_graph-GraphOk
      function_dfa-after

init_worklist-Queued_example :
    (wl : List ℕ) × (init_worklist little disassembler loader func graph ≡ ok wl)
    × (0 < count 0 wl)
    × ((v : ℕ) → count v wl ≤ 1)
    × ((v s : ℕ)
        → 0 < count v wl
        → 0 < count s (entry_at graph v).succ
        → is_internal little disassembler loader func graph s ≡ true
        → 0 < count s wl)
init_worklist-Queued_example =
    init_worklist-Queued little disassembler loader func graph (omega arith) no_edges
  where
    no_edges : (v s : ℕ) → 0 < count s (entry_at graph v).succ → s < 1
    no_edges zero s l = absurd (omega arith)
    no_edges (suc v) s l = absurd (omega arith)

-- A loop in a loop: `add r3, r4, r5`, a branch to the next instruction, a branch to itself while the
-- counter lasts, `add r6, r4, r5`, a conditional branch to the first instruction, and `blr`.
abbrev nested_code : List ℕ
nested_code = 0x7c64_2a14 ∷ 0x4800_0004 ∷ 0x4200_0000 ∷ 0x7cc4_2a14 ∷ 0x4082_fff0 ∷ 0x4e80_0020 ∷ []

abbrev nested_bytes : Buffer
nested_bytes n = bits (get_or nested_code (n / 4) 0) (24 - 8 * (n % 4)) 8

abbrev nested_loader : Loader
nested_loader = record {
  get_buffer_at_location = λ _. some nested_bytes;
  resolve_target = λ l v a. some (advance l v);
  lookup_by_insn_loc = λ _. none;
}

-- The displacement of a conditional branch has a sign.
abbrev nested_fields : OperandValue
nested_fields Field.li insn = branch_value insn
nested_fields Field.bd insn = 4 * bits insn 2 14 + (if bit insn 15 then 0xffff_0000 else 0)
nested_fields Field.bo insn = bits insn 21 5
nested_fields Field.bi insn = bits insn 16 5

abbrev nested_disassembler : Disassembler
nested_disassembler = record disassembler {
  lookup_opcode = λ w. record {
    opcode = index Form.add;
    operands =
        if bits w 26 6 == 31
        then register 1 (bits w 21 5) ∷ register 2 4 ∷ register 3 5 ∷ []
        else [];
  };
  operand_value = nested_fields;
}

abbrev nested : Symbol
nested = record func { size = 24 }

-- Its control flow graph has a block for each of the three parts, one for `blr`, and one for the
-- caller.
nested-function_cfa :
    (function_cfa little nested_fields nested_loader nested empty >>= λ g. ok (length g.blocks))
    ≡ ok 5
unfolding function_cfa branch_value advance is_branch_unconditional word_at is_branch_conditional
    find_internal_block_by_position try_create_successor_internal mark create_successor_runtime
    create_successor_fallthrough
nested-function_cfa = refl

-- Each round of the outer loop makes a new node for r3, which the inner loop adds to those that it has:
-- after 200 rounds of the worklist the analysis has not ended.
nested-function_dfa :
    (function_cfa little nested_fields nested_loader nested empty >>= λ g.
    function_dfa little nested_disassembler nested_loader 200
      (record { symbol = nested; cfg = g; dfg = empty_graph }))
    ≡ err out_of_fuel
unfolding function_cfa branch_value advance is_branch_unconditional word_at is_branch_conditional
    find_internal_block_by_position try_create_successor_internal mark create_successor_runtime
    create_successor_fallthrough function_dfa is_operand_register store_insn is_branch
nested-function_dfa = refl
