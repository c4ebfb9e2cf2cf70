-- ===== src/Compare/Examples.antt =====
-- The comparison at concrete inputs: functions of one block, `blr`, with one sink that has the same
-- immediate twice among its inputs.
use ppc2cpp.Prelude.{
  ℕ, zero, suc, ◌<◌, ◌≡◌, ◌↔◌, refl, Bool, true, false, none, some, [], ◌∷◌, arith, length, subst,
}
use ppc2cpp.Common.Endian.{little}
use ppc2cpp.Model.Symbol.{Relocation, function_symbol, global_binding}
use ppc2cpp.Program.{Outcome, ok, Loader, word_at}
use ppc2cpp.ControlFlow.Graph.{new_block, internal, empty_entry, find_block_by_insn_idx}
use ppc2cpp.DataFlow.Node.{VarNode, NodeHeap, IsAcyclic, AllBelow, immediate, sink}
use ppc2cpp.DataFlow.Function.{Function}
use ppc2cpp.Compare.VarNodes.{Sides, compare_var_nodes}
use ppc2cpp.Compare.VarNodes.Plain.{same_nodes}
use ppc2cpp.Compare.VarNodes.Cached.{verdict, compare_var_nodes-same_nodes}
use ppc2cpp.Compare.VarNodes.Meaning.{Same, compare_var_nodes_iff}
use ppc2cpp.Compare.Flows.{sides, compare_function_flows}
use ppc2cpp.Compare.Flows.Meaning.{BlockMatches, compare_function_flows_iff}

abbrev heap : NodeHeap
heap =
    record { kind = immediate 0 0 20; inputs = [] }
    ∷ record { kind = sink 0; inputs = 0 ∷ 0 ∷ [] }
    ∷ []

heap-IsAcyclic : IsAcyclic heap
heap-IsAcyclic zero n e =
    subst (λ (m : VarNode). AllBelow 0 m.inputs)
      {x = record { kind = immediate 0 0 20; inputs = [] }} {y = n} (cc) tt
heap-IsAcyclic (suc zero) n e =
    subst (λ (m : VarNode). AllBelow 1 m.inputs) {x = record { kind = sink 0; inputs = 0 ∷ 0 ∷ [] }}
      {y = n} (cc) (omega arith)
heap-IsAcyclic (suc (suc v)) n e = absurd (cc)

abbrev loader : Loader
loader = record {
  get_buffer_at_location = λ _. some (λ _. 0x4e);
  resolve_target = λ _ _ _. none;
  lookup_by_insn_loc = λ _. none;
}

abbrev func : Function
func = record {
  symbol = record {
    name = "f";
    location = record { binary_idx = 0; section_idx = 0; section_offset = 0 };
    size = 4;
    symbol_type = function_symbol;
    symbol_binding = global_binding;
  };
  cfg = record { blocks = new_block internal 0 ∷ []; ps_table = empty_entry ∷ [] };
  dfg = record { sinks = (1 ∷ []) ∷ []; block_contexts = []; heap = heap };
}

abbrev no_relocations : Relocation → Relocation → Outcome Bool
no_relocations r1 r2 = ok false

abbrev both_sides : Sides
both_sides = sides little (λ w. w) no_relocations loader loader func func (λ _. 0x4e) (λ _. 0x4e)

compare_var_nodes-same_nodes_example :
    verdict (compare_var_nodes both_sides heap heap 2 1 1 []) ≡ same_nodes both_sides heap heap 1 1
compare_var_nodes-same_nodes_example =
    compare_var_nodes-same_nodes both_sides heap heap heap-IsAcyclic 2 1 1 (omega arith)

compare_var_nodes_iff_example :
    (verdict (compare_var_nodes both_sides heap heap 2 1 1 []) ≡ ok true)
    ↔ Same both_sides heap heap 1 1
compare_var_nodes_iff_example =
    compare_var_nodes_iff both_sides heap heap heap-IsAcyclic 2 1 1 (omega arith)

compare_function_flows_iff_example :
    (compare_function_flows little (λ w. w) no_relocations loader loader func func ≡ ok true) ↔ (
      (length func.cfg.blocks ≡ length func.cfg.blocks)
      × ((i : ℕ) → i < length func.cfg.blocks → BlockMatches both_sides func func i))
compare_function_flows_iff_example =
    compare_function_flows_iff little (λ w. w) no_relocations loader loader func func (λ _. 0x4e)
      (λ _. 0x4e) heap-IsAcyclic refl refl

func_is_equivalent :
    compare_function_flows little (λ w. w) no_relocations loader loader func func ≡ ok true
unfolding compare_function_flows word_at find_block_by_insn_idx
func_is_equivalent = refl
