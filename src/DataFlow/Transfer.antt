-- ===== src/DataFlow/Transfer.antt =====
-- The body of the loop of `functionDFAImpl` in src/data_flow/DataFlowAnalysis.cpp: what one
-- instruction does to the definitions of its block, and the nodes that it makes. A new node is put
-- at the end of the heap. The order in which a set of nodes is gone through is that of the library,
-- and a parameter.
pub mod Acyclic
use ppc2cpp.Prelude.{
  ℕ, zero, suc, ◌+◌, ◌*◌, Bool, true, false, not, ◌&&◌, Option, none, some, List, [], ◌∷◌, ◌++◌,
  if◌then◌else◌, length, modify,
}
use ppc2cpp.Model.CpuMemory.{CpuMemoryLocation}
use ppc2cpp.Model.Symbol.{Relocation}
use ppc2cpp.Program.{Outcome, ok, err, ◌>>=◌}
use ppc2cpp.DataFlow.Node.{
  NodeHeap, NodeKind, VarNode, function_input, immediate, reference, call_return, result, sink, phi,
}
use ppc2cpp.DataFlow.Context.{
  Definition, FlowContext, get_definition, read, set_definition, kill_definition,
}
use ppc2cpp.DataFlow.Convention.{call_inputs, killed_by_call, defined_by_call}

-- `std::make_shared`
abbrev pub make_node : NodeHeap → NodeKind → List ℕ → NodeHeap
make_node heap kind inputs = heap ++ record { kind = kind; inputs = inputs } ∷ []

-- `node->inputs = inputs`
unfoldable pub set_inputs : NodeHeap → ℕ → List ℕ → NodeHeap
set_inputs heap v inputs = modify heap v (λ n. record n { inputs = inputs })

-- Nodes with no inputs, one for each element, behind those that there are.
unfoldable pub add_refs : ℕ → ℕ → List Relocation → NodeHeap → List ℕ → NodeHeap × List ℕ
add_refs pc i [] heap ins = (heap, ins)
add_refs pc i (r ∷ rs) heap ins =
    add_refs pc (suc i) rs (make_node heap (reference pc i r) []) (ins ++ length heap ∷ [])

unfoldable pub add_imms : ℕ → ℕ → List ℕ → NodeHeap → List ℕ → NodeHeap × List ℕ
add_imms pc i [] heap ins = (heap, ins)
add_imms pc i (x ∷ xs) heap ins =
    add_imms pc (suc i) xs (make_node heap (immediate pc i x) []) (ins ++ length heap ∷ [])

module _ (iterate : Definition → List ℕ) where
  -- The input that stands for the definitions of a location.
  unfoldable pub add_input :
      ℕ → CpuMemoryLocation → Definition → NodeHeap → List ℕ → NodeHeap × List ℕ
  add_input pc l [] heap ins = (make_node heap (function_input pc l) [], ins ++ length heap ∷ [])
  add_input pc l (v ∷ []) heap ins = (heap, ins ++ v ∷ [])
  add_input pc l (v ∷ w ∷ vs) heap ins =
      (make_node heap (phi pc l) (iterate (v ∷ w ∷ vs)), ins ++ length heap ∷ [])

  unfoldable pub add_inputs :
      ℕ → FlowContext → List CpuMemoryLocation → NodeHeap → List ℕ → Outcome (NodeHeap × List ℕ)
  unfolding get_definition add_input
  add_inputs pc c [] heap ins = ok (heap, ins)
  add_inputs pc c (l ∷ ls) heap ins = get_definition l >>= λ p.
      let added = add_input pc l (read c p) heap ins in add_inputs pc c ls added.0 added.1

-- The nodes, the definitions and the outputs of the instruction so far.
pub record Outputs : Type 0 where
  pub heap : NodeHeap
  pub context : FlowContext
  pub outputs : List ℕ

-- A new node of the kind, which becomes the definition of the location.
unfoldable pub add_output : NodeKind → CpuMemoryLocation → Outputs → Outcome Outputs
unfolding set_definition
add_output kind l o = set_definition o.context l (length o.heap) >>= λ c. ok (record {
  heap = make_node o.heap kind [];
  context = c;
  outputs = o.outputs ++ length o.heap ∷ [];
})

unfoldable pub add_results : ℕ → ℕ → List CpuMemoryLocation → Outputs → Outcome Outputs
unfolding add_output
add_results pc i [] o = ok o
add_results pc i (l ∷ ls) o = add_output (result pc i l) l o >>= λ o'. add_results pc (suc i) ls o'

unfoldable pub kill_all : List CpuMemoryLocation → FlowContext → Outcome FlowContext
unfolding kill_definition
kill_all [] c = ok c
kill_all (l ∷ ls) c = kill_definition c l >>= λ c'. kill_all ls c'

unfoldable pub add_returns : ℕ → List CpuMemoryLocation → Outputs → Outcome Outputs
unfolding add_output
add_returns pc [] o = ok o
add_returns pc (l ∷ ls) o = add_output (call_return pc l) l o >>= λ o'. add_returns pc ls o'

-- The look at the arguments of a call, which has no effect but the fault of `getDefinition`.
unfoldable pub look_up_all : List CpuMemoryLocation → Outcome (Unit {0})
unfolding get_definition
look_up_all [] = ok tt
look_up_all (l ∷ ls) = get_definition l >>= λ p. look_up_all ls

-- What a branch at the end of a call's block does to the definitions. The order of the other two sets
-- does not matter.
unfoldable pub call_effects :
    (List CpuMemoryLocation → List CpuMemoryLocation) → ℕ → Outputs → Outcome Outputs
unfolding look_up_all kill_all add_returns call_inputs killed_by_call defined_by_call
call_effects iterate pc o = look_up_all call_inputs >>= λ _.
    kill_all killed_by_call o.context >>= λ c.
    add_returns pc (iterate defined_by_call) (record o { context = c })

unfoldable pub set_all_inputs : NodeHeap → List ℕ → List ℕ → NodeHeap
unfolding set_inputs
set_all_inputs heap [] ins = heap
set_all_inputs heap (v ∷ vs) ins = set_all_inputs (set_inputs heap v ins) vs ins
