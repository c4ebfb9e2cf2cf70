-- ===== src/DataFlow/Function.antt =====
-- include/ppc2cpp/data_flow/DataFlowGraph.hpp and include/ppc2cpp/model/Function.hpp, with the heap
-- that the shared pointers of the graph point into.
use ppc2cpp.Prelude.{ℕ, List, [], get_or}
use ppc2cpp.Model.Symbol.{Symbol}
use ppc2cpp.ControlFlow.Graph.{ControlFlowGraph}
use ppc2cpp.DataFlow.Node.{NodeHeap}
use ppc2cpp.DataFlow.Context.{FlowContext}

pub record DataFlowGraph : Type 0 where
  pub sinks : List (List ℕ)
  pub block_contexts : List FlowContext
  pub heap : NodeHeap

abbrev pub empty_graph : DataFlowGraph
empty_graph = record { sinks = []; block_contexts = []; heap = [] }

pub record Function : Type 0 where
  pub symbol : Symbol
  pub cfg : ControlFlowGraph
  pub dfg : DataFlowGraph

-- `dfg.sinks[i]`
abbrev pub sinks_at : Function → ℕ → List ℕ
sinks_at f i = get_or f.dfg.sinks i []
