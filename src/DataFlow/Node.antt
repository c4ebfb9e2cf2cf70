-- ===== src/DataFlow/Node.antt =====
-- include/ppc2cpp/data_flow/DataFlowNode.hpp. A `shared_ptr` to a node is its number on a heap, in
-- the order in which the nodes are made. One constructor stands for each class that is instantiated.
pub mod Acyclic
use ppc2cpp.Prelude.{ℕ, ◌<◌, ◌≡◌, List, [], ◌∷◌, some, get_elem?}
use ppc2cpp.Model.CpuMemory.{CpuMemoryLocation}
use ppc2cpp.Model.Symbol.{Relocation}

-- The fields of a node besides its inputs: index, operand index and value.
pub data NodeKind : Type 0 where
  function_input : ℕ → CpuMemoryLocation → NodeKind
  immediate : ℕ → ℕ → ℕ → NodeKind
  reference : ℕ → ℕ → Relocation → NodeKind
  call_return : ℕ → CpuMemoryLocation → NodeKind
  result : ℕ → ℕ → CpuMemoryLocation → NodeKind
  sink : ℕ → NodeKind
  returned : ℕ → CpuMemoryLocation → NodeKind
  phi : ℕ → CpuMemoryLocation → NodeKind

pub record VarNode : Type 0 where
  pub kind : NodeKind
  pub inputs : List ℕ

abbrev pub NodeHeap : Type 0
NodeHeap = List VarNode

abbrev pub AllBelow : ℕ → List ℕ → Type 0
AllBelow v [] = Unit {0}
AllBelow v (x ∷ xs) = (x < v) × AllBelow v xs

-- Each node's inputs were made before it.
abbrev pub IsAcyclic : NodeHeap → Type 0
IsAcyclic heap = (v : ℕ) (n : VarNode) → get_elem? heap v ≡ some n → AllBelow v n.inputs
