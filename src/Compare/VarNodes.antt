-- ===== src/Compare/VarNodes.antt =====
-- `compareVarNodes` of src/analysis/ProgramComparator.cpp and its cache. The recursion is bounded by
-- fuel; the messages that the source prints are left out.
pub mod Plain
pub mod Cached
pub mod Meaning
use ppc2cpp.Prelude.{
  ℕ, zero, suc, Bool, true, false, not, ◌&&◌, Option, none, some, List, [], ◌∷◌, ◌==◌,
  if◌then◌else◌, get_elem?,
}
use ppc2cpp.Model.CpuMemory.{eq_location}
use ppc2cpp.Model.Symbol.{Relocation}
use ppc2cpp.Program.{Outcome, ok, err, runtime_error, out_of_fuel, ◌>>=◌}
use ppc2cpp.DataFlow.Node.{
  NodeKind, VarNode, NodeHeap, function_input, immediate, reference, call_return, result, sink,
  returned, phi,
}

-- `VarNodeComparisonCache`: the last entry that was set for a pair comes first.
abbrev pub Cache : Type 0
Cache = List ((ℕ × ℕ) × Bool)

unfoldable pub set : Cache → ℕ → ℕ → Bool → Cache
set c v1 v2 equal = ((v1, v2), equal) ∷ c

unfoldable pub check : Cache → ℕ → ℕ → Option Bool
check [] v1 v2 = none
check (((a, b), equal) ∷ c) v1 v2 = if a == v1 && b == v2 then some equal else check c v1 v2

-- What the comparison reads of the two functions: the instruction word at an index, the basic block
-- that has it, and `lookup_powerpc`, whose result the source compares as a pointer; and the
-- comparison of relocations.
pub record Sides : Type 0 where
  pub word1 : ℕ → ℕ
  pub word2 : ℕ → ℕ
  pub block1 : ℕ → Option ℕ
  pub block2 : ℕ → Option ℕ
  pub lookup : ℕ → ℕ
  pub compare_relocations : Relocation → Relocation → Outcome Bool

-- `cfgIdx1 != cfgIdx2 || cfgIdx1 == -1`, negated.
abbrev pub same_block : Option ℕ → Option ℕ → Bool
same_block (some a) (some b) = a == b
same_block _ _ = false

module _ (s : Sides) where
  unfoldable pub same_insn : ℕ → ℕ → Bool
  same_insn i1 i2 =
      s.lookup (s.word1 i1) == s.lookup (s.word2 i2) && same_block (s.block1 i1) (s.block2 i2)

  -- The tests before the inputs are compared; nodes of different classes fail them.
  unfoldable pub compare_kinds : NodeKind → NodeKind → Outcome Bool
  unfolding same_insn eq_location
  compare_kinds (sink i1) (sink i2) = ok (same_insn i1 i2)
  compare_kinds (returned i1 _) (returned i2 _) = ok (same_insn i1 i2)
  compare_kinds (result i1 _ _) (result i2 _ _) = ok (same_insn i1 i2)
  compare_kinds (function_input _ l1) (function_input _ l2) = ok (eq_location l1 l2)
  compare_kinds (immediate _ _ x1) (immediate _ _ x2) = ok (x1 == x2)
  compare_kinds (reference _ _ r1) (reference _ _ r2) = s.compare_relocations r1 r2
  compare_kinds (phi _ _) (phi _ _) = ok true
  compare_kinds (call_return _ _) (call_return _ _) = ok true
  compare_kinds _ _ = ok false

abbrev pub Compare : Type 0
Compare = ℕ → ℕ → Cache → Outcome (Bool × Cache)

-- The loop over the inputs of v1 and v2, and the test behind it.
unfoldable pub compare_inputs : Compare → ℕ → ℕ → List ℕ → List ℕ → Cache → Outcome (Bool × Cache)
unfolding set
compare_inputs compare v1 v2 [] [] c = ok (true, c)
compare_inputs compare v1 v2 [] (y ∷ ys) c = ok (false, c)
compare_inputs compare v1 v2 (x ∷ xs) [] c = ok (false, c)
compare_inputs compare v1 v2 (x ∷ xs) (y ∷ ys) c = compare x y c >>= λ r.
    let rest = compare_inputs compare v1 v2 xs ys (set r.1 v1 v2 true) in
    if r.0 then rest else ok (false, set r.1 v1 v2 false)

-- A null pointer fails the cast to `DataFlowNode`, and the source throws.
unfoldable pub node_at : NodeHeap → ℕ → Outcome VarNode
node_at heap v = elim (get_elem? heap v) [ none ↦ err runtime_error | some n ↦ ok n ]

module _ (s : Sides) (heap1 heap2 : NodeHeap) where
  unfoldable pub compare_var_nodes : ℕ → Compare
  unfolding check compare_kinds compare_inputs node_at
  compare_var_nodes zero v1 v2 c = err out_of_fuel
  compare_var_nodes (suc fuel) v1 v2 c =
      let fresh = node_at heap1 v1 >>= λ n1. node_at heap2 v2 >>= λ n2.
      compare_kinds s n1.kind n2.kind >>= λ same.
      if same
      then compare_inputs (compare_var_nodes fuel) v1 v2 n1.inputs n2.inputs c
      else ok (false, c) in
      elim (check c v1 v2) [ some equal ↦ ok (equal, c) | none ↦ fresh ]
