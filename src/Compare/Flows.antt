-- ===== src/Compare/Flows.antt =====
-- `compareFunctionFlows` of src/analysis/ProgramComparator.cpp. The comparison of a sink has fuel for
-- the number of its node, which bounds the depth below it.
pub mod Sinks
pub mod Meaning
use ppc2cpp.Prelude.{
  ℕ, zero, suc, Bool, true, false, not, Option, List, [], ◌∷◌, ◌+◌, ◌==◌, ltb, if◌then◌else◌,
  length,
}
use ppc2cpp.Common.Endian.{Endian}
use ppc2cpp.Model.Symbol.{Relocation}
use ppc2cpp.Program.{Outcome, ok, err, ◌>>=◌, Loader, Buffer, value, word_at}
use ppc2cpp.ControlFlow.Graph.{find_block_by_insn_idx, entry_at}
use ppc2cpp.DataFlow.Function.{Function, sinks_at}
use ppc2cpp.Compare.VarNodes.{Sides, Cache, set, compare_var_nodes}

-- The loop over the successors, which stops at the first list's end.
unfoldable pub equal_upto : List ℕ → List ℕ → Bool
equal_upto (x ∷ xs) (y ∷ ys) = if x == y then equal_upto xs ys else false
equal_upto _ _ = true

module _ (s : Sides) (f1 f2 : Function) where
  -- The loop over the sinks of a block. A mismatch is put into the cache as a match.
  unfoldable pub compare_sinks : List ℕ → List ℕ → Cache → Outcome (Bool × Cache)
  unfolding compare_var_nodes set
  compare_sinks [] [] c = ok (true, c)
  compare_sinks [] (y ∷ ys) c = ok (false, c)
  compare_sinks (x ∷ xs) [] c = ok (false, c)
  compare_sinks (x ∷ xs) (y ∷ ys) c =
      compare_var_nodes s f1.dfg.heap f2.dfg.heap (suc x) x y c >>= λ r.
      let rest = compare_sinks xs ys r.1 in if r.0 then rest else ok (false, set r.1 x y true)

  abbrev pub succ1 : ℕ → List ℕ
  succ1 i = (entry_at f1.cfg i).succ

  abbrev pub succ2 : ℕ → List ℕ
  succ2 i = (entry_at f2.cfg i).succ

  unfoldable pub same_successors : ℕ → Bool
  unfolding equal_upto
  same_successors i =
      if length (succ1 i) == length (succ2 i) then equal_upto (succ1 i) (succ2 i) else false

  -- The loop over the basic blocks, from block i on, with the number of blocks that are left.
  unfoldable pub compare_blocks : ℕ → ℕ → Cache → Outcome Bool
  unfolding compare_sinks same_successors
  compare_blocks zero i c = ok true
  compare_blocks (suc rounds) i c =
      let sinks = compare_sinks (sinks_at f1 i) (sinks_at f2 i) c >>= λ r.
      let rest = compare_blocks rounds (i + 1) r.1 in
      if r.0 then (if same_successors i then rest else ok false) else ok false in
      if ltb i (length f2.cfg.blocks) then sinks else ok false

  -- The loop, and the test for blocks that the second function has besides.
  unfoldable pub compare_graphs : Outcome Bool
  unfolding compare_blocks
  compare_graphs = compare_blocks (length f1.cfg.blocks) 0 [] >>= λ equal.
      ok (if equal then not (ltb (length f1.cfg.blocks) (length f2.cfg.blocks)) else false)

module _ (host : Endian) (lookup : ℕ → ℕ)
    (compare_relocations : Relocation → Relocation → Outcome Bool) (ld1 ld2 : Loader)
    (f1 f2 : Function) where
  abbrev pub sides : Buffer → Buffer → Sides
  sides buf1 buf2 = record {
    word1 = word_at host buf1;
    word2 = word_at host buf2;
    block1 = find_block_by_insn_idx f1.cfg;
    block2 = find_block_by_insn_idx f2.cfg;
    lookup = lookup;
    compare_relocations = compare_relocations;
  }

  unfoldable pub compare_function_flows : Outcome Bool
  unfolding compare_graphs
  compare_function_flows = value (ld1.get_buffer_at_location f1.symbol.location) >>= λ buf1.
      value (ld2.get_buffer_at_location f2.symbol.location) >>= λ buf2.
      compare_graphs (sides buf1 buf2) f1 f2
