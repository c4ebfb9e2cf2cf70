-- ===== src/ControlFlow/Analysis/Sound.antt =====
-- src/control_flow/ControlFlowAnalysis.cpp: the analysis ends, changes the graph by the operations of
-- the graph alone, and gives each block a stretch of instructions without a branch before its end.
use ppc2cpp.Prelude.{
  ℕ, zero, suc, ◌+◌, ◌-◌, ◌<◌, ◌≡◌, ◌≢◌, refl, subst, Bool, some, u32_mod, arith, length,
}
use ppc2cpp.Common.Endian.{Endian}
use ppc2cpp.Model.Location.{ProgramLocation}
use ppc2cpp.Model.Symbol.{Symbol}
use ppc2cpp.Program.{Buffer, Loader, OperandValue, out_of_fuel, ok, err, ◌>>=◌, value}
use ppc2cpp.ControlFlow.Graph.{ControlFlowGraph, block_at, init, empty}
use ppc2cpp.ControlFlow.Graph.Edit.{Edits, IsWellFormed, init-IsWellFormed, Edits-IsWellFormed}
use ppc2cpp.ControlFlow.Graph.Grows.{vacant-init}
use ppc2cpp.ControlFlow.Graph.Spans.{init-Edits-Span}
use ppc2cpp.ControlFlow.Analysis.{num_insns, block_cfa, function_cfa}
use ppc2cpp.ControlFlow.Analysis.Post.{Post, VisitOk}
use ppc2cpp.ControlFlow.Analysis.Walk.{Straight, Straight-refl, walk-Post}

-- Under the hypotheses of the section, at every fuel.
module _ (host : Endian) (operand_value : OperandValue) (ld : Loader) (func : Symbol) (buf : Buffer)
    (offset_lt : func.location.section_offset < u32_mod)
    (target_lt : (l : ProgramLocation) (v : ℕ) (a : Bool) (t : ProgramLocation)
      → ld.resolve_target l v a ≡ some t
      → t.section_offset < u32_mod)
    (has_buffer : ld.get_buffer_at_location func.location ≡ some buf) where
  block_cfa-Post :
      (fuel : ℕ)
      → VisitOk
          (Straight host buf)
          (num_insns func + 1)
          fuel
          (block_cfa host operand_value ld func fuel)
  unfolding block_cfa
  block_cfa-Post zero g b l v = absurd (omega arith)
  block_cfa-Post (suc fuel) g b l v =
      rw (has_buffer, value, ◌>>=◌)
        (walk-Post host operand_value ld func buf fuel offset_lt target_lt
          (block_cfa host operand_value ld func fuel) (block_cfa-Post fuel)
          (num_insns func - (block_at g b).start) g b (block_at g b).start
          (l, Straight-refl host buf (block_at g b).start, omega arith))

  function_cfa-Post :
      Post (Straight host buf) (init empty) (function_cfa host operand_value ld func empty)
  unfolding function_cfa init
  function_cfa-Post =
      block_cfa-Post (num_insns func + 1) (init empty) 0 (omega arith)
        (vacant-init (num_insns func + 1) (omega arith))

  -- Where the loader has a buffer for the function and all offsets are 32-bit words, the analysis of
  -- a function with a fresh graph ends: its recursion does not go deeper than length + 1 calls.
  pub function_cfa-terminates : function_cfa host operand_value ld func empty ≢ err out_of_fuel
  function_cfa-terminates e = subst (Post (Straight host buf) (init empty)) e function_cfa-Post refl

  edits :
      (g : ControlFlowGraph)
      → function_cfa host operand_value ld func empty ≡ ok g
      → Edits (Straight host buf) (init empty) g
  edits g e = subst (Post (Straight host buf) (init empty)) e function_cfa-Post

  -- Where the loader has a buffer for the function and all offsets are 32-bit words, a graph that the
  -- analysis returns is well-formed: it has the entry block; the table has an entry for each block,
  -- its edges run between existing blocks, and j stands among the successors of i as often as i among
  -- the predecessors of j; no two internal blocks start at one position; and every block is reached
  -- from the entry block along successors.
  pub function_cfa-IsWellFormed :
      (g : ControlFlowGraph) → function_cfa host operand_value ld func empty ≡ ok g → IsWellFormed g
  function_cfa-IsWellFormed g e = Edits-IsWellFormed (edits g e) init-IsWellFormed

  -- Where the loader has a buffer for the function and all offsets are 32-bit words, in a graph that
  -- the analysis returns each block ends at or behind its start, and no instruction from its start up
  -- to its end, exclusive, is a branch.
  pub function_cfa-Straight :
      (g : ControlFlowGraph) (i : ℕ)
      → function_cfa host operand_value ld func empty ≡ ok g
      → i < length g.blocks
      → Straight host buf (block_at g i).start (block_at g i).end
  function_cfa-Straight g i e =
      init-Edits-Span (Straight host buf) (Straight-refl host buf) (edits g e) i
