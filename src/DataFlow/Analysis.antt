-- ===== src/DataFlow/Analysis.antt =====
-- src/data_flow/DataFlowAnalysis.cpp: the contexts of the blocks and the worklist. The recursion on the
-- worklist and the search that fills it are on fuel.
pub mod Acyclic
pub mod Worklist
pub mod Examples
use ppc2cpp.Prelude.{
  ℕ, zero, suc, ◌+◌, ◌-◌, ◌*◌, Bool, true, false, not, ◌&&◌, ◌||◌, Option, none, some, List, [],
  ◌∷◌, ◌++◌, ◌==◌, if◌then◌else◌, length, get_or, modify,
}
use ppc2cpp.Common.Endian.{Endian}
use ppc2cpp.Common.Insn.{is_branch, is_branch_unconditional, is_absolute, branch_value}
use ppc2cpp.Model.CpuMemory.{CpuMemoryLocation}
use ppc2cpp.Model.Location.{ProgramLocation, advance}
use ppc2cpp.Model.Symbol.{Symbol, Relocation, contains}
use ppc2cpp.Program.{
  Buffer, Loader, OperandValue, word_at, Outcome, ok, err, out_of_fuel, ◌>>=◌, value,
}
use ppc2cpp.ControlFlow.Graph.{ControlFlowGraph, block_at, entry_at, eq_type, internal}
use ppc2cpp.ControlFlow.Analysis.{num_insns}
use ppc2cpp.DataFlow.Node.{NodeHeap, sink, returned, phi}
use ppc2cpp.DataFlow.Function.{Function, DataFlowGraph}
use ppc2cpp.DataFlow.InsnSets.{has}
use ppc2cpp.DataFlow.InsnSets.Lists.{store_insn}
use ppc2cpp.DataFlow.InstructionUd.{Opcode, Tables, InstructionUd, instruction_ud}
use ppc2cpp.DataFlow.Context.{
  Definition, member, FlowContext, FlowContextSizes, context_union, get_sizes, get_definition, read,
}
use ppc2cpp.DataFlow.Convention.{defined_by_call}
use ppc2cpp.DataFlow.Block.{Disassembler, BlockState, insns_dfa, return_sinks}
use ppc2cpp.DataFlow.Transfer.{
  make_node, set_inputs, add_refs, add_imms, add_inputs, Outputs, add_results, call_effects,
  set_all_inputs,
}

abbrev pub repeat {ℓ} : {A : Type ℓ} → ℕ → A → List A
repeat zero a = []
repeat (suc n) a = a ∷ repeat n a

-- `FlowContext flowContext;`
abbrev pub empty_context : FlowContext
empty_context = record {
  gprs = repeat 32 [];
  cr = repeat 32 [];
  lr = [];
  ctr = [];
  xer = [];
  fprs = repeat 32 [];
  fpscr = [];
  gqrs = repeat 8 [];
  ps1s = repeat 32 [];
}

-- `v.resize(n)`
unfoldable pub resize {ℓ} : {A : Type ℓ} → ℕ → A → List A → List A
resize zero d xs = []
resize (suc n) d [] = d ∷ resize n d []
resize (suc n) d (x ∷ xs) = x ∷ resize n d xs

abbrev pub equal_lists : List ℕ → List ℕ → Bool
equal_lists [] [] = true
equal_lists (x ∷ xs) (y ∷ ys) = x == y && equal_lists xs ys
equal_lists _ _ = false

-- `FlowContextSizes::operator==`
unfoldable pub equal_sizes : FlowContextSizes → FlowContextSizes → Bool
equal_sizes a b =
    equal_lists a.gprs b.gprs
    && equal_lists a.cr b.cr
    && a.lr == b.lr
    && a.ctr == b.ctr
    && a.xer == b.xer
    && equal_lists a.fprs b.fprs
    && a.fpscr == b.fpscr
    && equal_lists a.gqrs b.gqrs
    && equal_lists a.ps1s b.ps1s

module _ (host : Endian) (dis : Disassembler) (ld : Loader) (func : Symbol)
    (cfg : ControlFlowGraph) where
  -- The union of the contexts of the predecessors.
  unfoldable pub union_of : List FlowContext → List ℕ → FlowContext → FlowContext
  unfolding context_union
  union_of contexts [] c = c
  union_of contexts (p ∷ ps) c =
      union_of contexts ps (context_union c (get_or contexts p empty_context))

  unfoldable pub init_block_context : DataFlowGraph → ℕ → FlowContext
  unfolding union_of
  init_block_context g block = union_of g.block_contexts (entry_at cfg block).pred empty_context

  -- `functionDFAImpl` up to the test of the sizes.
  unfoldable pub block_dfa : DataFlowGraph → ℕ → Outcome DataFlowGraph
  unfolding init_block_context insns_dfa return_sinks defined_by_call
  block_dfa g block =
      let b = block_at cfg block in
      let st : BlockState = record {
        heap = g.heap;
        context = init_block_context g block;
        sinks = [];
      } in
      value (ld.get_buffer_at_location func.location) >>= λ buf.
      insns_dfa host dis ld func b.ends_in_call buf (suc b.end - b.start) b.start st >>= λ st1.
      (if b.is_exit
        then return_sinks host dis ld func b.end (dis.iterate_locations defined_by_call) st1
        else ok st1)
      >>= λ st2. ok (record {
        sinks = modify g.sinks block (λ _. st2.sinks);
        block_contexts = modify g.block_contexts block (λ _. st2.context);
        heap = st2.heap;
      })

  -- The successors that are internal and are not on the worklist come to its front.
  unfoldable pub requeue : List ℕ → List ℕ → List ℕ
  requeue [] worklist = worklist
  requeue (s ∷ ss) worklist =
      let fresh = eq_type (block_at cfg s).block_type internal && not (member s worklist) in
      requeue ss (if fresh then s ∷ worklist else worklist)

  unfoldable pub function_dfa_impl : ℕ → List ℕ → DataFlowGraph → Outcome DataFlowGraph
  unfolding block_dfa requeue equal_sizes get_sizes
  function_dfa_impl fuel [] g = ok g
  function_dfa_impl zero (block ∷ worklist) g = err out_of_fuel
  function_dfa_impl (suc fuel) (block ∷ worklist) g = block_dfa g block >>= λ g'.
      let prev = get_sizes (get_or g.block_contexts block empty_context) in
      let post = get_sizes (get_or g'.block_contexts block empty_context) in
      function_dfa_impl fuel
        (if equal_sizes prev post then worklist else requeue (entry_at cfg block).succ worklist) g'

  -- The loop over the successors of a block, with the call for one of them.
  unfoldable pub queue_successors :
      (ℕ → List ℕ → Outcome (List ℕ)) → List ℕ → List ℕ → Outcome (List ℕ)
  queue_successors visit [] worklist = ok worklist
  queue_successors visit (s ∷ ss) worklist =
      let fresh = eq_type (block_at cfg s).block_type internal && not (member s worklist) in
      (if fresh then visit s worklist else ok worklist) >>= λ wl. queue_successors visit ss wl

  unfoldable pub init_worklist_recurse : ℕ → ℕ → List ℕ → Outcome (List ℕ)
  unfolding queue_successors
  init_worklist_recurse zero block worklist = err out_of_fuel
  init_worklist_recurse (suc fuel) block worklist =
      queue_successors (init_worklist_recurse fuel) (entry_at cfg block).succ
        (worklist ++ block ∷ [])

  -- Each call is for a block that is not on the worklist, so they are nested at most as deep as
  -- there are blocks.
  unfoldable pub init_worklist : Outcome (List ℕ)
  unfolding init_worklist_recurse
  init_worklist = init_worklist_recurse (length cfg.blocks) 0 []

-- `functionDFA`, with fuel for the worklist.
unfoldable pub function_dfa : Endian → Disassembler → Loader → ℕ → Function → Outcome Function
unfolding init_worklist function_dfa_impl resize
function_dfa host dis ld fuel f =
    let n = length f.cfg.blocks in
    let start : DataFlowGraph = record {
      sinks = resize n [] f.dfg.sinks;
      block_contexts = resize n empty_context f.dfg.block_contexts;
      heap = f.dfg.heap;
    } in
    init_worklist host dis ld f.symbol f.cfg >>= λ worklist.
    function_dfa_impl host dis ld f.symbol f.cfg fuel worklist start >>= λ g.
    ok (record f { dfg = g })
