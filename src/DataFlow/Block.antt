-- ===== src/DataFlow/Block.antt =====
-- The loop of `functionDFAImpl` in src/data_flow/DataFlowAnalysis.cpp over the instructions of a block,
-- and the sinks of an exit block. What it takes from the loader, and from ppcdisasm, is a parameter;
-- so is the order in which a set of nodes is gone through.
pub mod Acyclic
use ppc2cpp.Prelude.{
  ℕ, zero, suc, ◌+◌, ◌-◌, ◌*◌, Bool, true, false, not, ◌&&◌, ◌||◌, Option, none, some, List, [],
  ◌∷◌, ◌++◌, ◌==◌, if◌then◌else◌, length, get_or, modify,
}
use ppc2cpp.Common.Endian.{Endian}
use ppc2cpp.Common.Insn.{is_branch, is_branch_unconditional, is_absolute, branch_value}
use ppc2cpp.Model.CpuMemory.{CpuMemoryLocation}
use ppc2cpp.Model.Location.{ProgramLocation, advance}
use ppc2cpp.Model.Symbol.{Symbol, Relocation, contains}
use ppc2cpp.Program.{
  Buffer, Loader, OperandValue, word_at, Outcome, ok, err, out_of_fuel, ◌>>=◌, value,
}
use ppc2cpp.ControlFlow.Graph.{ControlFlowGraph, block_at, entry_at, eq_type, internal}
use ppc2cpp.ControlFlow.Analysis.{num_insns}
use ppc2cpp.DataFlow.Node.{NodeHeap, sink, returned, phi}
use ppc2cpp.DataFlow.Function.{Function, DataFlowGraph}
use ppc2cpp.DataFlow.InsnSets.{has}
use ppc2cpp.DataFlow.InsnSets.Lists.{store_insn}
use ppc2cpp.DataFlow.InstructionUd.{Opcode, Tables, InstructionUd, instruction_ud}
use ppc2cpp.DataFlow.Context.{
  Definition, member, FlowContext, FlowContextSizes, context_union, get_sizes, get_definition, read,
}
use ppc2cpp.DataFlow.Convention.{defined_by_call}
use ppc2cpp.DataFlow.Transfer.{
  make_node, set_inputs, add_refs, add_imms, add_inputs, Outputs, add_results, call_effects,
  set_all_inputs,
}

-- The nodes, the definitions and the sinks of a block so far.
pub record BlockState : Type 0 where
  pub heap : NodeHeap
  pub context : FlowContext
  pub sinks : List ℕ

-- What the analysis takes from ppcdisasm, and the orders in which an `unordered_set` of nodes and one
-- of locations are gone through.
pub record Disassembler : Type 0 where
  pub lookup_opcode : ℕ → Opcode
  pub operand_value : OperandValue
  pub tables : Tables
  pub rel24 : ℕ
  pub iterate : Definition → List ℕ
  pub iterate_locations : List CpuMemoryLocation → List CpuMemoryLocation

module _ (host : Endian) (dis : Disassembler) (ld : Loader) (func : Symbol) where
  -- The relocation at an instruction; for an unconditional branch out of the function without one,
  -- one is made.
  unfoldable pub reloc_at : ℕ → ℕ → Option Relocation
  unfolding contains advance is_branch_unconditional is_absolute branch_value
  reloc_at pc insn =
      let source = advance func.location (4 * pc) in
      let made : Option Relocation =
        elim (ld.resolve_target source (branch_value insn) (is_absolute insn)) [
          | none ↦ none
          | some target ↦
              if contains func target
              then none
              else some
                  (record { source = source; destination = target; type = dis.rel24; addend = 0 })
        ] in
      elim (ld.lookup_by_insn_loc source) [
        | some r ↦ some r
        | none ↦ if is_branch_unconditional insn then made else none
      ]

  -- The sinks of an instruction, with the inputs `ins`.
  unfoldable pub add_sinks : Bool → ℕ → ℕ → List ℕ → List ℕ → Outputs → Outcome (Outputs × List ℕ)
  unfolding is_branch set_inputs call_effects store_insn
  add_sinks ends_in_call pc insn ins sinks o =
      let made : Outputs = record o { heap = make_node o.heap (sink pc) [] } in
      let called = if ends_in_call then call_effects dis.iterate_locations pc made else ok made in
      if has dis.tables.form store_insn (dis.lookup_opcode insn).opcode
      then ok (record o { heap = make_node o.heap (sink pc) ins }, sinks ++ length o.heap ∷ [])
      else if is_branch insn
      then (called >>= λ o'. ok (
        record o' { heap = set_inputs o'.heap (length o.heap) ins },
        sinks ++ length o.heap ∷ [],
      ))
      else ok (o, sinks)

  -- The body of the loop over the instructions of a block.
  unfoldable pub insn_dfa : Bool → ℕ → ℕ → BlockState → Outcome BlockState
  unfolding instruction_ud reloc_at add_refs add_imms add_inputs add_results add_sinks
      set_all_inputs
  insn_dfa ends_in_call pc insn st =
      let op = dis.lookup_opcode insn in
      instruction_ud dis.tables op insn (reloc_at pc insn) dis.operand_value >>= λ ud.
      let refs = add_refs pc 0 ud.refs st.heap [] in
      let imms = add_imms pc 0 ud.imms refs.0 refs.1 in
      add_inputs dis.iterate pc st.context ud.inputs imms.0 imms.1 >>= λ used.
      add_results pc 0 ud.outputs (record { heap = used.0; context = st.context; outputs = [] })
      >>= λ o. add_sinks ends_in_call pc insn used.1 st.sinks o >>= λ done. ok (record {
        heap = set_all_inputs done.0.heap done.0.outputs used.1;
        context = done.0.context;
        sinks = done.1;
      })

  unfoldable pub insns_dfa : Bool → Buffer → ℕ → ℕ → BlockState → Outcome BlockState
  unfolding insn_dfa
  insns_dfa ends_in_call buf zero pc st = ok st
  insns_dfa ends_in_call buf (suc rounds) pc st =
      insn_dfa ends_in_call pc (word_at host buf pc) st >>= λ st'.
      insns_dfa ends_in_call buf rounds (pc + 1) st'

  -- A sink for the definitions of a location in which a value is returned.
  unfoldable pub return_sink : ℕ → CpuMemoryLocation → Definition → BlockState → BlockState
  return_sink idx l [] st = st
  return_sink idx l (v ∷ []) st = record st {
    heap = make_node st.heap (returned idx l) (v ∷ []);
    sinks = st.sinks ++ length st.heap ∷ [];
  }
  return_sink idx l (v ∷ w ∷ vs) st =
      let joined = make_node st.heap (phi (num_insns func) l) (dis.iterate (v ∷ w ∷ vs)) in
      record st {
        heap = make_node joined (returned idx l) (length st.heap ∷ []);
        sinks = st.sinks ++ length joined ∷ [];
      }

  unfoldable pub return_sinks : ℕ → List CpuMemoryLocation → BlockState → Outcome BlockState
  unfolding get_definition return_sink
  return_sinks idx [] st = ok st
  return_sinks idx (l ∷ ls) st =
      get_definition l >>= λ p. return_sinks idx ls (return_sink idx l (read st.context p) st)
