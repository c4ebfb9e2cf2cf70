-- ===== src/DataFlow/Block/Acyclic.antt =====
-- A block's analysis keeps the heap acyclic, and the definitions and the sinks on it.
use ppc2cpp.Prelude.{
  ℕ, zero, suc, ◌+◌, ◌<◌, ◌≤◌, Bool, List, [], ◌∷◌, ◌++◌, arith, length, if◌then◌else◌,
}
use ppc2cpp.Common.Endian.{Endian}
use ppc2cpp.Common.Insn.{is_branch}
use ppc2cpp.Model.CpuMemory.{CpuMemoryLocation}
use ppc2cpp.Model.Symbol.{Symbol}
use ppc2cpp.Program.{
  Buffer, Loader, word_at, Outcome, ok, ◌>>=◌, Holds, Holds-bind, Holds-after, Holds-if,
}
use ppc2cpp.ControlFlow.Analysis.{num_insns}
use ppc2cpp.DataFlow.Node.{NodeHeap, NodeKind, AllBelow, IsAcyclic, sink, returned, phi}
use ppc2cpp.DataFlow.Node.Acyclic.{AllBelow-mono, AllBelow-append, push-IsAcyclic}
use ppc2cpp.DataFlow.Context.{Definition, get_definition, read}
use ppc2cpp.DataFlow.Context.Below.{ContextBelow, ContextBelow-mono}
use ppc2cpp.DataFlow.InsnSets.{has}
use ppc2cpp.DataFlow.InsnSets.Lists.{store_insn}
use ppc2cpp.DataFlow.InstructionUd.{InstructionUd, instruction_ud}
use ppc2cpp.DataFlow.Transfer.{
  make_node, set_inputs, add_refs, add_imms, add_inputs, Outputs, add_results, call_effects,
  set_all_inputs,
}
use ppc2cpp.DataFlow.Transfer.Acyclic.{
  Made, length-make_node, make_node-Made, add_refs-Made, add_imms-Made, Iterates, add_inputs-Made,
  OutputsFrom, add_results-OutputsFrom, call_effects-OutputsFrom, OutputsFrom-make_node,
  OutputsFrom-weaken, OutputsFrom-set_inputs, set_all_inputs-IsAcyclic,
}
use ppc2cpp.DataFlow.Block.{
  BlockState, Disassembler, reloc_at, add_sinks, insn_dfa, insns_dfa, return_sink, return_sinks,
}

-- The heap is acyclic, with n nodes or more, and the definitions and the sinks are on it.
pub record BlockOk (n : ℕ) (st : BlockState) : Type 0 where
  pub acyclic : IsAcyclic st.heap
  pub longer : n ≤ length st.heap
  pub context : ContextBelow (length st.heap) st.context
  pub sinks : AllBelow (length st.heap) st.sinks

-- The outputs of an instruction, and the sinks of the block with it.
abbrev SinksOk : ℕ → ℕ → Outputs × List ℕ → Type 0
SinksOk n k (o, sinks) = OutputsFrom n k o × AllBelow (length o.heap) sinks

finished :
    (n k : ℕ) (done : Outputs × List ℕ) (ins : List ℕ)
    → n ≤ k
    → OutputsFrom k k done.0
    → AllBelow (length done.0.heap) done.1
    → AllBelow k ins
    → BlockOk n (record {
      heap = set_all_inputs done.0.heap done.0.outputs ins;
      context = done.0.context;
      sinks = done.1;
    })
finished n k done ins h g s below =
    let (acyclic, same) =
      set_all_inputs-IsAcyclic k done.0.heap done.0.outputs ins g.acyclic below g.from in
    let all = length (set_all_inputs done.0.heap done.0.outputs ins) in
    record {
      acyclic = acyclic;
      longer = omega (arith, g.longer);
      context = ContextBelow-mono (length done.0.heap) all done.0.context (omega arith) g.context;
      sinks = AllBelow-mono (length done.0.heap) all done.1 (omega arith) s;
    }

module _ (host : Endian) (dis : Disassembler) (ld : Loader) (func : Symbol) where
  add_sinks-SinksOk :
      (ends_in_call : Bool) (n k pc insn : ℕ) (ins sinks : List ℕ) (o : Outputs)
      → OutputsFrom n k o
      → AllBelow n ins
      → AllBelow k sinks
      → Holds (SinksOk n k) (add_sinks host dis ld func ends_in_call pc insn ins sinks o)
  unfolding add_sinks
  add_sinks-SinksOk ends_in_call n k pc insn ins sinks o f i s =
      let m = length o.heap in
      let made : Outputs = record o { heap = make_node o.heap (sink pc) [] } in
      let len = length-make_node o.heap (sink pc) [] in
      let made_from : OutputsFrom n (m + 1) made = OutputsFrom-make_node n k o (sink pc) [] f tt in
      let finish : Outputs → Outcome (Outputs × List ℕ) =
        λ o'. ok (record o' { heap = set_inputs o'.heap m ins }, sinks ++ m ∷ []) in
      let sinks_below : (w : ℕ) → m < w → AllBelow w (sinks ++ m ∷ []) = λ w l.
        AllBelow-append w sinks (m ∷ []) (AllBelow-mono k w sinks (omega (arith, f.longer)) s)
          (l, tt) in
      let stored : Outcome (Outputs × List ℕ) =
        ok (record o { heap = make_node o.heap (sink pc) ins }, sinks ++ m ∷ []) in
      let branched =
        (if ends_in_call then call_effects dis.iterate_locations pc made else ok made) >>= finish in
      let other : Outcome (Outputs × List ℕ) = ok (o, sinks) in
      Holds-if (SinksOk n k) (has dis.tables.form store_insn (dis.lookup_opcode insn).opcode) stored
        (if is_branch insn then branched else other)
        (
          OutputsFrom-weaken n k (m + 1) (record o { heap = make_node o.heap (sink pc) ins })
              (omega (arith, f.longer))
              (OutputsFrom-make_node n k o (sink pc) ins f (AllBelow-mono n m ins f.started i)),
          sinks_below (length (make_node o.heap (sink pc) ins))
              (omega (arith, length-make_node o.heap (sink pc) ins)),
        )
        (Holds-if (SinksOk n k) (is_branch insn) branched other
          (Holds-bind (OutputsFrom n (m + 1)) (SinksOk n k)
            (if ends_in_call then call_effects dis.iterate_locations pc made else ok made) finish
            (Holds-if (OutputsFrom n (m + 1)) ends_in_call
              (call_effects dis.iterate_locations pc made) (ok made)
              (call_effects-OutputsFrom dis.iterate_locations n (m + 1) pc made made_from)
              made_from)
            (λ o' f'.
              let (set_from, same) =
                OutputsFrom-set_inputs n (m + 1) o' m ins f' (AllBelow-mono n m ins f.started i) in
              (
                OutputsFrom-weaken n k (m + 1) (record o' { heap = set_inputs o'.heap m ins })
                    (omega (arith, f.longer)) set_from,
                sinks_below (length (set_inputs o'.heap m ins)) (omega (arith, f'.longer)),
              )))
          (f, AllBelow-mono k m sinks f.longer s))

  insn_dfa-BlockOk :
      (ends_in_call : Bool) (n pc insn : ℕ) (st : BlockState)
      → Iterates dis.iterate
      → BlockOk n st
      → Holds (BlockOk n) (insn_dfa host dis ld func ends_in_call pc insn st)
  unfolding insn_dfa
  insn_dfa-BlockOk ends_in_call n pc insn st iterates b =
      let len = length st.heap in
      let finish : List ℕ → Outputs × List ℕ → Outcome BlockState = λ used done. ok (record {
        heap = set_all_inputs done.0.heap done.0.outputs used;
        context = done.0.context;
        sinks = done.1;
      }) in
      let sinks_of : List ℕ → Outputs → Outcome BlockState =
        λ used o. add_sinks host dis ld func ends_in_call pc insn used st.sinks o >>= finish used in
      let start_of : NodeHeap → Outputs =
        λ heap. record { heap = heap; context = st.context; outputs = [] } in
      let results_of : InstructionUd → NodeHeap × List ℕ → Outcome BlockState =
        λ ud used. add_results pc 0 ud.outputs (start_of used.0) >>= sinks_of used.1 in
      let inputs_of : InstructionUd → Outcome BlockState = λ ud.
        let refs = add_refs pc 0 ud.refs st.heap [] in
        let imms = add_imms pc 0 ud.imms refs.0 refs.1 in
        add_inputs dis.iterate pc st.context ud.inputs imms.0 imms.1 >>= results_of ud in
      let none_yet : Made len st.heap [] = record {
        acyclic = b.acyclic;
        longer = omega arith;
        below = tt;
      } in
      Holds-after (BlockOk n)
        (instruction_ud dis.tables (dis.lookup_opcode insn) insn (reloc_at host dis ld func pc insn)
          dis.operand_value)
        inputs_of
        (λ ud.
          let refs = add_refs pc 0 ud.refs st.heap [] in
          let imms = add_imms pc 0 ud.imms refs.0 refs.1 in
          Holds-bind (λ r. Made len r.0 r.1) (BlockOk n)
            (add_inputs dis.iterate pc st.context ud.inputs imms.0 imms.1) (results_of ud)
            (add_inputs-Made dis.iterate iterates len pc st.context ud.inputs imms.0 imms.1
              b.context
              (add_imms-Made len pc 0 ud.imms refs.0 refs.1
                (add_refs-Made len pc 0 ud.refs st.heap [] none_yet)))
            (λ used m.
              let k = length used.0 in
              let begun : OutputsFrom k k (start_of used.0) = record {
                acyclic = m.acyclic;
                started = omega arith;
                longer = omega arith;
                context = ContextBelow-mono len k st.context m.longer b.context;
                from = tt;
              } in
              Holds-bind (OutputsFrom k k) (BlockOk n)
                (add_results pc 0 ud.outputs (start_of used.0)) (sinks_of used.1)
                (add_results-OutputsFrom k k pc 0 ud.outputs (start_of used.0) begun)
                (λ o f.
                  Holds-bind (SinksOk k k) (BlockOk n)
                    (add_sinks host dis ld func ends_in_call pc insn used.1 st.sinks o)
                    (finish used.1)
                    (add_sinks-SinksOk ends_in_call k k pc insn used.1 st.sinks o f m.below
                      (AllBelow-mono len k st.sinks m.longer b.sinks))
                    (λ done (g, s).
                      finished n k done used.1 (omega (arith, m.longer, b.longer)) g s m.below))))

  pub insns_dfa-BlockOk :
      (ends_in_call : Bool) (buf : Buffer) (rounds n pc : ℕ) (st : BlockState)
      → Iterates dis.iterate
      → BlockOk n st
      → Holds (BlockOk n) (insns_dfa host dis ld func ends_in_call buf rounds pc st)
  unfolding insns_dfa
  insns_dfa-BlockOk ends_in_call buf zero n pc st iterates b = b
  insns_dfa-BlockOk ends_in_call buf (suc rounds) n pc st iterates b =
      Holds-bind (BlockOk n) (BlockOk n)
        (insn_dfa host dis ld func ends_in_call pc (word_at host buf pc) st)
        (λ st'. insns_dfa host dis ld func ends_in_call buf rounds (pc + 1) st')
        (insn_dfa-BlockOk ends_in_call n pc (word_at host buf pc) st iterates b)
        (λ st' b'. insns_dfa-BlockOk ends_in_call buf rounds n (pc + 1) st' iterates b')

  -- One node behind the others, which is a sink.
  sink-BlockOk :
      (n : ℕ) (kind : NodeKind) (inputs : List ℕ) (st : BlockState)
      → BlockOk n st
      → AllBelow (length st.heap) inputs
      → BlockOk n (record st {
        heap = make_node st.heap kind inputs;
        sinks = st.sinks ++ length st.heap ∷ [];
      })
  sink-BlockOk n kind inputs st b i =
      let made =
        make_node-Made n st.heap st.sinks kind inputs
          (record { acyclic = b.acyclic; longer = b.longer; below = b.sinks }) i in
      let len = length-make_node st.heap kind inputs in
      record {
        acyclic = made.acyclic;
        longer = made.longer;
        context =
            ContextBelow-mono (length st.heap) (length (make_node st.heap kind inputs)) st.context
              (omega arith) b.context;
        sinks = made.below;
      }

  joined-BlockOk :
      (n : ℕ) (kind : NodeKind) (inputs : List ℕ) (st : BlockState)
      → BlockOk n st
      → AllBelow (length st.heap) inputs
      → BlockOk n (record st { heap = make_node st.heap kind inputs })
  joined-BlockOk n kind inputs st b i =
      let len = length-make_node st.heap kind inputs in
      let all = length (make_node st.heap kind inputs) in
      record {
        acyclic = push-IsAcyclic st.heap kind inputs b.acyclic i;
        longer = omega (arith, b.longer);
        context = ContextBelow-mono (length st.heap) all st.context (omega arith) b.context;
        sinks = AllBelow-mono (length st.heap) all st.sinks (omega arith) b.sinks;
      }

  return_sink-BlockOk :
      (n idx : ℕ) (l : CpuMemoryLocation) (d : Definition) (st : BlockState)
      → Iterates dis.iterate
      → BlockOk n st
      → AllBelow (length st.heap) d
      → BlockOk n (return_sink host dis ld func idx l d st)
  unfolding return_sink
  return_sink-BlockOk n idx l [] st iterates b i = b
  return_sink-BlockOk n idx l (v ∷ []) st iterates b i =
      sink-BlockOk n (returned idx l) (v ∷ []) st b i
  return_sink-BlockOk n idx l (v ∷ w ∷ vs) st iterates b i =
      let join = dis.iterate (v ∷ w ∷ vs) in
      let kind = phi (num_insns func) l in
      let len = length-make_node st.heap kind join in
      sink-BlockOk n (returned idx l) (length st.heap ∷ [])
        (record st { heap = make_node st.heap kind join })
        (joined-BlockOk n kind join st b (iterates (length st.heap) (v ∷ w ∷ vs) i))
        (omega arith, tt)

  pub return_sinks-BlockOk :
      (n idx : ℕ) (ls : List CpuMemoryLocation) (st : BlockState)
      → Iterates dis.iterate
      → BlockOk n st
      → Holds (BlockOk n) (return_sinks host dis ld func idx ls st)
  unfolding return_sinks
  return_sinks-BlockOk n idx [] st iterates b = b
  return_sinks-BlockOk n idx (l ∷ ls) st iterates b =
      Holds-after (BlockOk n) (get_definition l)
        (λ p.
          return_sinks host dis ld func idx ls
            (return_sink host dis ld func idx l (read st.context p) st))
        (λ p.
          return_sinks-BlockOk n idx ls (return_sink host dis ld func idx l (read st.context p) st)
            iterates (return_sink-BlockOk n idx l (read st.context p) st iterates b (b.context p)))
