-- ===== src/DataFlow/Analysis/Acyclic.antt =====
-- The data flow analysis makes an acyclic heap, with the sinks and the definitions on it.
use ppc2cpp.Prelude.{
  subst, ℕ, zero, suc, ◌-◌, ◌≡◌, refl, List, [], ◌∷◌, arith, length, get_or, modify, modify-keeps,
  if◌then◌else◌,
}
use ppc2cpp.Common.Endian.{Endian}
use ppc2cpp.Model.Symbol.{Symbol}
use ppc2cpp.Program.{
  Buffer, Loader, Outcome, ok, ◌>>=◌, value, Holds, Holds-bind, Holds-after, Holds-if, Holds-ok,
  bind-eq-ok,
}
use ppc2cpp.ControlFlow.Graph.{ControlFlowGraph, block_at, entry_at}
use ppc2cpp.DataFlow.Node.{AllBelow, IsAcyclic}
use ppc2cpp.DataFlow.Node.Acyclic.{AllBelow-mono}
use ppc2cpp.DataFlow.Function.{Function, DataFlowGraph, empty_graph}
use ppc2cpp.DataFlow.Context.{
  FlowContext, context_union, get_sizes, gpr_at, fpr_at, cr_at, gqr_at, ps1_at,
}
use ppc2cpp.DataFlow.Context.Below.{ContextBelow, ContextBelow-mono, context_union-ContextBelow}
use ppc2cpp.DataFlow.Convention.{defined_by_call}
use ppc2cpp.DataFlow.Transfer.Acyclic.{Iterates}
use ppc2cpp.DataFlow.Block.{BlockState, Disassembler, insns_dfa, return_sinks}
use ppc2cpp.DataFlow.Block.Acyclic.{BlockOk, insns_dfa-BlockOk, return_sinks-BlockOk}
use ppc2cpp.DataFlow.Analysis.{
  repeat, empty_context, resize, equal_sizes, union_of, init_block_context, block_dfa, requeue,
  function_dfa_impl, init_worklist, function_dfa,
}

-- The inputs of each node were made before it, and the sinks and the definitions of all blocks are
-- nodes that were made.
pub record GraphOk (g : DataFlowGraph) : Type 0 where
  pub acyclic : IsAcyclic g.heap
  pub contexts : (i : ℕ) → ContextBelow (length g.heap) (get_or g.block_contexts i empty_context)
  pub sinks : (i : ℕ) → AllBelow (length g.heap) (get_or g.sinks i [])

repeat-AllBelow : (k n i : ℕ) → AllBelow k (get_or (repeat n []) i [])
repeat-AllBelow k zero i = tt
repeat-AllBelow k (suc n) zero = tt
repeat-AllBelow k (suc n) (suc i) = repeat-AllBelow k n i

pub empty_context-ContextBelow : (k : ℕ) → ContextBelow k empty_context
empty_context-ContextBelow k (gpr_at i) = repeat-AllBelow k 32 i
empty_context-ContextBelow k (fpr_at i) = repeat-AllBelow k 32 i
empty_context-ContextBelow k (cr_at i) = repeat-AllBelow k 32 i
empty_context-ContextBelow k (gqr_at i) = repeat-AllBelow k 8 i
empty_context-ContextBelow k (ps1_at i) = repeat-AllBelow k 32 i
empty_context-ContextBelow k _ = tt

pub empty_graph-GraphOk : GraphOk empty_graph
empty_graph-GraphOk = record {
  acyclic = λ v n e. absurd (cc);
  contexts = λ i. empty_context-ContextBelow 0;
  sinks = λ i. tt;
}

resize-keeps {ℓ κ} :
    {A : Type ℓ} (P : A → Type κ) (n : ℕ) (d : A) (xs : List A) (i : ℕ)
    → P d
    → P (get_or xs i d)
    → P (get_or (resize n d xs) i d)
unfolding resize
resize-keeps P zero d xs i p q = p
resize-keeps P (suc n) d [] zero p q = p
resize-keeps P (suc n) d [] (suc i) p q = resize-keeps P n d [] i p p
resize-keeps P (suc n) d (x ∷ xs) zero p q = q
resize-keeps P (suc n) d (x ∷ xs) (suc i) p q = resize-keeps P n d xs i p q

module _ (host : Endian) (dis : Disassembler) (ld : Loader) (func : Symbol) (cfg : ControlFlowGraph)
    (iterates : Iterates dis.iterate) where
  union_of-ContextBelow :
      (k : ℕ) (contexts : List FlowContext) (ps : List ℕ) (c : FlowContext)
      → ((i : ℕ) → ContextBelow k (get_or contexts i empty_context))
      → ContextBelow k c
      → ContextBelow k (union_of host dis ld func cfg contexts ps c)
  unfolding union_of
  union_of-ContextBelow k contexts [] c all b = b
  union_of-ContextBelow k contexts (p ∷ ps) c all b =
      union_of-ContextBelow k contexts ps (context_union c (get_or contexts p empty_context)) all
        (context_union-ContextBelow k c (get_or contexts p empty_context) b (all p))

  stored :
      (g : DataFlowGraph) (block : ℕ) (st : BlockState)
      → GraphOk g
      → BlockOk (length g.heap) st
      → GraphOk (record {
        sinks = modify g.sinks block (λ _. st.sinks);
        block_contexts = modify g.block_contexts block (λ _. st.context);
        heap = st.heap;
      })
  stored g block st w b = record {
    acyclic = b.acyclic;
    contexts = λ i.
        modify-keeps (ContextBelow (length st.heap)) g.block_contexts block i st.context
          empty_context b.context
          (ContextBelow-mono (length g.heap) (length st.heap)
            (get_or g.block_contexts i empty_context) b.longer (w.contexts i));
    sinks = λ i.
        modify-keeps (AllBelow (length st.heap)) g.sinks block i st.sinks [] b.sinks (
          AllBelow-mono (length g.heap) (length st.heap) (get_or g.sinks i []) b.longer
            (w.sinks i));
  }

  block_dfa-GraphOk :
      (g : DataFlowGraph) (block : ℕ)
      → GraphOk g
      → Holds GraphOk (block_dfa host dis ld func cfg g block)
  unfolding block_dfa init_block_context
  block_dfa-GraphOk g block w =
      let b = block_at cfg block in
      let n = length g.heap in
      let st : BlockState = record {
        heap = g.heap;
        context = init_block_context host dis ld func cfg g block;
        sinks = [];
      } in
      let begun : BlockOk n st = record {
        acyclic = w.acyclic;
        longer = omega arith;
        context =
            union_of-ContextBelow n g.block_contexts (entry_at cfg block).pred empty_context
              w.contexts (empty_context-ContextBelow n);
        sinks = tt;
      } in
      let finish : BlockState → Outcome DataFlowGraph = λ st2. ok (record {
        sinks = modify g.sinks block (λ _. st2.sinks);
        block_contexts = modify g.block_contexts block (λ _. st2.context);
        heap = st2.heap;
      }) in
      let exit_of : BlockState → Outcome BlockState = λ st1.
        if b.is_exit
        then return_sinks host dis ld func b.end (dis.iterate_locations defined_by_call) st1
        else ok st1 in
      let run : Buffer → Outcome BlockState =
        λ buf. insns_dfa host dis ld func b.ends_in_call buf (suc b.end - b.start) b.start st in
      Holds-after GraphOk (value (ld.get_buffer_at_location func.location))
        (λ buf. run buf >>= λ st1. exit_of st1 >>= finish)
        (λ buf.
          Holds-bind (BlockOk n) GraphOk (run buf) (λ st1. exit_of st1 >>= finish)
            (insns_dfa-BlockOk host dis ld func b.ends_in_call buf (suc b.end - b.start) n b.start
              st iterates begun)
            (λ st1 b1.
              Holds-bind (BlockOk n) GraphOk (exit_of st1) finish
                (Holds-if (BlockOk n) b.is_exit
                  (return_sinks host dis ld func b.end (dis.iterate_locations defined_by_call) st1)
                  (ok st1)
                  (return_sinks-BlockOk host dis ld func n b.end
                    (dis.iterate_locations defined_by_call) st1 iterates b1)
                  b1)
                (λ st2 b2. stored g block st2 w b2)))

  function_dfa_impl-GraphOk :
      (fuel : ℕ) (worklist : List ℕ) (g : DataFlowGraph)
      → GraphOk g
      → Holds GraphOk (function_dfa_impl host dis ld func cfg fuel worklist g)
  unfolding function_dfa_impl
  function_dfa_impl-GraphOk fuel [] g w = w
  function_dfa_impl-GraphOk zero (block ∷ worklist) g w = tt
  function_dfa_impl-GraphOk (suc fuel) (block ∷ worklist) g w =
      let next : DataFlowGraph → Outcome DataFlowGraph = λ g'.
        function_dfa_impl host dis ld func cfg fuel
          (if equal_sizes (get_sizes (get_or g.block_contexts block empty_context))
              (get_sizes (get_or g'.block_contexts block empty_context))
            then worklist
            else requeue host dis ld func cfg (entry_at cfg block).succ worklist)
          g' in
      Holds-bind GraphOk GraphOk (block_dfa host dis ld func cfg g block) next
        (block_dfa-GraphOk g block w) (λ g' w'. function_dfa_impl-GraphOk fuel _ g' w')

-- A function that the data flow analysis returns has the symbol and the control flow graph that it had;
-- the inputs of each node of its data flow graph were made before it, and its sinks and the definitions
-- of its blocks are nodes of the graph. Going through a set of nodes is to give no others, and the
-- function that is analysed is to have such a graph, as an empty one is.
pub function_dfa-GraphOk :
    (host : Endian) (dis : Disassembler) (ld : Loader) (fuel : ℕ) (f analysed : Function)
    → Iterates dis.iterate
    → GraphOk f.dfg
    → function_dfa host dis ld fuel f ≡ ok analysed
    → GraphOk analysed.dfg × (analysed.symbol ≡ f.symbol) × (analysed.cfg ≡ f.cfg)
unfolding function_dfa
function_dfa-GraphOk host dis ld fuel f analysed iterates w e =
    let n = length f.cfg.blocks in
    let start : DataFlowGraph = record {
      sinks = resize n [] f.dfg.sinks;
      block_contexts = resize n empty_context f.dfg.block_contexts;
      heap = f.dfg.heap;
    } in
    let start_ok : GraphOk start = record {
      acyclic = w.acyclic;
      contexts = λ i.
          resize-keeps (ContextBelow (length f.dfg.heap)) n empty_context f.dfg.block_contexts i
            (empty_context-ContextBelow (length f.dfg.heap)) (w.contexts i);
      sinks = λ i. resize-keeps (AllBelow (length f.dfg.heap)) n [] f.dfg.sinks i tt (w.sinks i);
    } in
    let (worklist, _, run) = bind-eq-ok (init_worklist host dis ld f.symbol f.cfg) _ e in
    let (g, impl, last) =
      bind-eq-ok (function_dfa_impl host dis ld f.symbol f.cfg fuel worklist start) _ run in
    let g_ok : GraphOk g =
      Holds-ok GraphOk (function_dfa_impl host dis ld f.symbol f.cfg fuel worklist start) g
        (function_dfa_impl-GraphOk host dis ld f.symbol f.cfg iterates fuel worklist start start_ok)
        impl in
    subst (λ (h : Function). GraphOk h.dfg × (h.symbol ≡ f.symbol) × (h.cfg ≡ f.cfg))
      {x = record f { dfg = g }} {y = analysed} (cc) (g_ok, refl, refl)
