-- ===== src/DataFlow/Transfer/Acyclic.antt =====
-- The steps of an instruction keep the heap acyclic, and the definitions on it.
use ppc2cpp.Prelude.{
  ℕ, suc, ◌+◌, ◌≤◌, ◌≡◌, refl, List, [], ◌∷◌, ◌++◌, arith, length, length-append, length-modify,
}
use ppc2cpp.Model.CpuMemory.{CpuMemoryLocation}
use ppc2cpp.Model.Symbol.{Relocation}
use ppc2cpp.Program.{Outcome, ok, ◌>>=◌, Holds, Holds-bind, Holds-after}
use ppc2cpp.DataFlow.Node.{
  NodeHeap, NodeKind, AllBelow, IsAcyclic, function_input, immediate, reference, call_return,
  result, phi,
}
use ppc2cpp.DataFlow.Node.Acyclic.{AllBelow-mono, AllBelow-append, push-IsAcyclic, modify-IsAcyclic}
use ppc2cpp.DataFlow.Context.{
  Definition, FlowContext, get_definition, read, set_definition, kill_definition,
}
use ppc2cpp.DataFlow.Context.Below.{
  ContextBelow, ContextBelow-mono, set_definition-ContextBelow, kill_definition-ContextBelow,
}
use ppc2cpp.DataFlow.Convention.{call_inputs, killed_by_call, defined_by_call}
use ppc2cpp.DataFlow.Transfer.{
  make_node, set_inputs, add_refs, add_imms, add_input, add_inputs, Outputs, add_output,
  add_results, kill_all, add_returns, look_up_all, call_effects, set_all_inputs,
}

-- The heap has grown and is acyclic, and the nodes of the list are on it.
pub record Made (n : ℕ) (heap : NodeHeap) (ins : List ℕ) : Type 0 where
  pub acyclic : IsAcyclic heap
  pub longer : n ≤ length heap
  pub below : AllBelow (length heap) ins

pub length-make_node :
    (heap : NodeHeap) (kind : NodeKind) (inputs : List ℕ)
    → length (make_node heap kind inputs) ≡ length heap + 1
length-make_node heap kind inputs =
    length-append heap (record { kind = kind; inputs = inputs } ∷ [])

-- A new node joins the list.
pub make_node-Made :
    (n : ℕ) (heap : NodeHeap) (ins : List ℕ) (kind : NodeKind) (inputs : List ℕ)
    → Made n heap ins
    → AllBelow (length heap) inputs
    → Made n (make_node heap kind inputs) (ins ++ length heap ∷ [])
make_node-Made n heap ins kind inputs m b =
    let l = length-make_node heap kind inputs in
    record {
      acyclic = push-IsAcyclic heap kind inputs m.acyclic b;
      longer = omega (arith, m.longer);
      below =
          AllBelow-append (length (make_node heap kind inputs)) ins (length heap ∷ [])
            (AllBelow-mono (length heap) (length (make_node heap kind inputs)) ins (omega arith)
              m.below)
            (omega arith, tt);
    }

pub add_refs-Made :
    (n pc i : ℕ) (rs : List Relocation) (heap : NodeHeap) (ins : List ℕ)
    → Made n heap ins
    → Made n (add_refs pc i rs heap ins).0 (add_refs pc i rs heap ins).1
unfolding add_refs
add_refs-Made n pc i [] heap ins m = m
add_refs-Made n pc i (r ∷ rs) heap ins m =
    add_refs-Made n pc (suc i) rs (make_node heap (reference pc i r) []) (ins ++ length heap ∷ [])
      (make_node-Made n heap ins (reference pc i r) [] m tt)

pub add_imms-Made :
    (n pc i : ℕ) (xs : List ℕ) (heap : NodeHeap) (ins : List ℕ)
    → Made n heap ins
    → Made n (add_imms pc i xs heap ins).0 (add_imms pc i xs heap ins).1
unfolding add_imms
add_imms-Made n pc i [] heap ins m = m
add_imms-Made n pc i (x ∷ xs) heap ins m =
    add_imms-Made n pc (suc i) xs (make_node heap (immediate pc i x) []) (ins ++ length heap ∷ [])
      (make_node-Made n heap ins (immediate pc i x) [] m tt)

-- Going through a set gives no other nodes than the set's.
abbrev pub Iterates : (Definition → List ℕ) → Type 0
Iterates iterate = (k : ℕ) (d : Definition) → AllBelow k d → AllBelow k (iterate d)

module _ (iterate : Definition → List ℕ) (iterates : Iterates iterate) where
  add_input-Made :
      (n pc : ℕ) (l : CpuMemoryLocation) (d : Definition) (heap : NodeHeap) (ins : List ℕ)
      → Made n heap ins
      → AllBelow (length heap) d
      → Made n (add_input iterate pc l d heap ins).0 (add_input iterate pc l d heap ins).1
  unfolding add_input
  add_input-Made n pc l [] heap ins m b = make_node-Made n heap ins (function_input pc l) [] m tt
  add_input-Made n pc l (v ∷ []) heap ins m b = record {
    acyclic = m.acyclic;
    longer = m.longer;
    below = AllBelow-append (length heap) ins (v ∷ []) m.below b;
  }
  add_input-Made n pc l (v ∷ w ∷ vs) heap ins m b =
      make_node-Made n heap ins (phi pc l) (iterate (v ∷ w ∷ vs)) m
        (iterates (length heap) (v ∷ w ∷ vs) b)

  pub add_inputs-Made :
      (n pc : ℕ) (c : FlowContext) (ls : List CpuMemoryLocation) (heap : NodeHeap) (ins : List ℕ)
      → ContextBelow n c
      → Made n heap ins
      → Holds (λ r. Made n r.0 r.1) (add_inputs iterate pc c ls heap ins)
  unfolding add_inputs
  add_inputs-Made n pc c [] heap ins b m = m
  add_inputs-Made n pc c (l ∷ ls) heap ins b m =
      Holds-after (λ r. Made n r.0 r.1) (get_definition l)
        (λ p.
          let added = add_input iterate pc l (read c p) heap ins in
          add_inputs iterate pc c ls added.0 added.1)
        (λ p. add_inputs-Made n pc c ls _ _ b (
          add_input-Made n pc l (read c p) heap ins m
            (AllBelow-mono n (length heap) (read c p) m.longer (b p))))

abbrev pub AllFrom : ℕ → List ℕ → Type 0
AllFrom n [] = Unit {0}
AllFrom n (x ∷ xs) = (n ≤ x) × AllFrom n xs

AllFrom-append : (n : ℕ) (xs ys : List ℕ) → AllFrom n xs → AllFrom n ys → AllFrom n (xs ++ ys)
AllFrom-append n [] ys b c = c
AllFrom-append n (x ∷ xs) ys (l, b) c = (l, AllFrom-append n xs ys b c)

-- There are k nodes or more, and the outputs were made when there were n or more.
pub record OutputsFrom (n k : ℕ) (o : Outputs) : Type 0 where
  pub acyclic : IsAcyclic o.heap
  pub started : n ≤ length o.heap
  pub longer : k ≤ length o.heap
  pub context : ContextBelow (length o.heap) o.context
  pub from : AllFrom n o.outputs

add_output-OutputsFrom :
    (n k : ℕ) (kind : NodeKind) (l : CpuMemoryLocation) (o : Outputs)
    → OutputsFrom n k o
    → Holds (OutputsFrom n k) (add_output kind l o)
unfolding add_output
add_output-OutputsFrom n k kind l o f =
    let len = length-make_node o.heap kind [] in
    let len' = length (make_node o.heap kind []) in
    Holds-bind (ContextBelow len') (OutputsFrom n k) (set_definition o.context l (length o.heap))
      (λ c. ok (record {
        heap = make_node o.heap kind [];
        context = c;
        outputs = o.outputs ++ length o.heap ∷ [];
      }))
      (set_definition-ContextBelow len' o.context l (length o.heap) (omega arith)
        (ContextBelow-mono (length o.heap) len' o.context (omega arith) f.context))
      (λ c b. record {
        acyclic = push-IsAcyclic o.heap kind [] f.acyclic tt;
        started = omega (arith, f.started);
        longer = omega (arith, f.longer);
        context = b;
        from = AllFrom-append n o.outputs (length o.heap ∷ []) f.from (f.started, tt);
      })

pub add_results-OutputsFrom :
    (n k pc i : ℕ) (ls : List CpuMemoryLocation) (o : Outputs)
    → OutputsFrom n k o
    → Holds (OutputsFrom n k) (add_results pc i ls o)
unfolding add_results
add_results-OutputsFrom n k pc i [] o f = f
add_results-OutputsFrom n k pc i (l ∷ ls) o f =
    Holds-bind (OutputsFrom n k) (OutputsFrom n k) (add_output (result pc i l) l o)
      (λ o'. add_results pc (suc i) ls o') (add_output-OutputsFrom n k (result pc i l) l o f)
      (λ o' f'. add_results-OutputsFrom n k pc (suc i) ls o' f')

add_returns-OutputsFrom :
    (n k pc : ℕ) (ls : List CpuMemoryLocation) (o : Outputs)
    → OutputsFrom n k o
    → Holds (OutputsFrom n k) (add_returns pc ls o)
unfolding add_returns
add_returns-OutputsFrom n k pc [] o f = f
add_returns-OutputsFrom n k pc (l ∷ ls) o f =
    Holds-bind (OutputsFrom n k) (OutputsFrom n k) (add_output (call_return pc l) l o)
      (λ o'. add_returns pc ls o') (add_output-OutputsFrom n k (call_return pc l) l o f)
      (λ o' f'. add_returns-OutputsFrom n k pc ls o' f')

kill_all-ContextBelow :
    (k : ℕ) (ls : List CpuMemoryLocation) (c : FlowContext)
    → ContextBelow k c
    → Holds (ContextBelow k) (kill_all ls c)
unfolding kill_all
kill_all-ContextBelow k [] c b = b
kill_all-ContextBelow k (l ∷ ls) c b =
    Holds-bind (ContextBelow k) (ContextBelow k) (kill_definition c l) (λ c'. kill_all ls c')
      (kill_definition-ContextBelow k c l b) (λ c' b'. kill_all-ContextBelow k ls c' b')

pub call_effects-OutputsFrom :
    (iterate : List CpuMemoryLocation → List CpuMemoryLocation) (n k pc : ℕ) (o : Outputs)
    → OutputsFrom n k o
    → Holds (OutputsFrom n k) (call_effects iterate pc o)
unfolding call_effects
call_effects-OutputsFrom iterate n k pc o f =
    let returns : FlowContext → Outcome Outputs =
      λ c. add_returns pc (iterate defined_by_call) (record o { context = c }) in
    Holds-after (OutputsFrom n k) (look_up_all call_inputs)
      (λ _. kill_all killed_by_call o.context >>= returns)
      (λ _.
        Holds-bind (ContextBelow (length o.heap)) (OutputsFrom n k)
          (kill_all killed_by_call o.context) returns
          (kill_all-ContextBelow (length o.heap) killed_by_call o.context f.context)
          (λ c b.
            add_returns-OutputsFrom n k pc (iterate defined_by_call) (record o { context = c })
              (record {
                acyclic = f.acyclic;
                started = f.started;
                longer = f.longer;
                context = b;
                from = f.from;
              })))

-- Inputs from before the outputs keep the heap acyclic.
pub set_all_inputs-IsAcyclic :
    (n : ℕ) (heap : NodeHeap) (vs ins : List ℕ)
    → IsAcyclic heap
    → AllBelow n ins
    → AllFrom n vs
    → IsAcyclic (set_all_inputs heap vs ins) × (length (set_all_inputs heap vs ins) ≡ length heap)
unfolding set_all_inputs set_inputs
set_all_inputs-IsAcyclic n heap [] ins a b f = (a, refl)
set_all_inputs-IsAcyclic n heap (v ∷ vs) ins a b (l, f) =
    let same = length-modify heap v (λ m. record m { inputs = ins }) in
    let rest =
      set_all_inputs-IsAcyclic n (set_inputs heap v ins) vs ins
        (modify-IsAcyclic heap v ins a (AllBelow-mono n v ins l b)) b f in
    (rest.0, omega (arith, rest.1))

-- A node that is no output.
pub OutputsFrom-make_node :
    (n k : ℕ) (o : Outputs) (kind : NodeKind) (inputs : List ℕ)
    → OutputsFrom n k o
    → AllBelow (length o.heap) inputs
    → OutputsFrom n (length o.heap + 1) (record o { heap = make_node o.heap kind inputs })
OutputsFrom-make_node n k o kind inputs f b =
    let len = length-make_node o.heap kind inputs in
    record {
      acyclic = push-IsAcyclic o.heap kind inputs f.acyclic b;
      started = omega (arith, f.started);
      longer = omega arith;
      context =
          ContextBelow-mono (length o.heap) (length (make_node o.heap kind inputs)) o.context
            (omega arith) f.context;
      from = f.from;
    }

pub OutputsFrom-weaken : (n j k : ℕ) (o : Outputs) → j ≤ k → OutputsFrom n k o → OutputsFrom n j o
OutputsFrom-weaken n j k o h f = record {
  acyclic = f.acyclic;
  started = f.started;
  longer = omega (arith, f.longer);
  context = f.context;
  from = f.from;
}

pub OutputsFrom-set_inputs :
    (n k : ℕ) (o : Outputs) (v : ℕ) (ins : List ℕ)
    → OutputsFrom n k o
    → AllBelow v ins
    → OutputsFrom n k (record o { heap = set_inputs o.heap v ins })
      × (length (set_inputs o.heap v ins) ≡ length o.heap)
unfolding set_inputs
OutputsFrom-set_inputs n k o v ins f b =
    let same = length-modify o.heap v (λ m. record m { inputs = ins }) in
    (
      record {
        acyclic = modify-IsAcyclic o.heap v ins f.acyclic b;
        started = omega (arith, f.started);
        longer = omega (arith, f.longer);
        context =
            ContextBelow-mono (length o.heap) (length (set_inputs o.heap v ins)) o.context
              (omega arith) f.context;
        from = f.from;
      },
      same,
    )
