-- ===== src/ControlFlow/Analysis/Post.antt =====
-- Rules for runs of src/control_flow/ControlFlowAnalysis.cpp: what a part of a run keeps, the whole keeps.
use ppc2cpp.Prelude.{
  ℕ, ◌≤◌, ◌<◌, ◌≡◌, ◌≢◌, refl, sym, subst, Bool, true, false, if◌then◌else◌, arith, length,
  Option-cases, inl, inr,
}
use ppc2cpp.Program.{out_of_fuel, Outcome, ok, err, ◌>>=◌, ◌>>◌, assert}
use ppc2cpp.ControlFlow.Graph.{
  ControlFlowGraph, block_at, try_create_successor_internal, mark, Mark, call,
}
use ppc2cpp.ControlFlow.Graph.Edit.{Edits, to_internal, marks, done, then_, Edits-trans}
use ppc2cpp.ControlFlow.Graph.Grows.{Edits-Grows, vacant, vacant-Grows, try_create-new}
use ppc2cpp.ControlFlow.Analysis.{Visit, descend, marked_call}

module _ (Span : ℕ → ℕ → Type 0) where
  -- The outcome of a run from a graph: edits of the graph, or a fault, but for the end of the fuel.
  abbrev pub Post : ControlFlowGraph → Outcome ControlFlowGraph → Type 0
  Post g (ok h) = Edits Span g h
  Post g (err e) = e ≢ out_of_fuel

  pub Post-trans :
      (g h : ControlFlowGraph) (r : Outcome ControlFlowGraph) → Edits Span g h → Post h r → Post g r
  Post-trans g h (ok k) es p = Edits-trans es p
  Post-trans g h (err e) es p = p

  pub Post-bind :
      (g : ControlFlowGraph) (m : Outcome ControlFlowGraph)
      (k : ControlFlowGraph → Outcome ControlFlowGraph)
      → Post g m
      → ((h : ControlFlowGraph) → Edits Span g h → Post h (k h))
      → Post g (m >>= k)
  Post-bind g (ok h) k p next = Post-trans g h (k h) p (next h p)
  Post-bind g (err e) k p next = p

  pub Post-assert :
      (g : ControlFlowGraph) (b : Bool) (r : Outcome ControlFlowGraph)
      → (b ≡ true → Post g r)
      → Post g (assert b >> r)
  Post-assert g true r p = p refl
  Post-assert g false r p = λ e. cc

  pub Post-if :
      (g : ControlFlowGraph) (b : Bool) (r s : Outcome ControlFlowGraph)
      → Post g r
      → Post g s
      → Post g (if b then r else s)
  Post-if g true r s p q = p
  Post-if g false r s p q = q

  pub Post-mark : (g : ControlFlowGraph) (m : Mark) (i : ℕ) → Post g (ok (mark m g i))
  Post-mark g m i = then_ done (marks m i)

  pub Post-marked_call : (g : ControlFlowGraph) (b : Bool) (i : ℕ) → Post g (ok (marked_call b i g))
  Post-marked_call g true i = Post-mark g call i
  Post-marked_call g false i = done

  -- The block exists and may be made to end at the position, and fewer positions below n are vacant
  -- than there is fuel for.
  module _ (n fuel : ℕ) where
    abbrev pub Ready : ControlFlowGraph → ℕ → ℕ → Type 0
    Ready g block pc =
        (block < length g.blocks) × Span (block_at g block).start pc × (vacant n g.blocks ≤ fuel)

    pub Ready-Edits :
        (g h : ControlFlowGraph) (block pc : ℕ)
        → Edits Span g h
        → Ready g block pc
        → Ready h block pc
    Ready-Edits g h block pc es (l, s, v) =
        let grown = Edits-Grows es in
        (
          omega (arith, grown.longer),
          subst (λ p. Span p pc) (sym (grown.kept block l)) s,
          omega (arith, vacant-Grows n g.blocks h.blocks grown),
        )

    -- Calls on graphs with less vacant positions than fuel do not run out of it.
    abbrev pub VisitOk : Visit → Type 0
    VisitOk visit =
        (g : ControlFlowGraph) (b : ℕ)
        → b < length g.blocks
        → vacant n g.blocks < fuel
        → Post g (visit g b)

    pub descend-Post :
        (visit : Visit) (g : ControlFlowGraph) (block pc target : ℕ)
        → VisitOk visit
        → Ready g block pc
        → target < n
        → Post g (descend visit g block pc target)
    unfolding descend
    descend-Post visit g block pc target works at below =
        let h = (try_create_successor_internal g block pc target).0 in
        let edit : Edits Span g h = then_ done (to_internal block pc target at.0 at.1) in
        elim (Option-cases (try_create_successor_internal g block pc target).1) [
          | inl e ↦ rw (e, descend, Post) edit
          | inr (b, e) ↦
              let (inside, fewer) = try_create-new n g block pc target b e below in
              rw (e, descend) (Post-trans g h (visit h b) edit (works h b inside (omega arith)))
        ]
