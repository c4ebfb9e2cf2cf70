-- ===== src/Compare/VarNodes/Meaning.antt =====
-- What it means that `compareVarNodes` finds two nodes equal: the trees below them have the same shape
-- and pass the tests node by node.
use ppc2cpp.Prelude.{
  ℕ, zero, suc, ◌<◌, ◌≡◌, ◌↔◌, refl, ◌∙◌, sym, ap, Bool, true, List, [], ◌∷◌, arith,
}
use ppc2cpp.Program.{bind-eq-ok, if-eq-ok, Outcome, ok}
use ppc2cpp.DataFlow.Node.{VarNode, NodeHeap, IsAcyclic}
use ppc2cpp.Compare.VarNodes.{Sides, compare_kinds, node_at, compare_var_nodes}
use ppc2cpp.Compare.VarNodes.Plain.{plain_inputs, plain_nodes, plain, same_nodes, same_nodes_lem}
use ppc2cpp.Compare.VarNodes.Cached.{verdict, compare_var_nodes-same_nodes}

mutual
  pub data Same (s : Sides) (heap1 heap2 : NodeHeap) : ℕ → ℕ → Type 0 where
    nodes :
        {v1 v2 : ℕ} (n1 n2 : VarNode)
        → node_at heap1 v1 ≡ ok n1
        → node_at heap2 v2 ≡ ok n2
        → compare_kinds s n1.kind n2.kind ≡ ok true
        → SameAll s heap1 heap2 n1.inputs n2.inputs
        → Same s heap1 heap2 v1 v2

  pub data SameAll (s : Sides) (heap1 heap2 : NodeHeap) : List ℕ → List ℕ → Type 0 where
    end : SameAll s heap1 heap2 [] []
    both :
        {v1 v2 : ℕ} {xs ys : List ℕ}
        → Same s heap1 heap2 v1 v2
        → SameAll s heap1 heap2 xs ys
        → SameAll s heap1 heap2 (v1 ∷ xs) (v2 ∷ ys)

module _ (s : Sides) (heap1 heap2 : NodeHeap) where
  inputs-SameAll :
      (same : ℕ → ℕ → Outcome Bool)
      → ((x y : ℕ) → same x y ≡ ok true → Same s heap1 heap2 x y)
      → (xs ys : List ℕ) → plain_inputs same xs ys ≡ ok true
      → SameAll s heap1 heap2 xs ys
  unfolding plain_inputs
  inputs-SameAll same h [] [] e = end
  inputs-SameAll same h [] (y ∷ ys) e = absurd (ground arith)
  inputs-SameAll same h (x ∷ xs) [] e = absurd (ground arith)
  inputs-SameAll same h (x ∷ xs) (y ∷ ys) e =
      let (first, p, q) = bind-eq-ok (same x y) _ e in
      let (equal, rest) = if-eq-ok first _ q in
      both (h x y (p ∙ ap ok equal)) (inputs-SameAll same h xs ys rest)

  plain-Same :
      (fuel v1 v2 : ℕ) → plain s heap1 heap2 fuel v1 v2 ≡ ok true → Same s heap1 heap2 v1 v2
  unfolding plain plain_nodes
  plain-Same zero v1 v2 e = absurd (ground arith)
  plain-Same (suc fuel) v1 v2 e =
      let (n1, p1, e1) = bind-eq-ok (node_at heap1 v1) _ e in
      let (n2, p2, e2) = bind-eq-ok (node_at heap2 v2) _ e1 in
      let (k, p3, e3) = bind-eq-ok (compare_kinds s n1.kind n2.kind) _ e2 in
      let (equal, e4) = if-eq-ok k _ e3 in
      nodes n1 n2 p1 p2 (p3 ∙ ap ok equal)
        (inputs-SameAll (plain s heap1 heap2 fuel) (plain-Same fuel) n1.inputs n2.inputs e4)

  module _ (acyclic : IsAcyclic heap1) where
    mutual
      unfolding plain_nodes plain_inputs

      Same-plain : {v1 v2 : ℕ} → Same s heap1 heap2 v1 v2 → same_nodes s heap1 heap2 v1 v2 ≡ ok true
      Same-plain {v1} {v2} (nodes n1 n2 p1 p2 p3 all) =
          same_nodes_lem s heap1 heap2 v1 v2 acyclic
          ∙ rw (p1, p2, p3, plain_nodes) (SameAll-plain all)

      SameAll-plain :
          {xs ys : List ℕ}
          → SameAll s heap1 heap2 xs ys
          → plain_inputs (same_nodes s heap1 heap2) xs ys ≡ ok true
      SameAll-plain end = refl
      SameAll-plain (both h all) = rw (Same-plain h, plain_inputs) (SameAll-plain all)

    -- Where each node's inputs were made before it, a comparison of two nodes from an empty cache,
    -- with fuel above the number of the first node, gives true exactly when the nodes pass the tests
    -- of their kinds and their inputs are, pairwise and in the same number, again such nodes.
    pub compare_var_nodes_iff :
        (fuel v1 v2 : ℕ)
        → v1 < fuel
        → (verdict (compare_var_nodes s heap1 heap2 fuel v1 v2 []) ≡ ok true)
          ↔ Same s heap1 heap2 v1 v2
    unfolding same_nodes
    compare_var_nodes_iff fuel v1 v2 l =
        let e = compare_var_nodes-same_nodes s heap1 heap2 acyclic fuel v1 v2 l in
        (λ h. plain-Same (suc v1) v1 v2 (sym e ∙ h), λ h. e ∙ Same-plain h)

    pub plain_inputs_iff :
        (xs ys : List ℕ)
        → (plain_inputs (same_nodes s heap1 heap2) xs ys ≡ ok true) ↔ SameAll s heap1 heap2 xs ys
    unfolding same_nodes
    plain_inputs_iff xs ys = (
      inputs-SameAll (same_nodes s heap1 heap2) (λ x y. plain-Same (suc x) x y) xs ys,
      SameAll-plain,
    )
