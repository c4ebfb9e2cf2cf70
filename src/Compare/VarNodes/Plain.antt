-- ===== src/Compare/VarNodes/Plain.antt =====
-- The comparison of `compareVarNodes` without its cache, which is what the cache must agree with.
use ppc2cpp.Prelude.{
  ℕ, zero, suc, ◌<◌, ◌≡◌, refl, Bool, true, false, List, [], ◌∷◌, if◌then◌else◌, arith,
}
use ppc2cpp.Program.{Outcome, ok, err, out_of_fuel, ◌>>=◌}
use ppc2cpp.DataFlow.Node.{VarNode, NodeHeap, AllBelow, IsAcyclic}
use ppc2cpp.Compare.VarNodes.{Sides, compare_kinds, node_at}

unfoldable pub plain_inputs : (ℕ → ℕ → Outcome Bool) → List ℕ → List ℕ → Outcome Bool
plain_inputs same [] [] = ok true
plain_inputs same [] (y ∷ ys) = ok false
plain_inputs same (x ∷ xs) [] = ok false
plain_inputs same (x ∷ xs) (y ∷ ys) =
    same x y >>= λ equal. let rest = plain_inputs same xs ys in if equal then rest else ok false

plain_inputs-cong :
    (f g : ℕ → ℕ → Outcome Bool) (v : ℕ) (xs ys : List ℕ)
    → ((x y : ℕ) → x < v → f x y ≡ g x y)
    → AllBelow v xs
    → plain_inputs f xs ys ≡ plain_inputs g xs ys
unfolding plain_inputs
plain_inputs-cong f g v [] [] h b = refl
plain_inputs-cong f g v [] (y ∷ ys) h b = refl
plain_inputs-cong f g v (x ∷ xs) [] h b = refl
plain_inputs-cong f g v (x ∷ xs) (y ∷ ys) h b = rw (h x y b.0, plain_inputs-cong f g v xs ys h b.1)

-- A node that is read is on the heap, and its inputs are below it.
pub node_at-below :
    (heap : NodeHeap) (v : ℕ) (n : VarNode)
    → IsAcyclic heap
    → node_at heap v ≡ ok n
    → AllBelow v n.inputs
unfolding node_at
node_at-below heap v n acyclic h = acyclic v n (ground arith)

module _ (s : Sides) (heap1 heap2 : NodeHeap) where
  -- Two nodes whose kinds compare equal and whose inputs do, pairwise.
  unfoldable pub plain_nodes : (ℕ → ℕ → Outcome Bool) → ℕ → ℕ → Outcome Bool
  unfolding plain_inputs
  plain_nodes same v1 v2 = node_at heap1 v1 >>= λ n1. node_at heap2 v2 >>= λ n2.
      compare_kinds s n1.kind n2.kind >>= λ equal.
      if equal then plain_inputs same n1.inputs n2.inputs else ok false

  unfoldable pub plain : ℕ → ℕ → ℕ → Outcome Bool
  unfolding plain_nodes
  plain zero v1 v2 = err out_of_fuel
  plain (suc fuel) v1 v2 = plain_nodes (plain fuel) v1 v2

  plain_nodes-cong :
      (f g : ℕ → ℕ → Outcome Bool) (v1 v2 : ℕ)
      → IsAcyclic heap1
      → ((x y : ℕ) → x < v1 → f x y ≡ g x y)
      → plain_nodes f v1 v2 ≡ plain_nodes g v1 v2
  unfolding plain_nodes
  plain_nodes-cong f g v1 v2 acyclic h = go (node_at heap1 v1) refl
    where
      go :
          (o : Outcome VarNode)
          → node_at heap1 v1 ≡ o
          → (o >>= λ n1. node_at heap2 v2 >>= λ n2. compare_kinds s n1.kind n2.kind >>= λ equal.
              if equal then plain_inputs f n1.inputs n2.inputs else ok false)
            ≡ (o >>= λ n1. node_at heap2 v2 >>= λ n2. compare_kinds s n1.kind n2.kind >>= λ equal.
                if equal then plain_inputs g n1.inputs n2.inputs else ok false)
      go (err e) p = refl
      go (ok n1) p = simp (λ (ys : List ℕ).
          plain_inputs-cong f g v1 n1.inputs ys h (node_at-below heap1 v1 n1 acyclic p))

  -- More fuel than the number of the node changes nothing.
  pub plain-fuel :
      (f g v1 v2 : ℕ) → IsAcyclic heap1 → v1 < f → v1 < g → plain f v1 v2 ≡ plain g v1 v2
  unfolding plain
  plain-fuel zero g v1 v2 acyclic p q = absurd (omega arith)
  plain-fuel (suc f) zero v1 v2 acyclic p q = absurd (omega arith)
  plain-fuel (suc f) (suc g) v1 v2 acyclic p q =
      plain_nodes-cong (plain f) (plain g) v1 v2 acyclic
        (λ x y l. plain-fuel f g x y acyclic (omega arith) (omega arith))

  -- The comparison of two nodes without a cache, and the equation that describes it.
  unfoldable pub same_nodes : ℕ → ℕ → Outcome Bool
  same_nodes v1 v2 = plain (suc v1) v1 v2

  pub same_nodes_lem :
      (v1 v2 : ℕ) → IsAcyclic heap1 → same_nodes v1 v2 ≡ plain_nodes same_nodes v1 v2
  unfolding same_nodes plain
  same_nodes_lem v1 v2 acyclic =
      plain_nodes-cong (plain v1) same_nodes v1 v2 acyclic
        (λ x y l. plain-fuel v1 (suc x) x y acyclic l (omega arith))
