-- ===== src/DataFlow/Node/Acyclic.antt =====
-- What keeps the heap acyclic: the inputs of a node, when they are set, were made before it.
use ppc2cpp.Prelude.{
  ℕ, zero, suc, ◌≤◌, ◌≡◌, ◌⊎◌, inl, inr, refl, ap, subst, some, List, [], ◌∷◌, ◌++◌, arith, length,
  get_elem?, modify,
}
use ppc2cpp.DataFlow.Node.{VarNode, NodeKind, NodeHeap, AllBelow, IsAcyclic}

pub AllBelow-mono : (v w : ℕ) (xs : List ℕ) → v ≤ w → AllBelow v xs → AllBelow w xs
AllBelow-mono v w [] h b = tt
AllBelow-mono v w (x ∷ xs) h (l, b) = (omega arith, AllBelow-mono v w xs h b)

pub AllBelow-append :
    (v : ℕ) (xs ys : List ℕ) → AllBelow v xs → AllBelow v ys → AllBelow v (xs ++ ys)
AllBelow-append v [] ys b c = c
AllBelow-append v (x ∷ xs) ys (l, b) c = (l, AllBelow-append v xs ys b c)

get_elem?-push {ℓ} :
    {A : Type ℓ} (xs : List A) (x y : A) (i : ℕ)
    → get_elem? (xs ++ x ∷ []) i ≡ some y
    → (get_elem? xs i ≡ some y) ⊎ ((i ≡ length xs) × (x ≡ y))
get_elem?-push [] x y zero e = inr (refl, cc)
get_elem?-push [] x y (suc i) e = absurd (cc)
get_elem?-push (z ∷ xs) x y zero e = inl e
get_elem?-push (z ∷ xs) x y (suc i) e = elim (get_elem?-push xs x y i e) [
  | inl f ↦ inl f
  | inr (f, g) ↦ inr (ap suc f, g)
]

get_elem?-modify {ℓ} :
    {A : Type ℓ} (xs : List A) (f : A → A) (y : A) (i j : ℕ)
    → get_elem? (modify xs i f) j ≡ some y
    → (get_elem? xs j ≡ some y) ⊎ ((i ≡ j) × (x : A) × (f x ≡ y))
get_elem?-modify [] f y i j e = inl e
get_elem?-modify (x ∷ xs) f y zero zero e = inr (refl, x, cc)
get_elem?-modify (x ∷ xs) f y zero (suc j) e = inl e
get_elem?-modify (x ∷ xs) f y (suc i) zero e = inl e
get_elem?-modify (x ∷ xs) f y (suc i) (suc j) e = elim (get_elem?-modify xs f y i j e) [
  | inl g ↦ inl g
  | inr (g, z, h) ↦ inr (ap suc g, z, h)
]

pub push-IsAcyclic :
    (heap : NodeHeap) (kind : NodeKind) (inputs : List ℕ)
    → IsAcyclic heap
    → AllBelow (length heap) inputs
    → IsAcyclic (heap ++ record { kind = kind; inputs = inputs } ∷ [])
push-IsAcyclic heap kind inputs a b v n e =
    elim (get_elem?-push heap (record { kind = kind; inputs = inputs }) n v e) [
      | inl old ↦ a v n old
      | inr (at, new) ↦
          subst (λ (m : VarNode). AllBelow v m.inputs) new
            (AllBelow-mono (length heap) v inputs (omega arith) b)
    ]

pub modify-IsAcyclic :
    (heap : NodeHeap) (i : ℕ) (inputs : List ℕ)
    → IsAcyclic heap
    → AllBelow i inputs
    → IsAcyclic (modify heap i (λ n. record n { inputs = inputs }))
modify-IsAcyclic heap i inputs a b v n e =
    elim (get_elem?-modify heap (λ n. record n { inputs = inputs }) n i v e) [
      | inl old ↦ a v n old
      | inr (at, m, new) ↦
          subst (λ (m : VarNode). AllBelow v m.inputs) new
            (AllBelow-mono i v inputs (omega arith) b)
    ]
