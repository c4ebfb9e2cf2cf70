-- ===== src/Compare/VarNodes/Cached.antt =====
-- The cache of `compareVarNodes` changes no result.
use ppc2cpp.Prelude.{
  ℕ, zero, suc, ◌<◌, ◌≤◌, ◌≡◌, refl, ◌∙◌, sym, ap, subst, Bool, true, false, none, some, List, [],
  ◌∷◌, if◌then◌else◌, arith, Option-cases, inl, inr, Bool-cases, ◌⊎◌, ◌==◌, ◌&&◌, dec_lt,
}
use mathlib.Core.Path.{subst₂}
use ppc2cpp.Program.{Outcome, ok, err, ◌>>=◌}
use ppc2cpp.DataFlow.Node.{VarNode, NodeHeap, AllBelow, IsAcyclic}
use ppc2cpp.Compare.VarNodes.{
  Sides, compare_kinds, node_at, Cache, set, check, Compare, compare_inputs, compare_var_nodes,
}
use ppc2cpp.Compare.VarNodes.Plain.{
  plain_inputs, plain_nodes, same_nodes, same_nodes_lem, node_at-below,
}

-- The result without the cache.
abbrev pub verdict : Outcome (Bool × Cache) → Outcome Bool
verdict (ok r) = ok r.0
verdict (err e) = err e

check-set_self : (v1 v2 : ℕ) (b : Bool) (c : Cache) → check (set c v1 v2 b) v1 v2 ≡ some b
unfolding check set
check-set_self v1 v2 b c = ground arith

check-set_above :
    (v1 v2 : ℕ) (b : Bool) (c : Cache) (x y : ℕ) → v1 < x → check (set c v1 v2 b) x y ≡ check c x y
unfolding check set
check-set_above v1 v2 b c x y l = ground arith

module _ (same : ℕ → ℕ → Outcome Bool) where
  -- What the cache holds of a pair is its result.
  abbrev pub IsSound : Cache → ℕ → ℕ → Type 0
  IsSound c x y = (b : Bool) → check c x y ≡ some b → same x y ≡ ok b

  -- After a comparison of v1: it has the result of the plain one, and if that is true, the cache is
  -- as it was for nodes above v1, and sound for the others.
  abbrev pub Agrees : ℕ → ℕ → Cache → Outcome (Bool × Cache) → Type 0
  Agrees v1 v2 c r =
      (verdict r ≡ same v1 v2)
      × ((d : Cache)
          → r ≡ ok (true, d)
          → ((x y : ℕ) → x ≤ v1 → IsSound d x y) × ((x y : ℕ) → v1 < x → check d x y ≡ check c x y))

  -- While the inputs of v1 are compared, the entry of the pair itself may come too early.
  abbrev SoundBut : ℕ → ℕ → Cache → Type 0
  SoundBut v1 v2 c = (x y : ℕ) → x ≤ v1 → (x ≡ v1) × (y ≡ v2) ⊎ IsSound c x y

  SoundBut-set :
      (v1 v2 : ℕ) (b : Bool) (c : Cache) → SoundBut v1 v2 c → SoundBut v1 v2 (set c v1 v2 b)
  unfolding set check
  SoundBut-set v1 v2 b c h x y l = elim (Bool-cases (v1 == x && v2 == y)) [
    | inl e ↦ inl (ground arith)
    | inr e ↦ elim (h x y l) [
      | inl own ↦ inl own
      | inr sound ↦ inr (λ b' q. sound b' (ground arith))
    ]
  ]

  SoundBut-below : (v1 v2 : ℕ) (c : Cache) → SoundBut v1 v2 c → (x y : ℕ) → x < v1 → IsSound c x y
  SoundBut-below v1 v2 c h x y l = elim (h x y (omega arith)) [
    | inl own ↦ absurd (omega arith)
    | inr sound ↦ sound
  ]

  -- After a comparison of some x below v1.
  SoundBut-Agrees :
      (v1 v2 x : ℕ) (c d : Cache)
      → x < v1
      → SoundBut v1 v2 c
      → ((a b : ℕ) → a ≤ x → IsSound d a b)
      → ((a b : ℕ) → x < a → check d a b ≡ check c a b)
      → SoundBut v1 v2 d
  SoundBut-Agrees v1 v2 x c d l h low high a b m = elim (dec_lt x a) [
    | yes above ↦ elim (h a b m) [
      | inl own ↦ inl own
      | inr sound ↦ inr (λ r q. sound r (sym (high a b above) ∙ q))
    ]
    | no below ↦ inr (low a b (omega arith))
  ]

  -- What a comparison of the inputs of v1 and v2 gives.
  abbrev Kept : ℕ → ℕ → Cache → Outcome (Bool × Cache) → Outcome Bool → Type 0
  Kept v1 v2 c r plain =
      (verdict r ≡ plain)
      × ((d : Cache)
          → r ≡ ok (true, d)
          → SoundBut v1 v2 d
            × ((x y : ℕ) → v1 < x → check d x y ≡ check c x y)
            × ((check d v1 v2 ≡ check c v1 v2) ⊎ (check d v1 v2 ≡ some true)))

  module _ (compare : Compare) (v1 v2 : ℕ) where
    -- The result of the first comparison, and what the comparison of the rest gives.
    Kept-first :
        (x y : ℕ) (xs ys : List ℕ) (c : Cache)
        → x < v1
        → SoundBut v1 v2 c
        → ((d : Cache)
            → SoundBut v1 v2 d
            → Kept v1 v2 d (compare_inputs compare v1 v2 xs ys d) (plain_inputs same xs ys))
        → (r : Outcome (Bool × Cache)) → compare x y c ≡ r
        → Agrees x y c r
        → Kept v1 v2 c
            (compare_inputs compare v1 v2 (x ∷ xs) (y ∷ ys) c)
            (plain_inputs same (x ∷ xs) (y ∷ ys))
    unfolding compare_inputs plain_inputs
    Kept-first x y xs ys c l h rest (err e) p a =
        (rw (p, compare_inputs, ← a.0, plain_inputs) refl, λ d q. absurd (ground arith))
    Kept-first x y xs ys c l h rest (ok (false, d)) p a =
        (rw (p, compare_inputs, ← a.0, plain_inputs) refl, λ d' q. absurd (ground arith))
    Kept-first x y xs ys c l h rest (ok (true, d)) p a =
        let d1 = set d v1 v2 true in
        let (low, high) = a.1 d refl in
        let ih = rest d1 (SoundBut-set v1 v2 true d (SoundBut-Agrees v1 v2 x c d l h low high)) in
        let step : compare_inputs compare v1 v2 (x ∷ xs) (y ∷ ys) c
            ≡ compare_inputs compare v1 v2 xs ys d1 =
          rw (p, compare_inputs) refl in
        (
          ap verdict step ∙ ih.0 ∙ rw (← a.0, plain_inputs) refl,
          λ d' q.
              let (sound, frame, own) = ih.1 d' (sym step ∙ q) in
              (
                sound,
                λ m n k. frame m n k ∙ check-set_above v1 v2 true d m n k ∙ high m n (omega arith),
                elim own [ inl e ↦ inr (e ∙ check-set_self v1 v2 true d) | inr e ↦ inr e ],
              ),
        )

    Kept-inputs :
        ((x y : ℕ) (c : Cache)
          → x < v1
          → ((a b : ℕ) → a ≤ x → IsSound c a b)
          → Agrees x y c (compare x y c))
        → (xs ys : List ℕ) (c : Cache) → AllBelow v1 xs
        → SoundBut v1 v2 c
        → Kept v1 v2 c (compare_inputs compare v1 v2 xs ys c) (plain_inputs same xs ys)
    unfolding compare_inputs plain_inputs
    Kept-inputs agrees [] [] c b h = (
      refl,
      λ d q.
          subst
            (λ e.
              SoundBut v1 v2 e
              × ((x y : ℕ) → v1 < x → check e x y ≡ check c x y)
              × ((check e v1 v2 ≡ check c v1 v2) ⊎ (check e v1 v2 ≡ some true)))
            {x = c} {y = d} (cc) (h, λ x y l. refl, inl refl),
    )
    Kept-inputs agrees [] (y ∷ ys) c b h = (refl, λ d q. absurd (cc))
    Kept-inputs agrees (x ∷ xs) [] c b h = (refl, λ d q. absurd (cc))
    Kept-inputs agrees (x ∷ xs) (y ∷ ys) c b h =
        Kept-first x y xs ys c b.0 h (λ d k. Kept-inputs agrees xs ys d b.1 k) (compare x y c) refl
          (agrees x y c b.0 (λ m n l. SoundBut-below v1 v2 c h m n (omega arith)))

  -- What was found of the inputs holds of the nodes, if the cache held nothing of them.
  Kept-Agrees :
      (v1 v2 : ℕ) (c : Cache) (r : Outcome (Bool × Cache))
      → check c v1 v2 ≡ none
      → Kept v1 v2 c r (same v1 v2)
      → Agrees v1 v2 c r
  Kept-Agrees v1 v2 c r fresh (agree, kept) = (
    agree,
    λ d q.
        let (sound, frame, own) = kept d q in
        let true_ : same v1 v2 ≡ ok true = sym agree ∙ ap verdict q in
        let at_pair : IsSound d v1 v2 = λ b h. elim own [
          | inl e ↦ absurd (cc)
          | inr e ↦ let b_true : true ≡ b = cc in subst (λ u. same v1 v2 ≡ ok u) b_true true_
        ] in
        (
          λ x y l. elim (sound x y l) [
            | inl (e, f) ↦ subst₂ (IsSound d) (sym e) (sym f) at_pair
            | inr k ↦ k
          ],
          frame,
        ),
  )

module _ (s : Sides) (heap1 heap2 : NodeHeap) (acyclic : IsAcyclic heap1) where
  abbrev same : ℕ → ℕ → Outcome Bool
  same = same_nodes s heap1 heap2

  module _ (compare : Compare) (v1 v2 : ℕ) (c : Cache)
      (agrees : (x y : ℕ) (c : Cache)
        → x < v1
        → ((a b : ℕ) → a ≤ x → IsSound same c a b)
        → Agrees same x y c (compare x y c))
      (sound : (a b : ℕ) → a ≤ v1 → IsSound same c a b) where
    -- The comparison of two nodes that the cache holds nothing of.
    abbrev fresh : Outcome (Bool × Cache)
    fresh = node_at heap1 v1 >>= λ n1. node_at heap2 v2 >>= λ n2.
        compare_kinds s n1.kind n2.kind >>= λ equal.
        if equal then compare_inputs compare v1 v2 n1.inputs n2.inputs c else ok (false, c)

    fresh-Kept : Kept same v1 v2 c fresh (plain_nodes s heap1 heap2 same v1 v2)
    unfolding plain_nodes
    fresh-Kept = at_first (node_at heap1 v1) refl
      where
        at_kinds :
            (n1 n2 : VarNode)
            → node_at heap1 v1 ≡ ok n1
            → (o : Outcome Bool)
            → Kept same v1 v2 c
                (o >>= λ equal.
                  if equal
                  then compare_inputs compare v1 v2 n1.inputs n2.inputs c
                  else ok (false, c))
                (o >>= λ equal. if equal then plain_inputs same n1.inputs n2.inputs else ok false)
        at_kinds n1 n2 p (err e) = (refl, λ d q. absurd (cc))
        at_kinds n1 n2 p (ok false) = (refl, λ d q. absurd (ground arith))
        at_kinds n1 n2 p (ok true) =
            Kept-inputs same compare v1 v2 agrees n1.inputs n2.inputs c
              (node_at-below heap1 v1 n1 acyclic p) (λ x y l. inr (sound x y l))

        at_second :
            (n1 : VarNode)
            → node_at heap1 v1 ≡ ok n1
            → (o : Outcome VarNode)
            → Kept same v1 v2 c
                (o >>= λ n2. compare_kinds s n1.kind n2.kind >>= λ equal.
                  if equal
                  then compare_inputs compare v1 v2 n1.inputs n2.inputs c
                  else ok (false, c))
                (o >>= λ n2. compare_kinds s n1.kind n2.kind >>= λ equal.
                  if equal then plain_inputs same n1.inputs n2.inputs else ok false)
        at_second n1 p (err e) = (refl, λ d q. absurd (cc))
        at_second n1 p (ok n2) = at_kinds n1 n2 p (compare_kinds s n1.kind n2.kind)

        at_first :
            (o : Outcome VarNode)
            → node_at heap1 v1 ≡ o
            → Kept same v1 v2 c
                (o >>= λ n1. node_at heap2 v2 >>= λ n2. compare_kinds s n1.kind n2.kind >>= λ equal.
                  if equal
                  then compare_inputs compare v1 v2 n1.inputs n2.inputs c
                  else ok (false, c))
                (o >>= λ n1. node_at heap2 v2 >>= λ n2. compare_kinds s n1.kind n2.kind >>= λ equal.
                  if equal then plain_inputs same n1.inputs n2.inputs else ok false)
        at_first (err e) p = (refl, λ d q. absurd (cc))
        at_first (ok n1) p = at_second n1 p (node_at heap2 v2)

  pub compare_var_nodes-Agrees :
      (fuel v1 v2 : ℕ) (c : Cache)
      → v1 < fuel
      → ((a b : ℕ) → a ≤ v1 → IsSound same c a b)
      → Agrees same v1 v2 c (compare_var_nodes s heap1 heap2 fuel v1 v2 c)
  unfolding compare_var_nodes
  compare_var_nodes-Agrees zero v1 v2 c l sound = absurd (omega arith)
  compare_var_nodes-Agrees (suc fuel) v1 v2 c l sound =
      let agrees =
        λ (x y : ℕ) (d : Cache) (m : x < v1) (k : (a b : ℕ) → a ≤ x → IsSound same d a b).
          compare_var_nodes-Agrees fuel x y d (omega arith) k in
      elim (Option-cases (check c v1 v2)) [
        | inl e ↦
            rw (e, compare_var_nodes)
              (Kept-Agrees same v1 v2 c _ e (
                subst (Kept same v1 v2 c _) (sym (same_nodes_lem s heap1 heap2 v1 v2 acyclic))
                  (fresh-Kept (compare_var_nodes s heap1 heap2 fuel) v1 v2 c agrees sound)))
        | inr (b, e) ↦
            rw (e, compare_var_nodes)
              (
                sym (sound v1 v2 (omega arith) b e),
                λ d q.
                    subst
                      (λ g.
                        ((x y : ℕ) → x ≤ v1 → IsSound same g x y)
                        × ((x y : ℕ) → v1 < x → check g x y ≡ check c x y))
                      {x = c} {y = d} (cc) (sound, λ x y m. refl),
              )
      ]

  -- Where each node's inputs were made before it, a comparison of two nodes from an empty cache, with
  -- fuel above the number of the first node, gives the result of the comparison without a cache,
  -- faults included.
  pub compare_var_nodes-same_nodes :
      (fuel v1 v2 : ℕ)
      → v1 < fuel
      → verdict (compare_var_nodes s heap1 heap2 fuel v1 v2 []) ≡ same_nodes s heap1 heap2 v1 v2
  unfolding check
  compare_var_nodes-same_nodes fuel v1 v2 l =
      (compare_var_nodes-Agrees fuel v1 v2 [] l (λ a b m r e. absurd (cc))).0
