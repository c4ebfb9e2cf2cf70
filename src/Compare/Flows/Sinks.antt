-- ===== src/Compare/Flows/Sinks.antt =====
-- The sinks of a block under a cache that is sound.
use ppc2cpp.Prelude.{
  ℕ, suc, ◌≡◌, refl, ◌∙◌, sym, ap, subst, Bool, true, false, List, [], ◌∷◌, arith, dec_lt,
}
use ppc2cpp.Program.{Outcome, ok, err}
use ppc2cpp.DataFlow.Node.{IsAcyclic}
use ppc2cpp.DataFlow.Function.{Function}
use ppc2cpp.Compare.VarNodes.{Sides, Cache, compare_var_nodes}
use ppc2cpp.Compare.VarNodes.Plain.{plain_inputs, same_nodes}
use ppc2cpp.Compare.VarNodes.Cached.{verdict, IsSound, Agrees, compare_var_nodes-Agrees}
use ppc2cpp.Compare.Flows.{compare_sinks}

module _ (s : Sides) (f1 f2 : Function) (acyclic : IsAcyclic f1.dfg.heap) where
  abbrev pub same : ℕ → ℕ → Outcome Bool
  same = same_nodes s f1.dfg.heap f2.dfg.heap

  abbrev pub AllSound : Cache → Type 0
  AllSound c = (x y : ℕ) → IsSound same c x y

  AllSound-Agrees :
      (v1 v2 : ℕ) (c d : Cache) (r : Outcome (Bool × Cache))
      → AllSound c
      → Agrees same v1 v2 c r
      → r ≡ ok (true, d)
      → AllSound d
  AllSound-Agrees v1 v2 c d r sound a q x y = elim (dec_lt v1 x) [
    | yes above ↦ λ b e. sound x y b (sym ((a.1 d q).1 x y above) ∙ e)
    | no below ↦ (a.1 d q).0 x y (omega arith)
  ]

  -- The sinks compare as without the cache, which stays sound while they are equal.
  abbrev SinksAgree : Outcome (Bool × Cache) → Outcome Bool → Type 0
  SinksAgree r plain = (verdict r ≡ plain) × ((d : Cache) → r ≡ ok (true, d) → AllSound d)

  first-SinksAgree :
      (x y : ℕ) (xs ys : List ℕ) (c : Cache)
      → AllSound c
      → ((d : Cache)
          → AllSound d
          → SinksAgree (compare_sinks s f1 f2 xs ys d) (plain_inputs same xs ys))
      → (r : Outcome (Bool × Cache)) → compare_var_nodes s f1.dfg.heap f2.dfg.heap (suc x) x y c ≡ r
      → Agrees same x y c r
      → SinksAgree (compare_sinks s f1 f2 (x ∷ xs) (y ∷ ys) c) (plain_inputs same (x ∷ xs) (y ∷ ys))
  unfolding compare_sinks plain_inputs
  first-SinksAgree x y xs ys c sound rest (err e) p a =
      (rw (p, compare_sinks, ← a.0, plain_inputs) refl, λ d q. absurd (ground arith))
  first-SinksAgree x y xs ys c sound rest (ok (false, d)) p a =
      (rw (p, compare_sinks, ← a.0, plain_inputs) refl, λ d' q. absurd (ground arith))
  first-SinksAgree x y xs ys c sound rest (ok (true, d)) p a =
      let (agree, kept) = rest d (AllSound-Agrees x y c d (ok (true, d)) sound a refl) in
      let step : compare_sinks s f1 f2 (x ∷ xs) (y ∷ ys) c ≡ compare_sinks s f1 f2 xs ys d =
        rw (p, compare_sinks) refl in
      (ap verdict step ∙ agree ∙ rw (← a.0, plain_inputs) refl, λ d' q. kept d' (sym step ∙ q))

  pub compare_sinks-plain :
      (xs ys : List ℕ) (c : Cache)
      → AllSound c
      → SinksAgree (compare_sinks s f1 f2 xs ys c) (plain_inputs same xs ys)
  unfolding compare_sinks plain_inputs
  compare_sinks-plain [] [] c sound = (refl, λ d q. subst AllSound {x = c} {y = d} (cc) sound)
  compare_sinks-plain [] (y ∷ ys) c sound = (refl, λ d q. absurd (cc))
  compare_sinks-plain (x ∷ xs) [] c sound = (refl, λ d q. absurd (cc))
  compare_sinks-plain (x ∷ xs) (y ∷ ys) c sound =
      first-SinksAgree x y xs ys c sound (λ d k. compare_sinks-plain xs ys d k)
        (compare_var_nodes s f1.dfg.heap f2.dfg.heap (suc x) x y c) refl
        (compare_var_nodes-Agrees s f1.dfg.heap f2.dfg.heap acyclic (suc x) x y c (omega arith)
          (λ a b l. sound a b))
