-- ===== src/Compare/Symbols/Fuel.antt =====
-- Runs that do not use up the fuel which stands for the recursion of `compareSymbols` in
-- src/analysis/ProgramComparator.cpp.
use ppc2cpp.Prelude.{
  ℕ, zero, suc, ◌+◌, ◌*◌, ◌<◌, ◌≢◌, subst, Bool, true, false, Option, none, some, if◌then◌else◌,
  arith,
}
use ppc2cpp.Program.{Outcome, ok, err, out_of_fuel, ◌>>=◌, value, assert}
use ppc2cpp.Compare.Symbols.{compare_each}

-- A run that does not use up its fuel.
abbrev pub Ends {ℓ} : {A : Type ℓ} → Outcome A → Type ℓ
Ends r = r ≢ err out_of_fuel

pub Ends-bind {ℓ κ} :
    {A : Type ℓ} {B : Type κ} (r : Outcome A) (f : A → Outcome B)
    → Ends r
    → ((a : A) → Ends (f a))
    → Ends (r >>= f)
Ends-bind (ok a) f p q = q a
Ends-bind (err e) f p q = λ h. p (cc)

pub Ends-ok {ℓ} : {A : Type ℓ} (a : A) → Ends (ok a)
Ends-ok a h = cc

pub Ends-value {ℓ} : {A : Type ℓ} (o : Option A) → Ends (value o)
Ends-value none h = cc
Ends-value (some a) h = cc

pub Ends-assert : (b : Bool) → Ends (assert b)
Ends-assert true h = cc
Ends-assert false h = cc

pub Ends-if {ℓ} :
    {A : Type ℓ} (t : Bool) (r s : Outcome A) → Ends r → Ends s → Ends (if t then r else s)
Ends-if true r s p q = p
Ends-if false r s p q = q

pub compare_each-Ends :
    (round : ℕ → Outcome Bool) (rounds j : ℕ)
    → ((i : ℕ) → i < rounds → Ends (round (4 * (j + i))))
    → Ends (compare_each round rounds (4 * j))
unfolding compare_each
compare_each-Ends round zero j h = Ends-ok true
compare_each-Ends round (suc rounds) j h =
    let rest = compare_each-Ends round rounds (suc j) (λ i l.
      subst (λ n. Ends (round n)) {x = 4 * (j + suc i)} {y = 4 * (suc j + i)} (omega arith)
        (h (suc i) (omega arith))) in
    let first =
      subst (λ n. Ends (round n)) {x = 4 * (j + 0)} {y = 4 * j} (omega arith) (h 0 (omega arith)) in
    let behind =
      subst (λ n. Ends (compare_each round rounds n)) {x = 4 * suc j} {y = 4 * j + 4} (omega arith)
        rest in
    Ends-bind (round (4 * j))
      (λ same. if same then compare_each round rounds (4 * j + 4) else ok false) first
      (λ same.
        Ends-if same (compare_each round rounds (4 * j + 4)) (ok false) behind (Ends-ok false))
