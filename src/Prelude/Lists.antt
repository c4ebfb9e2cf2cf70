-- ===== src/Prelude/Lists.antt =====
-- Lists as vectors: measured, indexed and updated by native numbers. An index out of range, which
-- is undefined in the source, reads a default and writes nothing.
use Prim.Native.Nat.{ℕ, zero, suc, ◌+◌, ◌<◌}
use mathlib.Core.Path.{◌≡◌, refl, ap}
use mathlib.Core.Bool.{◌&&◌}
use mathlib.Core.List.{List, [], ◌∷◌, ◌++◌}
use mathlib.Core.Option.{Option, none, some}
use native.Mathlib.Omega.{arith}
use ppc2cpp.Prelude.Tests.{◌==◌, ltb, if◌then◌else◌}

module _ {ℓ} {A : Type ℓ} where
  abbrev pub length : List A → ℕ
  length [] = 0
  length (x ∷ xs) = suc (length xs)

  abbrev pub get_elem? : List A → ℕ → Option A
  get_elem? [] i = none
  get_elem? (x ∷ xs) zero = some x
  get_elem? (x ∷ xs) (suc i) = get_elem? xs i

  abbrev pub get_or : List A → ℕ → A → A
  get_or [] i d = d
  get_or (x ∷ xs) zero d = x
  get_or (x ∷ xs) (suc i) d = get_or xs i d

  -- `v[i] = f(v[i])`
  abbrev pub modify : List A → ℕ → (A → A) → List A
  modify [] i f = []
  modify (x ∷ xs) zero f = f x ∷ xs
  modify (x ∷ xs) (suc i) f = x ∷ modify xs i f

  pub length-append : (xs ys : List A) → length (xs ++ ys) ≡ length xs + length ys
  length-append [] ys = omega arith
  length-append (x ∷ xs) ys = omega (arith, length-append xs ys)

  pub length-modify : (xs : List A) (i : ℕ) (f : A → A) → length (modify xs i f) ≡ length xs
  length-modify [] i f = refl
  length-modify (x ∷ xs) zero f = refl
  length-modify (x ∷ xs) (suc i) f = ap suc (length-modify xs i f)

  pub get_or-modify :
      (xs : List A) (i j : ℕ) (f : A → A) (d : A)
      → get_or (modify xs i f) j d
        ≡ (if (i == j) && ltb i (length xs) then f (get_or xs j d) else get_or xs j d)
  get_or-modify [] i j f d = ground arith
  get_or-modify (x ∷ xs) zero zero f d = ground arith
  get_or-modify (x ∷ xs) zero (suc j) f d = ground arith
  get_or-modify (x ∷ xs) (suc i) zero f d = ground arith
  get_or-modify (x ∷ xs) (suc i) (suc j) f d = ground (arith, get_or-modify xs i j f d)

  -- What holds of an element that is written, and of all that are read, is kept.
  pub modify-keeps {κ} :
      (P : A → Type κ) (xs : List A) (i j : ℕ) (a d : A)
      → P a
      → P (get_or xs j d)
      → P (get_or (modify xs i (λ _. a)) j d)
  modify-keeps P [] i j a d new old = old
  modify-keeps P (x ∷ xs) zero zero a d new old = new
  modify-keeps P (x ∷ xs) zero (suc j) a d new old = old
  modify-keeps P (x ∷ xs) (suc i) zero a d new old = old
  modify-keeps P (x ∷ xs) (suc i) (suc j) a d new old = modify-keeps P xs i j a d new old

  pub get_or-append :
      (xs ys : List A) (j : ℕ) (d : A) → j < length xs → get_or (xs ++ ys) j d ≡ get_or xs j d
  get_or-append [] ys j d h = absurd (omega arith)
  get_or-append (x ∷ xs) ys zero d h = refl
  get_or-append (x ∷ xs) ys (suc j) d h = get_or-append xs ys j d (omega arith)

  -- Appending the default is not seen.
  pub get_or-append_default :
      (xs : List A) (j : ℕ) (d : A) → get_or (xs ++ d ∷ []) j d ≡ get_or xs j d
  get_or-append_default [] zero d = refl
  get_or-append_default [] (suc j) d = refl
  get_or-append_default (x ∷ xs) zero d = refl
  get_or-append_default (x ∷ xs) (suc j) d = get_or-append_default xs j d

  pub get_or-append_last : (xs : List A) (x d : A) → get_or (xs ++ x ∷ []) (length xs) d ≡ x
  get_or-append_last [] x d = refl
  get_or-append_last (y ∷ xs) x d = get_or-append_last xs x d

-- How often a number occurs.
abbrev pub count : ℕ → List ℕ → ℕ
count n [] = 0
count n (k ∷ rest) = (if n == k then 1 else 0) + count n rest

pub count-append : (n : ℕ) (ks ls : List ℕ) → count n (ks ++ ls) ≡ count n ks + count n ls
count-append n [] ls = omega arith
count-append n (k ∷ ks) ls = omega (arith, count-append n ks ls)

-- The lists are as long as each other, and their elements are related one by one.
abbrev pub Each {ℓ κ} : {A : Type ℓ} {B : Type κ} → (A → B → Type 0) → List A → List B → Type 0
Each R [] [] = Unit
Each R (x ∷ xs) (y ∷ ys) = R x y × Each R xs ys
Each R _ _ = ⊥

pub Each-append {ℓ κ} :
    {A : Type ℓ} {B : Type κ} (R : A → B → Type 0) (xs xs' : List A) (ys ys' : List B)
    → Each R xs ys
    → Each R xs' ys'
    → Each R (xs ++ xs') (ys ++ ys')
Each-append R [] xs' [] ys' p q = q
Each-append R [] xs' (y ∷ ys) ys' p q = absurd p
Each-append R (x ∷ xs) xs' [] ys' p q = absurd p
Each-append R (x ∷ xs) xs' (y ∷ ys) ys' p q = (p.0, Each-append R xs xs' ys ys' p.1 q)

pub Each-map {ℓ κ} :
    {A : Type ℓ} {B : Type κ} (R : A → B → Type 0) (S : A → B → Type 0) (xs : List A) (ys : List B)
    → ((x : A) (y : B) → R x y → S x y)
    → Each R xs ys
    → Each S xs ys
Each-map R S [] [] h p = tt
Each-map R S [] (y ∷ ys) h p = absurd p
Each-map R S (x ∷ xs) [] h p = absurd p
Each-map R S (x ∷ xs) (y ∷ ys) h p = (h x y p.0, Each-map R S xs ys h p.1)

abbrev pub All {ℓ} : {A : Type ℓ} → (A → Type 0) → List A → Type 0
All P [] = Unit
All P (x ∷ xs) = P x × All P xs

pub All-push {ℓ} :
    {A : Type ℓ} (P : A → Type 0) (xs : List A) (x : A) → All P xs → P x → All P (xs ++ x ∷ [])
All-push P [] x a p = (p, tt)
All-push P (y ∷ xs) x a p = (a.0, All-push P xs x a.1 p)
