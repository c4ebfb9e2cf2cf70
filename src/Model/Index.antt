-- ===== src/Model/Index.antt =====
-- The `std::unordered_map`s that index the tables of src/model by a key: `insert` leaves the value of
-- a key that is there. Association lists, over the key type's `operator==`.
use ppc2cpp.Prelude.{
  ℕ, suc, ◌≡◌, refl, ap, ◌∙◌, Bool, true, ◌&&◌, Option, none, some, List, [], ◌∷◌, arith,
  if◌then◌else◌, get_elem?, Option-cases, Bool-cases, inl, inr,
}

abbrev pub or_else {ℓ} : {A : Type ℓ} → Option A → Option A → Option A
or_else none o = o
or_else (some a) o = some a

-- The first element that passes, and its position counted from i.
module _ {ℓ} {A : Type ℓ} (q : A → Bool) where
  abbrev pub first_match : List A → Option A
  first_match [] = none
  first_match (x ∷ xs) = if q x then some x else first_match xs

  abbrev pub first_index : ℕ → List A → Option ℕ
  first_index i [] = none
  first_index i (x ∷ xs) = if q x then some i else first_index (suc i) xs

abbrev pub element_at {ℓ} : {A : Type ℓ} → List A → Option ℕ → Option A
element_at xs none = none
element_at xs (some i) = get_elem? xs i

element_at-suc {ℓ} :
    {A : Type ℓ} (q : A → Bool) (x : A) (xs ys : List A) (i : ℕ)
    → element_at (x ∷ ys) (first_index q (suc i) xs) ≡ element_at ys (first_index q i xs)
element_at-suc q x [] ys i = refl
element_at-suc q x (y ∷ xs) ys i = elim (Bool-cases (q y)) [
  | inl e ↦ rw e
  | inr e ↦ rw e (element_at-suc q x xs ys (suc i))
]

element_at-first_index {ℓ} :
    {A : Type ℓ} (q : A → Bool) (xs : List A)
    → element_at xs (first_index q 0 xs) ≡ first_match q xs
element_at-first_index q [] = refl
element_at-first_index q (x ∷ xs) = elim (Bool-cases (q x)) [
  | inl e ↦ rw e
  | inr e ↦ rw e (element_at-suc q x xs xs 0 ∙ element_at-first_index q xs)
]

module _ {κ} {K : Type κ} (eq : K → K → Bool) where
  unfoldable pub find : K → List (K × ℕ) → Option ℕ
  find k [] = none
  find k ((j, v) ∷ m) = if eq j k then some v else find k m

  unfoldable pub insert : K → ℕ → List (K × ℕ) → List (K × ℕ)
  insert k v [] = (k, v) ∷ []
  insert k v ((j, w) ∷ m) = if eq j k then (j, w) ∷ m else (j, w) ∷ insert k v m

  -- The loop `for (i…) if (p(x[i])) index.insert({key(x[i]), i})`, from position i.
  unfoldable pub build {ℓ} :
      {A : Type ℓ} → (A → Bool) → (A → K) → ℕ → List A → List (K × ℕ) → List (K × ℕ)
  unfolding insert
  build p key i [] m = m
  build p key i (x ∷ xs) m = build p key (suc i) xs (if p x then insert (key x) i m else m)

  abbrev pub hits {ℓ} : {A : Type ℓ} → (A → Bool) → (A → K) → K → A → Bool
  hits p key k x = p x && eq (key x) k

module _ {κ} {K : Type κ} (eq : K → K → Bool)
    (trans : (a b c : K) → eq a b ≡ true → eq b c ≡ true → eq a c ≡ true) where
  pub find-insert :
      (k j : K) (v : ℕ) (m : List (K × ℕ))
      → find eq k (insert eq j v m) ≡ or_else (find eq k m) (if eq j k then some v else none)
  unfolding find insert
  find-insert k j v [] = refl
  find-insert k j v ((i, w) ∷ m) = ground (arith, find-insert k j v m, trans i j k)

  find-build {ℓ} :
      {A : Type ℓ} (p : A → Bool) (key : A → K) (k : K) (i : ℕ) (xs : List A) (m : List (K × ℕ))
      → find eq k (build eq p key i xs m)
        ≡ or_else (find eq k m) (first_index (hits eq p key k) i xs)
  unfolding build
  find-build p key k i [] m = elim (Option-cases (find eq k m)) [ inl e ↦ rw e | inr (v, e) ↦ rw e ]
  find-build p key k i (x ∷ xs) m =
      find-build p key k (suc i) xs (if p x then insert eq (key x) i m else m)
      ∙ found (p x) (eq (key x) k) refl refl
    where
      found :
          (b c : Bool)
          → p x ≡ b
          → eq (key x) k ≡ c
          → or_else
              (find eq k (if p x then insert eq (key x) i m else m))
              (first_index (hits eq p key k) (suc i) xs)
            ≡ or_else (find eq k m) (first_index (hits eq p key k) i (x ∷ xs))
      found b c e f = ground (arith, find-insert k (key x) i m)

  -- Finding a key in the index that the loop builds and reading the vector there gives the first
  -- element that passes and has the key.
  pub element_at-find-build {ℓ} :
      {A : Type ℓ} (p : A → Bool) (key : A → K) (k : K) (xs : List A)
      → element_at xs (find eq k (build eq p key 0 xs [])) ≡ first_match (hits eq p key k) xs
  unfolding find
  element_at-find-build p key k xs =
      ap (element_at xs) (find-build p key k 0 xs []) ∙ element_at-first_index (hits eq p key k) xs
