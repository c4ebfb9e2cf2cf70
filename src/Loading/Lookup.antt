-- ===== src/Loading/Lookup.antt =====
-- The searches of include/ppc2cpp/program_loader/Binary.hpp and of `getLocation`.
use Prim.Native.String.{String}
use text.Mathlib.Text.{◌==◌ as str_eq}
use text.Mathlib.TextEquality.{eq_iff}
use ppc2cpp.Prelude.{
  ℕ, zero, suc, false, ◌↔◌, ◌+◌, ◌<◌, ◌≤◌, ◌≡◌, ◌∙◌, refl, ap, subst, Bool, true, ◌&&◌, some, List,
  [], ◌∷◌, ltb, leb, arith, get_elem?, add32, inl, inr, Bool-cases, Option-cases,
}
use ppc2cpp.Model.Location.{ProgramLocation}
use ppc2cpp.Loading.{
  BinarySection, Binary, ProgramLoader, section_contains_address, contains_address, any_contains,
  first_section_idx, find_section_by_offset, location_in_sections, location_in_binaries,
  get_location,
}

any_contains-any :
    (ss : List BinarySection) (vma vma' : ℕ) → any_contains ss vma ≡ any_contains ss vma'
unfolding any_contains section_contains_address
any_contains-any [] vma vma' = refl
any_contains-any (s ∷ ss) vma vma' = elim (Option-cases s.get_address) [
  | inl n ↦ rw n (any_contains-any ss vma vma')
  | inr (addr, a) ↦ rw a refl
]

-- The answer of `Binary::containsAddress` does not depend on the address.
pub contains_address-any :
    (b : Binary) (vma vma' : ℕ) → contains_address b vma ≡ contains_address b vma'
unfolding contains_address
contains_address-any b vma vma' = ap some (any_contains-any b.sections vma vma')

first_section_idx-found :
    (p : BinarySection → Bool) (i k : ℕ) (ss : List BinarySection)
    → first_section_idx p i ss ≡ some k
    → (n : ℕ) × (k ≡ i + n) × (s : BinarySection) × (get_elem? ss n ≡ some s) × (p s ≡ true)
unfolding first_section_idx
first_section_idx-found p i k [] h = absurd (cc)
first_section_idx-found p i k (s ∷ ss) h = elim (Bool-cases (p s)) [
  | inl t ↦
      let here : some i ≡ some k = rw (t, first_section_idx) at h in
      let same : i ≡ k = cc in (0, omega arith, s, refl, t)
  | inr f ↦
      let (n, e, s', at, t) =
        first_section_idx-found p (suc i) k ss (rw (f, first_section_idx) at h) in
      (suc n, omega arith, s', at, t)
]

-- The test of `findSectionByOffset`, as a proposition.
abbrev pub Behind : ℕ → BinarySection → Type 0
Behind off s = (off ≤ s.offset) × (s.offset < add32 off s.length)

test_iff :
    (off : ℕ) (s : BinarySection)
    → (leb off s.offset && ltb s.offset (add32 off s.length) ≡ true) ↔ Behind off s
test_iff off s = (λ t. (ground arith, ground arith), λ h. let (l, u) = h in ground arith)

first_section_idx-first :
    (p : BinarySection → Bool) (i n : ℕ) (ss : List BinarySection) (s : BinarySection)
    → get_elem? ss n ≡ some s
    → p s ≡ true
    → ((m : ℕ) (s' : BinarySection) → m < n → get_elem? ss m ≡ some s' → p s' ≡ false)
    → first_section_idx p i ss ≡ some (i + n)
unfolding first_section_idx
first_section_idx-first p i n [] s at t earlier = absurd (cc)
first_section_idx-first p i zero (x ∷ ss) s at t earlier =
    let same : x ≡ s = cc in
    let here : p x ≡ true = cc in rw here (ap some {x = i} {y = i + 0} (omega arith))
first_section_idx-first p i (suc n) (x ∷ ss) s at t earlier =
    let f = earlier 0 x (omega arith) refl in
    let rest =
      first_section_idx-first p (suc i) n ss s at t
        (λ m s' l e. earlier (suc m) s' (omega arith) e) in
    rw f (rest ∙ ap some {x = suc i + n} {y = i + suc n} (omega arith))

first_section_idx-no_earlier :
    (p : BinarySection → Bool) (i k : ℕ) (ss : List BinarySection)
    → first_section_idx p i ss ≡ some k
    → (m : ℕ) (s : BinarySection) → i + m < k
    → get_elem? ss m ≡ some s
    → p s ≡ false
unfolding first_section_idx
first_section_idx-no_earlier p i k [] h m s l at = absurd (cc)
first_section_idx-no_earlier p i k (x ∷ ss) h zero s l at = elim (Bool-cases (p x)) [
  | inl t ↦
      let here : some i ≡ some k = rw (t, first_section_idx) at h in
      let same : i ≡ k = cc in absurd (omega arith)
  | inr f ↦ let same : x ≡ s = cc in (cc)
]
first_section_idx-no_earlier p i k (x ∷ ss) h (suc m) s l at = elim (Bool-cases (p x)) [
  | inl t ↦
      let here : some i ≡ some k = rw (t, first_section_idx) at h in
      let same : i ≡ k = cc in absurd (omega arith)
  | inr f ↦
      first_section_idx-no_earlier p (suc i) k ss (rw (f, first_section_idx) at h) m s (omega arith)
        at
]

-- `findSectionByOffset` finds exactly the first section whose own offset is at the given one or
-- behind it, and below the 32-bit sum of the given one and the section's length.
pub find_section_by_offset_iff :
    (b : Binary) (off k : ℕ)
    → (find_section_by_offset b off ≡ some k) ↔ (
        ((s : BinarySection) × (get_elem? b.sections k ≡ some s) × Behind off s)
        × ((m : ℕ) (s : BinarySection) → m < k → get_elem? b.sections m ≡ some s → ¬ Behind off s))
unfolding find_section_by_offset
find_section_by_offset_iff b off k = (
  λ h.
      let (n, e, s, at, t) = first_section_idx-found test 0 k b.sections h in
      (
        (
          s,
          ap (λ m. get_elem? b.sections m) {x = k} {y = n} (omega arith) ∙ at,
          (test_iff off s).0 t,
        ),
        λ m s' l at' behind.
            let f = first_section_idx-no_earlier test 0 k b.sections h m s' (omega arith) at' in
            let t' = (test_iff off s').1 behind in absurd (cc),
      ),
  λ h.
      let ((s, at, behind), earlier) = h in
      first_section_idx-first test 0 k b.sections s at ((test_iff off s).1 behind)
        (λ m s' l at'. not_behind s' (earlier m s' l at'))
      ∙ ap some {x = 0 + k} {y = k} (omega arith),
)
  where
    test : BinarySection → Bool
    test s = leb off s.offset && ltb s.offset (add32 off s.length)

    not_behind : (s : BinarySection) → ¬ Behind off s → test s ≡ false
    not_behind s never = elim (Bool-cases (test s)) [
      | inl t ↦ absurd (never ((test_iff off s).0 t))
      | inr f ↦ f
    ]

pub find_section_by_offset-Behind :
    (b : Binary) (off k : ℕ)
    → find_section_by_offset b off ≡ some k
    → (s : BinarySection) × (get_elem? b.sections k ≡ some s) × Behind off s
find_section_by_offset-Behind b off k h = ((find_section_by_offset_iff b off k).0 h).0

-- The location is of a section among ss, counted from j, of the name, and holds the offset.
abbrev NamedIn : ℕ → ℕ → List BinarySection → String → ℕ → ProgramLocation → Type 0
NamedIn i j ss name offset loc =
    (loc.binary_idx ≡ i)
    × (loc.section_offset ≡ offset)
    × (k : ℕ) × (loc.section_idx ≡ j + k)
    × (s : BinarySection) × (get_elem? ss k ≡ some s)
    × (s.name ≡ name)
    × (offset < s.length)

NamedIn-later :
    (i j : ℕ) (s : BinarySection) (ss : List BinarySection) (name : String) (offset : ℕ)
    (loc : ProgramLocation)
    → NamedIn i (suc j) ss name offset loc
    → NamedIn i j (s ∷ ss) name offset loc
NamedIn-later i j s ss name offset loc (b, o, k, idx, s', at, named, within) =
    (b, o, suc k, omega arith, s', at, named, within)

location_in_sections-found :
    (i j : ℕ) (ss : List BinarySection) (name : String) (offset : ℕ) (loc : ProgramLocation)
    → location_in_sections i j ss name offset ≡ some loc
    → NamedIn i j ss name offset loc
unfolding location_in_sections
location_in_sections-found i j [] name offset loc h = absurd (cc)
location_in_sections-found i j (s ∷ ss) name offset loc h =
    elim (Bool-cases (str_eq s.name name && ltb offset s.length)) [
      | inr f ↦ NamedIn-later i j s ss name offset loc (
          location_in_sections-found i (suc j) ss name offset loc
            (rw (f, location_in_sections) at h))
      | inl t ↦
          let here : some (record { binary_idx = i; section_idx = j; section_offset = offset })
              ≡ some loc =
            rw (t, location_in_sections) at h in
          let named : str_eq s.name name ≡ true = ground arith in
          subst (λ (l : ProgramLocation). NamedIn i j (s ∷ ss) name offset l)
            {x = record { binary_idx = i; section_idx = j; section_offset = offset }} {y = loc} (cc)
            (refl, refl, 0, omega arith, s, refl, (eq_iff s.name name).0 named, ground arith)
    ]

abbrev NamedInAny : ℕ → List Binary → String → String → ℕ → ProgramLocation → Type 0
NamedInAny i bs binary_name name offset loc =
    (loc.section_offset ≡ offset)
    × (k : ℕ) × (loc.binary_idx ≡ i + k)
    × (b : Binary) × (get_elem? bs k ≡ some b)
    × (b.name ≡ binary_name)
    × (s : BinarySection) × (get_elem? b.sections loc.section_idx ≡ some s)
    × (s.name ≡ name)
    × (offset < s.length)

location_in_binaries-found :
    (i : ℕ) (bs : List Binary) (binary_name name : String) (offset : ℕ) (loc : ProgramLocation)
    → location_in_binaries i bs binary_name name offset ≡ some loc
    → NamedInAny i bs binary_name name offset loc
unfolding location_in_binaries
location_in_binaries-found i [] binary_name name offset loc h = absurd (cc)
location_in_binaries-found i (b ∷ bs) binary_name name offset loc h =
    let later : location_in_binaries (suc i) bs binary_name name offset ≡ some loc
        → NamedInAny i (b ∷ bs) binary_name name offset loc =
      λ e.
        let (o, k, idx, b', b_at, b_named, s, s_at, s_named, within) =
          location_in_binaries-found (suc i) bs binary_name name offset loc e in
        (o, suc k, omega arith, b', b_at, b_named, s, s_at, s_named, within) in
    elim (Bool-cases (str_eq b.name binary_name)) [
      | inr f ↦ later (rw (f, location_in_binaries) at h)
      | inl t ↦ elim (Option-cases (location_in_sections i 0 b.sections name offset)) [
        | inl n ↦ later (rw (t, n, location_in_binaries) at h)
        | inr (l, e) ↦
            let here : some l ≡ some loc = rw (t, e, location_in_binaries) at h in
            let (bin, o, k, idx, s, s_at, s_named, within) =
              location_in_sections-found i 0 b.sections name offset loc (e ∙ here) in
            let s_here : get_elem? b.sections loc.section_idx ≡ some s =
              ap (λ m. get_elem? b.sections m) {x = loc.section_idx} {y = k} (omega arith) ∙ s_at in
            (
              o,
              0,
              omega arith,
              b,
              refl,
              (eq_iff b.name binary_name).0 t,
              s,
              s_here,
              s_named,
              within,
            )
      ]
    ]

-- A location that is found by name has the offset asked for, and is in a section that is there, that
-- has the name, in a binary of the name, and that holds the offset.
pub get_location-named :
    (p : ProgramLoader) (binary_name name : String) (offset : ℕ) (loc : ProgramLocation)
    → get_location p binary_name name offset ≡ some loc
    → (loc.section_offset ≡ offset)
      × (b : Binary) × (get_elem? p.binaries loc.binary_idx ≡ some b)
      × (b.name ≡ binary_name)
      × (s : BinarySection) × (get_elem? b.sections loc.section_idx ≡ some s)
      × (s.name ≡ name)
      × (offset < s.length)
unfolding get_location
get_location-named p binary_name name offset loc h =
    let (o, k, idx, b, b_at, b_named, s, s_at, s_named, within) =
      location_in_binaries-found 0 p.binaries binary_name name offset loc h in
    let b_here = ap (λ m. get_elem? p.binaries m) {x = loc.binary_idx} {y = k} (omega arith) in
    (o, b, b_here ∙ b_at, b_named, s, s_at, s_named, within)
