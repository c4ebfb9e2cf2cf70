-- ===== src/Loading/Resolve.antt =====
-- What `resolveVMA` and `resolveTarget` of src/program_loader/ProgramLoader.cpp promise.
use ppc2cpp.Prelude.{
  ℕ, zero, suc, ◌+◌, ◌-◌, ◌^◌, ◌<◌, ◌≡◌, ◌∙◌, refl, ap, subst, Bool, true, false, ◌&&◌, none, some,
  List, [], ◌∷◌, ltb, leb, arith, get_elem?, add32, u32_mod, inl, inr, Bool-cases, Option-cases,
}
use ppc2cpp.Model.Location.{ProgramLocation, advance}
use ppc2cpp.Loading.{
  BinarySection, Binary, ProgramLoader, section_at, resolve_in_sections, resolve_in_binaries,
  resolve_vma, resolve_target, get_location_vma,
}

-- Whether a section has an address and holds a virtual address.
abbrev pub holds : BinarySection → ℕ → Bool
holds s vma = elim s.get_address [
  | none ↦ false
  | some addr ↦ leb addr vma && ltb vma (add32 addr s.length)
]

-- The section at a location holds the address, at the location's offset.
abbrev pub IsAt : BinarySection → ProgramLocation → ℕ → Type 0
IsAt s loc vma =
    (addr : ℕ) × (s.get_address ≡ some addr)
    × (loc.section_offset < s.length)
    × (addr + loc.section_offset ≡ vma)

-- The location is of binary i and of a section among ss, which are counted from j.
abbrev FoundIn : ℕ → ℕ → List BinarySection → ℕ → ProgramLocation → Type 0
FoundIn i j ss vma loc =
    (loc.binary_idx ≡ i)
    × (k : ℕ) × (loc.section_idx ≡ j + k)
    × (s : BinarySection) × (get_elem? ss k ≡ some s)
    × IsAt s loc vma

FoundIn-later :
    (i j : ℕ) (s : BinarySection) (ss : List BinarySection) (vma : ℕ) (loc : ProgramLocation)
    → FoundIn i (suc j) ss vma loc
    → FoundIn i j (s ∷ ss) vma loc
FoundIn-later i j s ss vma loc (b, k, idx, s', at, is_at) = (b, suc k, omega arith, s', at, is_at)

IsAt-offset :
    (s : BinarySection) (i j addr vma : ℕ)
    → s.get_address ≡ some addr
    → leb addr vma && ltb vma (add32 addr s.length) ≡ true
    → IsAt s (record { binary_idx = i; section_idx = j; section_offset = vma - addr }) vma
IsAt-offset s i j addr vma e h = (addr, e, ground arith, ground arith)

resolve_in_sections-found :
    (i j : ℕ) (ss : List BinarySection) (vma : ℕ) (loc : ProgramLocation)
    → resolve_in_sections i j ss vma ≡ some loc
    → FoundIn i j ss vma loc
unfolding resolve_in_sections
resolve_in_sections-found i j [] vma loc h = absurd (cc)
resolve_in_sections-found i j (s ∷ ss) vma loc h = elim (Option-cases s.get_address) [
  | inl n ↦
      FoundIn-later i j s ss vma loc
        (resolve_in_sections-found i (suc j) ss vma loc (rw (n, resolve_in_sections) at h))
  | inr (addr, e) ↦ elim (Bool-cases (leb addr vma && ltb vma (add32 addr s.length))) [
    | inr f ↦
        FoundIn-later i j s ss vma loc
          (resolve_in_sections-found i (suc j) ss vma loc (rw (e, f, resolve_in_sections) at h))
    | inl t ↦
        let here : some (record { binary_idx = i; section_idx = j; section_offset = vma - addr })
            ≡ some loc =
          rw (e, t, resolve_in_sections) at h in
        subst (λ (l : ProgramLocation). FoundIn i j (s ∷ ss) vma l)
          {x = record { binary_idx = i; section_idx = j; section_offset = vma - addr }} {y = loc}
          (cc) (refl, 0, omega arith, s, refl, IsAt-offset s i j addr vma e t)
  ]
]

-- The location is of a section that is there, and that holds the address at the location's offset.
abbrev pub Resolved : List Binary → ℕ → ℕ → ProgramLocation → Type 0
Resolved bs i vma loc =
    (k : ℕ) × (loc.binary_idx ≡ i + k)
    × (b : Binary) × (get_elem? bs k ≡ some b)
    × (s : BinarySection) × (get_elem? b.sections loc.section_idx ≡ some s)
    × IsAt s loc vma

pub resolve_in_binaries-found :
    (i : ℕ) (bs : List Binary) (vma : ℕ) (loc : ProgramLocation)
    → resolve_in_binaries i bs vma ≡ some loc
    → Resolved bs i vma loc
unfolding resolve_in_binaries
resolve_in_binaries-found i [] vma loc h = absurd (cc)
resolve_in_binaries-found i (b ∷ bs) vma loc h =
    elim (Option-cases (resolve_in_sections i 0 b.sections vma)) [
      | inl n ↦
          let (k, idx, b', b_at, s, s_at, is_at) =
            resolve_in_binaries-found (suc i) bs vma loc (rw (n, resolve_in_binaries) at h) in
          (suc k, omega arith, b', b_at, s, s_at, is_at)
      | inr (l, e) ↦
          let here : some l ≡ some loc = rw (e, resolve_in_binaries) at h in
          let (bin, k, idx, s, at, is_at) =
            resolve_in_sections-found i 0 b.sections vma loc (e ∙ here) in
          (
            0,
            omega arith,
            b,
            refl,
            s,
            ap (λ n. get_elem? b.sections n) {x = loc.section_idx} {y = k} (omega arith) ∙ at,
            is_at,
          )
    ]

-- A location to which a 32-bit virtual address is resolved is in a section that is there, its offset
-- is within the section, and its virtual address is that address.
pub resolve_vma-get_location_vma :
    (p : ProgramLoader) (vma : ℕ) (loc : ProgramLocation)
    → vma < u32_mod
    → resolve_vma p vma ≡ some loc
    → (get_location_vma p loc ≡ some vma)
      × (s : BinarySection) × (section_at p loc ≡ some s)
      × (loc.section_offset < s.length)
unfolding resolve_vma get_location_vma
resolve_vma-get_location_vma p vma loc h e =
    let (k, idx, b, b_at, s, s_at, (addr, has_addr, within, sum)) =
      resolve_in_binaries-found 0 p.binaries vma loc e in
    let b_here : get_elem? p.binaries loc.binary_idx ≡ some b =
      ap (λ n. get_elem? p.binaries n) {x = loc.binary_idx} {y = k} (omega arith) ∙ b_at in
    let exact : add32 addr loc.section_offset ≡ vma = ground arith in
    let section_here : section_at p loc ≡ some s = rw (b_here, section_at) s_at in
    (rw (section_here, has_addr, exact, get_location_vma) refl, s, section_here, within)

resolve_in_sections-total :
    (i j : ℕ) (ss : List BinarySection) (vma k : ℕ) (s : BinarySection)
    → get_elem? ss k ≡ some s
    → holds s vma ≡ true
    → (loc : ProgramLocation) × (resolve_in_sections i j ss vma ≡ some loc)
unfolding resolve_in_sections
resolve_in_sections-total i j [] vma k s e h = absurd (cc)
resolve_in_sections-total i j (t ∷ ss) vma zero s e h =
    let t_holds : holds t vma ≡ true =
      subst (λ (x : BinarySection). holds x vma ≡ true) {x = s} {y = t} (cc) h in
    elim (Option-cases t.get_address) [
      | inl n ↦ absurd (let no : false ≡ true = rw (n, holds) at t_holds in cc)
      | inr (addr, a) ↦
          let held : leb addr vma && ltb vma (add32 addr t.length) ≡ true =
            rw (a, holds) at t_holds in
          (
            record { binary_idx = i; section_idx = j; section_offset = vma - addr },
            rw (a, held, resolve_in_sections) refl,
          )
    ]
resolve_in_sections-total i j (t ∷ ss) vma (suc k) s e h =
    let (loc, later) = resolve_in_sections-total i (suc j) ss vma k s e h in
    elim (Option-cases t.get_address) [
      | inl n ↦ (loc, rw (n, resolve_in_sections) later)
      | inr (addr, a) ↦ elim (Bool-cases (leb addr vma && ltb vma (add32 addr t.length))) [
        | inl held ↦ (
          record { binary_idx = i; section_idx = j; section_offset = vma - addr },
          rw (a, held, resolve_in_sections) refl,
        )
        | inr f ↦ (loc, rw (a, f, resolve_in_sections) later)
      ]
    ]

resolve_in_binaries-total :
    (i : ℕ) (bs : List Binary) (vma k n : ℕ) (b : Binary) (s : BinarySection)
    → get_elem? bs k ≡ some b
    → get_elem? b.sections n ≡ some s
    → holds s vma ≡ true
    → (loc : ProgramLocation) × (resolve_in_binaries i bs vma ≡ some loc)
unfolding resolve_in_binaries
resolve_in_binaries-total i [] vma k n b s e f h = absurd (cc)
resolve_in_binaries-total i (b' ∷ bs) vma zero n b s e f h =
    let in_first : get_elem? b'.sections n ≡ some s =
      subst (λ (x : Binary). get_elem? x.sections n ≡ some s) {x = b} {y = b'} (cc) f in
    let (loc, found) = resolve_in_sections-total i 0 b'.sections vma n s in_first h in
    (loc, rw (found, resolve_in_binaries) refl)
resolve_in_binaries-total i (b' ∷ bs) vma (suc k) n b s e f h =
    let (loc, later) = resolve_in_binaries-total (suc i) bs vma k n b s e f h in
    elim (Option-cases (resolve_in_sections i 0 b'.sections vma)) [
      | inl none_here ↦ (loc, rw (none_here, resolve_in_binaries) later)
      | inr (l, found) ↦ (l, rw (found, resolve_in_binaries) refl)
    ]

-- An address that a section of the program holds is resolved to a location, with that address.
pub resolve_vma-total :
    (p : ProgramLoader) (vma : ℕ) (at : ProgramLocation) (s : BinarySection)
    → vma < u32_mod
    → section_at p at ≡ some s
    → holds s vma ≡ true
    → (loc : ProgramLocation) × (resolve_vma p vma ≡ some loc) × (get_location_vma p loc ≡ some vma)
unfolding resolve_vma
resolve_vma-total p vma at s small e h = elim (Option-cases (get_elem? p.binaries at.binary_idx)) [
  | inl n ↦ absurd (let no : none ≡ some s = rw (n, section_at) at e in cc)
  | inr (b, b_at) ↦
      let (loc, found) =
        resolve_in_binaries-total 0 p.binaries vma at.binary_idx at.section_idx b s b_at
          (rw (b_at, section_at) at e) h in
      (loc, found, (resolve_vma-get_location_vma p vma loc small found).0)
]

-- A target of a 32-bit value that no relocation gives is in a section that is there, at an offset
-- within it; and the target of a relative branch is the branch's location, advanced by the value.
pub resolve_target-within :
    (p : ProgramLoader) (pc : ProgramLocation) (value : ℕ) (is_absolute : Bool)
    (loc : ProgramLocation)
    → value < u32_mod
    → p.get_reference_at_location p.reloctab pc ≡ none
    → resolve_target p pc value is_absolute ≡ some loc
    → ((s : BinarySection) × (section_at p loc ≡ some s) × (loc.section_offset < s.length))
      × (is_absolute ≡ false → loc ≡ advance pc value)
unfolding resolve_target advance
resolve_target-within p pc value true loc v n e =
    let (_, s, at, within) =
      resolve_vma-get_location_vma p value loc v (rw (n, resolve_target) at e) in
    ((s, at, within), λ r. absurd (cc))
resolve_target-within p pc value false loc v n e = elim (Option-cases (section_at p pc)) [
  | inl m ↦ absurd (let no : none ≡ some loc = rw (n, m, resolve_target) at e in cc)
  | inr (s, at) ↦
      elim (Bool-cases (
        ltb (add32 pc.section_offset value) (2 ^ 31)
        && ltb (add32 pc.section_offset value) s.length)) [
          | inr f ↦ absurd (let no : none ≡ some loc = rw (n, at, f, resolve_target) at e in cc)
          | inl t ↦
              let here : some (advance pc value) ≡ some loc = rw (n, at, t, resolve_target) at e in
              let same : loc ≡ advance pc value = cc in
              (
                subst
                    (λ (l : ProgramLocation).
                      (x : BinarySection) × (section_at p l ≡ some x)
                      × (l.section_offset < x.length))
                    {x = advance pc value} {y = loc} (cc) (s, at, ground arith),
                λ _. same,
              )
        ]
]
