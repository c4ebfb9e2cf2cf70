-- ===== src/Loading/Nin/References.antt =====
-- `getReferenceAtLocation` of src/program_loader/NinProgramLoader.cpp.
use ppc2cpp.Prelude.{
  ℕ, zero, suc, ◌+◌, ◌<◌, ◌≡◌, ◌≢◌, ◌∙◌, ◌⊎◌, refl, sym, ap, subst, true, false, Option, none, some,
  List, [], ◌∷◌, ◌==◌, arith, map, get_elem?, Bool-cases, Option-cases, inl, inr,
}
use ppc2cpp.Model.Location.{ProgramLocation, eq_binary}
use ppc2cpp.Model.SymbolTable.{eq_binary_trans}
use ppc2cpp.Model.Index.{first_match, element_at-find-build}
use ppc2cpp.Program.{Outcome, ok, err, bad_optional_access, runtime_error, ◌>>=◌}
use ppc2cpp.Loading.{resolve_in_binaries}
use ppc2cpp.Loading.Nin.{
  RelFile, RelReloc, RelSection, NinBinary, dol, rel, binary_of, reloc_key, get_reloc_at_location,
  is_module, module_from, module_id_to_binary_idx, get_reference_at_location,
}

-- The binary at the index is that of the module, and no later one is.
abbrev pub IsLastModule : List NinBinary → ℕ → ℕ → Type 0
IsLastModule bs id k =
    (b : NinBinary) × (get_elem? bs k ≡ some b)
    × (is_module id b ≡ true)
    × ((m : ℕ) (b' : NinBinary) → k < m → get_elem? bs m ≡ some b' → is_module id b' ≡ false)

abbrev NoModule : List NinBinary → ℕ → Type 0
NoModule bs id = (m : ℕ) (b : NinBinary) → get_elem? bs m ≡ some b → is_module id b ≡ false

NoModule-tail :
    (x : NinBinary) (bs : List NinBinary) (id : ℕ)
    → NoModule bs id
    → (m : ℕ) (b : NinBinary) → 0 < m
    → get_elem? (x ∷ bs) m ≡ some b
    → is_module id b ≡ false
NoModule-tail x bs id h zero b l q = absurd (omega arith)
NoModule-tail x bs id h (suc m) b l q = h m b q

NoModule-cons :
    (x : NinBinary) (bs : List NinBinary) (id : ℕ)
    → is_module id x ≡ false
    → NoModule bs id
    → NoModule (x ∷ bs) id
NoModule-cons x bs id f h zero b q =
    subst (λ (y : NinBinary). is_module id y ≡ false) {x = x} {y = b} (cc) f
NoModule-cons x bs id f h (suc m) b q = h m b q

after-cons :
    (x : NinBinary) (bs : List NinBinary) (id n : ℕ)
    → ((m : ℕ) (b : NinBinary) → n < m → get_elem? bs m ≡ some b → is_module id b ≡ false)
    → (m : ℕ) (b : NinBinary) → suc n < m
    → get_elem? (x ∷ bs) m ≡ some b
    → is_module id b ≡ false
after-cons x bs id n h zero b l q = absurd (omega arith)
after-cons x bs id n h (suc m) b l q = h m b (omega arith) q

IsLastModule-cons :
    (x : NinBinary) (bs : List NinBinary) (id n : ℕ)
    → IsLastModule bs id n
    → IsLastModule (x ∷ bs) id (suc n)
IsLastModule-cons x bs id n h =
    let (b, at, is, after) = h in (b, at, is, after-cons x bs id n after)

module_from-last :
    (id i : ℕ) (bs : List NinBinary) (found : Option ℕ) (k : ℕ)
    → module_from id i bs found ≡ some k
    → ((found ≡ some k) × NoModule bs id) ⊎ ((n : ℕ) × (k ≡ i + n) × IsLastModule bs id n)
unfolding module_from
module_from-last id i [] found k e = inl (e, λ m b q. absurd (cc))
module_from-last id i (x ∷ bs) found k e = elim (Bool-cases (is_module id x)) [
  | inl t ↦ elim (module_from-last id (suc i) bs (some i) k (rw (t, module_from) at e)) [
    | inl (here, none_after) ↦
        let same : i ≡ k = cc in
        inr (0, omega arith, (x, refl, t, NoModule-tail x bs id none_after))
    | inr (n, at, last) ↦ inr (suc n, omega arith, IsLastModule-cons x bs id n last)
  ]
  | inr f ↦ elim (module_from-last id (suc i) bs found k (rw (f, module_from) at e)) [
    | inl (here, none_after) ↦ inl (here, NoModule-cons x bs id f none_after)
    | inr (n, at, last) ↦ inr (suc n, omega arith, IsLastModule-cons x bs id n last)
  ]
]

module_id_to_binary_idx-last :
    (bs : List NinBinary) (id k : ℕ) → module_id_to_binary_idx bs id ≡ some k → IsLastModule bs id k
unfolding module_id_to_binary_idx
module_id_to_binary_idx-last bs id k e = elim (module_from-last id 0 bs none k e) [
  | inl (start, rest) ↦ absurd (cc)
  | inr (n, at, last) ↦ subst (λ m. IsLastModule bs id m) {x = n} {y = k} (omega arith) last
]

get_reloc_at_location-first :
    (file : RelFile) (loc : ProgramLocation)
    → get_reloc_at_location file loc ≡ first_match (λ r. eq_binary (reloc_key r) loc) file.rels
unfolding get_reloc_at_location
get_reloc_at_location-first file loc =
    element_at-find-build eq_binary eq_binary_trans (λ (_ : RelReloc). true) reloc_key loc file.rels

-- Where the relocation of a REL leads.
abbrev pub LeadsTo : List NinBinary → RelReloc → ProgramLocation → Type 0
LeadsTo bs reloc dest =
    ((reloc.src_module_id ≡ 0)
      × (resolve_in_binaries 0 (map binary_of bs) reloc.src_offset ≡ some dest))
    ⊎ ((reloc.src_module_id ≢ 0)
        × (dest.section_idx ≡ reloc.src_section_idx)
        × (dest.section_offset ≡ reloc.src_offset)
        × IsLastModule bs reloc.src_module_id dest.binary_idx)

found_reference :
    (bs : List NinBinary) (loc dest : ProgramLocation) (b : NinBinary)
    → get_elem? bs loc.binary_idx ≡ some b
    → get_reference_at_location bs loc ≡ ok (some dest)
    → (file : RelFile) × (ss : List RelSection) × (reloc : RelReloc) × (b ≡ rel file ss)
      × (get_reloc_at_location file loc ≡ some reloc)
      × LeadsTo bs reloc dest
unfolding get_reference_at_location
found_reference bs loc dest (dol d) at e = absurd (
    let no : ◌≡◌ {A = Outcome (Option ProgramLocation)} (ok none) (ok (some dest)) =
      rw (at, get_reference_at_location) at e in
    cc)
found_reference bs loc dest (rel file ss) at e =
    elim (Option-cases (get_reloc_at_location file loc)) [
      | inl n ↦ absurd (
          let no : ◌≡◌ {A = Outcome (Option ProgramLocation)} (ok none) (ok (some dest)) =
            rw (at, ◌>>=◌, n, get_reference_at_location) at e in
          cc)
      | inr (reloc, f) ↦ (
        file,
        ss,
        reloc,
        refl,
        f,
        elim (Bool-cases (reloc.src_module_id == 0)) [
          | inl z ↦
              let here : ◌≡◌ {A = Outcome (Option ProgramLocation)}
                  (ok (resolve_in_binaries 0 (map binary_of bs) reloc.src_offset))
                  (ok (some dest)) =
                rw (at, ◌>>=◌, f, z, get_reference_at_location) at e in
              inl (ground arith, cc)
          | inr nz ↦ elim (Option-cases (module_id_to_binary_idx bs reloc.src_module_id)) [
            | inl n ↦ absurd (
                let no : ◌≡◌ {A = Outcome (Option ProgramLocation)} (err runtime_error)
                    (ok (some dest)) =
                  rw (at, ◌>>=◌, f, nz, n, get_reference_at_location) at e in
                cc)
            | inr (idx, m) ↦
                let made : ProgramLocation = record {
                  binary_idx = idx;
                  section_idx = reloc.src_section_idx;
                  section_offset = reloc.src_offset;
                } in
                let here : ◌≡◌ {A = Outcome (Option ProgramLocation)} (ok (some made))
                    (ok (some dest)) =
                  rw (at, ◌>>=◌, f, nz, m, get_reference_at_location) at e in
                subst (λ (l : ProgramLocation). LeadsTo bs reloc l) {x = made} {y = dest} (cc)
                  (inr (
                    λ z. ground arith,
                    refl,
                    refl,
                    module_id_to_binary_idx-last bs reloc.src_module_id idx m,
                  ))
          ]
        ],
      )
    ]

-- A reference that is found is at a location of a REL, where the first relocation of the REL with the
-- section and the offset of the location leads to it. A relocation to module 0 gives the address of the
-- reference, which the program resolves; any other gives its section and offset in the last binary
-- that is a REL of the module's id.
pub get_reference_at_location-module :
    (bs : List NinBinary) (loc dest : ProgramLocation)
    → get_reference_at_location bs loc ≡ ok (some dest)
    → (file : RelFile) × (ss : List RelSection) × (reloc : RelReloc) × (get_elem? bs loc.binary_idx
        ≡ some (rel file ss))
      × (first_match (λ r. eq_binary (reloc_key r) loc) file.rels ≡ some reloc)
      × LeadsTo bs reloc dest
unfolding get_reference_at_location
get_reference_at_location-module bs loc dest e = elim (Option-cases (get_elem? bs loc.binary_idx)) [
  | inl n ↦ absurd (
      let no : ◌≡◌ {A = Outcome (Option ProgramLocation)} (err bad_optional_access)
          (ok (some dest)) =
        rw (n, get_reference_at_location) at e in
      cc)
  | inr (b, at) ↦
      let (file, ss, reloc, is, first, leads) = found_reference bs loc dest b at e in
      (file, ss, reloc, at ∙ ap some is, sym (get_reloc_at_location-first file loc) ∙ first, leads)
]
