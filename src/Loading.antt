-- ===== src/Loading.antt =====
-- include/ppc2cpp/program_loader/{BinarySection,Binary,ProgramLoader}.hpp and src/program_loader/
-- {Binary,ProgramLoader}.cpp. The virtual functions of a section and of the loader are fields. A
-- location of a binary or section that is not there is undefined in the source, and gives `none`.
pub mod Resolve
pub mod Lookup
pub mod Elf
pub mod Nin
pub mod Project
pub mod Examples
use Prim.Native.String.{String}
use text.Mathlib.Text.{◌==◌ as str_eq}
use ppc2cpp.Prelude.{
  ℕ, suc, ◌-◌, ◌^◌, Bool, true, false, ◌&&◌, ◌||◌, Option, none, some, List, [], ◌∷◌, ltb, leb,
  if◌then◌else◌, is_some, get_elem?, add32,
}
use ppc2cpp.Model.Location.{ProgramLocation, advance}
use ppc2cpp.Model.Symbol.{Symbol}
use ppc2cpp.Model.SymbolTable.{SymbolTable, lookup_by_name}
use ppc2cpp.Model.RelocationTable.{RelocationTable, lookup_by_insn_loc}
use ppc2cpp.Program.{Buffer, Loader}

pub data SectionType : Type 0 where
  type_noload type_text type_data type_bss : SectionType

abbrev pub eq_section_type : SectionType → SectionType → Bool
eq_section_type type_noload type_noload = true
eq_section_type type_text type_text = true
eq_section_type type_data type_data = true
eq_section_type type_bss type_bss = true
eq_section_type _ _ = false

pub record BinarySection : Type 0 where
  pub name : String
  pub offset : ℕ
  pub length : ℕ
  pub section_type : SectionType
  pub get_address : Option ℕ
  pub get_buffer_at_offset : ℕ → Option Buffer
  pub get_buffer_at_address : ℕ → Option Buffer

unfoldable pub section_contains_address : BinarySection → ℕ → Option Bool
section_contains_address s vma = elim s.get_address [
  | none ↦ none
  | some addr ↦ some (leb addr vma && ltb vma (add32 addr s.length))
]

pub record Binary : Type 0 where
  pub name : String
  pub sections : List BinarySection

abbrev any_contains : List BinarySection → ℕ → Bool
unfolding section_contains_address
any_contains [] vma = false
any_contains (s ∷ ss) vma = is_some (section_contains_address s vma) || any_contains ss vma

-- The test is whether the section's optional answer is there, not what it is.
unfoldable pub contains_address : Binary → ℕ → Option Bool
unfolding any_contains
contains_address b vma = some (any_contains b.sections vma)

unfoldable pub first_section : (BinarySection → Bool) → List BinarySection → Option BinarySection
first_section p [] = none
first_section p (s ∷ ss) = if p s then some s else first_section p ss

unfoldable pub get_section_by_address : Binary → ℕ → Option BinarySection
unfolding first_section
get_section_by_address b vma = first_section (λ s. is_some (s.get_buffer_at_address vma)) b.sections

-- `getSectionIdxByName`
unfoldable pub get_section_by_name : Binary → String → Option BinarySection
unfolding first_section
get_section_by_name b name = first_section (λ s. str_eq s.name name) b.sections

unfoldable pub first_section_idx : (BinarySection → Bool) → ℕ → List BinarySection → Option ℕ
first_section_idx p i [] = none
first_section_idx p i (s ∷ ss) = if p s then some i else first_section_idx p (suc i) ss

-- `int off` is compared as a `uint32_t`.
unfoldable pub find_section_by_offset : Binary → ℕ → Option ℕ
unfolding first_section_idx
find_section_by_offset b off =
    first_section_idx (λ s. leb off s.offset && ltb s.offset (add32 off s.length)) 0 b.sections

unfoldable pub get_buffer_in_binary : Binary → ProgramLocation → Option Buffer
get_buffer_in_binary b loc = elim (get_elem? b.sections loc.section_idx) [
  | none ↦ none
  | some s ↦ s.get_buffer_at_offset loc.section_offset
]

unfoldable pub first_buffer : List BinarySection → ℕ → Option Buffer
first_buffer [] vma = none
first_buffer (s ∷ ss) vma =
    let rest = first_buffer ss vma in
    elim (s.get_buffer_at_address vma) [ none ↦ rest | some buf ↦ some buf ]

unfoldable pub get_buffer_at_address : Binary → ℕ → Option Buffer
unfolding first_buffer
get_buffer_at_address b vma = first_buffer b.sections vma

-- The loop of `Binary::resolveVMA`, from section j of binary i on.
unfoldable pub resolve_in_sections : ℕ → ℕ → List BinarySection → ℕ → Option ProgramLocation
resolve_in_sections i j [] vma = none
resolve_in_sections i j (s ∷ ss) vma =
    let rest = resolve_in_sections i (suc j) ss vma in
    elim s.get_address [
      | none ↦ rest
      | some addr ↦
          if leb addr vma && ltb vma (add32 addr s.length)
          then some (record { binary_idx = i; section_idx = j; section_offset = vma - addr })
          else rest
    ]

pub record ProgramLoader : Type 0 where
  pub binaries : List Binary
  pub symtab : SymbolTable
  pub reloctab : RelocationTable
  pub get_reference_at_location : RelocationTable → ProgramLocation → Option ProgramLocation

-- The inner and the outer loop of `getLocation`.
unfoldable pub location_in_sections :
    ℕ → ℕ → List BinarySection → String → ℕ → Option ProgramLocation
location_in_sections i j [] name offset = none
location_in_sections i j (s ∷ ss) name offset =
    let rest = location_in_sections i (suc j) ss name offset in
    if str_eq s.name name && ltb offset s.length
    then some (record { binary_idx = i; section_idx = j; section_offset = offset })
    else rest

unfoldable pub location_in_binaries : ℕ → List Binary → String → String → ℕ → Option ProgramLocation
unfolding location_in_sections
location_in_binaries i [] binary_name name offset = none
location_in_binaries i (b ∷ bs) binary_name name offset =
    let rest = location_in_binaries (suc i) bs binary_name name offset in
    if str_eq b.name binary_name
    then elim (location_in_sections i 0 b.sections name offset) [
      | none ↦ rest
      | some loc ↦ some loc
    ]
    else rest

unfoldable pub get_location : ProgramLoader → String → String → ℕ → Option ProgramLocation
unfolding location_in_binaries
get_location p binary_name name offset = location_in_binaries 0 p.binaries binary_name name offset

abbrev pub section_at : ProgramLoader → ProgramLocation → Option BinarySection
section_at p loc = elim (get_elem? p.binaries loc.binary_idx) [
  | none ↦ none
  | some b ↦ get_elem? b.sections loc.section_idx
]

unfoldable pub get_buffer_at_location : ProgramLoader → ProgramLocation → Option Buffer
unfolding get_buffer_in_binary
get_buffer_at_location p loc = elim (get_elem? p.binaries loc.binary_idx) [
  | none ↦ none
  | some b ↦ get_buffer_in_binary b loc
]

unfoldable pub get_location_vma : ProgramLoader → ProgramLocation → Option ℕ
get_location_vma p loc = elim (section_at p loc) [
  | none ↦ none
  | some s ↦ elim s.get_address [ none ↦ none | some addr ↦ some (add32 addr loc.section_offset) ]
]

unfoldable pub resolve_in_binaries : ℕ → List Binary → ℕ → Option ProgramLocation
unfolding resolve_in_sections
resolve_in_binaries i [] vma = none
resolve_in_binaries i (b ∷ bs) vma =
    let rest = resolve_in_binaries (suc i) bs vma in
    elim (resolve_in_sections i 0 b.sections vma) [ none ↦ rest | some loc ↦ some loc ]

unfoldable pub resolve_vma : ProgramLoader → ℕ → Option ProgramLocation
unfolding resolve_in_binaries
resolve_vma p vma = resolve_in_binaries 0 p.binaries vma

-- `int32_t targetOff` is negative from 2 ^ 31 on.
unfoldable pub resolve_target : ProgramLoader → ProgramLocation → ℕ → Bool → Option ProgramLocation
unfolding resolve_vma advance
resolve_target p pc value is_absolute =
    let relative : Option ProgramLocation = elim (section_at p pc) [
      | none ↦ none
      | some s ↦
          let target = add32 pc.section_offset value in
          if ltb target (2 ^ 31) && ltb target s.length then some (advance pc value) else none
    ] in
    elim (p.get_reference_at_location p.reloctab pc) [
      | some reference ↦ some reference
      | none ↦ if is_absolute then resolve_vma p value else relative
    ]

unfoldable pub resolve_by_name : ProgramLoader → String → Option ProgramLocation
unfolding lookup_by_name
resolve_by_name p name = elim (lookup_by_name p.symtab name) [
  | none ↦ none
  | some s ↦ some s.location
]

unfoldable pub find_binary_from : ℕ → List Binary → String → Option ℕ
find_binary_from i [] name = none
find_binary_from i (b ∷ bs) name =
    if str_eq b.name name then some i else find_binary_from (suc i) bs name

unfoldable pub find_binary_idx_by_name : ProgramLoader → String → Option ℕ
unfolding find_binary_from
find_binary_idx_by_name p name = find_binary_from 0 p.binaries name

-- What the analyses use of the loader.
abbrev pub loader_of : ProgramLoader → Loader
loader_of p = record {
  get_buffer_at_location = get_buffer_at_location p;
  resolve_target = resolve_target p;
  lookup_by_insn_loc = lookup_by_insn_loc p.reloctab;
}
