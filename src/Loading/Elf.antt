-- ===== src/Loading/Elf.antt =====
-- src/program_loader/{ElfSection,ElfBinary,ElfProgramLoader}.cpp. What the reader ELFIO gives for a
-- file, and the constants of the format, are parameters. An index that is out of range, which is
-- undefined in the source, is a fault.
pub mod Symbols
pub mod Relocations
pub mod Examples
use Prim.Native.String.{String}
use ppc2cpp.Prelude.{
  ℕ, zero, suc, ◌+◌, ◌%◌, ◌^◌, Bool, true, false, not, ◌&&◌, ◌||◌, Option, none, some, List, [],
  ◌∷◌, ◌++◌, if◌then◌else◌, ◌==◌, ltb, map, get_elem?, sub32, u32_mod,
}
use ppc2cpp.Model.Location.{ProgramLocation}
use ppc2cpp.Model.Symbol.{Symbol, Relocation}
use ppc2cpp.Model.SymbolTable.{SymbolTable, construct_name_index, construct_location_index}
use ppc2cpp.Model.SymbolTable
use ppc2cpp.Model.RelocationTable.{RelocationTable, construct_source_index, lookup_by_source}
use ppc2cpp.Model.RelocationTable
use ppc2cpp.Program.{Buffer, Outcome, ok, err, runtime_error, assertion_failed, ◌>>=◌, value}
use ppc2cpp.Loading.{
  SectionType, type_noload, type_text, type_data, type_bss, BinarySection, Binary, ProgramLoader,
  resolve_vma, resolve_by_name,
}

pub record ElfConstants : Type 0 where
  pub et_rel : ℕ
  pub pt_load : ℕ
  pub sht_symtab : ℕ
  pub sht_rela : ℕ
  pub sht_nobits : ℕ
  pub shn_undef : ℕ
  pub shn_abs : ℕ
  pub shn_loreserve : ℕ
  pub stt_notype : ℕ
  pub stt_object : ℕ
  pub stt_func : ℕ

pub record SymbolEntry : Type 0 where
  pub name : String
  pub value : ℕ
  pub size : ℕ
  pub bind : ℕ
  pub type : ℕ
  pub section_index : ℕ

pub record RelocationEntry : Type 0 where
  pub offset : ℕ
  pub symbol_idx : ℕ
  pub type : ℕ
  pub addend : ℕ

-- A section of the file, with what the accessors for symbols and relocations read from it. The flags
-- are those of SHF_ALLOC and SHF_EXECINSTR.
pub record FileSection : Type 0 where
  pub name : String
  pub type : ℕ
  pub offset : ℕ
  pub size : ℕ
  pub address : ℕ
  pub alloc : Bool
  pub execinstr : Bool
  pub info : ℕ
  pub link : ℕ
  pub contents : Buffer
  pub symbols : List SymbolEntry
  pub entries : List RelocationEntry

pub record FileSegment : Type 0 where
  pub type : ℕ
  pub offset : ℕ
  pub memory_size : ℕ
  pub virtual_address : ℕ
  pub contents : Buffer

pub record ElfFile : Type 0 where
  pub filename : String
  pub type : ℕ
  pub sections : List FileSection
  pub segments : List FileSegment

-- The virtual functions of an `ElfSection` with these members.
abbrev pub elf_section_of : String → ℕ → ℕ → ℕ → Buffer → SectionType → BinarySection
elf_section_of name offset length address contents type =
    let at_offset : ℕ → Option Buffer =
      λ o. if ltb o length then some (λ k. contents (o + k)) else none in
    record {
      name = name;
      offset = offset;
      length = length;
      section_type = type;
      get_address = if address == 0 then none else some address;
      get_buffer_at_offset = at_offset;
      get_buffer_at_address = λ vma. at_offset (sub32 vma address);
    }

-- The type of a section that is loaded.
abbrev pub loaded_type : ElfConstants → FileSection → SectionType
loaded_type c s =
    if s.type == c.sht_nobits then type_bss else if s.execinstr then type_text else type_data

unfoldable pub section_from_section : ElfConstants → FileSection → BinarySection
section_from_section c s =
    elf_section_of s.name (s.offset % u32_mod) (s.size % u32_mod) (s.address % u32_mod) s.contents
      (if s.alloc then loaded_type c s else type_noload)

unfoldable pub find_file_section : List FileSection → ℕ → Option FileSection
find_file_section [] offset = none
find_file_section (s ∷ ss) offset =
    if s.offset == offset then some s else find_file_section ss offset

unfoldable pub section_from_segment : ElfConstants → ElfFile → FileSegment → Outcome BinarySection
unfolding find_file_section
section_from_segment c elf g = elim (find_file_section elf.sections (g.offset % u32_mod)) [
  | none ↦ err runtime_error
  | some s ↦ ok (
      elf_section_of s.name (g.offset % u32_mod) (g.memory_size % u32_mod)
        (g.virtual_address % u32_mod) g.contents
        (if g.type == c.pt_load then loaded_type c s else type_noload))
]

unfoldable pub sections_from_segments :
    ElfConstants → ElfFile → List FileSegment → Outcome (List BinarySection)
unfolding section_from_segment
sections_from_segments c elf [] = ok []
sections_from_segments c elf (g ∷ gs) =
    section_from_segment c elf g >>= λ s. sections_from_segments c elf gs >>= λ ss. ok (s ∷ ss)

-- The sections of the binary: the segments of the file, or its sections if it has no segments.
unfoldable pub elf_binary : ElfConstants → ElfFile → Outcome Binary
unfolding sections_from_segments section_from_section
elf_binary c elf =
    let from : List FileSegment → Outcome (List BinarySection) = λ gs. elim gs [
      | [] ↦ ok (map (section_from_section c) elf.sections)
      | g ∷ gs' ↦ sections_from_segments c elf (g ∷ gs')
    ] in
    from elf.segments >>= λ ss. ok (record { name = elf.filename; sections = ss })

-- The symbols that are registered.
unfoldable pub is_registered : ElfConstants → SymbolEntry → Bool
is_registered c s =
    not (s.section_index == c.shn_undef)
    && (s.section_index == c.shn_abs || ltb s.section_index c.shn_loreserve)
    && (s.type == c.stt_object || s.type == c.stt_func || s.type == c.stt_notype)

abbrev pub symbol_of : SymbolEntry → ProgramLocation → Symbol
symbol_of s loc = record {
  name = s.name;
  location = loc;
  size = s.size % u32_mod;
  symbol_type = s.type;
  symbol_binding = s.bind;
}

module _ (c : ElfConstants) (elf : ElfFile) (p : ProgramLoader) (binary_idx : ℕ) where
  -- `interpretSymValueAsAddr`
  abbrev pub as_address : Bool
  as_address = not (elf.type == c.et_rel)

  unfoldable pub get_elf_symbol_location : ℕ → ℕ → Outcome ProgramLocation
  unfolding resolve_vma
  get_elf_symbol_location section_index value =
      if as_address || section_index == c.shn_abs
      then elim (resolve_vma p (value % u32_mod)) [
        | none ↦ err assertion_failed
        | some loc ↦ ok loc
      ]
      else ok (record {
        binary_idx = binary_idx;
        section_idx = section_index;
        section_offset = value % u32_mod;
      })

  unfoldable pub add_symbols : List SymbolEntry → SymbolTable → Outcome SymbolTable
  unfolding is_registered get_elf_symbol_location SymbolTable.push_back
  add_symbols [] t = ok t
  add_symbols (s ∷ ss) t =
      (if is_registered c s
        then (get_elf_symbol_location s.section_index s.value >>= λ loc.
            ok (SymbolTable.push_back t (symbol_of s loc)))
        else ok t)
      >>= λ t'. add_symbols ss t'

  -- The loop over the sections.
  unfoldable pub register_symbols : List FileSection → SymbolTable → Outcome SymbolTable
  unfolding add_symbols
  register_symbols [] t = ok t
  register_symbols (s ∷ ss) t =
      (if s.type == c.sht_symtab then add_symbols s.symbols t else ok t) >>= λ t'.
      register_symbols ss t'

  -- A symbol of another file is looked up by its name; one that is nowhere has the first location.
  unfoldable pub get_elf_reloc_dest : List SymbolEntry → ℕ → Outcome ProgramLocation
  unfolding get_elf_symbol_location resolve_by_name
  get_elf_reloc_dest symbols symbol_idx = value (get_elem? symbols symbol_idx) >>= λ s.
      if s.section_index == c.shn_undef
      then (elim (resolve_by_name p s.name) [
        | none ↦ ok (record { binary_idx = 0; section_idx = 0; section_offset = 0 })
        | some loc ↦ ok loc
      ])
      else get_elf_symbol_location s.section_index s.value

  abbrev pub relocation_of : FileSection → RelocationEntry → ProgramLocation → Relocation
  relocation_of section r dest = record {
    source = record {
      binary_idx = binary_idx;
      section_idx = section.info;
      section_offset = r.offset % u32_mod;
    };
    destination = dest;
    type = r.type % 2 ^ 8;
    addend = r.addend % u32_mod;
  }

  unfoldable pub add_relocations :
      FileSection
      → List SymbolEntry
      → List RelocationEntry
      → RelocationTable
      → Outcome RelocationTable
  unfolding get_elf_reloc_dest RelocationTable.push_back
  add_relocations section symbols [] t = ok t
  add_relocations section symbols (r ∷ rs) t = get_elf_reloc_dest symbols r.symbol_idx >>= λ dest.
      add_relocations section symbols rs
        (RelocationTable.push_back t (relocation_of section r dest))

  unfoldable pub register_relocations : List FileSection → RelocationTable → Outcome RelocationTable
  unfolding add_relocations
  register_relocations [] t = ok t
  register_relocations (s ∷ ss) t =
      (if s.type == c.sht_rela
        then (value (get_elem? elf.sections s.link) >>= λ symtab.
            add_relocations s symtab.symbols s.entries t)
        else ok t)
      >>= λ t'. register_relocations ss t'

-- `ElfProgramLoader::getReferenceAtLocation`
unfoldable pub elf_reference : RelocationTable → ProgramLocation → Option ProgramLocation
unfolding lookup_by_source
elf_reference t loc = elim (lookup_by_source t loc) [ none ↦ none | some r ↦ some r.destination ]

unfoldable pub load_binaries :
    ElfConstants → ℕ → List ElfFile → ProgramLoader → Outcome ProgramLoader
unfolding elf_binary register_symbols
load_binaries c i [] p = ok p
load_binaries c i (elf ∷ elfs) p = elf_binary c elf >>= λ b.
    let p' = record p { binaries = p.binaries ++ b ∷ [] } in
    register_symbols c elf p' i elf.sections p'.symtab >>= λ t.
    load_binaries c (suc i) elfs (record p' { symtab = t })

unfoldable pub load_relocations :
    ElfConstants → ℕ → List ElfFile → ProgramLoader → RelocationTable → Outcome RelocationTable
unfolding register_relocations
load_relocations c i [] p t = ok t
load_relocations c i (elf ∷ elfs) p t =
    register_relocations c elf p i elf.sections t >>= λ t'. load_relocations c (suc i) elfs p t'

-- The loader with nothing in it.
abbrev pub no_program : ProgramLoader
no_program = record {
  binaries = [];
  symtab = SymbolTable.empty;
  reloctab = RelocationTable.empty;
  get_reference_at_location = λ _ _. none;
}

-- The constructor of `ElfProgramLoader`.
unfoldable pub load_elf : ElfConstants → List ElfFile → Outcome ProgramLoader
unfolding load_binaries load_relocations construct_name_index construct_location_index
    construct_source_index elf_reference
load_elf c elfs = load_binaries c 0 elfs no_program >>= λ p.
    let p' = record p { symtab = construct_location_index (construct_name_index p.symtab) } in
    load_relocations c 0 elfs p' p'.reloctab >>= λ t.
    let t' = construct_source_index t in
    ok (record p' { reloctab = t'; get_reference_at_location = elf_reference })
