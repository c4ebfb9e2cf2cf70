-- ===== src/Loading/Nin.antt =====
-- src/program_loader/{DolSection,Dol,RelSection,Rel,NinProgramLoader}.cpp. What the reader ninutils
-- gives for a file is a parameter; so is the choice of the reader, which the source makes by the
-- extension of the file's name.
pub mod Branches
pub mod References
pub mod Examples
use Prim.Native.String.{String, slice, ◌++◌ as str_append}
use ppc2cpp.Prelude.{
  ℕ, zero, suc, ◌+◌, ◌*◌, ◌/◌, ◌%◌, ◌^◌, Bool, true, false, not, ◌&&◌, ◌||◌, Option, none, some,
  List, [], ◌∷◌, ◌++◌, if◌then◌else◌, ◌==◌, ltb, leb, map, modify, length, get_elem?, add32, sub32,
  u32_mod,
}
use ppc2cpp.Common.Endian.{Endian}
use ppc2cpp.Common.Insn.{is_branch_unconditional, branch_value}
use ppc2cpp.Model.Location.{ProgramLocation, eq_binary}
use ppc2cpp.Model.Symbol.{Relocation}
use ppc2cpp.Model.Index.{find, build, element_at}
use ppc2cpp.Model.SymbolTable
use ppc2cpp.Model.RelocationTable
use ppc2cpp.Model.RelocationTable.{RelocationTable}
use ppc2cpp.Program.{Buffer, Outcome, ok, err, runtime_error, out_of_fuel, ◌>>=◌, value, word_at}
use ppc2cpp.Loading.{
  SectionType, type_noload, type_text, type_data, type_bss, eq_section_type, BinarySection, Binary,
  ProgramLoader, resolve_in_binaries, find_section_by_offset,
}

-- `ninutils::DolSection` and `ninutils::Dol`
pub record DolHeader : Type 0 where
  pub name : String
  pub offset : ℕ
  pub length : ℕ
  pub address : ℕ
  pub is_text : Bool
  pub is_bss : Bool

pub record DolFile : Type 0 where
  pub filename : String
  pub contents : Buffer
  pub secs : List DolHeader

-- `ninutils::RelSection`, `ninutils::RelReloc` and `ninutils::Rel`
pub record RelHeader : Type 0 where
  pub name : String
  pub offset : ℕ
  pub length : ℕ
  pub exec : Bool
  pub is_bss : Bool

pub record RelReloc : Type 0 where
  pub section_idx : ℕ
  pub offset : ℕ
  pub src_module_id : ℕ
  pub src_section_idx : ℕ
  pub src_offset : ℕ

pub record RelFile : Type 0 where
  pub filename : String
  pub id : ℕ
  pub load_addr : ℕ
  pub bss_load_addr : ℕ
  pub contents : Buffer
  pub secs_raw : List RelHeader
  pub rels : List RelReloc

-- The bytes of the file from the offset in the section on, if it is inside.
abbrev pub buffer_inside : Buffer → ℕ → ℕ → ℕ → Option Buffer
buffer_inside contents start length offset =
    if ltb offset length then some (λ k. contents (start + offset + k)) else none

unfoldable pub dol_section : DolFile → DolHeader → BinarySection
dol_section dol s = record {
  name = s.name;
  offset = s.offset;
  length = s.length;
  section_type = if s.is_text then type_text else if s.is_bss then type_bss else type_data;
  get_address = some s.address;
  get_buffer_at_offset = buffer_inside dol.contents s.offset s.length;
  get_buffer_at_address = λ vma. buffer_inside dol.contents s.offset s.length (sub32 vma s.address);
}

-- The members of a `RelSection`.
pub record RelSection : Type 0 where
  pub name : String
  pub offset : ℕ
  pub length : ℕ
  pub section_type : SectionType
  pub load_address : ℕ

unfoldable pub set_section_load_info : ℕ → ℕ → RelSection → RelSection
set_section_load_info rel_load_addr bss_load_addr s = record s {
  load_address =
      if eq_section_type s.section_type type_bss
      then bss_load_addr
      else add32 rel_load_addr s.offset;
}

unfoldable pub new_rel_section : RelFile → RelHeader → RelSection
unfolding set_section_load_info
new_rel_section rel s = set_section_load_info rel.load_addr rel.bss_load_addr (record {
  name = s.name;
  offset = s.offset;
  length = s.length;
  section_type =
      if s.length == 0
      then type_noload
      else if s.exec
      then type_text
      else if s.is_bss
      then type_bss
      else type_data;
  load_address = 0;
})

-- The virtual functions of a `RelSection`; a load address of 0 is none.
unfoldable pub rel_section : RelFile → RelSection → BinarySection
rel_section rel s =
    let at_offset = buffer_inside rel.contents s.offset s.length in
    record {
      name = s.name;
      offset = s.offset;
      length = s.length;
      section_type = s.section_type;
      get_address = if s.load_address == 0 then none else some s.load_address;
      get_buffer_at_offset = at_offset;
      get_buffer_at_address =
          λ vma. if s.load_address == 0 then none else at_offset (sub32 vma s.load_address);
    }

-- `std::to_string` of a number of at most three digits
unfoldable pub to_string : ℕ → String
to_string n =
    let digit : ℕ → String = λ d. slice "0123456789" d (d + 1) in
    if ltb n 10
    then digit n
    else if ltb n 100
    then str_append (digit (n / 10)) (digit (n % 10))
    else str_append (digit (n / 100)) (str_append (digit (n / 10 % 10)) (digit (n % 10)))

abbrev pub count_type : SectionType → List RelSection → ℕ
count_type t [] = 0
count_type t (s ∷ ss) = (if eq_section_type s.section_type t then 1 else 0) + count_type t ss

abbrev pub base_name : SectionType → String
base_name type_text = ".text"
base_name type_bss = ".bss"
base_name type_data = ".data"
base_name type_noload = ""

-- `genSectionName` for the last section, behind the sections `before`.
unfoldable pub gen_section_name : List RelSection → RelSection → String
unfolding to_string
gen_section_name before s =
    let similar = count_type s.section_type before in
    if eq_section_type s.section_type type_noload
    then ""
    else if similar == 0
    then base_name s.section_type
    else str_append (base_name s.section_type) (to_string (similar + 1))

-- The loop of the constructor of `Rel`. The index that `genSectionName` takes and the counter of its
-- loop have 8 bits: behind 255 sections the loop does not end, but that a section without a type is
-- named before it; and behind 256 the section that is named is not the new one.
unfoldable pub rel_sections : RelFile → List RelSection → List RelHeader → Outcome (List RelSection)
unfolding new_rel_section gen_section_name
rel_sections rel before [] = ok before
rel_sections rel before (h ∷ hs) =
    let sections = before ++ new_rel_section rel h ∷ [] in
    let sec = length before % 2 ^ 8 in
    value (get_elem? sections sec) >>= λ s.
    let named = modify sections sec (λ x. record x { name = gen_section_name before s }) in
    let rest = rel_sections rel named hs in
    if ltb (length before) 255 || eq_section_type s.section_type type_noload
    then rest
    else err out_of_fuel

-- A binary: what the `dynamic_pointer_cast`s tell apart. A `Rel` has its sections and the table of its
-- relocations, of which the first for a location counts.
pub data NinBinary : Type 0 where
  dol : DolFile → NinBinary
  rel : RelFile → List RelSection → NinBinary

abbrev pub binary_of : NinBinary → Binary
unfolding dol_section rel_section
binary_of (dol d) = record { name = d.filename; sections = map (dol_section d) d.secs }
binary_of (rel r ss) = record { name = r.filename; sections = map (rel_section r) ss }

unfoldable pub set_load_info : ℕ → ℕ → NinBinary → NinBinary
unfolding set_section_load_info
set_load_info rel_load_addr bss_load_addr (dol d) = dol d
set_load_info rel_load_addr bss_load_addr (rel r ss) =
    rel r (map (set_section_load_info rel_load_addr bss_load_addr) ss)

-- A `BinaryLocation`, in no binary in particular.
abbrev pub place : ℕ → ℕ → ProgramLocation
place section offset = record { binary_idx = 0; section_idx = section; section_offset = offset }

abbrev pub reloc_key : RelReloc → ProgramLocation
reloc_key r = place r.section_idx r.offset

unfoldable pub get_reloc_at_location : RelFile → ProgramLocation → Option RelReloc
unfolding find build eq_binary
get_reloc_at_location r loc =
    element_at r.rels (find eq_binary loc (build eq_binary (λ _. true) reloc_key 0 r.rels []))

abbrev pub is_module : ℕ → NinBinary → Bool
is_module id (rel r ss) = r.id == id
is_module id (dol d) = id == 0

-- The loop over the binaries, from index i on, with the index that was found before.
unfoldable pub module_from : ℕ → ℕ → List NinBinary → Option ℕ → Option ℕ
module_from id i [] found = found
module_from id i (b ∷ bs) found =
    module_from id (suc i) bs (if is_module id b then some i else found)

unfoldable pub module_id_to_binary_idx : List NinBinary → ℕ → Option ℕ
unfolding module_from
module_id_to_binary_idx bs id = module_from id 0 bs none

unfoldable pub get_reference_at_location :
    List NinBinary → ProgramLocation → Outcome (Option ProgramLocation)
unfolding get_reloc_at_location module_id_to_binary_idx resolve_in_binaries
get_reference_at_location bs loc = value (get_elem? bs loc.binary_idx) >>= λ b. elim b [
  | dol d ↦ ok none
  | rel r ss ↦ elim (get_reloc_at_location r loc) [
    | none ↦ ok none
    | some reloc ↦
        if reloc.src_module_id == 0
        then ok (resolve_in_binaries 0 (map binary_of bs) reloc.src_offset)
        else elim (module_id_to_binary_idx bs reloc.src_module_id) [
          | none ↦ err runtime_error
          | some idx ↦ ok (
              some (record {
                binary_idx = idx;
                section_idx = reloc.src_section_idx;
                section_offset = reloc.src_offset;
              }))
        ]
  ]
]

module _ (host : Endian) (rel24 : ℕ) (binary_idx : ℕ) (b : Binary) where
  -- The relocation for the word at index j of the section, if it is an unconditional branch. The
  -- offset of its target is counted from the start of the file.
  unfoldable pub rel24_reloc : ℕ → BinarySection → Buffer → ℕ → Option Relocation
  unfolding word_at is_branch_unconditional branch_value find_section_by_offset
  rel24_reloc i s buf j =
      let insn = word_at host buf j in
      let target_off = (s.offset + 4 * j + branch_value insn) % u32_mod in
      if is_branch_unconditional insn
      then (elim (find_section_by_offset b target_off) [
        | none ↦ none
        | some section ↦ some (record {
          source = record {
            binary_idx = binary_idx;
            section_idx = i;
            section_offset = 4 * j % u32_mod;
          };
          destination = record {
            binary_idx = binary_idx;
            section_idx = section;
            section_offset = target_off;
          };
          type = rel24;
          addend = 0;
        })
      ])
      else none

  unfoldable pub register_words :
      ℕ → BinarySection → Buffer → ℕ → ℕ → RelocationTable → RelocationTable
  unfolding rel24_reloc RelocationTable.push_back
  register_words i s buf zero j t = t
  register_words i s buf (suc rounds) j t =
      let t' : RelocationTable = elim (rel24_reloc i s buf j) [
        | none ↦ t
        | some r ↦ RelocationTable.push_back t r
      ] in
      register_words i s buf rounds (j + 1) t'

  unfoldable pub register_sections :
      ℕ → List BinarySection → RelocationTable → Outcome RelocationTable
  unfolding register_words
  register_sections i [] t = ok t
  register_sections i (s ∷ ss) t =
      (if eq_section_type s.section_type type_text
        then (value (s.get_buffer_at_offset 0) >>= λ buf.
            ok (register_words i s buf (s.length / 4) 0 t))
        else ok t)
      >>= λ t'. register_sections (suc i) ss t'

unfoldable pub register_rel24_relocs :
    Endian → ℕ → ℕ → NinBinary → RelocationTable → Outcome RelocationTable
unfolding register_sections
register_rel24_relocs host rel24 i b t =
    register_sections host rel24 i (binary_of b) 0 (binary_of b).sections t

-- The files, each with the reader that its extension chooses.
pub data NinFile : Type 0 where
  dol_file : DolFile → NinFile
  rel_file : RelFile → NinFile

unfoldable pub load_binaries : List NinFile → Outcome (List NinBinary)
unfolding rel_sections
load_binaries [] = ok []
load_binaries (dol_file d ∷ fs) = load_binaries fs >>= λ bs. ok (dol d ∷ bs)
load_binaries (rel_file r ∷ fs) =
    rel_sections r [] r.secs_raw >>= λ ss. load_binaries fs >>= λ bs. ok (rel r ss ∷ bs)

unfoldable pub register_all :
    Endian → ℕ → ℕ → List NinBinary → RelocationTable → Outcome RelocationTable
unfolding register_rel24_relocs
register_all host rel24 i [] t = ok t
register_all host rel24 i (dol d ∷ bs) t = register_all host rel24 (suc i) bs t
register_all host rel24 i (rel r ss ∷ bs) t =
    register_rel24_relocs host rel24 i (rel r ss) t >>= λ t'. register_all host rel24 (suc i) bs t'

-- The constructor of `NinProgramLoader`: the binaries and the relocations.
unfoldable pub load_nin : Endian → ℕ → List NinFile → Outcome (List NinBinary × RelocationTable)
unfolding load_binaries register_all
load_nin host rel24 files = load_binaries files >>= λ bs.
    register_all host rel24 0 bs RelocationTable.empty >>= λ t. ok (bs, t)
