-- ===== src/Loading/Project.antt =====
-- src/model/Project.cpp, and the persistence of src/program_loader/{ProgramLoader,Binary}.cpp. The
-- messages of proto/*.proto are records. Writing a message to a file and reading it are protobuf's;
-- the reading, and `loadProgram`, which reads the binaries anew, are parameters.
pub mod Elf
pub mod Examples
use Prim.Native.String.{String}
use ppc2cpp.Prelude.{
  ℕ, zero, suc, ◌+◌, ◌<◌, ◌≡◌, ◌∙◌, ◌⊎◌, ◌&&◌, refl, sym, ap, Bool, not, Option, none, some, List,
  [], ◌∷◌, map, length, ltb, if◌then◌else◌, inl, inr, arith, subst, true,
}
use text.Mathlib.Text.{◌==◌ as str_eq}
use ppc2cpp.Model.Location.{ProgramLocation, advance, eq_binary}
use ppc2cpp.Model.Symbol.{Symbol, Relocation}
use ppc2cpp.Model.Index.{first_match, or_else}
use ppc2cpp.Model.SymbolTable.{
  SymbolTable, is_local, lookup_by_name, construct_name_index, construct_location_index,
  lookup_by_name-construct_name_index,
}
use ppc2cpp.Model.SymbolTable
use ppc2cpp.Model.RelocationTable.{
  RelocationTable, lookup_by_insn_loc, construct_source_index,
  lookup_by_insn_loc-construct_source_index, lookup_by_source,
  lookup_by_source-construct_source_index,
}
use ppc2cpp.Model.RelocationTable
use ppc2cpp.Model.Persistence.{
  SymbolProto, RelocationProto, symbol_to_proto, relocation_to_proto, symtab_to_proto,
  symtab_from_proto, reloctab_to_proto, reloctab_from_proto, HasByteTypes,
  symtab_from_proto-symtab_to_proto, reloctab_from_proto-reloctab_to_proto,
}
use ppc2cpp.Program.{Outcome, ok, err, persistence_exception, ◌>>=◌}
use ppc2cpp.Loading.{ProgramLoader}

-- `persistence::ProgramLoaderBinary`, with the path and the data of the file.
pub record BinaryProto : Type 0 where
  pub file_path : String
  pub contents : String

pub record LoaderProto : Type 0 where
  pub format_version : ℕ
  pub loader_type : ℕ
  pub binaries : List BinaryProto
  pub symtab : List SymbolProto
  pub reloctab : List RelocationProto

-- A loader with what it keeps for its persistence: its type, and the path and the data of each binary.
pub record SavedLoader : Type 0 where
  pub loader_type : ℕ
  pub files : List BinaryProto
  pub program : ProgramLoader

-- `PROGRAM_LOADER_PROTO_CURRENT_VERSION` and `PROJECT_PROTO_CURRENT_VERSION`
pub record Versions : Type 0 where
  pub loader : ℕ
  pub project : ℕ

unfoldable pub loader_to_proto : Versions → SavedLoader → LoaderProto
loader_to_proto v l = record {
  format_version = v.loader;
  loader_type = l.loader_type;
  binaries = l.files;
  symtab = symtab_to_proto l.program.symtab;
  reloctab = reloctab_to_proto l.program.reloctab;
}

-- `loadProgram`: for a format version and a type, the program in the files of the paths.
abbrev pub LoadProgram : Type 0
LoadProgram = ℕ → ℕ → List String → Outcome SavedLoader

-- The tables of the message take the place of those that are loaded, unless they are empty.
unfoldable pub loader_from_proto : LoadProgram → LoaderProto → Outcome SavedLoader
unfolding symtab_from_proto reloctab_from_proto
loader_from_proto load m =
    load m.format_version m.loader_type (map (λ b. b.file_path) m.binaries) >>= λ l. ok (record l {
      program = record l.program {
        symtab = if ltb 0 (length m.symtab) then symtab_from_proto m.symtab else l.program.symtab;
        reloctab =
            if ltb 0 (length m.reloctab)
            then reloctab_from_proto m.reloctab
            else l.program.reloctab;
      };
    })

pub record ProjectProto : Type 0 where
  pub format_version : ℕ
  pub project_name : String
  pub project_version : ℕ
  pub program_loader : LoaderProto

pub record Project : Type 0 where
  pub name : String
  pub project_file : String
  pub loader : SavedLoader

-- The message that `saveProjectAs` writes.
unfoldable pub save_project : Versions → Project → ProjectProto
unfolding loader_to_proto
save_project v p = record {
  format_version = v.project;
  project_name = p.name;
  project_version = 1;
  program_loader = loader_to_proto v p.loader;
}

unfoldable pub open_project :
    (String → Option ProjectProto) → LoadProgram → String → Outcome Project
unfolding loader_from_proto
open_project read load file = elim (read file) [
  | none ↦ err persistence_exception
  | some m ↦ loader_from_proto load m.program_loader >>= λ l.
      ok (record { name = m.project_name; project_file = file; loader = l })
]

-- The message that `createProject` writes before it opens the project.
unfoldable pub create_project :
    Versions → LoadProgram → String → ℕ → List String → Outcome ProjectProto
unfolding loader_to_proto
create_project v load name loader_type files = load v.loader loader_type files >>= λ l. ok (record {
  format_version = v.project;
  project_name = name;
  project_version = 1;
  program_loader = loader_to_proto v l;
})

-- A symbol table that was saved, in a program that was loaded with another.
abbrev pub SymbolsRestored : List Symbol → SymbolTable → SymbolTable → Type 0
SymbolsRestored saved loaded new =
    ((saved ≡ []) × (new ≡ loaded))
    ⊎ ((new.symbols ≡ saved)
        × ((name : String)
            → lookup_by_name new name
              ≡ first_match (λ s. not (is_local s) && str_eq s.name name) saved))

abbrev pub RelocationsRestored : List Relocation → RelocationTable → RelocationTable → Type 0
RelocationsRestored saved loaded new =
    ((saved ≡ []) × (new ≡ loaded))
    ⊎ ((new.relocs ≡ saved)
        × ((loc : ProgramLocation)
            → lookup_by_source new loc ≡ first_match (λ r. eq_binary r.source loc) saved)
        × ((loc : ProgramLocation)
            → lookup_by_insn_loc new loc
              ≡ or_else (first_match (λ r. eq_binary r.source loc) saved)
                  (first_match (λ r. eq_binary r.source (advance loc 2)) saved)))

restored_symtab :
    (saved : List Symbol) (loaded : SymbolTable)
    → let ms = map symbol_to_proto saved in
      SymbolsRestored saved loaded (if ltb 0 (length ms) then symtab_from_proto ms else loaded)
unfolding construct_name_index construct_location_index
restored_symtab [] loaded = inl (refl, refl)
restored_symtab (s ∷ ss) loaded =
    let t : SymbolTable = record SymbolTable.empty { symbols = s ∷ ss } in
    let new = construct_name_index (construct_location_index t) in
    let some_symbol : ltb 0 (length (map symbol_to_proto (s ∷ ss))) ≡ true = ground arith in
    let restored : SymbolsRestored (s ∷ ss) loaded new =
      inr (refl, λ name. lookup_by_name-construct_name_index (construct_location_index t) name) in
    rw some_symbol (
      subst (SymbolsRestored (s ∷ ss) loaded) {x = new}
        {y = symtab_from_proto (map symbol_to_proto (s ∷ ss))}
        (sym (symtab_from_proto-symtab_to_proto t)) restored)

restored_reloctab :
    (saved : List Relocation) (loaded : RelocationTable)
    → HasByteTypes (record RelocationTable.empty { relocs = saved })
    → let ms = map relocation_to_proto saved in
      RelocationsRestored saved loaded
        (if ltb 0 (length ms) then reloctab_from_proto ms else loaded)
unfolding construct_source_index
restored_reloctab [] loaded h = inl (refl, refl)
restored_reloctab (r ∷ rs) loaded h =
    let t : RelocationTable = record RelocationTable.empty { relocs = r ∷ rs } in
    let some_relocation : ltb 0 (length (map relocation_to_proto (r ∷ rs))) ≡ true = ground arith in
    let restored : RelocationsRestored (r ∷ rs) loaded (construct_source_index t) = inr (
      refl,
      λ loc. lookup_by_source-construct_source_index t loc,
      λ loc. lookup_by_insn_loc-construct_source_index t loc,
    ) in
    rw some_relocation (
      subst (RelocationsRestored (r ∷ rs) loaded) {x = construct_source_index t}
        {y = reloctab_from_proto (map relocation_to_proto (r ∷ rs))}
        (sym (reloctab_from_proto-reloctab_to_proto t h)) restored)

-- A project is opened from a file in which its message is read, where the program is loaded anew from
-- the paths of its binaries, and the types of its relocations are bytes. It has the name and the
-- binaries. If the program that was saved had symbols, then its symbols are restored, and a lookup by
-- name finds the first that is not local and has the name; otherwise the symbols are those that are
-- loaded. If it had relocations, these are restored, the lookup by source finds the first at the place,
-- and that for an instruction the first at it or else at its latter half; otherwise they are those that
-- are loaded. What the class of the loader does to find a reference is that of the
-- program that is loaded anew.
pub open_project-save_project :
    (v : Versions) (read : String → Option ProjectProto) (load : LoadProgram) (p : Project)
    (file : String) (fresh : SavedLoader)
    → read file ≡ some (save_project v p)
    → load v.loader p.loader.loader_type (map (λ b. b.file_path) p.loader.files) ≡ ok fresh
    → HasByteTypes p.loader.program.reloctab
    → (opened : Project) × (open_project read load file ≡ ok opened)
      × (opened.name ≡ p.name)
      × (opened.loader.program.binaries ≡ fresh.program.binaries)
      × (opened.loader.program.get_reference_at_location ≡ fresh.program.get_reference_at_location)
      × SymbolsRestored p.loader.program.symtab.symbols fresh.program.symtab
          opened.loader.program.symtab
      × RelocationsRestored p.loader.program.reloctab.relocs fresh.program.reloctab
          opened.loader.program.reloctab
unfolding open_project save_project loader_to_proto loader_from_proto
open_project-save_project v read load p file fresh was_read loaded bytes =
    let symbols = symtab_to_proto p.loader.program.symtab in
    let relocs = reloctab_to_proto p.loader.program.reloctab in
    let opened : Project = record {
      name = p.name;
      project_file = file;
      loader = record fresh {
        program = record fresh.program {
          symtab =
              if ltb 0 (length symbols) then symtab_from_proto symbols else fresh.program.symtab;
          reloctab =
              if ltb 0 (length relocs) then reloctab_from_proto relocs else fresh.program.reloctab;
        };
      };
    } in
    (
      opened,
      rw (was_read, loaded, ◌>>=◌, open_project) refl,
      refl,
      refl,
      refl,
      restored_symtab p.loader.program.symtab.symbols fresh.program.symtab,
      restored_reloctab p.loader.program.reloctab.relocs fresh.program.reloctab bytes,
    )
