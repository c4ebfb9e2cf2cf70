-- ===== src/Loading/Project/Elf.antt =====
-- The references of a project that is opened anew, for a program of ELF files: `getReferenceAtLocation`
-- of src/program_loader/ElfProgramLoader.cpp on the tables of `fromProto`.
use Prim.Native.String.{String}
use ppc2cpp.Prelude.{
  refl, ℕ, ◌≡◌, ◌∙◌, sym, ap, Bool, Option, none, some, List, ◌∷◌, map, Option-cases, inl, inr,
}
use ppc2cpp.Model.Location.{ProgramLocation, eq_binary}
use ppc2cpp.Model.Symbol.{Relocation}
use ppc2cpp.Model.Index.{first_match, or_else}
use ppc2cpp.Model.SymbolTable.{construct_name_index, construct_location_index}
use ppc2cpp.Model.RelocationTable.{RelocationTable, lookup_by_source}
use ppc2cpp.Model.Persistence.{HasByteTypes}
use ppc2cpp.Program.{ok, bind-eq-ok}
use ppc2cpp.Loading.Elf.Symbols.{ok-eq}
use ppc2cpp.Loading.{ProgramLoader, resolve_target}
use ppc2cpp.Loading.Elf.{
  ElfConstants, ElfFile, no_program, load_binaries, load_relocations, load_elf, elf_reference,
}
use ppc2cpp.Loading.Project.{
  Versions, ProjectProto, SavedLoader, LoadProgram, Project, save_project, open_project,
  open_project-save_project,
}

load_elf-reference :
    (c : ElfConstants) (elfs : List ElfFile) (p : ProgramLoader)
    → load_elf c elfs ≡ ok p
    → p.get_reference_at_location ≡ elf_reference
unfolding load_elf
load_elf-reference c elfs p e =
    let (q, run, e1) = bind-eq-ok (load_binaries c 0 elfs no_program) _ e in
    let q' : ProgramLoader = record q {
      symtab = construct_location_index (construct_name_index q.symtab);
    } in
    let (t, run_r, e2) = bind-eq-ok (load_relocations c 0 elfs q' q'.reloctab) _ e1 in
    sym (ap (λ (r : ProgramLoader). r.get_reference_at_location) (ok-eq _ p e2))

-- The destination of the first relocation of the list at a place.
abbrev pub destination_at : List Relocation → ProgramLocation → Option ProgramLocation
destination_at relocs pc = elim (first_match (λ r. eq_binary r.source pc) relocs) [
  | none ↦ none
  | some r ↦ some r.destination
]

-- The target where the program has no reference.
abbrev pub unrelocated : ProgramLoader → ProgramLocation → ℕ → Bool → Option ProgramLocation
unrelocated p pc value is_absolute =
    resolve_target (record p { get_reference_at_location = λ _ _. none }) pc value is_absolute

resolve_target-reference :
    (p : ProgramLoader) (relocs : List Relocation) (pc : ProgramLocation) (value : ℕ)
    (is_absolute : Bool)
    → p.get_reference_at_location ≡ elf_reference
    → lookup_by_source p.reloctab pc ≡ first_match (λ r. eq_binary r.source pc) relocs
    → resolve_target p pc value is_absolute
      ≡ or_else (destination_at relocs pc) (unrelocated p pc value is_absolute)
unfolding resolve_target elf_reference
resolve_target-reference p relocs pc value is_absolute r l =
    let by_class : p.get_reference_at_location p.reloctab pc ≡ elf_reference p.reloctab pc =
      ap (λ (f : RelocationTable → ProgramLocation → Option ProgramLocation). f p.reloctab pc) r in
    elim (Option-cases (first_match (λ r. eq_binary r.source pc) relocs)) [
      | inl n ↦
          let none_there : p.get_reference_at_location p.reloctab pc ≡ none =
            by_class ∙ (let found = l ∙ n in rw (found, elf_reference) refl) in
          let nowhere : destination_at relocs pc ≡ none = rw (n, destination_at) refl in
          rw (nowhere, or_else, none_there, resolve_target) refl
      | inr (x, s) ↦
          let there : p.get_reference_at_location p.reloctab pc ≡ some x.destination =
            by_class ∙ (let found = l ∙ s in rw (found, elf_reference) refl) in
          let to : destination_at relocs pc ≡ some x.destination = rw (s, destination_at) refl in
          rw (to, or_else, there, resolve_target) refl
    ]

-- A project whose program was saved with at least one relocation is opened from a file in which its
-- message is read, with a program that is loaded anew from ELF files. Then the target of an
-- instruction is the destination of the first relocation at its place among those that were saved,
-- also where the files give another one; if there is none, it is the one that the address or the
-- displacement gives.
pub open_project-resolve_target :
    (v : Versions) (read : String → Option ProjectProto) (load : LoadProgram) (p : Project)
    (file : String) (c : ElfConstants) (elfs : List ElfFile) (fresh : SavedLoader) (r : Relocation)
    (rs : List Relocation)
    → read file ≡ some (save_project v p)
    → load v.loader p.loader.loader_type (map (λ b. b.file_path) p.loader.files) ≡ ok fresh
    → load_elf c elfs ≡ ok fresh.program
    → HasByteTypes p.loader.program.reloctab
    → p.loader.program.reloctab.relocs ≡ r ∷ rs
    → (opened : Project) × (open_project read load file ≡ ok opened)
      × ((pc : ProgramLocation) (value : ℕ) (is_absolute : Bool)
          → resolve_target opened.loader.program pc value is_absolute
            ≡ or_else
                (destination_at p.loader.program.reloctab.relocs pc)
                (unrelocated opened.loader.program pc value is_absolute))
open_project-resolve_target v read load p file c elfs fresh r rs was_read loaded elf bytes
      some_reloc =
    let (opened, is, _, _, same_class, _, restored) =
      open_project-save_project v read load p file fresh was_read loaded bytes in
    let by_class = same_class ∙ load_elf-reference c elfs fresh.program elf in
    (
      opened,
      is,
      λ pc value is_absolute. elim restored [
        | inl (empty, _) ↦ absurd (cc)
        | inr (_, by_source, _) ↦
            resolve_target-reference opened.loader.program p.loader.program.reloctab.relocs pc value
              is_absolute by_class (by_source pc)
      ],
    )
