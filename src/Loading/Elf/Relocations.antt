-- ===== src/Loading/Elf/Relocations.antt =====
-- The relocations that src/program_loader/ElfProgramLoader.cpp registers, and how it links them.
use Prim.Native.String.{String}
use text.Mathlib.Text.{◌==◌ as str_eq}
use ppc2cpp.Prelude.{
  ℕ, suc, ◌%◌, ◌^◌, ◌≡◌, ◌≢◌, ◌∙◌, ◌⊎◌, refl, sym, ap, not, ◌&&◌, none, some, List, [], ◌∷◌, ◌++◌,
  if◌then◌else◌, ◌==◌, arith, u32_mod, Each, Each-append, Each-map, append-nil, append_assoc,
  Bool-cases, Option-cases, inl, inr, get_elem?,
}
use ppc2cpp.Model.Location.{ProgramLocation}
use ppc2cpp.Model.Symbol.{Symbol, Relocation}
use ppc2cpp.Model.Index.{first_match}
use ppc2cpp.Model.SymbolTable.{
  SymbolTable, is_local, construct_name_index, construct_location_index, lookup_by_name,
  lookup_by_name-construct_name_index,
}
use ppc2cpp.Model.RelocationTable.{RelocationTable, construct_source_index}
use ppc2cpp.Model.RelocationTable
use ppc2cpp.Program.{Outcome, ok, err, bad_optional_access, ◌>>=◌, bind-eq-ok, value, value-eq-ok}
use ppc2cpp.Loading.{ProgramLoader, resolve_by_name}
use ppc2cpp.Loading.Elf.{
  ElfConstants, SymbolEntry, RelocationEntry, FileSection, ElfFile, get_elf_symbol_location,
  get_elf_reloc_dest, relocation_of, add_relocations, register_relocations, load_binaries,
  load_relocations, no_program, load_elf,
}
use ppc2cpp.Loading.Elf.Symbols.{ok-eq, get_elf_symbol_location-append, load_binaries-Loads}

-- A relocation of a section of the file that becomes the binary of the index.
pub record RelocationAt : Type 0 where
  pub binary_idx : ℕ
  pub elf : ElfFile
  pub section : FileSection
  pub entry : RelocationEntry

abbrev pub relocations_of : ℕ → ElfFile → FileSection → List RelocationEntry → List RelocationAt
relocations_of i elf s [] = []
relocations_of i elf s (r ∷ rs) =
    record { binary_idx = i; elf = elf; section = s; entry = r } ∷ relocations_of i elf s rs

abbrev pub relocations_in : ElfConstants → ℕ → ElfFile → List FileSection → List RelocationAt
relocations_in c i elf [] = []
relocations_in c i elf (s ∷ ss) =
    (if s.type == c.sht_rela then relocations_of i elf s s.entries else [])
    ++ relocations_in c i elf ss

-- The relocations of all files, in order.
abbrev pub all_relocations : ElfConstants → ℕ → List ElfFile → List RelocationAt
all_relocations c i [] = []
all_relocations c i (elf ∷ elfs) =
    relocations_in c i elf elf.sections ++ all_relocations c (suc i) elfs

-- The location of the first symbol that is not local and has the name, or the first of all locations.
abbrev pub location_named : List Symbol → String → ProgramLocation
location_named symbols name =
    elim (first_match (λ s. not (is_local s) && str_eq s.name name) symbols) [
      | none ↦ record { binary_idx = 0; section_idx = 0; section_offset = 0 }
      | some s ↦ s.location
    ]

-- A symbol entry refers to the location: one that its own file does not define by its name, among the
-- symbols of all files, any other by its section and value.
abbrev pub RefersTo :
    ElfConstants → ProgramLoader → RelocationAt → SymbolEntry → ProgramLocation → Type 0
RefersTo c p x s loc =
    ((s.section_index ≡ c.shn_undef) × (loc ≡ location_named p.symtab.symbols s.name))
    ⊎ ((s.section_index ≢ c.shn_undef)
        × (get_elf_symbol_location c x.elf p x.binary_idx s.section_index s.value ≡ ok loc))

-- The relocation is that of the entry, and leads to what the entry's symbol refers to.
pub record Links (c : ElfConstants) (p : ProgramLoader) (x : RelocationAt) (r : Relocation)
    : Type 0 where
  pub binary_idx : r.source.binary_idx ≡ x.binary_idx
  pub section_idx : r.source.section_idx ≡ x.section.info
  pub offset : r.source.section_offset ≡ x.entry.offset % u32_mod
  pub type : r.type ≡ x.entry.type % 2 ^ 8
  pub addend : r.addend ≡ x.entry.addend % u32_mod
  pub table : FileSection
  pub table_at : get_elem? x.elf.sections x.section.link ≡ some table
  pub symbol : SymbolEntry
  pub symbol_at : get_elem? table.symbols x.entry.symbol_idx ≡ some symbol
  pub refers : RefersTo c p x symbol r.destination

Links-same :
    (c : ElfConstants) (p p' : ProgramLoader) (x : RelocationAt) (r : Relocation)
    → p'.binaries ≡ p.binaries
    → p'.symtab ≡ p.symtab
    → Links c p x r
    → Links c p' x r
Links-same c p p' x r binaries symtab h = record {
  binary_idx = h.binary_idx;
  section_idx = h.section_idx;
  offset = h.offset;
  type = h.type;
  addend = h.addend;
  table = h.table;
  table_at = h.table_at;
  symbol = h.symbol;
  symbol_at = h.symbol_at;
  refers = elim h.refers [
    | inl (u, at) ↦
        inl (u, at ∙ ap (λ (t : SymbolTable). location_named t.symbols h.symbol.name) (sym symtab))
    | inr (d, at) ↦ inr (
      d,
      get_elf_symbol_location-append c x.elf p p' [] x.binary_idx h.symbol.section_index
          h.symbol.value r.destination (binaries ∙ sym (append-nil p.binaries)) at,
    )
  ];
}

abbrev pub extended : RelocationTable → List Relocation → RelocationTable
extended t new = record t { relocs = t.relocs ++ new }

extended-nil : (t : RelocationTable) → t ≡ extended t []
extended-nil t = ap (λ (rs : List Relocation). record t { relocs = rs }) (sym (append-nil t.relocs))

extended-extended :
    (t : RelocationTable) (a b : List Relocation) → extended (extended t a) b ≡ extended t (a ++ b)
extended-extended t a b =
    ap (λ (rs : List Relocation). record t { relocs = rs }) (append_assoc t.relocs a b)

module _ (c : ElfConstants) (p : ProgramLoader) (t0 : SymbolTable)
    (indexed : p.symtab ≡ construct_location_index (construct_name_index t0)) where
  lookup_by_name-first :
      (name : String)
      → lookup_by_name p.symtab name
        ≡ first_match (λ s. not (is_local s) && str_eq s.name name) p.symtab.symbols
  unfolding lookup_by_name construct_location_index construct_name_index
  lookup_by_name-first name =
      ap (λ (t : SymbolTable). lookup_by_name t name) indexed
      ∙ lookup_by_name-construct_name_index t0 name
      ∙ ap
          (λ (t : SymbolTable). first_match (λ s. not (is_local s) && str_eq s.name name) t.symbols)
          (sym indexed)

  -- What the loader makes of a name that no symbol has, and of one that a symbol has.
  get_elf_reloc_dest-RefersTo :
      (x : RelocationAt) (symbols : List SymbolEntry) (idx : ℕ) (loc : ProgramLocation)
      → get_elf_reloc_dest c x.elf p x.binary_idx symbols idx ≡ ok loc
      → (s : SymbolEntry) × (get_elem? symbols idx ≡ some s) × RefersTo c p x s loc
  unfolding get_elf_reloc_dest resolve_by_name
  get_elf_reloc_dest-RefersTo x symbols idx loc e = elim (Option-cases (get_elem? symbols idx)) [
    | inl n ↦ absurd (
        let no : ◌≡◌ {A = Outcome ProgramLocation} (err bad_optional_access) (ok loc) =
          rw (n, get_elf_reloc_dest) at e in
        cc)
    | inr (s, at) ↦ (
      s,
      at,
      elim (Bool-cases (s.section_index == c.shn_undef)) [
        | inr d ↦ inr (λ z. ground arith, rw (at, d, get_elf_reloc_dest) at e)
        | inl u ↦ inl (
          ground arith,
          elim (Option-cases
              (first_match (λ t. not (is_local t) && str_eq t.name s.name) p.symtab.symbols)) [
                | inl n ↦
                    let here : ◌≡◌ {A = Outcome ProgramLocation}
                        (ok (record { binary_idx = 0; section_idx = 0; section_offset = 0 }))
                        (ok loc) =
                      rw
                        (
                          at,
                          u,
                          lookup_by_name-first s.name ∙ n,
                          get_elf_reloc_dest,
                          resolve_by_name,
                        )
                        at e in
                    rw (n, location_named) (sym (ok-eq _ loc here))
                | inr (t, f) ↦
                    let here : ◌≡◌ {A = Outcome ProgramLocation} (ok t.location) (ok loc) =
                      rw
                        (
                          at,
                          u,
                          lookup_by_name-first s.name ∙ f,
                          get_elf_reloc_dest,
                          resolve_by_name,
                        )
                        at e in
                    rw (f, location_named) (sym (ok-eq t.location loc here))
              ],
        )
      ],
    )
  ]

  add_relocations-Links :
      (elf : ElfFile) (i : ℕ) (section table : FileSection) (rs : List RelocationEntry)
      (t t' : RelocationTable)
      → get_elem? elf.sections section.link ≡ some table
      → add_relocations c elf p i section table.symbols rs t ≡ ok t'
      → (new : List Relocation) × (t' ≡ extended t new)
        × Each (Links c p) (relocations_of i elf section rs) new
  unfolding add_relocations RelocationTable.push_back
  add_relocations-Links elf i section table [] t t' at e =
      ([], sym (ok-eq t t' e) ∙ extended-nil t, tt)
  add_relocations-Links elf i section table (r ∷ rs) t t' at e =
      let x : RelocationAt = record { binary_idx = i; elf = elf; section = section; entry = r } in
      let (dest, run, e1) =
        bind-eq-ok (get_elf_reloc_dest c elf p i table.symbols r.symbol_idx) _ e in
      let (s, s_at, refers) = get_elf_reloc_dest-RefersTo x table.symbols r.symbol_idx dest run in
      let made = relocation_of c elf p i section r dest in
      let (new, grown, each) =
        add_relocations-Links elf i section table rs (extended t (made ∷ [])) t' at e1 in
      let here : Links c p x made = record {
        binary_idx = refl;
        section_idx = refl;
        offset = refl;
        type = refl;
        addend = refl;
        table = table;
        table_at = at;
        symbol = s;
        symbol_at = s_at;
        refers = refers;
      } in
      (made ∷ new, grown ∙ extended-extended t (made ∷ []) new, (here, each))

  register_relocations-Links :
      (elf : ElfFile) (i : ℕ) (ss : List FileSection) (t t' : RelocationTable)
      → register_relocations c elf p i ss t ≡ ok t'
      → (new : List Relocation) × (t' ≡ extended t new)
        × Each (Links c p) (relocations_in c i elf ss) new
  unfolding register_relocations
  register_relocations-Links elf i [] t t' e = ([], sym (ok-eq t t' e) ∙ extended-nil t, tt)
  register_relocations-Links elf i (s ∷ ss) t t' e = elim (Bool-cases (s.type == c.sht_rela)) [
    | inr other ↦
        let (b, grown, each) =
          register_relocations-Links elf i ss t t' (rw (other, register_relocations) at e) in
        (b, grown, rw other each)
    | inl is ↦
        let (mid, run, e1) =
          bind-eq-ok
            (value (get_elem? elf.sections s.link) >>= λ symtab.
              add_relocations c elf p i s symtab.symbols s.entries t)
            (λ m. register_relocations c elf p i ss m) (rw (is, register_relocations) at e) in
        let (table, at, run1) = bind-eq-ok (value (get_elem? elf.sections s.link)) _ run in
        let (a, grown_a, each_a) =
          add_relocations-Links elf i s table s.entries t mid
            (value-eq-ok (get_elem? elf.sections s.link) table at) run1 in
        let (b, grown_b, each_b) = register_relocations-Links elf i ss mid t' e1 in
        (
          a ++ b,
          grown_b ∙ ap (λ (m : RelocationTable). extended m b) grown_a ∙ extended-extended t a b,
          rw is (
              Each-append (Links c p) (relocations_of i elf s s.entries) (relocations_in c i elf ss)
                a b each_a each_b),
        )
  ]

  load_relocations-Links :
      (i : ℕ) (elfs : List ElfFile) (t t' : RelocationTable)
      → load_relocations c i elfs p t ≡ ok t'
      → (new : List Relocation) × (t' ≡ extended t new)
        × Each (Links c p) (all_relocations c i elfs) new
  unfolding load_relocations
  load_relocations-Links i [] t t' e = ([], sym (ok-eq t t' e) ∙ extended-nil t, tt)
  load_relocations-Links i (elf ∷ elfs) t t' e =
      let (mid, run, e1) = bind-eq-ok (register_relocations c elf p i elf.sections t) _ e in
      let (a, grown_a, each_a) = register_relocations-Links elf i elf.sections t mid run in
      let (b, grown_b, each_b) = load_relocations-Links (suc i) elfs mid t' e1 in
      (
        a ++ b,
        grown_b ∙ ap (λ (m : RelocationTable). extended m b) grown_a ∙ extended-extended t a b,
        Each-append (Links c p) (relocations_in c i elf elf.sections)
            (all_relocations c (suc i) elfs) a b each_a each_b,
      )

-- The program that is loaded has for each relocation of the files, in order, one relocation, and no
-- others, and its index is built from them: it lies at the offset in the section of the file that the
-- relocations are for, with the type and the addend of the entry. Its destination is that of the symbol
-- that the entry refers to: for one that its file defines, the location of that symbol; for one that it
-- does not define, the location of the first symbol of all files that is not local and has the name, and
-- the first of all locations if there is none.
pub load_elf-relocations :
    (c : ElfConstants) (elfs : List ElfFile) (p : ProgramLoader)
    → load_elf c elfs ≡ ok p
    → (relocs : List Relocation) × (p.reloctab
        ≡ construct_source_index (extended RelocationTable.empty relocs))
      × Each (Links c p) (all_relocations c 0 elfs) relocs
unfolding load_elf
load_elf-relocations c elfs p e =
    let (q, run, e1) = bind-eq-ok (load_binaries c 0 elfs no_program) _ e in
    let q' : ProgramLoader = record q {
      symtab = construct_location_index (construct_name_index q.symtab);
    } in
    let (t, run_r, e2) = bind-eq-ok (load_relocations c 0 elfs q' q'.reloctab) _ e1 in
    let loads = load_binaries-Loads c 0 elfs no_program q run in
    let (new, grown, each) = load_relocations-Links c q' q.symtab refl 0 elfs q'.reloctab t run_r in
    let same = ok-eq _ p e2 in
    (
      new,
      sym (ap (λ (r : ProgramLoader). r.reloctab) same)
          ∙ ap (λ (m : RelocationTable). construct_source_index m) grown
          ∙ ap (λ (m : RelocationTable). construct_source_index (extended m new)) loads.reloctab,
      Each-map (Links c q') (Links c p) (all_relocations c 0 elfs) new
          (λ x r h.
            Links-same c q' p x r (sym (ap (λ (r : ProgramLoader). r.binaries) same))
              (sym (ap (λ (r : ProgramLoader). r.symtab) same)) h)
          each,
    )
