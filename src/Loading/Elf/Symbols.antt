-- ===== src/Loading/Elf/Symbols.antt =====
-- The symbols that src/program_loader/ElfProgramLoader.cpp registers.
use ppc2cpp.Prelude.{
  ℕ, suc, ◌%◌, ◌≡◌, ◌∙◌, refl, sym, ap, not, ◌||◌, some, List, [], ◌∷◌, ◌++◌, if◌then◌else◌, ◌==◌,
  u32_mod, Each, Each-append, Each-map, append-nil, append_assoc, Bool-cases, Option-cases, inl,
  inr,
}
use ppc2cpp.Model.Location.{ProgramLocation}
use ppc2cpp.Model.Symbol.{Symbol}
use ppc2cpp.Model.SymbolTable.{SymbolTable, construct_name_index, construct_location_index}
use ppc2cpp.Model.SymbolTable
use ppc2cpp.Program.{Outcome, ok, err, assertion_failed, ◌>>=◌, bind-eq-ok}
use ppc2cpp.Loading.{Binary, ProgramLoader, resolve_vma, resolve_in_sections, resolve_in_binaries}
use ppc2cpp.Loading.Elf.{
  ElfConstants, SymbolEntry, FileSection, ElfFile, elf_binary, get_elf_symbol_location,
  is_registered, symbol_of, add_symbols, register_symbols, load_binaries, load_relocations,
  no_program, load_elf,
}

-- An entry of a symbol table of the file that becomes the binary of the index.
pub record Entry : Type 0 where
  pub binary_idx : ℕ
  pub elf : ElfFile
  pub entry : SymbolEntry

abbrev pub registered : ElfConstants → ℕ → ElfFile → List SymbolEntry → List Entry
registered c i elf [] = []
registered c i elf (s ∷ ss) =
    let rest = registered c i elf ss in
    if is_registered c s then record { binary_idx = i; elf = elf; entry = s } ∷ rest else rest

abbrev pub registered_in : ElfConstants → ℕ → ElfFile → List FileSection → List Entry
registered_in c i elf [] = []
registered_in c i elf (s ∷ ss) =
    (if s.type == c.sht_symtab then registered c i elf s.symbols else [])
    ++ registered_in c i elf ss

-- The entries of all files that are registered, in order.
abbrev pub all_registered : ElfConstants → ℕ → List ElfFile → List Entry
all_registered c i [] = []
all_registered c i (elf ∷ elfs) =
    registered_in c i elf elf.sections ++ all_registered c (suc i) elfs

-- The symbol is that of the entry: its members are the entry's, and its location is that of the entry
-- in the program.
pub record Imports (c : ElfConstants) (p : ProgramLoader) (e : Entry) (s : Symbol) : Type 0 where
  pub name : s.name ≡ e.entry.name
  pub size : s.size ≡ e.entry.size % u32_mod
  pub type : s.symbol_type ≡ e.entry.type
  pub binding : s.symbol_binding ≡ e.entry.bind
  pub location :
      get_elf_symbol_location c e.elf p e.binary_idx e.entry.section_index e.entry.value
      ≡ ok s.location

-- A table with more symbols behind, and its indexes as they were.
abbrev pub extended : SymbolTable → List Symbol → SymbolTable
extended t new = record t { symbols = t.symbols ++ new }

extended-extended :
    (t : SymbolTable) (a b : List Symbol) → extended (extended t a) b ≡ extended t (a ++ b)
extended-extended t a b =
    ap (λ (ss : List Symbol). record t { symbols = ss }) (append_assoc t.symbols a b)

extended-nil : (t : SymbolTable) → t ≡ extended t []
extended-nil t = ap (λ (ss : List Symbol). record t { symbols = ss }) (sym (append-nil t.symbols))

pub ok-eq {ℓ} : {A : Type ℓ} (a b : A) → ◌≡◌ {A = Outcome A} (ok a) (ok b) → a ≡ b
ok-eq a b e = cc

-- What is found in the binaries is found there when there are more.
resolve_in_binaries-append :
    (i vma : ℕ) (bs more : List Binary) (loc : ProgramLocation)
    → resolve_in_binaries i bs vma ≡ some loc
    → resolve_in_binaries i (bs ++ more) vma ≡ some loc
unfolding resolve_in_binaries
resolve_in_binaries-append i vma [] more loc e = absurd (cc)
resolve_in_binaries-append i vma (b ∷ bs) more loc e =
    elim (Option-cases (resolve_in_sections i 0 b.sections vma)) [
      | inl n ↦
          rw (n, resolve_in_binaries)
            (resolve_in_binaries-append (suc i) vma bs more loc (rw (n, resolve_in_binaries) at e))
      | inr (l, f) ↦
          let here : some l ≡ some loc = rw (f, resolve_in_binaries) at e in
          rw (f, resolve_in_binaries) here
    ]

module _ (c : ElfConstants) where
  module _ (elf : ElfFile) (p : ProgramLoader) (i : ℕ) where
    add_symbols-Imports :
        (ss : List SymbolEntry) (t t' : SymbolTable)
        → add_symbols c elf p i ss t ≡ ok t'
        → (new : List Symbol) × (t' ≡ extended t new)
          × Each (Imports c p) (registered c i elf ss) new
    unfolding add_symbols SymbolTable.push_back
    add_symbols-Imports [] t t' e = ([], sym (ok-eq t t' e) ∙ extended-nil t, tt)
    add_symbols-Imports (s ∷ ss) t t' e = elim (Bool-cases (is_registered c s)) [
      | inl reg ↦
          let (mid, run, e1) =
            bind-eq-ok
              (get_elf_symbol_location c elf p i s.section_index s.value >>= λ loc.
                ok (SymbolTable.push_back t (symbol_of s loc)))
              (λ m. add_symbols c elf p i ss m) (rw (reg, add_symbols) at e) in
          let (loc, at, pushed) =
            bind-eq-ok (get_elf_symbol_location c elf p i s.section_index s.value) _ run in
          let (new, grown, each) = add_symbols-Imports ss mid t' e1 in
          let here : Imports c p (record { binary_idx = i; elf = elf; entry = s })
              (symbol_of s loc) =
            record { name = refl; size = refl; type = refl; binding = refl; location = at } in
          (
            symbol_of s loc ∷ new,
            grown
                ∙ ap (λ (m : SymbolTable). extended m new)
                    (sym (ok-eq (extended t (symbol_of s loc ∷ [])) mid pushed))
                ∙ extended-extended t (symbol_of s loc ∷ []) new,
            rw reg (here, each),
          )
      | inr skip ↦
          let (new, grown, each) = add_symbols-Imports ss t t' (rw (skip, add_symbols) at e) in
          (new, grown, rw skip each)
    ]

    register_symbols-Imports :
        (ss : List FileSection) (t t' : SymbolTable)
        → register_symbols c elf p i ss t ≡ ok t'
        → (new : List Symbol) × (t' ≡ extended t new)
          × Each (Imports c p) (registered_in c i elf ss) new
    unfolding register_symbols
    register_symbols-Imports [] t t' e = ([], sym (ok-eq t t' e) ∙ extended-nil t, tt)
    register_symbols-Imports (s ∷ ss) t t' e = elim (Bool-cases (s.type == c.sht_symtab)) [
      | inl is ↦
          let (mid, run, e1) =
            bind-eq-ok (add_symbols c elf p i s.symbols t) (λ m. register_symbols c elf p i ss m)
              (rw (is, register_symbols) at e) in
          let (a, grown_a, each_a) = add_symbols-Imports s.symbols t mid run in
          let (b, grown_b, each_b) = register_symbols-Imports ss mid t' e1 in
          (
            a ++ b,
            grown_b ∙ ap (λ (m : SymbolTable). extended m b) grown_a ∙ extended-extended t a b,
            rw is (
                Each-append (Imports c p) (registered c i elf s.symbols) (registered_in c i elf ss)
                  a b each_a each_b),
          )
      | inr other ↦
          let (b, grown, each) =
            register_symbols-Imports ss t t' (rw (other, register_symbols) at e) in
          (b, grown, rw other each)
    ]

  -- A program with more binaries has the same location for an entry.
  pub get_elf_symbol_location-append :
      (elf : ElfFile) (p p' : ProgramLoader) (more : List Binary) (i section value : ℕ)
      (loc : ProgramLocation)
      → p'.binaries ≡ p.binaries ++ more
      → get_elf_symbol_location c elf p i section value ≡ ok loc
      → get_elf_symbol_location c elf p' i section value ≡ ok loc
  unfolding get_elf_symbol_location resolve_vma
  get_elf_symbol_location-append elf p p' more i section value loc grown e =
      let vma = value % u32_mod in
      elim (Bool-cases (not (elf.type == c.et_rel) || section == c.shn_abs)) [
        | inr f ↦ rw (f, get_elf_symbol_location) (rw (f, get_elf_symbol_location) at e)
        | inl t ↦ elim (Option-cases (resolve_in_binaries 0 p.binaries vma)) [
          | inl n ↦ absurd (
              let no : ◌≡◌ {A = Outcome ProgramLocation} (err assertion_failed) (ok loc) =
                rw (t, n, get_elf_symbol_location) at e in
              cc)
          | inr (l, f) ↦
              let still : resolve_in_binaries 0 p'.binaries vma ≡ some l =
                ap (λ bs. resolve_in_binaries 0 bs vma) grown
                ∙ resolve_in_binaries-append 0 vma p.binaries more l f in
              rw (t, still, get_elf_symbol_location) (rw (t, f, get_elf_symbol_location) at e)
        ]
      ]

  Imports-more :
      (p p' : ProgramLoader) (more : List Binary) (x : Entry) (s : Symbol)
      → p'.binaries ≡ p.binaries ++ more
      → Imports c p x s
      → Imports c p' x s
  Imports-more p p' more x s grown h = record {
    name = h.name;
    size = h.size;
    type = h.type;
    binding = h.binding;
    location =
        get_elf_symbol_location-append x.elf p p' more x.binary_idx x.entry.section_index
          x.entry.value s.location grown h.location;
  }

  -- What the loop over the files makes of the program.
  pub record Loads (i : ℕ) (elfs : List ElfFile) (p p' : ProgramLoader) : Type 0 where
    pub more : List Binary
    pub binaries : p'.binaries ≡ p.binaries ++ more
    pub new : List Symbol
    pub symtab : p'.symtab ≡ extended p.symtab new
    pub imported : Each (Imports c p') (all_registered c i elfs) new
    pub reloctab : p'.reloctab ≡ p.reloctab

  pub load_binaries-Loads :
      (i : ℕ) (elfs : List ElfFile) (p p' : ProgramLoader)
      → load_binaries c i elfs p ≡ ok p'
      → Loads i elfs p p'
  unfolding load_binaries
  load_binaries-Loads i [] p p' e =
      let same : p' ≡ p = sym (ok-eq p p' e) in
      record {
        more = [];
        binaries = ap (λ (q : ProgramLoader). q.binaries) same ∙ sym (append-nil p.binaries);
        new = [];
        symtab = ap (λ (q : ProgramLoader). q.symtab) same ∙ extended-nil p.symtab;
        imported = tt;
        reloctab = ap (λ (q : ProgramLoader). q.reloctab) same;
      }
  load_binaries-Loads i (elf ∷ elfs) p p' e =
      let (b, built, e1) = bind-eq-ok (elf_binary c elf) _ e in
      let p1 : ProgramLoader = record p { binaries = p.binaries ++ b ∷ [] } in
      let (t, run, e2) = bind-eq-ok (register_symbols c elf p1 i elf.sections p1.symtab) _ e1 in
      let (a, grown, each) = register_symbols-Imports elf p1 i elf.sections p1.symtab t run in
      let rest = load_binaries-Loads (suc i) elfs (record p1 { symtab = t }) p' e2 in
      record {
        more = b ∷ rest.more;
        binaries = rest.binaries ∙ append_assoc p.binaries (b ∷ []) rest.more;
        new = a ++ rest.new;
        symtab =
            rest.symtab
            ∙ ap (λ (m : SymbolTable). extended m rest.new) grown
            ∙ extended-extended p.symtab a rest.new;
        imported =
            Each-append (Imports c p') (registered_in c i elf elf.sections)
              (all_registered c (suc i) elfs) a rest.new
              (Each-map (Imports c p1) (Imports c p') (registered_in c i elf elf.sections) a
                (λ x s h. Imports-more p1 p' rest.more x s rest.binaries h) each)
              rest.imported;
        reloctab = rest.reloctab;
      }

  -- The files are read in order: the program that is loaded has for each symbol of them that is of a
  -- kind that the loader registers, in order, one symbol with the name, the type, the binding and the
  -- low 32 bits of the size, at the location that the entry has in the whole program; it has no other
  -- symbols, and its indexes by name and by location are built from all of these.
  pub load_elf-symbols :
      (elfs : List ElfFile) (p : ProgramLoader)
      → load_elf c elfs ≡ ok p
      → (symbols : List Symbol) × (p.symtab
          ≡ construct_location_index (construct_name_index (extended SymbolTable.empty symbols)))
        × Each (Imports c p) (all_registered c 0 elfs) symbols
  unfolding load_elf
  load_elf-symbols elfs p e =
      let (q, run, e1) = bind-eq-ok (load_binaries c 0 elfs no_program) _ e in
      let q' : ProgramLoader = record q {
        symtab = construct_location_index (construct_name_index q.symtab);
      } in
      let (t, run_r, e2) = bind-eq-ok (load_relocations c 0 elfs q' q'.reloctab) _ e1 in
      let loads = load_binaries-Loads 0 elfs no_program q run in
      let same = ok-eq _ p e2 in
      let binaries : p.binaries ≡ q.binaries ++ [] =
        sym (ap (λ (r : ProgramLoader). r.binaries) same) ∙ sym (append-nil q.binaries) in
      (
        loads.new,
        sym (ap (λ (r : ProgramLoader). r.symtab) same)
            ∙ ap (λ (m : SymbolTable). construct_location_index (construct_name_index m))
                loads.symtab,
        Each-map (Imports c q) (Imports c p) (all_registered c 0 elfs) loads.new
            (λ x s h. Imports-more q p [] x s binaries h) loads.imported,
      )
