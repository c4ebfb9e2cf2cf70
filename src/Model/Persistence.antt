-- ===== src/Model/Persistence.antt =====
-- `toProto` and `fromProto` of include/ppc2cpp/model/{ProgramLocation,Symbol,Relocation}.hpp and
-- src/model/{SymbolTable,RelocationTable}.cpp. The messages are those of proto/*.proto, whose
-- generated classes hold the fields. A signed number and the unsigned one of a field have one bit
-- pattern.
use Prim.Native.String.{String}
use ppc2cpp.Prelude.{
  ℕ, ◌%◌, ◌^◌, ◌<◌, ◌≡◌, ◌∙◌, sym, ap, List, [], ◌∷◌, ◌++◌, map, arith, All, append-nil,
  append_assoc,
}
use ppc2cpp.Model.Location.{ProgramLocation}
use ppc2cpp.Model.Symbol.{Symbol, Relocation}
use ppc2cpp.Model.SymbolTable.{SymbolTable, construct_name_index, construct_location_index}
use ppc2cpp.Model.SymbolTable
use ppc2cpp.Model.RelocationTable.{RelocationTable, construct_source_index}
use ppc2cpp.Model.RelocationTable

pub record LocationProto : Type 0 where
  pub binary_idx : ℕ
  pub section_idx : ℕ
  pub offset : ℕ

abbrev pub location_to_proto : ProgramLocation → LocationProto
location_to_proto l = record {
  binary_idx = l.binary_idx;
  section_idx = l.section_idx;
  offset = l.section_offset;
}

abbrev pub location_from_proto : LocationProto → ProgramLocation
location_from_proto m = record {
  binary_idx = m.binary_idx;
  section_idx = m.section_idx;
  section_offset = m.offset;
}

pub record SymbolProto : Type 0 where
  pub name : String
  pub location : LocationProto
  pub size : ℕ
  pub st_bind : ℕ
  pub st_type : ℕ

abbrev pub symbol_to_proto : Symbol → SymbolProto
symbol_to_proto s = record {
  name = s.name;
  location = location_to_proto s.location;
  size = s.size;
  st_bind = s.symbol_binding;
  st_type = s.symbol_type;
}

abbrev pub symbol_from_proto : SymbolProto → Symbol
symbol_from_proto m = record {
  name = m.name;
  location = location_from_proto m.location;
  size = m.size;
  symbol_type = m.st_type;
  symbol_binding = m.st_bind;
}

pub record RelocationProto : Type 0 where
  pub location : LocationProto
  pub target : LocationProto
  pub type : ℕ
  pub addend : ℕ

abbrev pub relocation_to_proto : Relocation → RelocationProto
relocation_to_proto r = record {
  location = location_to_proto r.source;
  target = location_to_proto r.destination;
  type = r.type;
  addend = r.addend;
}

-- The type of a relocation has eight bits.
abbrev pub relocation_from_proto : RelocationProto → Relocation
relocation_from_proto m = record {
  source = location_from_proto m.location;
  destination = location_from_proto m.target;
  type = m.type % 2 ^ 8;
  addend = m.addend;
}

abbrev pub symtab_to_proto : SymbolTable → List SymbolProto
symtab_to_proto t = map symbol_to_proto t.symbols

unfoldable pub push_symbols : List SymbolProto → SymbolTable → SymbolTable
unfolding SymbolTable.push_back
push_symbols [] t = t
push_symbols (m ∷ ms) t = push_symbols ms (SymbolTable.push_back t (symbol_from_proto m))

unfoldable pub symtab_from_proto : List SymbolProto → SymbolTable
unfolding push_symbols construct_name_index construct_location_index
symtab_from_proto ms =
    construct_name_index (construct_location_index (push_symbols ms SymbolTable.empty))

abbrev pub reloctab_to_proto : RelocationTable → List RelocationProto
reloctab_to_proto t = map relocation_to_proto t.relocs

unfoldable pub push_relocations : List RelocationProto → RelocationTable → RelocationTable
unfolding RelocationTable.push_back
push_relocations [] t = t
push_relocations (m ∷ ms) t =
    push_relocations ms (RelocationTable.push_back t (relocation_from_proto m))

unfoldable pub reloctab_from_proto : List RelocationProto → RelocationTable
unfolding push_relocations construct_source_index
reloctab_from_proto ms = construct_source_index (push_relocations ms RelocationTable.empty)

push_symbols-map :
    (ss : List Symbol) (t : SymbolTable)
    → push_symbols (map symbol_to_proto ss) t ≡ record t { symbols = t.symbols ++ ss }
unfolding push_symbols SymbolTable.push_back
push_symbols-map [] t =
    ap (λ (xs : List Symbol). record t { symbols = xs }) (sym (append-nil t.symbols))
push_symbols-map (s ∷ ss) t =
    push_symbols-map ss (record t { symbols = t.symbols ++ s ∷ [] })
    ∙ ap (λ (xs : List Symbol). record t { symbols = xs }) (append_assoc t.symbols (s ∷ []) ss)

-- A symbol table that is read back has the symbols of the table, and indexes that are built anew.
pub symtab_from_proto-symtab_to_proto :
    (t : SymbolTable)
    → symtab_from_proto (symtab_to_proto t)
      ≡ construct_name_index
          (construct_location_index (record SymbolTable.empty { symbols = t.symbols }))
unfolding symtab_from_proto
symtab_from_proto-symtab_to_proto t =
    ap (λ (u : SymbolTable). construct_name_index (construct_location_index u))
      (push_symbols-map t.symbols SymbolTable.empty)

-- The types of relocations are bytes.
abbrev pub HasByteTypes : RelocationTable → Type 0
HasByteTypes t = All (λ (r : Relocation). r.type < 2 ^ 8) t.relocs

relocation_from_proto-relocation_to_proto :
    (r : Relocation) → r.type < 2 ^ 8 → relocation_from_proto (relocation_to_proto r) ≡ r
relocation_from_proto-relocation_to_proto r l =
    ap (λ n. record r { type = n }) {x = r.type % 2 ^ 8} {y = r.type} (omega arith)

push_relocations-map :
    (rs : List Relocation) (t : RelocationTable)
    → All (λ (r : Relocation). r.type < 2 ^ 8) rs
    → push_relocations (map relocation_to_proto rs) t ≡ record t { relocs = t.relocs ++ rs }
unfolding push_relocations RelocationTable.push_back
push_relocations-map [] t h =
    ap (λ (xs : List Relocation). record t { relocs = xs }) (sym (append-nil t.relocs))
push_relocations-map (r ∷ rs) t h =
    ap
      (λ (q : Relocation).
        push_relocations (map relocation_to_proto rs) (record t { relocs = t.relocs ++ q ∷ [] }))
      (relocation_from_proto-relocation_to_proto r h.0)
    ∙ push_relocations-map rs (record t { relocs = t.relocs ++ r ∷ [] }) h.1
    ∙ ap (λ (xs : List Relocation). record t { relocs = xs }) (append_assoc t.relocs (r ∷ []) rs)

-- A table of relocations with types of a byte that is read back has the relocations of the table, and
-- an index that is built anew.
pub reloctab_from_proto-reloctab_to_proto :
    (t : RelocationTable)
    → HasByteTypes t
    → reloctab_from_proto (reloctab_to_proto t)
      ≡ construct_source_index (record RelocationTable.empty { relocs = t.relocs })
unfolding reloctab_from_proto
reloctab_from_proto-reloctab_to_proto t h =
    ap (λ (u : RelocationTable). construct_source_index u)
      (push_relocations-map t.relocs RelocationTable.empty h)
