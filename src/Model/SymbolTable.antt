-- ===== src/Model/SymbolTable.antt =====
-- src/model/SymbolTable.cpp and include/ppc2cpp/model/SymbolTable.hpp. An index is as it was when it
-- was last built, so after `push_back` it does not know of the new symbol.
use Prim.Native.String.{String}
use text.Mathlib.Text.{◌==◌ as str_eq}
use text.Mathlib.TextEquality.{eq_iff}
use ppc2cpp.Prelude.{
  ℕ, ◌≡◌, ◌∙◌, Bool, true, not, Option, some, List, [], ◌∷◌, ◌++◌, ◌&&◌, arith, ◌==◌, length,
}
use ppc2cpp.Model.Location.{ProgramLocation, eq_binary}
use ppc2cpp.Model.Symbol.{Symbol, local_binding}
use ppc2cpp.Model.Index.{find, build, element_at, first_match, element_at-find-build}

pub record SymbolTable : Type 0 where
  pub symbols : List Symbol
  pub name_index : List (String × ℕ)
  pub loc_index : List (ProgramLocation × ℕ)

abbrev pub empty : SymbolTable
empty = record { symbols = []; name_index = []; loc_index = [] }

abbrev pub num_symbols : SymbolTable → ℕ
num_symbols t = length t.symbols

unfoldable pub push_back : SymbolTable → Symbol → SymbolTable
push_back t s = record t { symbols = t.symbols ++ s ∷ [] }

-- Local symbols are not indexed by name.
abbrev pub is_local : Symbol → Bool
is_local s = s.symbol_binding == local_binding

unfoldable pub construct_name_index : SymbolTable → SymbolTable
unfolding build
construct_name_index t = record t {
  name_index = build str_eq (λ s. not (is_local s)) (λ s. s.name) 0 t.symbols [];
}

unfoldable pub lookup_by_name : SymbolTable → String → Option Symbol
unfolding find
lookup_by_name t name = element_at t.symbols (find str_eq name t.name_index)

unfoldable pub construct_location_index : SymbolTable → SymbolTable
unfolding build
construct_location_index t = record t {
  loc_index = build eq_binary (λ _. true) (λ s. s.location) 0 t.symbols [];
}

unfoldable pub lookup_by_location : SymbolTable → ProgramLocation → Option Symbol
unfolding find
lookup_by_location t loc = element_at t.symbols (find eq_binary loc t.loc_index)

str_eq_trans : (a b c : String) → str_eq a b ≡ true → str_eq b c ≡ true → str_eq a c ≡ true
str_eq_trans a b c p q = (eq_iff a c).1 ((eq_iff a b).0 p ∙ (eq_iff b c).0 q)

pub eq_binary_trans :
    (a b c : ProgramLocation) → eq_binary a b ≡ true → eq_binary b c ≡ true → eq_binary a c ≡ true
unfolding eq_binary
eq_binary_trans a b c p q = ground arith

-- Once the name index is built, a lookup by name gives the first symbol of the table that is not
-- local and has the name, and nothing if there is none.
pub lookup_by_name-construct_name_index :
    (t : SymbolTable) (name : String)
    → lookup_by_name (construct_name_index t) name
      ≡ first_match (λ s. not (is_local s) && str_eq s.name name) t.symbols
unfolding lookup_by_name construct_name_index
lookup_by_name-construct_name_index t name =
    element_at-find-build str_eq str_eq_trans (λ (s : Symbol). not (is_local s)) (λ s. s.name) name
      t.symbols

-- Once the location index is built, a lookup by location gives the first symbol of the table with the
-- section and the offset of the location, in whatever binary it lies, and nothing if there is none.
pub lookup_by_location-construct_location_index :
    (t : SymbolTable) (loc : ProgramLocation)
    → lookup_by_location (construct_location_index t) loc
      ≡ first_match (λ s. eq_binary s.location loc) t.symbols
unfolding lookup_by_location construct_location_index
lookup_by_location-construct_location_index t loc =
    element_at-find-build eq_binary eq_binary_trans (λ (_ : Symbol). true) (λ s. s.location) loc
      t.symbols

-- `operator==` leaves the binary out: if the first symbol lies at the section and offset of a
-- location, a lookup of that location gives that symbol, also where its binary is another.
lookup_by_location_other_binary :
    (t : SymbolTable) (s : Symbol) (rest : List Symbol) (binary : ℕ)
    → t.symbols ≡ s ∷ rest
    → lookup_by_location (construct_location_index t) (record s.location { binary_idx = binary })
      ≡ some s
unfolding eq_binary
lookup_by_location_other_binary t s rest binary e =
    lookup_by_location-construct_location_index t (record s.location { binary_idx = binary })
    ∙ ground arith
