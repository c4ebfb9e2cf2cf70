-- ===== src/Model/RelocationTable.antt =====
-- src/model/RelocationTable.cpp and include/ppc2cpp/model/RelocationTable.hpp.
use ppc2cpp.Prelude.{ℕ, ◌≡◌, Bool, true, Option, none, some, List, [], ◌∷◌, ◌++◌, arith}
use ppc2cpp.Model.Location.{ProgramLocation, eq_binary, advance}
use ppc2cpp.Model.Symbol.{Relocation}
use ppc2cpp.Model.SymbolTable.{eq_binary_trans}
use ppc2cpp.Model.Index.{find, build, element_at, first_match, or_else, element_at-find-build}

pub record RelocationTable : Type 0 where
  pub relocs : List Relocation
  pub source_index : List (ProgramLocation × ℕ)

abbrev pub empty : RelocationTable
empty = record { relocs = []; source_index = [] }

unfoldable pub push_back : RelocationTable → Relocation → RelocationTable
push_back t r = record t { relocs = t.relocs ++ r ∷ [] }

unfoldable pub construct_source_index : RelocationTable → RelocationTable
unfolding build
construct_source_index t = record t {
  source_index = build eq_binary (λ _. true) (λ r. r.source) 0 t.relocs [];
}

unfoldable pub lookup_by_source : RelocationTable → ProgramLocation → Option Relocation
unfolding find
lookup_by_source t loc = element_at t.relocs (find eq_binary loc t.source_index)

-- Relocations of half a word lie at the latter half of the instruction.
unfoldable pub lookup_by_insn_loc : RelocationTable → ProgramLocation → Option Relocation
unfolding lookup_by_source advance
lookup_by_insn_loc t loc = elim (lookup_by_source t loc) [
  | none ↦ lookup_by_source t (advance loc 2)
  | some r ↦ some r
]

abbrev at_source : ProgramLocation → Relocation → Bool
at_source loc r = eq_binary r.source loc

pub lookup_by_source-construct_source_index :
    (t : RelocationTable) (loc : ProgramLocation)
    → lookup_by_source (construct_source_index t) loc ≡ first_match (at_source loc) t.relocs
unfolding lookup_by_source construct_source_index
lookup_by_source-construct_source_index t loc =
    element_at-find-build eq_binary eq_binary_trans (λ (_ : Relocation). true) (λ r. r.source) loc
      t.relocs

-- Once the index is built, the lookup for an instruction gives the first relocation with the section
-- and offset of the instruction; if there is none, the first with those of its latter half; and
-- nothing if there is neither.
pub lookup_by_insn_loc-construct_source_index :
    (t : RelocationTable) (loc : ProgramLocation)
    → lookup_by_insn_loc (construct_source_index t) loc
      ≡ or_else
          (first_match (λ r. eq_binary r.source loc) t.relocs)
          (first_match (λ r. eq_binary r.source (advance loc 2)) t.relocs)
unfolding lookup_by_insn_loc
lookup_by_insn_loc-construct_source_index t loc = ground (
  arith,
  lookup_by_source-construct_source_index t loc,
  lookup_by_source-construct_source_index t (advance loc 2),
)
