-- ===== src/Model/Examples.antt =====
-- The theorems on locations, symbols and tables at concrete inputs.
use ppc2cpp.Prelude.{ℕ, ◌+◌, ◌≤◌, ◌<◌, ◌≡◌, ◌↔◌, true, some, [], ◌∷◌, arith}
use ppc2cpp.Model.Location.{ProgramLocation, eq_binary, advance}
use ppc2cpp.Model.Symbol.{
  Symbol, Relocation, contains, function_symbol, global_binding, local_binding, contains_iff,
}
use ppc2cpp.Model.SymbolTable.{
  SymbolTable, empty, construct_name_index, lookup_by_name, construct_location_index,
  lookup_by_location, lookup_by_name-construct_name_index,
  lookup_by_location-construct_location_index,
}
use ppc2cpp.Model.RelocationTable
use ppc2cpp.Model.RelocationTable.{
  RelocationTable, lookup_by_insn_loc, construct_source_index,
  lookup_by_insn_loc-construct_source_index,
}

abbrev at : ℕ → ℕ → ProgramLocation
at binary offset = record { binary_idx = binary; section_idx = 1; section_offset = offset }

-- A local `f`, then a global `f` in another binary.
abbrev local_f : Symbol
local_f = record {
  name = "f";
  location = at 0 16;
  size = 8;
  symbol_type = function_symbol;
  symbol_binding = local_binding;
}

abbrev global_f : Symbol
global_f = record local_f { location = at 1 32; symbol_binding = global_binding }

abbrev table : SymbolTable
table = record empty { symbols = local_f ∷ global_f ∷ [] }

contains_iff_example :
    (contains local_f (at 0 20) ≡ true)
    ↔ (◌≡◌ {A = ℕ} 0 0 × ◌≡◌ {A = ℕ} 1 1 × (16 ≤ 20) × (20 < 16 + 8))
contains_iff_example = contains_iff local_f (at 0 20) (omega arith)

lookup_by_name_example : lookup_by_name (construct_name_index table) "f" ≡ some global_f
lookup_by_name_example = lookup_by_name-construct_name_index table "f"

lookup_by_location_example :
    lookup_by_location (construct_location_index table) (at 1 32) ≡ some global_f
unfolding eq_binary
lookup_by_location_example = lookup_by_location-construct_location_index table (at 1 32)

-- A relocation of the low half of the instruction at 16.
abbrev low_half : Relocation
low_half = record { source = at 0 18; destination = at 1 32; type = 4; addend = 0 }

abbrev relocations : RelocationTable
relocations = record RelocationTable.empty { relocs = low_half ∷ [] }

lookup_by_insn_loc_example :
    lookup_by_insn_loc (construct_source_index relocations) (at 0 16) ≡ some low_half
unfolding eq_binary advance
lookup_by_insn_loc_example = lookup_by_insn_loc-construct_source_index relocations (at 0 16)
