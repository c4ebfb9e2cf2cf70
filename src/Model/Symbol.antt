-- ===== src/Model/Symbol.antt =====
-- include/ppc2cpp/model/Symbol.hpp and Relocation.hpp. The enumerations are the numbers that the
-- source casts to them, so that a value outside of the enumeration is kept, as the cast keeps it.
use Prim.Native.String.{String}
use ppc2cpp.Prelude.{
  ℕ, ◌+◌, ◌/◌, ◌≤◌, ◌<◌, ◌≡◌, ◌↔◌, Bool, true, ◌&&◌, ◌==◌, ltb, leb, add32, sub32, arith, u32_mod,
}
use ppc2cpp.Model.Location.{ProgramLocation}

-- `SymbolType` and `SymbolBinding`
abbrev pub notype_symbol : ℕ
notype_symbol = 0

abbrev pub data_symbol : ℕ
data_symbol = 1

abbrev pub function_symbol : ℕ
function_symbol = 2

abbrev pub local_binding : ℕ
local_binding = 0

abbrev pub global_binding : ℕ
global_binding = 1

abbrev pub weak_binding : ℕ
weak_binding = 2

pub record Symbol : Type 0 where
  pub name : String
  pub location : ProgramLocation
  pub size : ℕ
  pub symbol_type : ℕ
  pub symbol_binding : ℕ

-- The end of the symbol wraps, as `uint32_t` does.
unfoldable pub contains : Symbol → ProgramLocation → Bool
contains s loc =
    s.location.binary_idx == loc.binary_idx
    && s.location.section_idx == loc.section_idx
    && leb s.location.section_offset loc.section_offset
    && ltb loc.section_offset (add32 s.location.section_offset s.size)

pub record Relocation : Type 0 where
  pub source : ProgramLocation
  pub destination : ProgramLocation
  pub type : ℕ
  pub addend : ℕ

-- A symbol whose end does not wrap contains exactly the locations of its binary and section that lie
-- in the half-open range from its offset, of its size.
pub contains_iff :
    (s : Symbol) (loc : ProgramLocation)
    → s.location.section_offset + s.size < u32_mod
    → (contains s loc ≡ true) ↔ (
        (s.location.binary_idx ≡ loc.binary_idx)
        × (s.location.section_idx ≡ loc.section_idx)
        × (s.location.section_offset ≤ loc.section_offset)
        × (loc.section_offset < s.location.section_offset + s.size))
unfolding contains
contains_iff s loc h = (λ c. ground arith, λ c. ground arith)

-- The instruction index of a contained location is at most the symbol's number of instructions, also
-- where the end of the symbol wraps.
pub contains_bounds :
    (s : Symbol) (loc : ProgramLocation)
    → s.location.section_offset < u32_mod
    → loc.section_offset < u32_mod
    → contains s loc ≡ true
    → sub32 loc.section_offset s.location.section_offset / 4 ≤ s.size / 4
unfolding contains
contains_bounds s loc h k c = ground arith
