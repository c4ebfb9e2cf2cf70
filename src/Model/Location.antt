-- ===== src/Model/Location.antt =====
-- include/ppc2cpp/model/BinaryLocation.hpp and ProgramLocation.hpp. The `int32_t` indices and the
-- displacements that are added to an offset are bit patterns.
use ppc2cpp.Prelude.{ℕ, Bool, ◌&&◌, add32, ◌==◌}

pub record ProgramLocation : Type 0 where
  pub binary_idx : ℕ
  pub section_idx : ℕ
  pub section_offset : ℕ

-- `BinaryLocation::operator==`, which `ProgramLocation` inherits: the binary is not compared.
unfoldable pub eq_binary : ProgramLocation → ProgramLocation → Bool
eq_binary a b = a.section_idx == b.section_idx && a.section_offset == b.section_offset

-- `operator+` and `operator+=`
unfoldable pub advance : ProgramLocation → ℕ → ProgramLocation
advance l rhs = record l { section_offset = add32 l.section_offset rhs }
