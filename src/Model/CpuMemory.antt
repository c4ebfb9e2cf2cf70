-- ===== src/Model/CpuMemory.antt =====
-- include/ppc2cpp/model/CpuMemory.hpp. The value of a location, an `int64_t`, is a bit pattern; those
-- that the analyses make are register numbers.
use ppc2cpp.Prelude.{ℕ, Bool, true, false, ◌&&◌, ◌==◌}

pub data CpuMemorySpace : Type 0 where
  gpr fpr cr_bit gqr ps1 spr : CpuMemorySpace

abbrev pub spr_value_lr : ℕ
spr_value_lr = 8

abbrev pub spr_value_xer : ℕ
spr_value_xer = 1

abbrev pub spr_value_ctr : ℕ
spr_value_ctr = 9

pub record CpuMemoryLocation : Type 0 where
  pub memspace : CpuMemorySpace
  pub value : ℕ

abbrev pub eq_space : CpuMemorySpace → CpuMemorySpace → Bool
eq_space gpr gpr = true
eq_space fpr fpr = true
eq_space cr_bit cr_bit = true
eq_space gqr gqr = true
eq_space ps1 ps1 = true
eq_space spr spr = true
eq_space _ _ = false

-- `operator==`
unfoldable pub eq_location : CpuMemoryLocation → CpuMemoryLocation → Bool
eq_location a b = eq_space a.memspace b.memspace && a.value == b.value
