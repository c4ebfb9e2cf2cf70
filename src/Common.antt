-- ===== src/Common.antt =====
-- include/ppc2cpp/common: byte order and the bit fields of an instruction word.
pub mod Endian
pub mod Insn
pub mod Examples
