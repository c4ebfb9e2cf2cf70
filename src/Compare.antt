-- ===== src/Compare.antt =====
-- src/analysis/ProgramComparator.cpp and include/ppc2cpp/analysis/ProgramComparator.hpp.
pub mod VarNodes
pub mod Flows
pub mod Symbols
pub mod Examples
