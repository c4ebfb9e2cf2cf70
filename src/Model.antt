-- ===== src/Model.antt =====
-- include/ppc2cpp/model and src/model: locations, symbols, relocations and their tables.
pub mod Location
pub mod Symbol
pub mod CpuMemory
pub mod Index
pub mod SymbolTable
pub mod RelocationTable
pub mod Persistence
pub mod Examples
