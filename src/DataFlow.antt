-- ===== src/DataFlow.antt =====
-- include/ppc2cpp/data_flow and src/data_flow: the nodes of the data flow graph, what each
-- instruction reads and writes, and the definitions of the registers.
pub mod Node
pub mod Function
pub mod Form
pub mod InsnSets
pub mod InstructionUd
pub mod Context
pub mod Convention
pub mod Transfer
pub mod Block
pub mod Analysis
pub mod Examples
