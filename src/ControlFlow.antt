-- ===== src/ControlFlow.antt =====
-- include/ppc2cpp/control_flow and src/control_flow: the control flow graph of a function and the
-- analysis that builds it.
pub mod Graph
pub mod Analysis
pub mod Examples
