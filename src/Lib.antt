-- ===== src/Lib.antt =====
-- ppc2cpp: a model of the program's analyses of PowerPC binaries, with the theorems that make them
-- correct. A `uint32_t` is a native number below 2 ^ 32 with its wrap-around written out; an
-- `int32_t` or `int64_t` is its bit pattern. An index out of the range of a vector, which is
-- undefined in the source, reads a default or gives `none`, and writes nothing.
--
-- The parts of the program, and the modules that stand for them:
-- - include/ppc2cpp/common: `Common` has the byte order (`be16`, `be32`) and the instruction fields
--   (`isBranch`, `isLink`, `branchValue` and the others of insn_properties.h).
-- - include/ppc2cpp/model, src/model: `Model` has the locations, symbols, relocations and registers,
--   and the symbol and relocation tables with their indexes (`lookupByName`, `lookupByLocation`,
--   `lookupBySource`, `lookupByInsnLoc`). A hash map is the list of its entries.
-- - control_flow: `ControlFlow/Graph` has the operations of ControlFlowGraph.hpp on the vectors of
--   blocks and of predecessors and successors; `ControlFlow/Analysis` has `functionCFA`. It reads
--   the instructions from the loader and calls the graph's operations for each branch. Its recursion
--   is on fuel, length + 1 for the function's number of instructions: each call is for a block that
--   is new, no two of which start at one instruction.
-- - data_flow: `DataFlow/Node` and `DataFlow/Function` have the nodes, on a heap, and the graph;
--   `DataFlow/InsnSets` and `DataFlow/InstructionUd` have the instruction sets and `instructionUD` of
--   PpcInstructionUD.cpp, with the operand categories of PpcOperandCats.cpp; `DataFlow/Context` has
--   FlowContext.hpp; `DataFlow/Convention` the register sets of PpcCallingConvention.cpp.
--   `DataFlow/Transfer`, `DataFlow/Block` and `DataFlow/Analysis` have `functionDFA` of
--   DataFlowAnalysis.cpp: what an instruction does to the definitions of its block, the loops over
--   instructions and blocks, and the worklist. The orders in which an `unordered_set` of nodes and one
--   of locations are gone through are parameters. The search that fills the worklist is on fuel, one for
--   each block, as no block is visited twice; the rounds of the worklist are on fuel that the caller
--   gives.
-- - analysis, for src/analysis/ProgramComparator.cpp: `Compare/VarNodes` has `compareVarNodes` and its
--   cache, and `Compare/Flows` has `compareFunctionFlows`, which compares two functions by their
--   graphs and the nodes of their sinks. The recursion on nodes is on fuel; as the inputs of a node are
--   made before it, the number of the node and one more is enough. `Compare/Symbols` has
--   `comparePrograms` and the comparison of symbols by their words and relocations, with assertions
--   that end the run. Its recursion is on fuel that the caller gives, the depth of the nested calls;
--   `Compare/Symbols/Ends` and `Compare/Symbols/Depth` are about when it is enough, and when none is.
-- - program_loader: `Loading` has the queries of Binary.hpp, BinarySection.hpp and ProgramLoader.cpp
--   (`resolveVMA`, `resolveTarget`, `getLocation` and the others); `loader_of` is the part of them
--   that the analyses use. The virtual `getReferenceAtLocation` is a field of the loader, a function
--   of its relocation table.
--   `Loading/Elf` has the ELF loader of ElfProgramLoader.cpp, ElfBinary.cpp and ElfSection.cpp, and
--   `Loading/Nin` the loader for DOL and REL of NinProgramLoader.cpp, Rel.cpp, RelSection.cpp, Dol.cpp
--   and DolSection.cpp. What ELFIO and ninutils read from a file is a parameter of these.
--   `Loading/Project` has Project.cpp with the messages of the loader, and `Model/Persistence` those
--   of the tables; `Loading/Project/Elf` is about an ELF program in a project that is opened anew.
-- - cli: `Cli` has the commands `checkflow` and `compare`, which run the analyses and comparisons
--   above on two programs and give an exit code.
--
-- `Program` has what these take from elsewhere: the program loader, an interface of three functions;
-- and ppcdisasm, which is not part of the repository: the values of instruction fields, the tables
-- of opcodes and operands, and the constants of the instruction forms are parameters. A run ends with
-- a result or a fault: an exception, a failed assertion, or the end of the fuel.
--
-- Not modelled: the choice of the reader for a file, the import from ppcdis, and the bytes that
-- protobuf writes and reads; the other commands, the messages and the graphs that are drawn, which only
-- put text out or in; and the hash functions, which no result depends on.
pub mod Prelude
pub mod Common
pub mod Model
pub mod Program
pub mod ControlFlow
pub mod DataFlow
pub mod Cli
pub mod Compare
pub mod Loading
