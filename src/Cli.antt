-- ===== src/Cli.antt =====
-- src/cli/ppc2cpp.cpp: the commands that compare programs. A command gets the arguments behind its
-- name, and gives the code that it exits with. The file system, the reader of projects and `atol` are
-- parameters.
pub mod Checkflow
pub mod Examples
use Prim.Native.String.{String}
use ppc2cpp.Prelude.{
  ℕ, suc, ◌%◌, Bool, true, false, not, Option, none, some, List, [], ◌∷◌, ◌==◌, if◌then◌else◌,
  u32_mod,
}
use ppc2cpp.Common.Endian.{Endian}
use ppc2cpp.Model.Location.{ProgramLocation}
use ppc2cpp.Model.Symbol.{Symbol, Relocation}
use ppc2cpp.Model.SymbolTable.{lookup_by_name, lookup_by_location}
use ppc2cpp.Program.{OperandValue, Outcome, ok, err, ◌>>=◌}
use ppc2cpp.ControlFlow.Graph.{ControlFlowGraph, empty}
use ppc2cpp.ControlFlow.Analysis.{function_cfa}
use ppc2cpp.DataFlow.Function.{Function, empty_graph}
use ppc2cpp.DataFlow.Block.{Disassembler}
use ppc2cpp.DataFlow.Analysis.{function_dfa}
use ppc2cpp.Loading.{ProgramLoader, loader_of, resolve_vma}
use ppc2cpp.Compare.Flows.{compare_function_flows}
use ppc2cpp.Compare.Symbols.{RelocTypes, compare_relocations, compare_symbols, compare_programs}

-- What the commands take from outside, and the model's bounds: on the rounds of the worklist, and on
-- the depth of nested comparisons of symbols.
pub record Setting : Type 0 where
  pub host : Endian
  pub dis : Disassembler
  pub lookup : ℕ → ℕ
  pub types : RelocTypes
  pub rounds : ℕ
  pub depth : ℕ
  pub is_regular_file : String → Bool
  pub open_project : String → Outcome ProgramLoader
  pub atol : String → ℕ

module _ (set : Setting) where
  -- `Function func(symbol)` and `functionCFA`
  abbrev pub with_cfa : ProgramLoader → Symbol → Outcome Function
  with_cfa p symbol =
      function_cfa set.host set.dis.operand_value (loader_of p) symbol empty >>= λ g.
      ok (record { symbol = symbol; cfg = g; dfg = empty_graph })

  abbrev pub with_dfa : ProgramLoader → Function → Outcome Function
  with_dfa p f = function_dfa set.host set.dis (loader_of p) set.rounds f

  module _ (p1 p2 : ProgramLoader) where
    -- The symbols that an argument stands for: a number is resolved, both times in the first
    -- program, and nothing is given where `getLocOrExit` exits.
    unfoldable pub find_symbols : String → Option (Option Symbol × Option Symbol)
    unfolding resolve_vma lookup_by_location lookup_by_name
    find_symbols arg =
        let vma = set.atol arg % u32_mod in
        if vma == 0
        then some (lookup_by_name p1.symtab arg, lookup_by_name p2.symtab arg)
        else elim (resolve_vma p1 vma) [
          | none ↦ none
          | some loc1 ↦ elim (resolve_vma p1 vma) [
            | none ↦ none
            | some loc2 ↦
                some (lookup_by_location p1.symtab loc1, lookup_by_location p2.symtab loc2)
          ]
        ]

    abbrev pub flows_equal : Function → Function → Outcome Bool
    flows_equal f1 f2 =
        compare_function_flows set.host set.lookup
          (compare_relocations set.host set.types p1 p2
            (compare_symbols set.host set.types p1 p2 set.depth))
          (loader_of p1) (loader_of p2) f1 f2

    -- The two analyses of both functions, and their comparison.
    unfoldable pub compare_flows : Symbol → Symbol → Outcome Bool
    unfolding function_cfa function_dfa compare_function_flows compare_relocations compare_symbols
    compare_flows symbol1 symbol2 = with_cfa p1 symbol1 >>= λ func1.
        with_cfa p2 symbol2 >>= λ func2.
        with_dfa p1 func1 >>= λ func1'. with_dfa p2 func2 >>= λ func2'. flows_equal func1' func2'

    -- The loop of `cli_checkflow` over the arguments.
    unfoldable pub check_functions : List String → Outcome ℕ
    unfolding find_symbols compare_flows
    check_functions [] = ok 0
    check_functions (arg ∷ args) =
        let rest = check_functions args in
        elim (find_symbols arg) [
          | none ↦ ok 22
          | some found ↦ elim found.0 [
            | none ↦ ok 22
            | some symbol1 ↦ elim found.1 [
              | none ↦ ok 22
              | some symbol2 ↦
                  compare_flows symbol1 symbol2 >>= λ equal. if equal then rest else ok 23
            ]
          ]
        ]

  unfoldable pub cli_checkflow : List String → Outcome ℕ
  unfolding check_functions
  cli_checkflow (file1 ∷ file2 ∷ arg ∷ args) =
      if not (set.is_regular_file file1)
      then ok 21
      else if not (set.is_regular_file file2)
      then ok 21
      else set.open_project file1 >>= λ p1.
          set.open_project file2 >>= λ p2. check_functions p1 p2 (arg ∷ args)
  cli_checkflow _ = ok 20

  -- `exit(-1)` gives the code 255.
  unfoldable pub cli_compare : List String → Outcome ℕ
  unfolding compare_programs
  cli_compare (file1 ∷ file2 ∷ []) =
      if not (set.is_regular_file file1)
      then ok 16
      else if not (set.is_regular_file file2)
      then ok 16
      else set.open_project file1 >>= λ p1. set.open_project file2 >>= λ p2.
          compare_programs set.host set.types p1 p2 set.depth >>= λ equal.
          ok (if equal then 0 else 255)
  cli_compare _ = ok 15
