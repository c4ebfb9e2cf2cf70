-- ===== src/DataFlow/InsnSets.antt =====
-- The instruction sets of src/data_flow/PpcInstructionUD.cpp and `initInstructionUD`. A set is a list
-- of forms; `form` gives the values of the constants.
pub mod Lists
pub mod Partition
use ppc2cpp.Prelude.{ℕ, Bool, true, false, ◌||◌, List, [], ◌∷◌, ◌++◌, ◌==◌}
use ppc2cpp.DataFlow.Form.{Form}
use ppc2cpp.DataFlow.InsnSets.Lists.{
  fixed_point_insn, float_insn, load_insn, store_insn, branch_insn, can_have_reloc_start,
}

-- `set.contains(opcode)`
abbrev pub has : (Form → ℕ) → List Form → ℕ → Bool
has form [] opcode = false
has form (f ∷ set) opcode = (form f == opcode) || has form set opcode

-- The sets that are not constant.
pub record InsnSets : Type 0 where
  pub non_store_insn : List Form
  pub supported_insn : List Form
  pub can_have_reloc_insn : List Form

-- The sets at the start of the program.
unfoldable pub start_sets : InsnSets
unfolding can_have_reloc_start
start_sets = record {
  non_store_insn = [];
  supported_insn = [];
  can_have_reloc_insn = can_have_reloc_start;
}

unfoldable pub init_instruction_ud : InsnSets → InsnSets
unfolding fixed_point_insn float_insn load_insn store_insn branch_insn
init_instruction_ud s =
    let non_store = s.non_store_insn ++ fixed_point_insn ++ float_insn ++ load_insn in
    record {
      non_store_insn = non_store;
      supported_insn = s.supported_insn ++ non_store ++ store_insn ++ branch_insn;
      can_have_reloc_insn = s.can_have_reloc_insn ++ load_insn ++ store_insn;
    }
