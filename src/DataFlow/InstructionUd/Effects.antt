-- ===== src/DataFlow/InstructionUd/Effects.antt =====
-- `instructionUD` of src/data_flow/PpcInstructionUD.cpp on every instruction.
use ppc2cpp.Prelude.{
  ℕ, ◌<◌, ◌≡◌, refl, ap, ◌∙◌, true, not, ◌&&◌, Option, List, [], ◌++◌, if◌then◌else◌, arith,
  Bool-cases, inl, inr,
}
use ppc2cpp.Common.Insn.{is_branch}
use ppc2cpp.Model.CpuMemory.{CpuMemoryLocation}
use ppc2cpp.Model.Symbol.{Relocation}
use ppc2cpp.Program.{Outcome, ok, err, runtime_error, OperandValue, bo}
use ppc2cpp.DataFlow.InsnSets.{has}
use ppc2cpp.DataFlow.InsnSets.Lists.{sets_cr0, sets_cr1}
use ppc2cpp.DataFlow.InstructionUd.{
  Opcode, InstructionUd, Tables, empty_ud, append_cr_register, add_operands, instruction_ud,
}
use ppc2cpp.DataFlow.InstructionUd.Branch.{branch_effects, handle_branch_ud-effects}
use ppc2cpp.DataFlow.InstructionUd.Operands.{
  accepted, reads, writes, non_store, constants, kept_imms, kept_refs, usable_reloc,
  add_operands-effects, add_implicit-effects,
}

module _ (t : Tables) (op : Opcode) (insn : ℕ) (maybe_reloc : Option Relocation)
    (operand_value : OperandValue) where
  -- The condition registers that an opcode sets besides its operands.
  abbrev pub implicit_writes : List CpuMemoryLocation
  implicit_writes =
      (if has t.form sets_cr0 op.opcode then append_cr_register [] 0 else [])
      ++ (if has t.form sets_cr1 op.opcode then append_cr_register [] 1 else [])

  -- What a supported instruction other than a branch reads, writes and keeps.
  abbrev pub operand_effects : Outcome InstructionUd
  operand_effects =
      if accepted t op insn op.operands
      then ok (record {
        inputs = reads t op insn (non_store t op insn) op.operands;
        outputs = writes t op insn (non_store t op insn) op.operands ++ implicit_writes;
        imms = kept_imms (usable_reloc t op insn maybe_reloc) (constants t op insn op.operands);
        refs = kept_refs (usable_reloc t op insn maybe_reloc) (constants t op insn op.operands);
      })
      else err runtime_error

  -- Where the field BO has five bits, `instructionUD` throws on an unsupported opcode. A branch
  -- writes the link register where its bit LK is set. An unconditional one reads nothing, and keeps
  -- its relocation as a reference, or where it has none, LI and its bit AA as immediates. Another
  -- branch uses the count register where bit 2 of BO is clear, reads the condition bit where bit 4
  -- is clear and the register that it jumps to, keeps BO as an immediate, and if it is conditional,
  -- its relocation or BD and AA; it is refused for a BO of 28 or more. Any other instruction is
  -- refused exactly when an operand is neither a register, an immediate nor to be ignored; else its
  -- first register is written unless it is a store, the others are read, RAL and RAS are written
  -- also, and CR0 and CR1 where the opcode sets them; each immediate is kept as an immediate, or
  -- where the opcode can have a relocation and there is one, as a reference to it.
  pub instruction_ud-effects :
      operand_value bo insn < 32
      → instruction_ud t op insn maybe_reloc operand_value ≡ (
          if not (has t.form t.sets.supported_insn op.opcode)
          then err runtime_error
          else if is_branch insn
          then branch_effects insn operand_value maybe_reloc
          else operand_effects)
  unfolding instruction_ud
  instruction_ud-effects h = elim (Bool-cases (has t.form t.sets.supported_insn op.opcode)) [
    | inr e ↦ rw e refl
    | inl e ↦ elim (Bool-cases (is_branch insn)) [
      | inl b ↦ rw (e, b) (handle_branch_ud-effects operand_value insn maybe_reloc h)
      | inr b ↦
          let loop = add_operands-effects t op insn maybe_reloc op.operands 0 empty_ud in
          let first : non_store t op insn && true ≡ non_store t op insn = ground arith in
          elim (Bool-cases (accepted t op insn op.operands)) [
            | inl a ↦
                let done : InstructionUd = record {
                  inputs = reads t op insn (non_store t op insn && true) op.operands;
                  outputs = writes t op insn (non_store t op insn && true) op.operands;
                  imms =
                      kept_imms (usable_reloc t op insn maybe_reloc)
                        (constants t op insn op.operands);
                  refs =
                      kept_refs (usable_reloc t op insn maybe_reloc)
                        (constants t op insn op.operands);
                } in
                let added : add_operands t op insn maybe_reloc op.operands 0 empty_ud ≡ ok done =
                  loop ∙ rw a refl in
                rw (e, b, a, added)
                  (ap ok (add_implicit-effects t op insn maybe_reloc done) ∙ rw first refl)
            | inr a ↦
                let failed : add_operands t op insn maybe_reloc op.operands 0 empty_ud
                    ≡ err runtime_error =
                  loop ∙ rw a refl in
                rw (e, b, a, failed) refl
          ]
    ]
  ]
