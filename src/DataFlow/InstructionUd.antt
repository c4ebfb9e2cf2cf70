-- ===== src/DataFlow/InstructionUd.antt =====
-- src/data_flow/PpcInstructionUD.cpp and PpcOperandCats.cpp: which locations an instruction reads and
-- writes. The flags of an operand, the operand's value in a word and the operand tables are those of
-- ppcdisasm. An `int64_t` is a bit pattern.
pub mod Branch
pub mod Operands
pub mod Effects
use ppc2cpp.Prelude.{
  ℕ, zero, suc, ◌+◌, ◌*◌, ◌%◌, ◌^◌, Bool, true, false, not, ◌&&◌, ◌||◌, ◌==◌, Option, none, some,
  List, [], ◌∷◌, ◌++◌, if◌then◌else◌, bit, bits,
}
use ppc2cpp.Common.Insn.{
  is_branch, is_link, is_absolute, is_branch_unconditional, is_branch_conditional, is_branch_to_lr,
  is_branch_to_ctr,
}
use ppc2cpp.Model.CpuMemory.{
  CpuMemorySpace, gpr, fpr, cr_bit, gqr, spr, CpuMemoryLocation, spr_value_lr, spr_value_ctr,
}
use ppc2cpp.Model.Symbol.{Relocation}
use ppc2cpp.Program.{OperandValue, li, bd, bo, bi, Outcome, ok, err, runtime_error, ◌>>=◌}
use ppc2cpp.DataFlow.Form.{Form}
use ppc2cpp.DataFlow.InsnSets.{InsnSets, has}
use ppc2cpp.DataFlow.InsnSets.Lists.{sets_cr0, sets_cr1}

-- The flags of an operand that the source tests for, each of which has a bit of its own; `others` is
-- set when there is another flag that is not among `supportedConstantFlags`.
pub record OperandFlags : Type 0 where
  pub is_gpr : Bool
  pub is_gpr_0 : Bool
  pub is_fpr : Bool
  pub is_gqr : Bool
  pub is_cr_bit : Bool
  pub is_spr : Bool
  pub is_cr_reg : Bool
  pub is_optional32 : Bool
  pub others : Bool

-- An entry of `powerpc_operands`, its position, and `operand_value_powerpc` on it.
pub record Operand : Type 0 where
  pub idx : ℕ
  pub flags : OperandFlags
  pub value : ℕ → ℕ

pub record Opcode : Type 0 where
  pub opcode : ℕ
  pub operands : List Operand

pub record InstructionUd : Type 0 where
  pub inputs : List CpuMemoryLocation
  pub outputs : List CpuMemoryLocation
  pub imms : List ℕ
  pub refs : List Relocation

abbrev pub empty_ud : InstructionUd
empty_ud = record { inputs = []; outputs = []; imms = []; refs = [] }

abbrev pub loc : CpuMemorySpace → ℕ → CpuMemoryLocation
loc space value = record { memspace = space; value = value }

-- `push_back` on each of the vectors
abbrev pub push_input : CpuMemoryLocation → InstructionUd → InstructionUd
push_input l ud = record ud { inputs = ud.inputs ++ l ∷ [] }

abbrev pub push_output : CpuMemoryLocation → InstructionUd → InstructionUd
push_output l ud = record ud { outputs = ud.outputs ++ l ∷ [] }

abbrev pub push_imm : ℕ → InstructionUd → InstructionUd
push_imm x ud = record ud { imms = ud.imms ++ x ∷ [] }

abbrev pub push_ref : Relocation → InstructionUd → InstructionUd
push_ref r ud = record ud { refs = ud.refs ++ r ∷ [] }

unfoldable pub append_cr_register : List CpuMemoryLocation → ℕ → List CpuMemoryLocation
append_cr_register ops reg =
    let bit_of : ℕ → CpuMemoryLocation = λ i. loc cr_bit ((4 * reg + i) % 2 ^ 64) in
    ops ++ bit_of 0 ∷ bit_of 1 ∷ bit_of 2 ∷ bit_of 3 ∷ []

-- A GPR_0 operand of value 0 is the constant 0, not a register.
abbrev pub is_gpr_operand : OperandFlags → ℕ → Bool
is_gpr_operand flags value = flags.is_gpr || (flags.is_gpr_0 && not (value == 0))

unfoldable pub is_operand_register : OperandFlags → ℕ → Bool
is_operand_register flags value =
    if is_gpr_operand flags value
    then true
    else if flags.is_fpr
    then true
    else if flags.is_gqr
    then true
    else if flags.is_cr_bit
    then true
    else if flags.is_spr
    then true
    else flags.is_cr_reg

unfoldable pub append_operands :
    List CpuMemoryLocation → OperandFlags → ℕ → Outcome (List CpuMemoryLocation)
unfolding append_cr_register
append_operands ops flags value =
    if is_gpr_operand flags value
    then ok (ops ++ loc gpr value ∷ [])
    else if flags.is_fpr
    then ok (ops ++ loc fpr value ∷ [])
    else if flags.is_gqr
    then ok (ops ++ loc gqr value ∷ [])
    else if flags.is_cr_bit
    then ok (ops ++ loc cr_bit value ∷ [])
    else if flags.is_spr
    then ok (ops ++ loc spr value ∷ [])
    else if flags.is_cr_reg
    then ok (append_cr_register ops value)
    else err runtime_error

-- `(operandFlags & ~supportedConstantFlags) == 0`: none of the flags below is a supported constant's.
unfoldable pub is_immediate : OperandFlags → ℕ → Bool
is_immediate flags value =
    if flags.is_gpr_0 && value == 0
    then true
    else not (
        flags.is_gpr || flags.is_gpr_0 || flags.is_fpr || flags.is_gqr || flags.is_cr_bit
        || flags.is_spr || flags.is_cr_reg || flags.is_optional32 || flags.others)

unfoldable pub is_ignore : OperandFlags → Bool
is_ignore flags = flags.is_optional32

-- What a branch takes as its target: its relocation, or the displacement and the absolute bit.
abbrev pub push_target : Option Relocation → ℕ → ℕ → InstructionUd → InstructionUd
push_target (some reloc) displacement insn ud = push_ref reloc ud
push_target none displacement insn ud =
    push_imm (if is_absolute insn then 1 else 0) (push_imm displacement ud)

abbrev pub ctr : CpuMemoryLocation
ctr = loc spr spr_value_ctr

abbrev pub lr : CpuMemoryLocation
lr = loc spr spr_value_lr

abbrev pub counts_and_tests : ℕ → InstructionUd → InstructionUd
counts_and_tests bi_value ud =
    push_output ctr (push_input (loc cr_bit bi_value) (push_input ctr ud))

abbrev pub counts : InstructionUd → InstructionUd
counts ud = push_output ctr (push_input ctr ud)

-- The cases of the BO field. `((bo >> 1) & 0xb)` leaves bit 3 of the field out.
unfoldable pub decode_bo : ℕ → ℕ → InstructionUd → Outcome InstructionUd
decode_bo b bi_value ud =
    let masked = bits b 1 2 + (if bit b 4 then 8 else 0) in
    if bits b 1 4 == 0
    then ok (counts_and_tests bi_value ud)
    else if bits b 1 4 == 1
    then ok (counts_and_tests bi_value ud)
    else if bits b 2 3 == 1
    then ok (push_input (loc cr_bit bi_value) ud)
    else if bits b 1 4 == 4
    then ok (counts_and_tests bi_value ud)
    else if bits b 1 4 == 5
    then ok (counts_and_tests bi_value ud)
    else if bits b 2 3 == 3
    then ok (push_input (loc cr_bit bi_value) ud)
    else if masked == 8
    then ok (counts ud)
    else if masked == 9
    then ok (counts ud)
    else if bits b 2 3 == 5
    then ok ud
    else err runtime_error

module _ (operand_value : OperandValue) (insn : ℕ) (maybe_reloc : Option Relocation) where
  -- What a conditional branch uses besides BO and BI.
  unfoldable pub target_of : InstructionUd → InstructionUd
  unfolding is_branch_conditional is_branch_to_lr is_branch_to_ctr
  target_of ud =
      if is_branch_conditional insn
      then push_target maybe_reloc (operand_value bd insn) insn ud
      else if is_branch_to_lr insn
      then push_input lr ud
      else if is_branch_to_ctr insn
      then push_input ctr ud
      else ud

  unfoldable pub handle_branch_ud : InstructionUd → Outcome InstructionUd
  unfolding is_branch_unconditional is_link decode_bo target_of
  handle_branch_ud ud =
      let with_link : InstructionUd → InstructionUd =
        λ u. if is_link insn then push_output lr u else u in
      if is_branch_unconditional insn
      then ok (with_link (push_target maybe_reloc (operand_value li insn) insn ud))
      else decode_bo (operand_value bo insn) (operand_value bi insn)
          (push_imm (operand_value bo insn) ud)
        >>= λ u. ok (with_link (target_of u))

-- The sets of the instructions, and the positions of the operands RAL and RAS.
pub record Tables : Type 0 where
  pub form : Form → ℕ
  pub sets : InsnSets
  pub ral : ℕ
  pub ras : ℕ

module _ (t : Tables) (op : Opcode) (insn : ℕ) (maybe_reloc : Option Relocation) where
  -- A register operand, of which `count` came before.
  unfoldable pub add_register : Operand → ℕ → InstructionUd → Outcome InstructionUd
  unfolding append_operands
  add_register operand count ud =
      let v = operand.value insn in
      let is_output = has t.form t.sets.non_store_insn op.opcode && count == 0 in
      append_operands (if is_output then ud.outputs else ud.inputs) operand.flags v >>= λ ls.
      let u = if is_output then record ud { outputs = ls } else record ud { inputs = ls } in
      ok (if operand.idx == t.ral || operand.idx == t.ras then push_output (loc gpr v) u else u)

  unfoldable pub add_immediate : ℕ → InstructionUd → InstructionUd
  add_immediate v ud = elim maybe_reloc [
    | none ↦ push_imm v ud
    | some reloc ↦
        if has t.form t.sets.can_have_reloc_insn op.opcode then push_ref reloc ud else push_imm v ud
  ]

  -- The loop over the operands.
  unfoldable pub add_operands : List Operand → ℕ → InstructionUd → Outcome InstructionUd
  unfolding is_operand_register is_immediate is_ignore add_register add_immediate
  add_operands [] count ud = ok ud
  add_operands (o ∷ os) count ud =
      let v = o.value insn in
      let after_register = add_register o count ud >>= λ u. add_operands os (count + 1) u in
      let after_immediate = add_operands os count (add_immediate v ud) in
      let ignored = add_operands os count ud in
      if is_operand_register o.flags v
      then after_register
      else if is_immediate o.flags v
      then after_immediate
      else if is_ignore o.flags
      then ignored
      else err runtime_error

  -- CR0 and CR1 as implicit outputs.
  unfoldable pub add_implicit : InstructionUd → InstructionUd
  unfolding append_cr_register sets_cr0 sets_cr1
  add_implicit ud =
      let ud0 =
        if has t.form sets_cr0 op.opcode
        then record ud { outputs = append_cr_register ud.outputs 0 }
        else ud in
      if has t.form sets_cr1 op.opcode
      then record ud0 { outputs = append_cr_register ud0.outputs 1 }
      else ud0

  unfoldable pub instruction_ud : OperandValue → Outcome InstructionUd
  unfolding is_branch handle_branch_ud add_operands add_implicit
  instruction_ud operand_value =
      if not (has t.form t.sets.supported_insn op.opcode)
      then err runtime_error
      else if is_branch insn
      then handle_branch_ud operand_value insn maybe_reloc empty_ud
      else add_operands op.operands 0 empty_ud >>= λ ud. ok (add_implicit ud)
