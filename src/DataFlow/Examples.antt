-- ===== src/DataFlow/Examples.antt =====
-- The instruction sets and `instructionUD` at concrete inputs. The constants are numbered in the
-- order of the sets.
use ppc2cpp.Prelude.{
  ℕ, zero, suc, ◌↔◌, ◌≡◌, refl, sym, ◌∙◌, ap, some, true, false, List, [], ◌∷◌, ◌++◌, get_elem?,
  if◌then◌else◌, arith,
}
use mathlib.Core.Option.{some-injective}
use ppc2cpp.Model.CpuMemory.{gpr, fpr, gqr, ps1, spr, cr_bit}
use ppc2cpp.Model.Symbol.{Relocation}
use ppc2cpp.Program.{OperandValue, ok}
use ppc2cpp.Common.Insn.{is_branch}
use ppc2cpp.DataFlow.InsnSets.{has, init_instruction_ud, start_sets}
use ppc2cpp.DataFlow.InsnSets.Partition.{sets, memberships, memberships-supported_insn}
use ppc2cpp.DataFlow.InstructionUd.{
  OperandFlags, Operand, Opcode, Tables, loc, is_operand_register, is_immediate, append_cr_register,
  instruction_ud,
}
use ppc2cpp.DataFlow.InstructionUd.Effects.{instruction_ud-effects}
use ppc2cpp.DataFlow.Context.{
  Definition, FlowContext, get_sizes, context_union, set_definition, kill_definition,
}
use ppc2cpp.DataFlow.Context.Access.{Assigns, set_kill_definition}
use ppc2cpp.DataFlow.Context.Sizes.{context_union-sizes_iff}
use ppc2cpp.DataFlow.Convention.{killed_by_call, has_location, has_location-killed_by_call}
use ppc2cpp.DataFlow.Form.{Form, index}
use ppc2cpp.DataFlow.InsnSets.Lists.{
  fixed_point_insn, float_insn, load_insn, store_insn, branch_insn, sets_cr0, sets_cr1,
}

abbrev all_forms : List Form
unfolding fixed_point_insn float_insn load_insn store_insn branch_insn
all_forms = fixed_point_insn ++ float_insn ++ load_insn ++ store_insn ++ branch_insn

index-at : (f : Form) → get_elem? all_forms (index f) ≡ some f
unfolding fixed_point_insn float_insn load_insn store_insn branch_insn
index-at Form.add = refl
index-at _ = refl

index-injective : (f g : Form) → index f ≡ index g → f ≡ g
index-injective f g e =
    some-injective f g (sym (index-at f) ∙ ap (λ i. get_elem? all_forms i) e ∙ index-at g)

memberships-supported_insn_example :
    memberships index 7 ≡ (if has index sets.supported_insn 7 then 1 else 0)
memberships-supported_insn_example = memberships-supported_insn index 7 index-injective

adde_-supported : has index sets.supported_insn 7 ≡ true
unfolding init_instruction_ud start_sets fixed_point_insn float_insn load_insn store_insn
    branch_insn
adde_-supported = refl

abbrev plain : OperandFlags
plain = record {
  is_gpr = false;
  is_gpr_0 = false;
  is_fpr = false;
  is_gqr = false;
  is_cr_bit = false;
  is_spr = false;
  is_cr_reg = false;
  is_optional32 = false;
  others = false;
}

abbrev register : ℕ → ℕ → Operand
register idx v = record { idx = idx; flags = record plain { is_gpr = true }; value = λ _. v }

abbrev tables : Tables
tables = record { form = index; sets = sets; ral = 40; ras = 41 }

-- `addi r3, r4, 20` with a relocation
abbrev addi_op : Opcode
addi_op = record {
  opcode = index Form.addi;
  operands = register 1 3 ∷ register 2 4 ∷ record { idx = 3; flags = plain; value = λ _. 20 } ∷ [];
}

abbrev low_half : Relocation
low_half = record {
  source = record { binary_idx = 0; section_idx = 0; section_offset = 2 };
  destination = record { binary_idx = 0; section_idx = 1; section_offset = 20 };
  type = 4;
  addend = 0;
}

abbrev fields : OperandValue
fields _ _ = 20

instruction_ud-effects_example :
    instruction_ud tables addi_op 0x3864_0014 (some low_half) fields
    ≡ ok (record {
      inputs = loc gpr 4 ∷ [];
      outputs = loc gpr 3 ∷ [];
      imms = [];
      refs = low_half ∷ [];
    })
unfolding is_operand_register is_immediate init_instruction_ud start_sets is_branch fixed_point_insn
    float_insn load_insn store_insn branch_insn sets_cr0 sets_cr1 append_cr_register
instruction_ud-effects_example =
    instruction_ud-effects tables addi_op 0x3864_0014 (some low_half) fields (omega arith)

abbrev arrays_of : ℕ → List Definition
arrays_of zero = []
arrays_of (suc n) = [] ∷ arrays_of n

abbrev context : FlowContext
context = record {
  gprs = arrays_of 32;
  cr = arrays_of 32;
  lr = 3 ∷ [];
  ctr = [];
  xer = [];
  fprs = arrays_of 32;
  fpscr = [];
  gqrs = arrays_of 8;
  ps1s = arrays_of 32;
}

-- The special register 914 is GQR 2.
set_kill_definition_example :
    Assigns context (loc spr 914) (7 ∷ []) (set_definition context (loc spr 914) 7)
    × Assigns context (loc spr 914) [] (kill_definition context (loc spr 914))
set_kill_definition_example =
    set_kill_definition context (loc spr 914) 7 (refl, refl, refl, refl, refl) refl

context_union-sizes_iff_example :
    (get_sizes (context_union context context) ≡ get_sizes context)
    ↔ (context_union context context ≡ context)
context_union-sizes_iff_example = context_union-sizes_iff context context

has_location-killed_by_call_example :
    (has_location killed_by_call (loc gpr 14) ≡ false)
    × (has_location killed_by_call (loc fpr 14) ≡ false)
    × (has_location killed_by_call (loc cr_bit 14) ≡ false)
    × (has_location killed_by_call (loc gqr 14) ≡ false)
    × (has_location killed_by_call (loc ps1 14) ≡ false)
    × (has_location killed_by_call (loc spr 14) ≡ false)
has_location-killed_by_call_example = has_location-killed_by_call 14
