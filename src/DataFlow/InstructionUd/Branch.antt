-- ===== src/DataFlow/InstructionUd/Branch.antt =====
-- What a branch reads, writes and keeps, in terms of the bits of its BO field.
use ppc2cpp.Prelude.{
  ℕ, ◌<◌, ◌≡◌, refl, ◌∙◌, append-nil, append_assoc, none, some, Bool, true, false, not, Option,
  List, [], ◌∷◌, ◌++◌, if◌then◌else◌, ltb, bit, arith, Bool-cases, inl, inr,
}
use ppc2cpp.Common.Insn.{
  is_link, is_absolute, is_branch_unconditional, is_branch_conditional, is_branch_to_lr,
  is_branch_to_ctr, is_branch_kinds,
}
use ppc2cpp.Model.CpuMemory.{CpuMemoryLocation, cr_bit}
use ppc2cpp.Model.Symbol.{Relocation}
use ppc2cpp.Program.{Outcome, ok, err, runtime_error, ◌>>=◌, OperandValue, li, bd, bo, bi}
use ppc2cpp.DataFlow.InstructionUd.{
  InstructionUd, empty_ud, ctr, lr, loc, push_imm, push_output, push_target, decode_bo, target_of,
  handle_branch_ud,
}

abbrev pub when : Bool → CpuMemoryLocation → List CpuMemoryLocation
when b l = if b then l ∷ [] else []

-- The count register is used where bit 2 is clear, and the condition where bit 4 is.
abbrev pub bo_effects : ℕ → ℕ → InstructionUd → InstructionUd
bo_effects b bi_value ud = record ud {
  inputs = when (not (bit b 2)) ctr ++ when (not (bit b 4)) (loc cr_bit bi_value);
  outputs = when (not (bit b 2)) ctr;
}

decode_bo_cases :
    (b bi_value : ℕ) (imms : List ℕ) (refs : List Relocation)
    → b < 32
    → let ud : InstructionUd = record { inputs = []; outputs = []; imms = imms; refs = refs } in
      decode_bo b bi_value ud
      ≡ (if ltb b 28 then ok (bo_effects b bi_value ud) else err runtime_error)
unfolding decode_bo
decode_bo_cases b bi_value imms refs h = ground arith

-- What a branch keeps as its target: the relocation, or else the displacement and the absolute bit.
abbrev pub target_imms : Option Relocation → ℕ → ℕ → List ℕ
target_imms (some reloc) displacement insn = []
target_imms none displacement insn = displacement ∷ (if is_absolute insn then 1 else 0) ∷ []

abbrev pub target_refs : Option Relocation → List Relocation
target_refs (some reloc) = reloc ∷ []
target_refs none = []

-- What a branch reads, writes and keeps, told from its bits, the fields LI, BD, BO and BI, and its
-- relocation.
abbrev pub branch_effects : ℕ → OperandValue → Option Relocation → Outcome InstructionUd
branch_effects insn fields maybe_reloc =
    let b = fields bo insn in
    let counted = when (not (bit b 2)) ctr in
    let tested = when (not (bit b 4)) (loc cr_bit (fields bi insn)) in
    let from = when (is_branch_to_lr insn) lr ++ when (is_branch_to_ctr insn) ctr in
    if is_branch_unconditional insn
    then ok (record {
      inputs = [];
      outputs = when (is_link insn) lr;
      imms = target_imms maybe_reloc (fields li insn) insn;
      refs = target_refs maybe_reloc;
    })
    else if ltb b 28
    then ok (record {
      inputs = (counted ++ tested) ++ from;
      outputs = counted ++ when (is_link insn) lr;
      imms =
          b
          ∷ (if is_branch_conditional insn
              then target_imms maybe_reloc (fields bd insn) insn
              else []);
      refs = if is_branch_conditional insn then target_refs maybe_reloc else [];
    })
    else err runtime_error

link_adds :
    (linked : Bool) (ud : InstructionUd)
    → (if linked then push_output lr ud else ud)
      ≡ record ud { outputs = ud.outputs ++ when linked lr }
link_adds true ud = refl
link_adds false ud = rw (append-nil ud.outputs) refl

push_target_adds :
    (maybe_reloc : Option Relocation) (displacement insn : ℕ) (ud : InstructionUd)
    → push_target maybe_reloc displacement insn ud ≡ record ud {
      imms = ud.imms ++ target_imms maybe_reloc displacement insn;
      refs = ud.refs ++ target_refs maybe_reloc;
    }
push_target_adds (some reloc) displacement insn ud = rw (append-nil ud.imms) refl
push_target_adds none displacement insn ud =
    let absolute : ℕ = if is_absolute insn then 1 else 0 in
    let joined = append_assoc ud.imms (displacement ∷ []) (absolute ∷ []) in
    rw (append-nil ud.refs, joined) refl

module _ (operand_value : OperandValue) (insn : ℕ) (maybe_reloc : Option Relocation) where
  target_of_adds :
      (ud : InstructionUd)
      → target_of operand_value insn maybe_reloc ud ≡ record ud {
        inputs = ud.inputs ++ (when (is_branch_to_lr insn) lr ++ when (is_branch_to_ctr insn) ctr);
        imms =
            ud.imms
            ++ (if is_branch_conditional insn
                then target_imms maybe_reloc (operand_value bd insn) insn
                else []);
        refs = ud.refs ++ (if is_branch_conditional insn then target_refs maybe_reloc else []);
      }
  unfolding target_of
  target_of_adds ud =
      let (_, _, _, k, l) = is_branch_kinds insn in
      let no_inputs = append-nil ud.inputs in
      let no_imms = append-nil ud.imms in
      let no_refs = append-nil ud.refs in
      elim (Bool-cases (is_branch_conditional insn)) [
        | inl c ↦
            let not_lr : is_branch_to_lr insn ≡ false = ground arith in
            let not_ctr : is_branch_to_ctr insn ≡ false = ground arith in
            rw (c, not_lr, not_ctr, no_inputs)
              (push_target_adds maybe_reloc (operand_value bd insn) insn ud)
        | inr c ↦ elim (Bool-cases (is_branch_to_lr insn)) [
          | inl to_lr ↦
              let not_ctr : is_branch_to_ctr insn ≡ false = ground arith in
              rw (c, to_lr, not_ctr, no_imms, no_refs) refl
          | inr to_lr ↦ elim (Bool-cases (is_branch_to_ctr insn)) [
            | inl to_ctr ↦ rw (c, to_lr, to_ctr, no_imms, no_refs) refl
            | inr to_ctr ↦ rw (c, to_lr, to_ctr, no_inputs, no_imms, no_refs) refl
          ]
        ]
      ]

  pub handle_branch_ud-effects :
      operand_value bo insn < 32
      → handle_branch_ud operand_value insn maybe_reloc empty_ud
        ≡ branch_effects insn operand_value maybe_reloc
  unfolding handle_branch_ud
  handle_branch_ud-effects h =
      let b = operand_value bo insn in
      let start = push_imm b empty_ud in
      let d = decode_bo_cases b (operand_value bi insn) start.imms [] h in
      elim (Bool-cases (is_branch_unconditional insn)) [
        | inl u ↦
            let jump = push_target maybe_reloc (operand_value li insn) insn empty_ud in
            let target = push_target_adds maybe_reloc (operand_value li insn) insn empty_ud in
            let linked = link_adds (is_link insn) jump in rw (u, linked, target) refl
        | inr u ↦ elim (Bool-cases (ltb b 28)) [
          | inl lt ↦
              let used = bo_effects b (operand_value bi insn) start in
              let decoded : decode_bo b (operand_value bi insn) start ≡ ok used = d ∙ rw lt refl in
              let target = target_of_adds used in
              let linked =
                link_adds (is_link insn) (target_of operand_value insn maybe_reloc used) in
              rw (u, decoded, lt, ◌>>=◌, linked, target) refl
          | inr lt ↦
              let failed : decode_bo b (operand_value bi insn) start ≡ err runtime_error =
                d ∙ rw lt refl in
              rw (u, failed, lt) refl
        ]
      ]
