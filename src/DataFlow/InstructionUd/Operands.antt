-- ===== src/DataFlow/InstructionUd/Operands.antt =====
-- What an instruction reads, writes and keeps, told operand by operand, and that `instructionUD`
-- gives it.
use ppc2cpp.Prelude.{
  ℕ, ◌+◌, ◌≡◌, refl, ◌∙◌, ap, Bool, true, false, none, some, map, ◌&&◌, ◌||◌, ◌==◌, Option, List,
  [], ◌∷◌, ◌++◌, if◌then◌else◌, arith, append-nil, append_assoc, Bool-cases, Option-cases, inl, inr,
}
use ppc2cpp.Model.CpuMemory.{CpuMemoryLocation, gpr, fpr, gqr, cr_bit, spr}
use ppc2cpp.Model.Symbol.{Relocation}
use ppc2cpp.Program.{ok, err, runtime_error, ◌>>=◌}
use ppc2cpp.DataFlow.InsnSets.{has}
use ppc2cpp.DataFlow.InsnSets.Lists.{sets_cr0, sets_cr1}
use ppc2cpp.DataFlow.InstructionUd.{
  OperandFlags, Operand, Opcode, InstructionUd, Tables, loc, append_cr_register, is_gpr_operand,
  is_operand_register, append_operands, is_immediate, is_ignore, add_register, add_immediate,
  add_operands, add_implicit,
}
use ppc2cpp.DataFlow.InstructionUd.Branch.{when}

-- The locations of a register operand: four bits for a field of the condition register.
abbrev pub locations : OperandFlags → ℕ → List CpuMemoryLocation
locations flags v =
    if is_gpr_operand flags v
    then loc gpr v ∷ []
    else if flags.is_fpr
    then loc fpr v ∷ []
    else if flags.is_gqr
    then loc gqr v ∷ []
    else if flags.is_cr_bit
    then loc cr_bit v ∷ []
    else if flags.is_spr
    then loc spr v ∷ []
    else append_cr_register [] v

append_operands-locations :
    (ops : List CpuMemoryLocation) (flags : OperandFlags) (v : ℕ)
    → is_operand_register flags v ≡ true
    → append_operands ops flags v ≡ ok (ops ++ locations flags v)
unfolding is_operand_register append_operands append_cr_register
append_operands-locations ops flags v h = elim (Bool-cases (is_gpr_operand flags v)) [
  | inl e ↦ rw e refl
  | inr e ↦ elim (Bool-cases flags.is_fpr) [
    | inl f ↦ rw (e, f) refl
    | inr f ↦ elim (Bool-cases flags.is_gqr) [
      | inl g ↦ rw (e, f, g) refl
      | inr g ↦ elim (Bool-cases flags.is_cr_bit) [
        | inl c ↦ rw (e, f, g, c) refl
        | inr c ↦ elim (Bool-cases flags.is_spr) [
          | inl s ↦ rw (e, f, g, c, s) refl
          | inr s ↦
              let r : flags.is_cr_reg ≡ true = rw (e, f, g, c, s) at h in rw (e, f, g, c, s, r) refl
        ]
      ]
    ]
  ]
]

-- A relocation takes the place of every immediate.
abbrev pub kept_imms : Option Relocation → List ℕ → List ℕ
kept_imms none vs = vs
kept_imms (some reloc) vs = []

abbrev pub kept_refs : Option Relocation → List ℕ → List Relocation
kept_refs none vs = []
kept_refs (some reloc) vs = map (λ _. reloc) vs

kept_cons :
    (r : Option Relocation) (v : ℕ) (vs : List ℕ)
    → (kept_imms r (v ∷ vs) ≡ kept_imms r (v ∷ []) ++ kept_imms r vs)
      × (kept_refs r (v ∷ vs) ≡ kept_refs r (v ∷ []) ++ kept_refs r vs)
kept_cons none v vs = (refl, refl)
kept_cons (some reloc) v vs = (refl, refl)

kept_nil : (r : Option Relocation) → (kept_imms r [] ≡ []) × (kept_refs r [] ≡ [])
kept_nil none = (refl, refl)
kept_nil (some reloc) = (refl, refl)

module _ (t : Tables) (op : Opcode) (insn : ℕ) where
  abbrev pub is_register : Operand → Bool
  is_register o = is_operand_register o.flags (o.value insn)

  -- Every operand is a register, an immediate or one to ignore.
  abbrev pub accepted : List Operand → Bool
  accepted [] = true
  accepted (o ∷ os) =
      (is_register o || is_immediate o.flags (o.value insn) || is_ignore o.flags) && accepted os

  -- The operands RAL and RAS are written back.
  abbrev pub update : Operand → List CpuMemoryLocation
  update o = when (o.idx == t.ral || o.idx == t.ras) (loc gpr (o.value insn))

  -- What the operands read and write; the flag says that the next register is the target.
  abbrev pub reads : Bool → List Operand → List CpuMemoryLocation
  reads target [] = []
  reads target (o ∷ os) =
      let behind = reads false os in
      let same = reads target os in
      if is_register o
      then (if target then [] else locations o.flags (o.value insn)) ++ behind
      else same

  abbrev pub writes : Bool → List Operand → List CpuMemoryLocation
  writes target [] = []
  writes target (o ∷ os) =
      let behind = writes false os in
      let same = writes target os in
      if is_register o
      then (if target then locations o.flags (o.value insn) else []) ++ update o ++ behind
      else same

  -- The values of the immediate operands.
  abbrev pub constants : List Operand → List ℕ
  constants [] = []
  constants (o ∷ os) =
      let behind = constants os in
      if is_register o
      then behind
      else if is_immediate o.flags (o.value insn)
      then o.value insn ∷ behind
      else behind

  abbrev pub non_store : Bool
  non_store = has t.form t.sets.non_store_insn op.opcode

  module _ (maybe_reloc : Option Relocation) where
    -- The relocation, if the opcode can have one.
    abbrev pub usable_reloc : Option Relocation
    usable_reloc = if has t.form t.sets.can_have_reloc_insn op.opcode then maybe_reloc else none

    add_register-effects :
        (o : Operand) (count : ℕ) (ud : InstructionUd)
        → is_register o ≡ true
        → add_register t op insn maybe_reloc o count ud
          ≡ ok (record ud {
            inputs =
                ud.inputs
                ++ (if non_store && count == 0 then [] else locations o.flags (o.value insn));
            outputs =
                ud.outputs
                ++ ((if non_store && count == 0 then locations o.flags (o.value insn) else [])
                    ++ update o);
          })
    unfolding add_register
    add_register-effects o count ud h =
        let v = o.value insn in
        let ls = locations o.flags v in
        let into_outputs = append_operands-locations ud.outputs o.flags v h in
        let into_inputs = append_operands-locations ud.inputs o.flags v h in
        let no_inputs = append-nil ud.inputs in
        let no_outputs = append-nil ud.outputs in
        elim (Bool-cases (non_store && count == 0)) [
          | inl e ↦ elim (Bool-cases (o.idx == t.ral || o.idx == t.ras)) [
            | inl w ↦
                let joined = append_assoc ud.outputs ls (loc gpr v ∷ []) in
                rw (e, into_outputs, w, no_inputs, ◌>>=◌, joined) refl
            | inr w ↦
                let no_update = append-nil ls in rw (e, into_outputs, w, no_inputs, no_update) refl
          ]
          | inr e ↦ elim (Bool-cases (o.idx == t.ral || o.idx == t.ras)) [
            | inl w ↦ rw (e, into_inputs, w) refl
            | inr w ↦ rw (e, into_inputs, w, no_outputs) refl
          ]
        ]

    add_immediate-effects :
        (v : ℕ) (ud : InstructionUd)
        → add_immediate t op insn maybe_reloc v ud ≡ record ud {
          imms = ud.imms ++ kept_imms usable_reloc (v ∷ []);
          refs = ud.refs ++ kept_refs usable_reloc (v ∷ []);
        }
    unfolding add_immediate
    add_immediate-effects v ud =
        let no_imms = append-nil ud.imms in
        let no_refs = append-nil ud.refs in
        elim (Bool-cases (has t.form t.sets.can_have_reloc_insn op.opcode)) [
          | inl f ↦ elim (Option-cases maybe_reloc) [
            | inl e ↦ rw (e, f, no_refs) refl
            | inr (r, e) ↦ rw (e, f, no_imms) refl
          ]
          | inr f ↦ elim (Option-cases maybe_reloc) [
            | inl e ↦ rw (e, f, no_refs) refl
            | inr (r, e) ↦ rw (e, f, no_refs) refl
          ]
        ]

    -- The loop over the operands, from any state: what it adds, or that it refuses an operand.
    pub add_operands-effects :
        (os : List Operand) (count : ℕ) (ud : InstructionUd)
        → add_operands t op insn maybe_reloc os count ud ≡ (
            if accepted os
            then ok (record {
              inputs = ud.inputs ++ reads (non_store && count == 0) os;
              outputs = ud.outputs ++ writes (non_store && count == 0) os;
              imms = ud.imms ++ kept_imms usable_reloc (constants os);
              refs = ud.refs ++ kept_refs usable_reloc (constants os);
            })
            else err runtime_error)
    unfolding add_operands
    add_operands-effects [] count ud =
        let kept = kept_nil usable_reloc in
        rw
          (
            kept.0,
            kept.1,
            append-nil ud.inputs,
            append-nil ud.outputs,
            append-nil ud.imms,
            append-nil ud.refs,
          )
          refl
    add_operands-effects (o ∷ os) count ud = elim (Bool-cases (is_register o)) [
      | inl r ↦
          let first = if non_store && count == 0 then locations o.flags (o.value insn) else [] in
          let other = if non_store && count == 0 then [] else locations o.flags (o.value insn) in
          let u : InstructionUd = record ud {
            inputs = ud.inputs ++ other;
            outputs = ud.outputs ++ (first ++ update o);
          } in
          let added = add_register-effects o count ud r in
          let ih = add_operands-effects os (count + 1) u in
          let later : non_store && count + 1 == 0 ≡ false = ground arith in
          let add_reads = append_assoc ud.inputs other (reads false os) in
          let add_writes = append_assoc ud.outputs (first ++ update o) (writes false os) in
          rw (r, added) (ih ∙ rw (later, add_reads, add_writes) refl)
      | inr r ↦ elim (Bool-cases (is_immediate o.flags (o.value insn))) [
        | inl i ↦
            let v = o.value insn in
            let added = add_immediate-effects v ud in
            let ih = add_operands-effects os count (add_immediate t op insn maybe_reloc v ud) in
            let kept = kept_cons usable_reloc v (constants os) in
            let add_imms =
              append_assoc ud.imms (kept_imms usable_reloc (v ∷ []))
                (kept_imms usable_reloc (constants os)) in
            let add_refs =
              append_assoc ud.refs (kept_refs usable_reloc (v ∷ []))
                (kept_refs usable_reloc (constants os)) in
            rw (r, i) (ih ∙ rw (added, kept.0, kept.1, add_imms, add_refs) refl)
        | inr i ↦ elim (Bool-cases (is_ignore o.flags)) [
          | inl g ↦ rw (r, i, g) (add_operands-effects os count ud)
          | inr g ↦ rw (r, i, g) refl
        ]
      ]
    ]

    pub add_implicit-effects :
        (ud : InstructionUd)
        → add_implicit t op insn maybe_reloc ud ≡ record ud {
          outputs =
              ud.outputs
              ++ ((if has t.form sets_cr0 op.opcode then append_cr_register [] 0 else [])
                  ++ (if has t.form sets_cr1 op.opcode then append_cr_register [] 1 else []));
        }
    unfolding add_implicit append_cr_register
    add_implicit-effects ud =
        let joined = append_assoc ud.outputs (append_cr_register [] 0) (append_cr_register [] 1) in
        elim (Bool-cases (has t.form sets_cr0 op.opcode)) [
          | inl c ↦ elim (Bool-cases (has t.form sets_cr1 op.opcode)) [
            | inl d ↦
                rw (c, d) (ap (λ (xs : List CpuMemoryLocation). record ud { outputs = xs }) joined)
            | inr d ↦ rw (c, d) refl
          ]
          | inr c ↦ elim (Bool-cases (has t.form sets_cr1 op.opcode)) [
            | inl d ↦ rw (c, d) refl
            | inr d ↦ let no_outputs = append-nil ud.outputs in rw (c, d, no_outputs) refl
          ]
        ]
