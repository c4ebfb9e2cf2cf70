-- ===== src/ControlFlow/Analysis.antt =====
-- src/control_flow/ControlFlowAnalysis.cpp. `functionCFA` calls itself on each new block; the model
-- takes that call as the argument `visit`, and bounds its depth by fuel.
pub mod Post
pub mod Walk
pub mod Sound
use ppc2cpp.Prelude.{
  ℕ, zero, suc, ◌+◌, ◌-◌, ◌*◌, ◌/◌, Bool, true, false, not, ◌&&◌, ◌||◌, Option, none, some, ◌==◌,
  ltb, if◌then◌else◌, sub32,
}
use ppc2cpp.Common.Endian.{Endian}
use ppc2cpp.Common.Insn.{
  is_link, is_absolute, is_branch_unconditional, is_branch_conditional, is_branch_to_lr,
  is_branch_to_ctr, is_branch_condition_unconditional,
}
use ppc2cpp.Model.Location.{ProgramLocation, advance}
use ppc2cpp.Model.Symbol.{Symbol, contains}
use ppc2cpp.Program.{
  Buffer, Loader, OperandValue, li, bd, word_at, Fault, out_of_fuel, Outcome, ok, err, ◌>>=◌, ◌>>◌,
  value, assert,
}
use ppc2cpp.ControlFlow.Graph.{
  ControlFlowGraph, block_at, init, try_create_successor_internal, create_successor_external,
  create_successor_runtime, create_successor_fallthrough, has_external_successor,
  find_internal_block_by_position, mark, call, tail_call, exit,
}

-- `Function::length`
abbrev pub num_insns : Symbol → ℕ
num_insns s = s.size / 4

abbrev pub Visit : Type 0
Visit = ControlFlowGraph → ℕ → Outcome ControlFlowGraph

-- `maybeNewBlock = tryCreateSuccessorInternal(…); if (maybeNewBlock >= 0) functionCFA(…)`
unfoldable pub descend : Visit → ControlFlowGraph → ℕ → ℕ → ℕ → Outcome ControlFlowGraph
descend visit g block pc target =
    let (g', new) = try_create_successor_internal g block pc target in
    elim new [ none ↦ ok g' | some b ↦ visit g' b ]

-- `if (isLink(insn)) blocks[blockIdx].endsInCall = true`
abbrev pub marked_call : Bool → ℕ → ControlFlowGraph → ControlFlowGraph
marked_call true block g = mark call g block
marked_call false block g = g

module _ (host : Endian) (operand_value : OperandValue) (ld : Loader) (func : Symbol) where
  unfoldable pub handle_branch : Visit → ControlFlowGraph → ℕ → ℕ → ℕ → ℕ → Outcome ControlFlowGraph
  unfolding descend contains advance is_absolute
  handle_branch visit g insn block pc branch_val = do
    target ←
        value (ld.resolve_target (advance func.location (4 * pc)) branch_val (is_absolute insn))
    if contains func target
        then descend visit g block pc (sub32 target.section_offset func.location.section_offset / 4)
        else ok (create_successor_external g block pc)

  -- Control comes back behind the branch.
  unfoldable pub fall_past : Visit → ControlFlowGraph → ℕ → ℕ → Outcome ControlFlowGraph
  unfolding descend
  fall_past visit g block pc = do
    assert (ltb (pc + 1) (num_insns func))
    descend visit g block pc (pc + 1)

  abbrev pub at_end : ControlFlowGraph → ℕ → ℕ → Bool
  at_end g block pc = pc + 1 == num_insns func && has_external_successor g block

  unfoldable pub unconditional : Visit → ControlFlowGraph → ℕ → ℕ → ℕ → Outcome ControlFlowGraph
  unfolding handle_branch fall_past is_link
  unconditional visit g insn block pc = do
    g1 ← handle_branch visit g insn block pc (operand_value li insn)
    if is_link insn
        then (do g2 ← fall_past visit g1 block pc; ok (mark call g2 block))
        else ok (if at_end g1 block pc then mark tail_call g1 block else g1)

  unfoldable pub conditional : Visit → ControlFlowGraph → ℕ → ℕ → ℕ → Outcome ControlFlowGraph
  unfolding handle_branch fall_past is_link is_branch_condition_unconditional
  conditional visit g insn block pc = do
    g1 ← handle_branch visit g insn block pc (operand_value bd insn)
    if is_link insn || not (is_branch_condition_unconditional insn)
        then (do g2 ← fall_past visit g1 block pc; ok (marked_call (is_link insn) block g2))
        else if not (is_link insn) && at_end g1 block pc
        then (do assert (is_branch_condition_unconditional insn); ok (mark tail_call g1 block))
        else ok g1

  -- `blr` and `bctr`
  unfoldable pub to_register : Visit → ControlFlowGraph → ℕ → ℕ → ℕ → Outcome ControlFlowGraph
  unfolding fall_past is_link is_branch_condition_unconditional is_branch_to_lr is_branch_to_ctr
  to_register visit g insn block pc =
      let g1 = create_successor_runtime g block pc in
      if is_link insn || not (is_branch_condition_unconditional insn)
      then (do g2 ← fall_past visit g1 block pc; ok (marked_call (is_link insn) block g2))
      else if is_branch_to_lr insn && not (is_link insn) && is_branch_condition_unconditional insn
      then ok (mark exit g1 block)
      else if not (is_link insn) && is_branch_to_ctr insn && at_end g1 block pc
      then (do assert (is_branch_condition_unconditional insn); ok (mark tail_call g1 block))
      else ok g1

  -- The loop over pc, with the number of rounds that are left.
  unfoldable pub walk : Visit → Buffer → ℕ → ControlFlowGraph → ℕ → ℕ → Outcome ControlFlowGraph
  unfolding unconditional conditional to_register
  walk visit buf zero g block pc = ok g
  walk visit buf (suc rounds) g block pc =
      let insn = word_at host buf pc in
      let rest = walk visit buf rounds g block (pc + 1) in
      if is_branch_unconditional insn
      then unconditional visit g insn block pc
      else if is_branch_conditional insn
      then conditional visit g insn block pc
      else if is_branch_to_lr insn || is_branch_to_ctr insn
      then to_register visit g insn block pc
      else elim (find_internal_block_by_position g (pc + 1)) [
        | none ↦ rest
        | some following ↦
            if ltb (pc + 1) (num_insns func)
            then ok (create_successor_fallthrough g block pc following)
            else rest
      ]

  -- `functionCFA(func, blockIdx)`
  unfoldable pub block_cfa : ℕ → ControlFlowGraph → ℕ → Outcome ControlFlowGraph
  unfolding walk
  block_cfa zero g block = err out_of_fuel
  block_cfa (suc fuel) g block = do
    buf ← value (ld.get_buffer_at_location func.location)
    let start = (block_at g block).start
    walk (block_cfa fuel) buf (num_insns func - start) g block start

  -- `functionCFA(func)`. No two internal blocks start at one position, and none starts behind the
  -- function, so the calls are nested at most length + 1 deep.
  unfoldable pub function_cfa : ControlFlowGraph → Outcome ControlFlowGraph
  unfolding init block_cfa
  function_cfa g = block_cfa (num_insns func + 1) (init g) 0
