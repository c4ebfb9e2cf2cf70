-- ===== src/ControlFlow/Analysis/Walk.antt =====
-- src/control_flow/ControlFlowAnalysis.cpp: what the handling of each kind of branch, and the loop
-- over the instructions of a block, do to the graph, for a visit of new blocks that does as much.
use ppc2cpp.Prelude.{
  ℕ, zero, suc, ◌+◌, ◌*◌, ◌≤◌, ◌<◌, ◌≡◌, refl, subst, Bool, false, not, ◌&&◌, ◌||◌, Option, none,
  some, ltb, ltb→lt, if◌then◌else◌, u32_mod, arith, Option-cases, Bool-cases, inl, inr, dec_lt,
}
use ppc2cpp.Common.Endian.{Endian}
use ppc2cpp.Common.Insn.{
  is_branch, is_link, is_absolute, is_branch_unconditional, is_branch_conditional, is_branch_to_lr,
  is_branch_to_ctr, is_branch_condition_unconditional, is_branch_kinds,
}
use ppc2cpp.Model.Location.{ProgramLocation, advance}
use ppc2cpp.Model.Symbol.{Symbol, contains, contains_bounds}
use ppc2cpp.Program.{
  Buffer, Loader, OperandValue, li, bd, word_at, Outcome, ok, ◌>>=◌, ◌>>◌, value, assert,
}
use ppc2cpp.ControlFlow.Graph.{
  ControlFlowGraph, block_at, create_successor_runtime, create_successor_fallthrough,
  find_internal_block_by_position, mark, call, tail_call, exit,
}
use ppc2cpp.ControlFlow.Graph.Edit.{Edits, to_external, to_runtime, to_following, done, then_}
use ppc2cpp.ControlFlow.Analysis.{
  num_insns, Visit, handle_branch, fall_past, at_end, marked_call, unconditional, conditional,
  to_register, walk,
}
use ppc2cpp.ControlFlow.Analysis.Post.{
  Post, Post-trans, Post-bind, Post-assert, Post-if, Post-mark, Post-marked_call, Ready,
  Ready-Edits, VisitOk, descend-Post,
}

-- No instruction from the first position up to the second, exclusive, is a branch.
abbrev pub Straight : Endian → Buffer → ℕ → ℕ → Type 0
Straight host buf start pos =
    (start ≤ pos) × ((q : ℕ) → start ≤ q → q < pos → is_branch (word_at host buf q) ≡ false)

pub Straight-refl : (host : Endian) (buf : Buffer) (p : ℕ) → Straight host buf p p
Straight-refl host buf p = (omega arith, λ q l h. absurd (omega arith))

module _ (host : Endian) (operand_value : OperandValue) (ld : Loader) (func : Symbol) (buf : Buffer)
    (fuel : ℕ) (offset_lt : func.location.section_offset < u32_mod)
    (target_lt : (l : ProgramLocation) (v : ℕ) (a : Bool) (t : ProgramLocation)
      → ld.resolve_target l v a ≡ some t
      → t.section_offset < u32_mod) where
  abbrev Span : ℕ → ℕ → Type 0
  Span = Straight host buf

  abbrev positions : ℕ
  positions = num_insns func + 1

  abbrev IsReady : ControlFlowGraph → ℕ → ℕ → Type 0
  IsReady = Ready Span positions fuel

  module _ (visit : Visit) (works : VisitOk Span positions fuel visit) where
    handle_branch-Post :
        (g : ControlFlowGraph) (insn block pc v : ℕ)
        → IsReady g block pc
        → Post Span g (handle_branch host operand_value ld func visit g insn block pc v)
    unfolding handle_branch
    handle_branch-Post g insn block pc v at =
        let pc_loc = advance func.location (4 * pc) in
        elim (Option-cases (ld.resolve_target pc_loc v (is_absolute insn))) [
          | inl e ↦ rw (e, value, ◌>>=◌) (λ f. cc)
          | inr (t, e) ↦
              rw (e, value, ◌>>=◌)
                (elim (Bool-cases (contains func t)) [
                  | inl c ↦ rw c (
                      descend-Post Span positions fuel visit g block pc _ works at (
                        omega
                          (arith, contains_bounds func t offset_lt (target_lt pc_loc v _ t e) c)))
                  | inr c ↦ rw c (then_ done (to_external block pc at.0 at.1))
                ])
        ]

    fall_past-Post :
        (g : ControlFlowGraph) (block pc : ℕ)
        → IsReady g block pc
        → Post Span g (fall_past host operand_value ld func visit g block pc)
    unfolding fall_past
    fall_past-Post g block pc at = Post-assert Span g (ltb (pc + 1) (num_insns func)) _ λ h.
        descend-Post Span positions fuel visit g block pc (pc + 1) works at
          (omega (arith, ltb→lt (pc + 1) (num_insns func) h))

    unconditional-Post :
        (g : ControlFlowGraph) (insn block pc : ℕ)
        → IsReady g block pc
        → Post Span g (unconditional host operand_value ld func visit g insn block pc)
    unfolding unconditional
    unconditional-Post g insn block pc at =
        Post-bind Span g _ _ (handle_branch-Post g insn block pc (operand_value li insn) at)
          λ g1 es.
            let at1 = Ready-Edits Span positions fuel g g1 block pc es at in
            Post-if Span g1 (is_link insn) _ _
              (Post-bind Span g1 _ _ (fall_past-Post g1 block pc at1)
                (λ g2 _. Post-mark Span g2 call block))
              (elim (Bool-cases (at_end host operand_value ld func g1 block pc)) [
                | inl e ↦ rw e (Post-mark Span g1 tail_call block)
                | inr e ↦ rw e done
              ])

    -- What follows a branch that may come back.
    abbrev returning : ControlFlowGraph → Bool → ℕ → ℕ → Outcome ControlFlowGraph
    returning g linked block pc = fall_past host operand_value ld func visit g block pc >>= λ g2.
        ok (marked_call linked block g2)

    returning-Post :
        (g : ControlFlowGraph) (linked : Bool) (block pc : ℕ)
        → IsReady g block pc
        → Post Span g (returning g linked block pc)
    returning-Post g linked block pc at =
        Post-bind Span g _ _ (fall_past-Post g block pc at)
          (λ g2 _. Post-marked_call Span g2 linked block)

    -- What follows one that may not: a tail call, if the test passes.
    abbrev leaving : ControlFlowGraph → Bool → Bool → ℕ → Outcome ControlFlowGraph
    leaving g test sure block = if test then (assert sure >> ok (mark tail_call g block)) else ok g

    leaving-Post :
        (g : ControlFlowGraph) (test sure : Bool) (block : ℕ)
        → Post Span g (leaving g test sure block)
    leaving-Post g test sure block =
        Post-if Span g test (assert sure >> ok (mark tail_call g block)) (ok g)
          (Post-assert Span g sure (ok (mark tail_call g block))
            (λ _. Post-mark Span g tail_call block))
          done

    conditional-Post :
        (g : ControlFlowGraph) (insn block pc : ℕ)
        → IsReady g block pc
        → Post Span g (conditional host operand_value ld func visit g insn block pc)
    unfolding conditional
    conditional-Post g insn block pc at =
        Post-bind Span g _ _ (handle_branch-Post g insn block pc (operand_value bd insn) at)
          λ g1 es.
            let at1 = Ready-Edits Span positions fuel g g1 block pc es at in
            let sure = is_branch_condition_unconditional insn in
            let test = not (is_link insn) && at_end host operand_value ld func g1 block pc in
            Post-if Span g1 (is_link insn || not sure) (returning g1 (is_link insn) block pc)
              (leaving g1 test sure block) (returning-Post g1 (is_link insn) block pc at1)
              (leaving-Post g1 test sure block)

    to_register-Post :
        (g : ControlFlowGraph) (insn block pc : ℕ)
        → IsReady g block pc
        → Post Span g (to_register host operand_value ld func visit g insn block pc)
    unfolding to_register
    to_register-Post g insn block pc at =
        let g1 = create_successor_runtime g block pc in
        let es : Edits Span g g1 = then_ done (to_runtime block pc at.0 at.1) in
        let at1 = Ready-Edits Span positions fuel g g1 block pc es at in
        let sure = is_branch_condition_unconditional insn in
        let returns = is_branch_to_lr insn && not (is_link insn) && sure in
        let test =
          not (is_link insn)
          && is_branch_to_ctr insn
          && at_end host operand_value ld func g1 block pc in
        let rest = leaving g1 test sure block in
        Post-trans Span g g1 (to_register host operand_value ld func visit g insn block pc) es (
          Post-if Span g1 (is_link insn || not sure) (returning g1 (is_link insn) block pc)
            (if returns then ok (mark exit g1 block) else rest)
            (returning-Post g1 (is_link insn) block pc at1)
            (Post-if Span g1 returns (ok (mark exit g1 block)) rest (Post-mark Span g1 exit block)
              (leaving-Post g1 test sure block)))

    -- One more instruction that is no branch.
    Straight-suc :
        (start pc : ℕ)
        → is_branch (word_at host buf pc) ≡ false
        → Span start pc
        → Span start (pc + 1)
    Straight-suc start pc e (l, none_) = (
      omega arith,
      λ q a b. elim (dec_lt q pc) [
        | yes lt ↦ none_ q a lt
        | no ge ↦
            subst (λ n. is_branch (word_at host buf n) ≡ false) {x = pc} {y = q} (omega arith) e
      ],
    )

    -- What follows an instruction that is no branch.
    follow-Post :
        (g : ControlFlowGraph) (block pc : ℕ) (rest : Outcome ControlFlowGraph) (o : Option ℕ)
        → find_internal_block_by_position g (pc + 1) ≡ o
        → IsReady g block pc
        → Post Span g rest
        → Post Span g (elim o [
          | none ↦ rest
          | some following ↦
              if ltb (pc + 1) (num_insns func)
              then ok (create_successor_fallthrough g block pc following)
              else rest
        ])
    follow-Post g block pc rest none e at p = p
    follow-Post g block pc rest (some following) e at p =
        Post-if Span g (ltb (pc + 1) (num_insns func))
          (ok (create_successor_fallthrough g block pc following)) rest
          (then_ done (to_following block pc (pc + 1) following at.0 at.1 e)) p

    pub walk-Post :
        (rounds : ℕ) (g : ControlFlowGraph) (block pc : ℕ)
        → IsReady g block pc
        → Post Span g (walk host operand_value ld func visit buf rounds g block pc)
    unfolding walk
    walk-Post zero g block pc at = done
    walk-Post (suc rounds) g block pc at =
        let insn = word_at host buf pc in
        let kinds = is_branch_kinds insn in
        let rest = walk host operand_value ld func visit buf rounds g block (pc + 1) in
        let next = walk-Post rounds g block (pc + 1) in
        elim (Bool-cases (is_branch_unconditional insn)) [
          | inl u ↦ rw u (unconditional-Post g insn block pc at)
          | inr u ↦ rw u (elim (Bool-cases (is_branch_conditional insn)) [
            | inl c ↦ rw c (conditional-Post g insn block pc at)
            | inr c ↦ rw c (elim (Bool-cases (is_branch_to_lr insn || is_branch_to_ctr insn)) [
              | inl r ↦ rw r (to_register-Post g insn block pc at)
              | inr r ↦ rw r (
                  follow-Post g block pc rest (find_internal_block_by_position g (pc + 1)) refl at (
                    next
                      (at.0, Straight-suc (block_at g block).start pc (ground arith) at.1, at.2)))
            ])
          ])
        ]
