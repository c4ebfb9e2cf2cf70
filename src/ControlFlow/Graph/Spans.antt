-- ===== src/ControlFlow/Graph/Spans.antt =====
-- The extents of the blocks of ControlFlowGraph.hpp: what is known of each end that is set is known of
-- every block.
use ppc2cpp.Prelude.{
  ℕ, zero, suc, ◌<◌, List, [], ◌∷◌, ◌++◌, arith, length, modify, get_or, Option-cases, inl, inr,
}
use ppc2cpp.ControlFlow.Graph.{
  BasicBlock, internal, external, runtime, ControlFlowGraph, block_at, new_block,
  find_internal_block_by_position, Mark, call, tail_call, exit, mark, apply_mark, set_end,
  try_create_successor_internal, create_successor_external, create_successor_runtime,
  create_successor_fallthrough, init, empty,
}
use ppc2cpp.ControlFlow.Graph.Edit.{
  Edit, Edits, to_internal, to_external, to_runtime, to_following, marks, done, then_,
}

abbrev block_in : List BasicBlock → ℕ → BasicBlock
block_in bs i = get_or bs i (new_block internal 0)

module _ (Span : ℕ → ℕ → Type 0) where
  -- Every block spans from its start to its end.
  abbrev AllSpan : List BasicBlock → Type 0
  AllSpan [] = Unit {0}
  AllSpan (b ∷ bs) = Span b.start b.end × AllSpan bs

  AllSpan-set_end :
      (bs : List BasicBlock) (o pos : ℕ)
      → Span (block_in bs o).start pos
      → AllSpan bs
      → AllSpan (set_end bs o pos)
  AllSpan-set_end [] o pos s h = tt
  AllSpan-set_end (b ∷ bs) zero pos s h = (s, h.1)
  AllSpan-set_end (b ∷ bs) (suc o) pos s h = (h.0, AllSpan-set_end bs o pos s h.1)

  AllSpan-append :
      (bs : List BasicBlock) (b : BasicBlock)
      → Span b.start b.end
      → AllSpan bs
      → AllSpan (bs ++ b ∷ [])
  AllSpan-append [] b s h = (s, tt)
  AllSpan-append (c ∷ bs) b s h = (h.0, AllSpan-append bs b s h.1)

  AllSpan-marked :
      (m : Mark) (b : BasicBlock)
      → Span b.start b.end
      → Span (apply_mark m b).start (apply_mark m b).end
  AllSpan-marked call b s = s
  AllSpan-marked tail_call b s = s
  AllSpan-marked exit b s = s

  AllSpan-mark :
      (m : Mark) (bs : List BasicBlock) (i : ℕ) → AllSpan bs → AllSpan (modify bs i (apply_mark m))
  AllSpan-mark m [] i h = tt
  AllSpan-mark m (b ∷ bs) zero h = (AllSpan-marked m b h.0, h.1)
  AllSpan-mark m (b ∷ bs) (suc i) h = (h.0, AllSpan-mark m bs i h.1)

  module _ (alone : (p : ℕ) → Span p p) where
    AllSpan-try_create :
        (g : ControlFlowGraph) (origin pos target : ℕ)
        → Span (block_at g origin).start pos
        → AllSpan g.blocks
        → AllSpan (try_create_successor_internal g origin pos target).0.blocks
    unfolding try_create_successor_internal
    AllSpan-try_create g origin pos target s h =
        let g' = record g { blocks = set_end g.blocks origin pos } in
        let h' = AllSpan-set_end g.blocks origin pos s h in
        elim (Option-cases (find_internal_block_by_position g' target)) [
          | inl e ↦
              rw (e, try_create_successor_internal)
                (AllSpan-append g'.blocks (new_block internal target) (alone target) h')
          | inr (k, e) ↦ rw (e, try_create_successor_internal) h'
        ]

    AllSpan-Edit : {g h : ControlFlowGraph} → Edit Span g h → AllSpan g.blocks → AllSpan h.blocks
    unfolding create_successor_external create_successor_runtime create_successor_fallthrough mark
    AllSpan-Edit {g = g} (to_internal origin pos target o s) a =
        AllSpan-try_create g origin pos target s a
    AllSpan-Edit {g = g} (to_external origin pos o s) a =
        AllSpan-append (set_end g.blocks origin pos) (new_block external pos) (alone pos)
          (AllSpan-set_end g.blocks origin pos s a)
    AllSpan-Edit {g = g} (to_runtime origin pos o s) a =
        AllSpan-append (set_end g.blocks origin pos) (new_block runtime pos) (alone pos)
          (AllSpan-set_end g.blocks origin pos s a)
    AllSpan-Edit {g = g} (to_following origin pos at i o s found) a =
        AllSpan-set_end g.blocks origin pos s a
    AllSpan-Edit {g = g} (marks m i) a = AllSpan-mark m g.blocks i a

    AllSpan-Edits : {g h : ControlFlowGraph} → Edits Span g h → AllSpan g.blocks → AllSpan h.blocks
    AllSpan-Edits done a = a
    AllSpan-Edits (then_ es e) a = AllSpan-Edit e (AllSpan-Edits es a)

  AllSpan-at :
      (bs : List BasicBlock) (i : ℕ)
      → i < length bs
      → AllSpan bs
      → Span (block_in bs i).start (block_in bs i).end
  AllSpan-at [] i l h = absurd (omega arith)
  AllSpan-at (b ∷ bs) zero l h = h.0
  AllSpan-at (b ∷ bs) (suc i) l h = AllSpan-at bs i (omega arith) h.1

  -- What holds of each pair of positions that an operation is given holds of the start and end of
  -- every block, where the first graph has the entry block alone.
  pub init-Edits-Span :
      ((p : ℕ) → Span p p)
      → {g : ControlFlowGraph} → Edits Span (init empty) g
      → (i : ℕ) → i < length g.blocks
      → Span (block_at g i).start (block_at g i).end
  unfolding init
  init-Edits-Span alone {g = g} es i l =
      AllSpan-at g.blocks i l (AllSpan-Edits alone es (alone 0, tt))
