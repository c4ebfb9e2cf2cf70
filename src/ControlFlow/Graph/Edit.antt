-- ===== src/ControlFlow/Graph/Edit.antt =====
-- The operations of ControlFlowGraph.hpp as a step relation, and what every step keeps.
use ppc2cpp.Prelude.{
  ℕ, suc, ◌+◌, ◌≤◌, ◌<◌, ◌≡◌, refl, sym, subst, false, List, [], ◌∷◌, ◌++◌, arith, length, modify,
  none, some, length-modify, length-append, Option-cases, inl, inr, dec_lt, ==_iff,
}
use ppc2cpp.ControlFlow.Graph.{
  BasicBlock, BlockType, internal, external, runtime, eq_type, ControlFlowGraph, block_at,
  new_block, find_internal_block_by_position, Mark, mark, apply_mark, empty_entry, init, empty,
  append_block, set_end, link, try_create_successor_internal, create_successor_external,
  create_successor_runtime, create_successor_fallthrough, PsEntry,
}
use ppc2cpp.ControlFlow.Graph.Blocks.{
  num_starting, num_starting-append, num_starting-modify, KeepsPlace, apply_mark-KeepsPlace,
  find_internal-none, find_internal-some,
}
use ppc2cpp.ControlFlow.Graph.Edges.{
  IsLinked, push-IsLinked, suc-IsLinked, link-IsLinked, Reachable, entry, next, Reachable-mono,
  out_count-link, out_count-push, start-IsLinked,
}

-- One call of an operation, at an index of a block that exists. `Span` is what is known of the
-- positions where a block starts and where it is made to end.
pub data Edit (Span : ℕ → ℕ → Type 0) (g : ControlFlowGraph) : ControlFlowGraph → Type 0 where
  to_internal :
      (origin pos target : ℕ)
      → origin < length g.blocks
      → Span (block_at g origin).start pos
      → Edit Span g (try_create_successor_internal g origin pos target).0
  to_external :
      (origin pos : ℕ)
      → origin < length g.blocks
      → Span (block_at g origin).start pos
      → Edit Span g (create_successor_external g origin pos)
  to_runtime :
      (origin pos : ℕ)
      → origin < length g.blocks
      → Span (block_at g origin).start pos
      → Edit Span g (create_successor_runtime g origin pos)
  to_following :
      (origin pos at i : ℕ)
      → origin < length g.blocks
      → Span (block_at g origin).start pos
      → find_internal_block_by_position g at ≡ some i
      → Edit Span g (create_successor_fallthrough g origin pos i)
  marks : (m : Mark) (i : ℕ) → Edit Span g (mark m g i)

pub data Edits (Span : ℕ → ℕ → Type 0) (g : ControlFlowGraph) : ControlFlowGraph → Type 0 where
  done : Edits Span g g
  then_ : {h k : ControlFlowGraph} → Edits Span g h → Edit Span h k → Edits Span g k

-- Well-formed: the entry block is there, the table fits the blocks, no two internal blocks start at
-- one position, and every block is reached from the entry block.
pub record IsWellFormed (g : ControlFlowGraph) : Type 0 where
  pub entered : 0 < length g.blocks
  pub linked : IsLinked (length g.blocks) g.ps_table
  pub distinct : (p : ℕ) → num_starting p g.blocks ≤ 1
  pub reached : (i : ℕ) → i < length g.blocks → Reachable g.ps_table i

-- What an edge from an existing block to an existing block keeps.
relink-IsWellFormed :
    (bs : List BasicBlock) (ps : List PsEntry) (from to : ℕ)
    → from < length bs
    → to < length bs
    → IsWellFormed (record { blocks = bs; ps_table = ps })
    → IsWellFormed (record { blocks = bs; ps_table = link ps from to })
relink-IsWellFormed bs ps from to f t w = record {
  entered = w.entered;
  linked = link-IsLinked (length bs) ps from to f t w.linked;
  distinct = w.distinct;
  reached = λ i l.
      Reachable-mono ps (link ps from to)
        (λ a b.
          omega
            (arith, w.linked.sized, out_count-link ps from to a b (omega (arith, w.linked.sized))))
        (w.reached i l);
}

push-IsWellFormed :
    (g : ControlFlowGraph)
    → IsWellFormed g
    → IsWellFormed (record g { ps_table = g.ps_table ++ empty_entry ∷ [] })
push-IsWellFormed g w = record {
  entered = w.entered;
  linked = push-IsLinked (length g.blocks) g.ps_table w.linked;
  distinct = w.distinct;
  reached = λ i l.
      Reachable-mono g.ps_table (g.ps_table ++ empty_entry ∷ [])
        (λ a b. omega (arith, out_count-push g.ps_table a b)) (w.reached i l);
}

modify-IsWellFormed :
    (g : ControlFlowGraph) (i : ℕ) (f : BasicBlock → BasicBlock)
    → KeepsPlace f
    → IsWellFormed g
    → IsWellFormed (record g { blocks = modify g.blocks i f })
modify-IsWellFormed g i f k w = record {
  entered = omega (arith, length-modify g.blocks i f, w.entered);
  linked = subst (λ n. IsLinked n g.ps_table) (sym (length-modify g.blocks i f)) w.linked;
  distinct = λ p. omega (arith, num_starting-modify p g.blocks i f k, w.distinct p);
  reached = λ j l. w.reached j (omega (arith, length-modify g.blocks i f));
}

-- What a new block behind an existing one keeps.
append_block-IsWellFormed :
    (g : ControlFlowGraph) (origin pos : ℕ) (b : BasicBlock)
    → origin < length g.blocks
    → ((p : ℕ) → num_starting p (b ∷ []) + num_starting p g.blocks ≤ 1)
    → IsWellFormed g
    → IsWellFormed (append_block g origin pos b)
append_block-IsWellFormed g origin pos b o fresh w =
    let n = length g.blocks in
    let ps = g.ps_table ++ empty_entry ∷ [] in
    let wide : suc n ≤ length ps =
      omega (arith, length-append g.ps_table (empty_entry ∷ []), w.linked.sized) in
    let total : length (set_end g.blocks origin pos ++ b ∷ []) ≡ suc n = omega (
      arith,
      length-append (set_end g.blocks origin pos) (b ∷ []),
      length-modify g.blocks origin (λ c. record c { end = pos }),
    ) in
    let grows = λ (i j : ℕ). out_count-link ps origin n i j (omega arith) in
    let old = λ (i : ℕ) (l : i < n).
      Reachable-mono g.ps_table (link ps origin n)
        (λ a b. omega (arith, grows a b, out_count-push g.ps_table a b)) (w.reached i l) in
    record {
      entered = omega arith;
      linked =
          subst (λ m. IsLinked m (link ps origin n)) (sym total)
            (link-IsLinked (suc n) ps origin n (omega arith) (omega arith)
              (suc-IsLinked n ps (push-IsLinked n g.ps_table w.linked) wide));
      distinct = λ p. omega (
        arith,
        fresh p,
        num_starting-append p (set_end g.blocks origin pos) (b ∷ []),
        num_starting-modify p g.blocks origin (λ c. record c { end = pos }) (λ c. (refl, refl)),
      );
      reached = λ i l. elim (dec_lt i n) [
        | yes lt ↦ old i lt
        | no ge ↦
            subst (Reachable (link ps origin n)) {x = n} {y = i} (omega arith)
              (next (old origin o) (ground (arith, grows origin n)))
      ];
    }

set_end-KeepsPlace : (pos : ℕ) → KeepsPlace (λ b. record b { end = pos })
set_end-KeepsPlace pos b = (refl, refl)

-- The graph after `blocks[origin].end = pos`.
abbrev ended : ControlFlowGraph → ℕ → ℕ → ControlFlowGraph
ended g origin pos = record g { blocks = set_end g.blocks origin pos }

ended-IsWellFormed :
    (g : ControlFlowGraph) (origin pos : ℕ) → IsWellFormed g → IsWellFormed (ended g origin pos)
ended-IsWellFormed g origin pos w =
    modify-IsWellFormed g origin (λ b. record b { end = pos }) (set_end-KeepsPlace pos) w

-- A block that is not internal, or that starts where no internal block does.
not_internal_fresh :
    (g : ControlFlowGraph) (t : BlockType) (pos p : ℕ)
    → eq_type t internal ≡ false
    → IsWellFormed g
    → num_starting p (new_block t pos ∷ []) + num_starting p g.blocks ≤ 1
unfolding num_starting
not_internal_fresh g t pos p e w = ground (arith, w.distinct p)

internal_fresh :
    (g : ControlFlowGraph) (origin pos target p : ℕ)
    → find_internal_block_by_position (ended g origin pos) target ≡ none
    → IsWellFormed g
    → num_starting p (new_block internal target ∷ []) + num_starting p g.blocks ≤ 1
unfolding num_starting
internal_fresh g origin pos target p e w = ground (
  arith,
  w.distinct p,
  find_internal-none (ended g origin pos) target e,
  num_starting-modify p g.blocks origin (λ b. record b { end = pos }) (set_end-KeepsPlace pos),
  ==_iff target p,
)

try_create-IsWellFormed :
    (g : ControlFlowGraph) (origin pos target : ℕ)
    → origin < length g.blocks
    → IsWellFormed g
    → IsWellFormed (try_create_successor_internal g origin pos target).0
unfolding try_create_successor_internal
try_create-IsWellFormed g origin pos target o w =
    let g' = ended g origin pos in
    elim (Option-cases (find_internal_block_by_position g' target)) [
      | inl e ↦
          rw (e, try_create_successor_internal)
            (append_block-IsWellFormed g origin pos (new_block internal target) o
              (λ p. internal_fresh g origin pos target p e w) w)
      | inr (k, e) ↦
          rw (e, try_create_successor_internal)
            (relink-IsWellFormed g'.blocks (g.ps_table ++ empty_entry ∷ []) origin k
              (omega (arith, length-modify g.blocks origin (λ b. record b { end = pos })))
              (find_internal-some g' target k e).0
              (push-IsWellFormed g' (ended-IsWellFormed g origin pos w)))
    ]

following-IsWellFormed :
    (g : ControlFlowGraph) (origin pos at i : ℕ)
    → origin < length g.blocks
    → find_internal_block_by_position g at ≡ some i
    → IsWellFormed g
    → IsWellFormed (create_successor_fallthrough g origin pos i)
unfolding create_successor_fallthrough
following-IsWellFormed g origin pos at i o found w =
    let wide = length-modify g.blocks origin (λ b. record b { end = pos }) in
    relink-IsWellFormed (set_end g.blocks origin pos) g.ps_table origin i (omega (arith, wide))
      (omega (arith, wide, (find_internal-some g at i found).0)) (ended-IsWellFormed g origin pos w)

-- Every operation keeps the graph well-formed.
pub Edit-IsWellFormed :
    {Span : ℕ → ℕ → Type 0} {g h : ControlFlowGraph}
    → Edit Span g h
    → IsWellFormed g
    → IsWellFormed h
unfolding create_successor_external create_successor_runtime mark
Edit-IsWellFormed {g = g} (to_internal origin pos target o s) w =
    try_create-IsWellFormed g origin pos target o w
Edit-IsWellFormed {g = g} (to_external origin pos o s) w =
    append_block-IsWellFormed g origin pos (new_block external pos) o
      (λ p. not_internal_fresh g external pos p refl w) w
Edit-IsWellFormed {g = g} (to_runtime origin pos o s) w =
    append_block-IsWellFormed g origin pos (new_block runtime pos) o
      (λ p. not_internal_fresh g runtime pos p refl w) w
Edit-IsWellFormed {g = g} (to_following origin pos at i o s found) w =
    following-IsWellFormed g origin pos at i o found w
Edit-IsWellFormed {g = g} (marks m i) w =
    modify-IsWellFormed g i (apply_mark m) (apply_mark-KeepsPlace m) w

pub Edits-IsWellFormed :
    {Span : ℕ → ℕ → Type 0} {g h : ControlFlowGraph}
    → Edits Span g h
    → IsWellFormed g
    → IsWellFormed h
Edits-IsWellFormed done w = w
Edits-IsWellFormed (then_ es e) w = Edit-IsWellFormed e (Edits-IsWellFormed es w)

pub Edits-trans :
    {Span : ℕ → ℕ → Type 0} {g h k : ControlFlowGraph}
    → Edits Span g h
    → Edits Span h k
    → Edits Span g k
Edits-trans es done = es
Edits-trans es (then_ fs f) = then_ (Edits-trans es fs) f

-- The graph of a function before its analysis.
pub init-IsWellFormed : IsWellFormed (init empty)
unfolding init num_starting
init-IsWellFormed = record {
  entered = omega arith;
  linked = start-IsLinked;
  distinct = λ p. ground arith;
  reached = λ i l. subst (Reachable (empty_entry ∷ [])) {x = 0} {y = i} (omega arith) entry;
}
