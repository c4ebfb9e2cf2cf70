-- ===== src/ControlFlow/Graph/Blocks.antt =====
-- The block vector of ControlFlowGraph.hpp: how many internal blocks start at a position, and what
-- the searches of blocks find.
use ppc2cpp.Prelude.{
  ℕ, zero, suc, ◌+◌, ◌<◌, ◌≡◌, refl, ◌∙◌, ap, Bool, true, ◌&&◌, List, [], ◌∷◌, ◌++◌, ◌==◌, arith,
  if◌then◌else◌, length, modify, none, some, Bool-cases, inl, inr, get_or,
}
use ppc2cpp.ControlFlow.Graph.{
  BasicBlock, internal, eq_type, ControlFlowGraph, block_at, new_block, find_from,
  find_internal_block_by_position, Mark, call, tail_call, exit, apply_mark,
}

abbrev pub is_internal_at : ℕ → BasicBlock → Bool
is_internal_at p b = b.start == p && eq_type b.block_type internal

-- The number of internal blocks that start at p.
unfoldable pub num_starting : ℕ → List BasicBlock → ℕ
num_starting p [] = 0
num_starting p (b ∷ bs) = (if is_internal_at p b then 1 else 0) + num_starting p bs

pub num_starting-append :
    (p : ℕ) (bs cs : List BasicBlock)
    → num_starting p (bs ++ cs) ≡ num_starting p bs + num_starting p cs
unfolding num_starting
num_starting-append p [] cs = omega arith
num_starting-append p (b ∷ bs) cs = omega (arith, num_starting-append p bs cs)

-- An update that keeps the start and the type of every block.
abbrev pub KeepsPlace : (BasicBlock → BasicBlock) → Type 0
KeepsPlace f = (b : BasicBlock) → ((f b).start ≡ b.start) × ((f b).block_type ≡ b.block_type)

pub num_starting-modify :
    (p : ℕ) (bs : List BasicBlock) (i : ℕ) (f : BasicBlock → BasicBlock)
    → KeepsPlace f
    → num_starting p (modify bs i f) ≡ num_starting p bs
unfolding num_starting
num_starting-modify p [] i f k = refl
num_starting-modify p (b ∷ bs) zero f k = ground (arith, k b)
num_starting-modify p (b ∷ bs) (suc i) f k = omega (arith, num_starting-modify p bs i f k)

pub apply_mark-KeepsPlace : (m : Mark) → KeepsPlace (apply_mark m)
apply_mark-KeepsPlace call b = (refl, refl)
apply_mark-KeepsPlace tail_call b = (refl, refl)
apply_mark-KeepsPlace exit b = (refl, refl)

find_from-none :
    (p i : ℕ) (bs : List BasicBlock)
    → find_from (is_internal_at p) i bs ≡ none
    → num_starting p bs ≡ 0
unfolding find_from num_starting
find_from-none p i [] h = refl
find_from-none p i (b ∷ bs) h = ground (arith, find_from-none p (suc i) bs)

-- A search that finds nothing passes no block, and one that finds a block returns the first: the
-- block passes and lies in the vector.
find_from-some :
    (q : BasicBlock → Bool) (i k : ℕ) (d : BasicBlock) (bs : List BasicBlock)
    → find_from q i bs ≡ some k
    → (j : ℕ) × (k ≡ i + j) × (j < length bs) × (q (get_or bs j d) ≡ true)
unfolding find_from
find_from-some q i k d [] h = absurd (ground arith)
find_from-some q i k d (b ∷ bs) h = elim (Bool-cases (q b)) [
  | inl e ↦ (0, ground arith, omega arith, e)
  | inr e ↦
      let (j, at, lt, ok) = find_from-some q (suc i) k d bs (rw (e, find_from) at h) in
      (suc j, omega arith, omega arith, ok)
]

pub find_internal-none :
    (g : ControlFlowGraph) (p : ℕ)
    → find_internal_block_by_position g p ≡ none
    → num_starting p g.blocks ≡ 0
unfolding find_internal_block_by_position
find_internal-none g p h = find_from-none p 0 g.blocks h

pub find_internal-some :
    (g : ControlFlowGraph) (p k : ℕ)
    → find_internal_block_by_position g p ≡ some k
    → (k < length g.blocks) × (is_internal_at p (block_at g k) ≡ true)
unfolding find_internal_block_by_position
find_internal-some g p k h =
    let (j, at, lt, ok) = find_from-some (is_internal_at p) 0 k (new_block internal 0) g.blocks h in
    let e : k ≡ j = omega arith in
    (omega arith, ap (λ (n : ℕ). is_internal_at p (block_at g n)) e ∙ ok)
