-- ===== src/ControlFlow/Graph/Grows.antt =====
-- What an operation of ControlFlowGraph.hpp adds: blocks keep their place, and the positions where
-- no internal block starts become fewer.
use ppc2cpp.Prelude.{
  ℕ, zero, suc, ◌+◌, ◌≤◌, ◌<◌, ◌≡◌, refl, ◌∙◌, ap, List, [], ◌∷◌, ◌++◌, ◌==◌, arith, if◌then◌else◌,
  length, modify, some, length-modify, length-append, get_or, Option-cases, inl, inr, get_or-modify,
  get_or-append, dec_lt, ==_refl,
}
use ppc2cpp.ControlFlow.Graph.{
  BasicBlock, internal, external, runtime, ControlFlowGraph, new_block,
  find_internal_block_by_position, mark, apply_mark, set_end, try_create_successor_internal,
  create_successor_external, create_successor_runtime, create_successor_fallthrough, init, empty,
}
use ppc2cpp.ControlFlow.Graph.Blocks.{
  num_starting, num_starting-append, num_starting-modify, KeepsPlace, apply_mark-KeepsPlace,
  find_internal-none,
}
use ppc2cpp.ControlFlow.Graph.Edit.{
  Edit, Edits, to_internal, to_external, to_runtime, to_following, marks, done, then_,
}

pub record Grows (bs cs : List BasicBlock) : Type 0 where
  pub longer : length bs ≤ length cs
  pub kept :
      (i : ℕ)
      → i < length bs
      → (get_or cs i (new_block internal 0)).start ≡ (get_or bs i (new_block internal 0)).start
  pub covered : (p : ℕ) → num_starting p bs ≤ num_starting p cs

pub Grows-trans : {bs cs ds : List BasicBlock} → Grows bs cs → Grows cs ds → Grows bs ds
Grows-trans h k = record {
  longer = omega arith;
  kept = λ i l. k.kept i (omega (arith, h.longer)) ∙ h.kept i l;
  covered = λ p. omega (arith, h.covered p, k.covered p);
}

pub Grows-modify :
    (bs : List BasicBlock) (i : ℕ) (f : BasicBlock → BasicBlock)
    → KeepsPlace f
    → Grows bs (modify bs i f)
Grows-modify bs i f k = record {
  longer = omega (arith, length-modify bs i f);
  kept = λ j l. ground (
    arith,
    get_or-modify bs i j f (new_block internal 0),
    k (get_or bs j (new_block internal 0)),
  );
  covered = λ p. omega (arith, num_starting-modify p bs i f k);
}

pub Grows-append : (bs cs : List BasicBlock) → Grows bs (bs ++ cs)
Grows-append bs cs = record {
  longer = omega (arith, length-append bs cs);
  kept = λ i l. ap (λ (b : BasicBlock). b.start) (get_or-append bs cs i (new_block internal 0) l);
  covered = λ p. omega (arith, num_starting-append p bs cs);
}

end_keeps : (pos : ℕ) → KeepsPlace (λ b. record b { end = pos })
end_keeps pos b = (refl, refl)

pub Grows-set_end : (bs : List BasicBlock) (i pos : ℕ) → Grows bs (set_end bs i pos)
Grows-set_end bs i pos = Grows-modify bs i (λ b. record b { end = pos }) (end_keeps pos)

Grows-append_block :
    (bs : List BasicBlock) (i pos : ℕ) (b : BasicBlock) → Grows bs (set_end bs i pos ++ b ∷ [])
Grows-append_block bs i pos b =
    Grows-trans (Grows-set_end bs i pos) (Grows-append (set_end bs i pos) (b ∷ []))

pub try_create-Grows :
    (g : ControlFlowGraph) (origin pos target : ℕ)
    → Grows g.blocks (try_create_successor_internal g origin pos target).0.blocks
unfolding try_create_successor_internal
try_create-Grows g origin pos target =
    let g' = record g { blocks = set_end g.blocks origin pos } in
    elim (Option-cases (find_internal_block_by_position g' target)) [
      | inl e ↦
          rw (e, try_create_successor_internal)
            (Grows-append_block g.blocks origin pos (new_block internal target))
      | inr (k, e) ↦ rw (e, try_create_successor_internal) (Grows-set_end g.blocks origin pos)
    ]

pub Edit-Grows :
    {Span : ℕ → ℕ → Type 0} {g h : ControlFlowGraph} → Edit Span g h → Grows g.blocks h.blocks
unfolding create_successor_external create_successor_runtime create_successor_fallthrough mark
Edit-Grows {g = g} (to_internal origin pos target o s) = try_create-Grows g origin pos target
Edit-Grows {g = g} (to_external origin pos o s) =
    Grows-append_block g.blocks origin pos (new_block external pos)
Edit-Grows {g = g} (to_runtime origin pos o s) =
    Grows-append_block g.blocks origin pos (new_block runtime pos)
Edit-Grows {g = g} (to_following origin pos at i o s found) = Grows-set_end g.blocks origin pos
Edit-Grows {g = g} (marks m i) = Grows-modify g.blocks i (apply_mark m) (apply_mark-KeepsPlace m)

pub Edits-Grows :
    {Span : ℕ → ℕ → Type 0} {g h : ControlFlowGraph} → Edits Span g h → Grows g.blocks h.blocks
Edits-Grows {g = g} done = record {
  longer = omega arith;
  kept = λ i l. refl;
  covered = λ p. omega arith;
}
Edits-Grows (then_ es e) = Grows-trans (Edits-Grows es) (Edit-Grows e)

-- The number of positions below n where no internal block starts.
unfoldable pub vacant : ℕ → List BasicBlock → ℕ
vacant zero bs = 0
vacant (suc n) bs = (if num_starting n bs == 0 then 1 else 0) + vacant n bs

pub vacant-Grows : (n : ℕ) (bs cs : List BasicBlock) → Grows bs cs → vacant n cs ≤ vacant n bs
unfolding vacant
vacant-Grows zero bs cs h = omega arith
vacant-Grows (suc n) bs cs h = ground (arith, vacant-Grows n bs cs h, h.covered n)

vacant-lt :
    (n p : ℕ) (bs cs : List BasicBlock)
    → Grows bs cs
    → p < n
    → num_starting p bs ≡ 0
    → 0 < num_starting p cs
    → vacant n cs < vacant n bs
unfolding vacant
vacant-lt zero p bs cs h l free taken = absurd (omega arith)
vacant-lt (suc n) p bs cs h l free taken = elim (dec_lt p n) [
  | yes lt ↦ ground (arith, vacant-lt n p bs cs h lt free taken, h.covered n)
  | no ge ↦
      let e : p ≡ n = omega arith in
      ground (
        arith,
        vacant-Grows n bs cs h,
        ap (λ (q : ℕ). num_starting q bs) e,
        ap (λ (q : ℕ). num_starting q cs) e,
      )
]

-- A new internal block has the index of the end of the vector, starts at the target and takes one of
-- the vacant positions.
pub try_create-new :
    (n : ℕ) (g : ControlFlowGraph) (origin pos target b : ℕ)
    → (try_create_successor_internal g origin pos target).1 ≡ some b
    → target < n
    → let h = (try_create_successor_internal g origin pos target).0 in
      (b < length h.blocks) × (vacant n h.blocks < vacant n g.blocks)
unfolding try_create_successor_internal num_starting
try_create-new n g origin pos target b new l =
    let g' = record g { blocks = set_end g.blocks origin pos } in
    let bs = set_end g.blocks origin pos in
    elim (Option-cases (find_internal_block_by_position g' target)) [
      | inl e ↦
          rw (e, try_create_successor_internal)
            (
              ground (
                arith,
                length-append bs (new_block internal target ∷ []),
                length-modify g.blocks origin (λ c. record c { end = pos }),
              ),
              vacant-lt n target g.blocks (bs ++ new_block internal target ∷ [])
                  (Grows-append_block g.blocks origin pos (new_block internal target)) l
                  (omega (
                    arith,
                    find_internal-none g' target e,
                    num_starting-modify target g.blocks origin (λ c. record c { end = pos })
                        (end_keeps pos),
                  ))
                  (ground (
                    arith,
                    num_starting-append target bs (new_block internal target ∷ []),
                    ==_refl target,
                  )),
            )
      | inr (k, e) ↦ absurd (ground arith)
    ]

vacant-le : (n : ℕ) (bs : List BasicBlock) → vacant n bs ≤ n
unfolding vacant
vacant-le zero bs = omega arith
vacant-le (suc n) bs = ground (arith, vacant-le n bs)

-- The entry block takes one of the positions.
pub vacant-init : (n : ℕ) → 0 < n → vacant n (init empty).blocks < n
unfolding init num_starting
vacant-init n l = omega (
  arith,
  vacant-le n [],
  vacant-lt n 0 [] (new_block internal 0 ∷ []) (Grows-append [] (new_block internal 0 ∷ [])) l refl
      (ground arith),
)
