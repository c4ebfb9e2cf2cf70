-- ===== src/Compare/Flows/Meaning.antt =====
-- What it means that `compareFunctionFlows` finds two functions equivalent.
use ppc2cpp.Prelude.{
  ℕ, zero, suc, ◌+◌, ◌<◌, ◌≤◌, ◌≡◌, ◌↔◌, refl, ◌∙◌, sym, ap, subst, Bool, true, false, not, some,
  List, [], ◌∷◌, if◌then◌else◌, arith, inl, inr, dec_lt, length, ◌==◌, ltb, lt→ltb, ltb→lt,
  Bool-cases,
}
use ppc2cpp.Common.Endian.{Endian}
use ppc2cpp.Model.Symbol.{Relocation}
use ppc2cpp.Program.{bind-eq-ok, if-eq-ok, Outcome, ok, err, ◌>>=◌, Loader, Buffer, value}
use ppc2cpp.DataFlow.Node.{IsAcyclic}
use ppc2cpp.DataFlow.Function.{Function, sinks_at}
use ppc2cpp.Compare.VarNodes.{Sides, Cache, check}
use ppc2cpp.Compare.VarNodes.Cached.{verdict}
use ppc2cpp.Compare.VarNodes.Meaning.{SameAll, plain_inputs_iff}
use ppc2cpp.Compare.Flows.{
  compare_sinks, succ1, succ2, equal_upto, same_successors, compare_blocks, compare_graphs, sides,
  compare_function_flows,
}
use ppc2cpp.Compare.Flows.Sinks.{AllSound, compare_sinks-plain}

equal_upto_iff : (xs ys : List ℕ) → length xs ≡ length ys → (equal_upto xs ys ≡ true) ↔ (xs ≡ ys)
unfolding equal_upto
equal_upto_iff [] [] l = (λ _. refl, λ _. refl)
equal_upto_iff [] (y ∷ ys) l = absurd (omega arith)
equal_upto_iff (x ∷ xs) [] l = absurd (omega arith)
equal_upto_iff (x ∷ xs) (y ∷ ys) l =
    let ih = equal_upto_iff xs ys (omega arith) in
    (λ e. ground (arith, ih.0), λ e. ground (arith, ih.1))

verdict-eq-ok :
    (r : Outcome (Bool × Cache)) (b : Bool) → verdict r ≡ ok b → (d : Cache) × (r ≡ ok (b, d))
verdict-eq-ok (ok (c, d)) b h = (d, ap (λ (x : Bool). ok (x, d)) (ground arith))
verdict-eq-ok (err e) b h = absurd (cc)

module _ (s : Sides) (f1 f2 : Function) where
  same_successors_iff :
      (i : ℕ) → (same_successors s f1 f2 i ≡ true) ↔ (succ1 s f1 f2 i ≡ succ2 s f1 f2 i)
  unfolding same_successors
  same_successors_iff i = (
    λ e. elim (Bool-cases (length (succ1 s f1 f2 i) == length (succ2 s f1 f2 i))) [
      | inl l ↦
          (equal_upto_iff (succ1 s f1 f2 i) (succ2 s f1 f2 i) (ground arith)).0
            (rw (l, same_successors) at e)
      | inr l ↦ absurd (ground arith)
    ],
    λ e.
        let l : length (succ1 s f1 f2 i) ≡ length (succ2 s f1 f2 i) = ap length e in
        ground (arith, (equal_upto_iff (succ1 s f1 f2 i) (succ2 s f1 f2 i) l).1 e),
  )

  -- A block of the second function stands against the block, has sinks that are the same, in order
  -- and number, and the same list of successors.
  abbrev pub BlockMatches : ℕ → Type 0
  BlockMatches i =
      (i < length f2.cfg.blocks)
      × SameAll s f1.dfg.heap f2.dfg.heap (sinks_at f1 i) (sinks_at f2 i)
      × (succ1 s f1 f2 i ≡ succ2 s f1 f2 i)

  module _ (acyclic : IsAcyclic f1.dfg.heap) where
    -- The sinks of one block compare equal exactly when they are the same.
    sinks_sound :
        (i : ℕ) (c d : Cache)
        → AllSound s f1 f2 acyclic c
        → compare_sinks s f1 f2 (sinks_at f1 i) (sinks_at f2 i) c ≡ ok (true, d)
        → SameAll s f1.dfg.heap f2.dfg.heap (sinks_at f1 i) (sinks_at f2 i)
          × AllSound s f1 f2 acyclic d
    sinks_sound i c d sound e =
        let (agree, kept) =
          compare_sinks-plain s f1 f2 acyclic (sinks_at f1 i) (sinks_at f2 i) c sound in
        (
          (plain_inputs_iff s f1.dfg.heap f2.dfg.heap acyclic (sinks_at f1 i) (sinks_at f2 i)).0
              (sym agree ∙ ap verdict e),
          kept d e,
        )

    sinks_full :
        (i : ℕ) (c : Cache)
        → AllSound s f1 f2 acyclic c
        → SameAll s f1.dfg.heap f2.dfg.heap (sinks_at f1 i) (sinks_at f2 i)
        → (d : Cache) × (compare_sinks s f1 f2 (sinks_at f1 i) (sinks_at f2 i) c ≡ ok (true, d))
    sinks_full i c sound h =
        let (agree, kept) =
          compare_sinks-plain s f1 f2 acyclic (sinks_at f1 i) (sinks_at f2 i) c sound in
        verdict-eq-ok _ true (
          agree
          ∙ (plain_inputs_iff s f1.dfg.heap f2.dfg.heap acyclic (sinks_at f1 i) (sinks_at f2 i)).1
              h)

    blocks_sound :
        (rounds i : ℕ) (c : Cache)
        → AllSound s f1 f2 acyclic c
        → compare_blocks s f1 f2 rounds i c ≡ ok true
        → (j : ℕ) → i ≤ j
        → j < i + rounds
        → BlockMatches j
    unfolding compare_blocks
    blocks_sound zero i c sound e j l m = absurd (omega arith)
    blocks_sound (suc rounds) i c sound e j l m =
        let (inside, e1) = if-eq-ok (ltb i (length f2.cfg.blocks)) _ e in
        let (r, p, e2) =
          bind-eq-ok (compare_sinks s f1 f2 (sinks_at f1 i) (sinks_at f2 i) c) _ e1 in
        let (equal, e3) = if-eq-ok r.0 _ e2 in
        let (succs, e4) = if-eq-ok (same_successors s f1 f2 i) _ e3 in
        let (all, sound') = sinks_sound i c r.1 sound (p ∙ ap (λ (b : Bool). ok (b, r.1)) equal) in
        elim (dec_lt i j) [
          | yes later ↦ blocks_sound rounds (i + 1) r.1 sound' e4 j (omega arith) (omega arith)
          | no now ↦
              subst BlockMatches {x = i} {y = j} (omega arith)
                (ltb→lt i (length f2.cfg.blocks) inside, all, (same_successors_iff i).0 succs)
        ]

    blocks_full :
        (rounds i : ℕ) (c : Cache)
        → AllSound s f1 f2 acyclic c
        → ((j : ℕ) → i ≤ j → j < i + rounds → BlockMatches j)
        → compare_blocks s f1 f2 rounds i c ≡ ok true
    unfolding compare_blocks
    blocks_full zero i c sound h = refl
    blocks_full (suc rounds) i c sound h =
        let (inside, all, succs) = h i (omega arith) (omega arith) in
        let (d, p) = sinks_full i c sound all in
        let (_, sound') = sinks_sound i c d sound p in
        rw (lt→ltb i (length f2.cfg.blocks) inside, p, ◌>>=◌, (same_successors_iff i).1 succs)
          (blocks_full rounds (i + 1) d sound' (λ j l m. h j (omega arith) (omega arith)))

    -- As many blocks, and each block matches.
    abbrev pub GraphsMatch : Type 0
    GraphsMatch =
        (length f1.cfg.blocks ≡ length f2.cfg.blocks)
        × ((i : ℕ) → i < length f1.cfg.blocks → BlockMatches i)

    pub compare_graphs_iff : (compare_graphs s f1 f2 ≡ ok true) ↔ GraphsMatch
    unfolding compare_graphs check
    compare_graphs_iff =
        let n1 = length f1.cfg.blocks in
        let n2 = length f2.cfg.blocks in
        let start : AllSound s f1 f2 acyclic [] = λ x y b e. absurd (cc) in
        (
          λ e.
              let (b, p, q) = bind-eq-ok (compare_blocks s f1 f2 n1 0 []) _ e in
              let (all, fits) = ends_true b (not (ltb n1 n2)) q in
              let blocks = blocks_sound n1 0 [] start (p ∙ ap ok all) in
              let matches = λ (i : ℕ) (l : i < n1). blocks i (omega arith) (omega arith) in
              (
                elim (dec_lt n2 n1) [
                  | yes more ↦ absurd (omega (arith, (matches n2 more).0))
                  | no le ↦ ground arith
                ],
                matches,
              ),
          λ h.
              rw (blocks_full n1 0 [] start (λ j l m. h.1 j (omega arith)), ◌>>=◌, compare_graphs)
                (ground (arith, h.0)),
        )
      where
        ends_true :
            (b c : Bool)
            → ◌≡◌ {A = Outcome Bool} (ok (if b then c else false)) (ok true)
            → (b ≡ true) × (c ≡ true)
        ends_true true true q = (refl, refl)
        ends_true true false q = absurd (ground arith)
        ends_true false c q = absurd (ground arith)

-- Where both loaders have a buffer for the function, and the inputs of each node of the first function
-- were made before it, two functions compare as equivalent exactly when they have as many blocks and,
-- for each block, the same list of successors and the same sinks in order and number. Two nodes are the
-- same when they pass the tests of their kinds and their inputs are, in order and number, the same.
pub compare_function_flows_iff :
    (host : Endian) (lookup : ℕ → ℕ) (compare_relocations : Relocation → Relocation → Outcome Bool)
    (ld1 ld2 : Loader) (f1 f2 : Function) (buf1 buf2 : Buffer)
    → IsAcyclic f1.dfg.heap
    → ld1.get_buffer_at_location f1.symbol.location ≡ some buf1
    → ld2.get_buffer_at_location f2.symbol.location ≡ some buf2
    → let s = sides host lookup compare_relocations ld1 ld2 f1 f2 buf1 buf2 in
      (compare_function_flows host lookup compare_relocations ld1 ld2 f1 f2 ≡ ok true) ↔ (
        (length f1.cfg.blocks ≡ length f2.cfg.blocks)
        × ((i : ℕ) → i < length f1.cfg.blocks → BlockMatches s f1 f2 i))
unfolding compare_function_flows
compare_function_flows_iff host lookup crel ld1 ld2 f1 f2 buf1 buf2 acyclic has1 has2 =
    rw (has1, has2, value, ◌>>=◌)
      (compare_graphs_iff (sides host lookup crel ld1 ld2 f1 f2 buf1 buf2) f1 f2 acyclic)
