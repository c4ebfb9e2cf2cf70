-- ===== src/DataFlow/Analysis/Worklist.antt =====
-- The first worklist of src/data_flow/DataFlowAnalysis.cpp: the depth-first search for it ends, and
-- what it finds.
use ppc2cpp.Prelude.{
  ℕ, zero, suc, ◌+◌, ◌<◌, ◌≤◌, ◌≡◌, refl, ap, Bool, true, not, ◌&&◌, List, [], ◌∷◌, ◌++◌, ◌==◌, ltb,
  arith, count, count-append, length, if◌then◌else◌, Bool-cases, inl, inr, subst,
}
use ppc2cpp.Common.Endian.{Endian}
use ppc2cpp.Model.Symbol.{Symbol}
use ppc2cpp.Program.{Loader, Outcome, ok, ◌>>=◌}
use ppc2cpp.ControlFlow.Graph.{ControlFlowGraph, block_at, entry_at, eq_type, internal}
use ppc2cpp.DataFlow.Context.{member}
use ppc2cpp.DataFlow.Block.{Disassembler}
use ppc2cpp.DataFlow.Analysis.{queue_successors, init_worklist_recurse, init_worklist}

member-count : (v : ℕ) (xs : List ℕ) → member v xs ≡ ltb 0 (count v xs)
member-count v [] = refl
member-count v (x ∷ xs) = ground (arith, member-count v xs)

same_count : (t s : ℕ) (xs : List ℕ) → (t == s) ≡ true → count t xs ≡ count s xs
same_count t s xs e = ap (λ m. count m xs) {x = t} {y = s} (ground arith)

-- How many numbers below n are not on the list.
abbrev absent : ℕ → List ℕ → ℕ
absent zero xs = 0
absent (suc n) xs = (if count n xs == 0 then 1 else 0) + absent n xs

absent_mono :
    (n : ℕ) (xs ys : List ℕ) → ((v : ℕ) → count v xs ≤ count v ys) → absent n ys ≤ absent n xs
absent_mono zero xs ys h = omega arith
absent_mono (suc n) xs ys h = ground (arith, h n, absent_mono n xs ys h)

absent-push :
    (n b : ℕ) (xs : List ℕ) → b < n → count b xs ≡ 0 → absent n (xs ++ b ∷ []) < absent n xs
absent-push zero b xs l h = absurd (omega arith)
absent-push (suc n) b xs l h = elim (Bool-cases (b == n)) [
  | inl e ↦ ground (
    arith,
    count-append n xs (b ∷ []),
    absent_mono n xs (xs ++ b ∷ []) (λ v. omega (arith, count-append v xs (b ∷ []))),
    ap (λ m. count m xs) {x = b} {y = n} (ground arith),
  )
  | inr e ↦ ground (arith, count-append n xs (b ∷ []), absent-push n b xs (ground arith) h)
]

absent-nil : (n : ℕ) → absent n [] ≡ n
absent-nil zero = refl
absent-nil (suc n) = omega (arith, absent-nil n)

module _ (host : Endian) (dis : Disassembler) (ld : Loader) (func : Symbol)
    (cfg : ControlFlowGraph) where
  abbrev pub is_internal : ℕ → Bool
  is_internal i = eq_type (block_at cfg i).block_type internal

  -- What a search makes of a worklist: nothing is lost, nothing stands on it twice, and what is new
  -- has its internal successors on it.
  pub record Queued (before after : List ℕ) : Type 0 where
    pub kept : (v : ℕ) → count v before ≤ count v after
    pub once : (v : ℕ) → count v after ≤ 1
    pub closed :
        (v s : ℕ)
        → count v before < count v after
        → 0 < count s (entry_at cfg v).succ
        → is_internal s ≡ true
        → 0 < count s after

  Queued-trans : (a b c : List ℕ) → Queued a b → Queued b c → Queued a c
  Queued-trans a b c p q = record {
    kept = λ v. omega (arith, p.kept v, q.kept v);
    once = q.once;
    closed = λ v s new succ int. elim (Bool-cases (ltb (count v a) (count v b))) [
      | inl e ↦
          let t : 0 < count s b = p.closed v s (ground arith) succ int in omega (arith, q.kept s)
      | inr e ↦ q.closed v s (ground arith) succ int
    ];
  }

  -- Edges run between existing blocks.
  module _ (n : ℕ) (inside : (v s : ℕ) → 0 < count s (entry_at cfg v).succ → s < n) where
    abbrev Visits : ℕ → (ℕ → List ℕ → Outcome (List ℕ)) → Type 0
    Visits fuel visit =
        (b : ℕ) (wl : List ℕ)
        → b < n
        → count b wl ≡ 0
        → ((v : ℕ) → count v wl ≤ 1)
        → absent n wl ≤ fuel
        → (wl' : List ℕ) × (visit b wl ≡ ok wl') × Queued wl wl' × (0 < count b wl')

    queue_successors-Queued :
        (fuel : ℕ) (visit : ℕ → List ℕ → Outcome (List ℕ)) (ss wl : List ℕ)
        → Visits fuel visit
        → ((s : ℕ) → 0 < count s ss → s < n)
        → ((v : ℕ) → count v wl ≤ 1)
        → absent n wl ≤ fuel
        → (wl' : List ℕ) × (queue_successors host dis ld func cfg visit ss wl ≡ ok wl')
          × Queued wl wl'
          × ((s : ℕ) → 0 < count s ss → is_internal s ≡ true → 0 < count s wl')
    unfolding queue_successors
    queue_successors-Queued fuel visit [] wl visits within once enough = (
      wl,
      refl,
      record { kept = λ v. omega arith; once = once; closed = λ v s new. absurd (omega arith) },
      λ s l. absurd (omega arith),
    )
    queue_successors-Queued fuel visit (s ∷ ss) wl visits within once enough =
        elim (Bool-cases (is_internal s && not (member s wl))) [
          | inl fresh ↦
              let (wl1, ran, q1, on) =
                visits s wl (within s (ground arith)) (ground (arith, member-count s wl)) once
                  enough in
              let (wl2, rest, q2, all) =
                queue_successors-Queued fuel visit ss wl1 visits (λ t l. within t (ground arith))
                  q1.once (omega (arith, absent_mono n wl wl1 q1.kept)) in
              (
                wl2,
                rw (fresh, ran, queue_successors, ◌>>=◌) rest,
                Queued-trans wl wl1 wl2 q1 q2,
                λ t l int. elim (Bool-cases (t == s)) [
                  | inl e ↦ omega (arith, same_count t s wl2 e, q2.kept s, on)
                  | inr e ↦ all t (ground arith) int
                ],
              )
          | inr old ↦
              let (wl2, rest, q2, all) =
                queue_successors-Queued fuel visit ss wl visits (λ t l. within t (ground arith))
                  once enough in
              (
                wl2,
                rw (old, queue_successors, ◌>>=◌) rest,
                q2,
                λ t l int. elim (Bool-cases (t == s)) [
                  | inl e ↦
                      let int_s : is_internal s ≡ true =
                        subst (λ i. is_internal i ≡ true) {x = t} {y = s} (ground arith) int in
                      let on : 0 < count s wl = ground (arith, member-count s wl) in
                      omega (arith, same_count t s wl2 e, q2.kept s)
                  | inr e ↦ all t (ground arith) int
                ],
              )
        ]

    init_worklist_recurse-Visits :
        (fuel : ℕ) → Visits fuel (init_worklist_recurse host dis ld func cfg fuel)
    unfolding init_worklist_recurse
    init_worklist_recurse-Visits zero b wl l new once enough =
        absurd (omega (arith, absent-push n b wl l new))
    init_worklist_recurse-Visits (suc fuel) b wl l new once enough =
        let pushed = λ (v : ℕ). count-append v wl (b ∷ []) in
        let (wl', ran, q, all) =
          queue_successors-Queued fuel (init_worklist_recurse host dis ld func cfg fuel)
            (entry_at cfg b).succ (wl ++ b ∷ []) (init_worklist_recurse-Visits fuel)
            (λ s e. inside b s e)
            (λ v. elim (Bool-cases (v == b)) [
              | inl e ↦ ground (arith, pushed v, same_count v b wl e)
              | inr e ↦ ground (arith, pushed v, once v)
            ])
            (omega (arith, absent-push n b wl l new)) in
        (
          wl',
          ran,
          record {
            kept = λ v. omega (arith, pushed v, q.kept v);
            once = q.once;
            closed = λ v s grown succ int. elim (Bool-cases (v == b)) [
              | inl e ↦
                  all s
                    (subst (λ i. 0 < count s (entry_at cfg i).succ) {x = v} {y = b} (ground arith)
                      succ)
                    int
              | inr e ↦ q.closed v s (ground (arith, pushed v)) succ int
            ];
          },
          ground (arith, pushed b, q.kept b),
        )

-- For a graph with a block, whose edges run between its blocks, the search for the first worklist ends:
-- the worklist has the entry block, no block twice, and with a block its internal successors.
pub init_worklist-Queued :
    (host : Endian) (dis : Disassembler) (ld : Loader) (func : Symbol) (cfg : ControlFlowGraph)
    → 0 < length cfg.blocks
    → ((v s : ℕ) → 0 < count s (entry_at cfg v).succ → s < length cfg.blocks)
    → (wl : List ℕ) × (init_worklist host dis ld func cfg ≡ ok wl)
      × (0 < count 0 wl)
      × ((v : ℕ) → count v wl ≤ 1)
      × ((v s : ℕ)
          → 0 < count v wl
          → 0 < count s (entry_at cfg v).succ
          → is_internal host dis ld func cfg s ≡ true
          → 0 < count s wl)
unfolding init_worklist
init_worklist-Queued host dis ld func cfg some_block inside =
    let n = length cfg.blocks in
    let (wl, ran, q, entry) =
      init_worklist_recurse-Visits host dis ld func cfg n inside n 0 [] some_block refl
        (λ v. omega arith) (omega (arith, absent-nil n)) in
    (wl, ran, entry, q.once, λ v s on succ int. q.closed v s on succ int)
