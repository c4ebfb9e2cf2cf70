-- ===== src/ControlFlow/Graph/Edges.antt =====
-- The predecessor-successor table of ControlFlowGraph.hpp as a relation between block indices.
use ppc2cpp.Prelude.{
  ℕ, suc, ◌+◌, ◌≤◌, ◌<◌, ◌≡◌, ◌∙◌, ap, ◌&&◌, List, [], ◌∷◌, ◌++◌, ◌==◌, arith, if◌then◌else◌,
  length, get_or, modify, count, count-append, get_or-modify, get_or-append_default, length-append,
  length-modify,
}
use ppc2cpp.ControlFlow.Graph.{PsEntry, empty_entry, link}

abbrev pub succ_of : List PsEntry → ℕ → List ℕ
succ_of ps i = (get_or ps i empty_entry).succ

abbrev pub pred_of : List PsEntry → ℕ → List ℕ
pred_of ps i = (get_or ps i empty_entry).pred

-- How often `to` stands among the successors of `from`, and `from` among the predecessors of `to`.
unfoldable pub out_count : List PsEntry → ℕ → ℕ → ℕ
out_count ps from to = count to (succ_of ps from)

unfoldable pub in_count : List PsEntry → ℕ → ℕ → ℕ
in_count ps from to = count from (pred_of ps to)

abbrev one_at : ℕ → ℕ → ℕ → ℕ → ℕ
one_at from to i j = if (from == i) && (to == j) then 1 else 0

pub out_count-link :
    (ps : List PsEntry) (from to i j : ℕ)
    → from < length ps
    → out_count (link ps from to) i j ≡ out_count ps i j + one_at from to i j
unfolding out_count
out_count-link ps from to i j h = ground (
  arith,
  get_or-modify (modify ps from (λ e. record e { succ = e.succ ++ to ∷ [] })) to i
      (λ e. record e { pred = e.pred ++ from ∷ [] }) empty_entry,
  get_or-modify ps from i (λ e. record e { succ = e.succ ++ to ∷ [] }) empty_entry,
  count-append j (succ_of ps i) (to ∷ []),
)

pub in_count-link :
    (ps : List PsEntry) (from to i j : ℕ)
    → to < length ps
    → in_count (link ps from to) i j ≡ in_count ps i j + one_at from to i j
unfolding in_count
in_count-link ps from to i j h = ground (
  arith,
  get_or-modify (modify ps from (λ e. record e { succ = e.succ ++ to ∷ [] })) to j
      (λ e. record e { pred = e.pred ++ from ∷ [] }) empty_entry,
  get_or-modify ps from j (λ e. record e { succ = e.succ ++ to ∷ [] }) empty_entry,
  length-modify ps from (λ e. record e { succ = e.succ ++ to ∷ [] }),
  count-append i (pred_of ps j) (from ∷ []),
)

pub length-link : (ps : List PsEntry) (from to : ℕ) → length (link ps from to) ≡ length ps
length-link ps from to =
    length-modify (modify ps from (λ e. record e { succ = e.succ ++ to ∷ [] })) to
      (λ e. record e { pred = e.pred ++ from ∷ [] })
    ∙ length-modify ps from (λ e. record e { succ = e.succ ++ to ∷ [] })

pub out_count-push :
    (ps : List PsEntry) (i j : ℕ) → out_count (ps ++ empty_entry ∷ []) i j ≡ out_count ps i j
unfolding out_count
out_count-push ps i j =
    ap (λ (e : PsEntry). count j e.succ) (get_or-append_default ps i empty_entry)

pub in_count-push :
    (ps : List PsEntry) (i j : ℕ) → in_count (ps ++ empty_entry ∷ []) i j ≡ in_count ps i j
unfolding in_count
in_count-push ps i j = ap (λ (e : PsEntry). count i e.pred) (get_or-append_default ps j empty_entry)

-- The table fits n blocks: it has an entry for each, the edges run between them, and an index stands
-- among the successors of another as often as that one among its predecessors.
pub record IsLinked (n : ℕ) (ps : List PsEntry) : Type 0 where
  pub sized : n ≤ length ps
  pub bounded : (i j : ℕ) → 0 < out_count ps i j → (i < n) × (j < n)
  pub mirrored : (i j : ℕ) → out_count ps i j ≡ in_count ps i j

pub push-IsLinked :
    (n : ℕ) (ps : List PsEntry) → IsLinked n ps → IsLinked n (ps ++ empty_entry ∷ [])
push-IsLinked n ps h = record {
  sized = omega (arith, length-append ps (empty_entry ∷ []), h.sized);
  bounded = λ i j p. h.bounded i j (omega (arith, out_count-push ps i j));
  mirrored = λ i j. omega (arith, out_count-push ps i j, in_count-push ps i j, h.mirrored i j);
}

pub suc-IsLinked : (n : ℕ) (ps : List PsEntry) → IsLinked n ps → n < length ps → IsLinked (suc n) ps
suc-IsLinked n ps h l = record {
  sized = l;
  bounded = λ i j p. omega (arith, h.bounded i j p);
  mirrored = h.mirrored;
}

pub link-IsLinked :
    (n : ℕ) (ps : List PsEntry) (from to : ℕ)
    → from < n
    → to < n
    → IsLinked n ps
    → IsLinked n (link ps from to)
link-IsLinked n ps from to f t h = record {
  sized = omega (arith, length-link ps from to, h.sized);
  bounded = λ i j p. ground (arith, h.bounded i j, out_count-link ps from to i j, h.sized);
  mirrored = λ i j. omega (
    arith,
    h.mirrored i j,
    h.sized,
    out_count-link ps from to i j (omega (arith, h.sized)),
    in_count-link ps from to i j (omega (arith, h.sized)),
  );
}

-- The blocks that successors lead to from the entry block.
pub data Reachable (ps : List PsEntry) : ℕ → Type 0 where
  entry : Reachable ps 0
  next : {i j : ℕ} → Reachable ps i → 0 < out_count ps i j → Reachable ps j

pub Reachable-mono :
    (ps qs : List PsEntry)
    → ((i j : ℕ) → out_count ps i j ≤ out_count qs i j)
    → {i : ℕ} → Reachable ps i
    → Reachable qs i
Reachable-mono ps qs h entry = entry
Reachable-mono ps qs h (next {i} {j} r e) = next (Reachable-mono ps qs h r) (omega (arith, h i j))

pub start-IsLinked : IsLinked 1 (empty_entry ∷ [])
unfolding out_count in_count
start-IsLinked = record {
  sized = omega arith;
  bounded = λ i j p. absurd (omega (arith, out_count-push [] i j));
  mirrored = λ i j. omega (arith, out_count-push [] i j, in_count-push [] i j);
}
