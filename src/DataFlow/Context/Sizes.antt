-- ===== src/DataFlow/Context/Sizes.antt =====
-- That the sizes of a context show whether a union changed it: the test that
-- include/ppc2cpp/data_flow/FlowContext.hpp offers to the data flow analysis.
use ppc2cpp.Prelude.{
  ◌+◌, ◌<◌, ◌≡◌, ◌↔◌, ◌⊎◌, inl, inr, refl, ap, List, [], ◌∷◌, ◌++◌, arith, length, length-append,
  Bool-cases,
}
use ppc2cpp.DataFlow.Context.{
  Definition, member, insert_all, union_arrays, array_sizes, FlowContext, context_union, get_sizes,
}

-- An insertion leaves a set as it is, or makes it larger.
insert_all-grows :
    (d vs : Definition) → (insert_all d vs ≡ d) ⊎ (length d < length (insert_all d vs))
unfolding insert_all
insert_all-grows d [] = inl refl
insert_all-grows d (v ∷ vs) = elim (Bool-cases (member v d)) [
  | inl m ↦ rw m (insert_all-grows d vs)
  | inr m ↦
      let larger : length (d ++ v ∷ []) ≡ length d + 1 = length-append d (v ∷ []) in
      rw m (
        inr (elim (insert_all-grows (d ++ v ∷ []) vs) [
          | inl e ↦
              let l : length (insert_all (d ++ v ∷ []) vs) ≡ length (d ++ v ∷ []) = ap length e in
              omega arith
          | inr l ↦ omega arith
        ]))
]

insert_all-same_size :
    (d vs : Definition) → length (insert_all d vs) ≡ length d → insert_all d vs ≡ d
insert_all-same_size d vs h = elim (insert_all-grows d vs) [
  | inl e ↦ e
  | inr l ↦ absurd (omega arith)
]

union_arrays-same_sizes :
    (ds es : List Definition)
    → array_sizes (union_arrays ds es) ≡ array_sizes ds
    → union_arrays ds es ≡ ds
unfolding union_arrays
union_arrays-same_sizes [] es h = refl
union_arrays-same_sizes (d ∷ ds) [] h = refl
union_arrays-same_sizes (d ∷ ds) (e ∷ es) h =
    let first = insert_all-same_size d e (cc) in
    let rest = union_arrays-same_sizes ds es (cc) in (cc)

-- The union with a context leaves the sizes of all definitions as they are exactly when it changes
-- no definition.
pub context_union-sizes_iff :
    (c other : FlowContext)
    → (get_sizes (context_union c other) ≡ get_sizes c) ↔ (context_union c other ≡ c)
unfolding get_sizes context_union
context_union-sizes_iff c other = (
  λ h.
      let gprs = union_arrays-same_sizes c.gprs other.gprs (cc) in
      let cr = union_arrays-same_sizes c.cr other.cr (cc) in
      let lr = insert_all-same_size c.lr other.lr (cc) in
      let ctr = insert_all-same_size c.ctr other.ctr (cc) in
      let xer = insert_all-same_size c.xer other.xer (cc) in
      let fprs = union_arrays-same_sizes c.fprs other.fprs (cc) in
      let fpscr = insert_all-same_size c.fpscr other.fpscr (cc) in
      let gqrs = union_arrays-same_sizes c.gqrs other.gqrs (cc) in
      let ps1s = union_arrays-same_sizes c.ps1s other.ps1s (cc) in (cc),
  λ e. ap get_sizes e,
)
