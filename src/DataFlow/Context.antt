-- ===== src/DataFlow/Context.antt =====
-- include/ppc2cpp/data_flow/FlowContext.hpp: the nodes that may define each register. A set of node
-- pointers is a list of node numbers without repetition; a `Definition&` is a `Place`, so that
-- two locations with one definition have one place.
pub mod Access
pub mod Sizes
pub mod Below
use ppc2cpp.Prelude.{
  ℕ, ◌-◌, Bool, true, false, ◌&&◌, ◌||◌, List, [], ◌∷◌, ◌++◌, ◌==◌, ltb, leb, if◌then◌else◌, length,
  get_or, modify, map,
}
use ppc2cpp.Model.CpuMemory.{
  CpuMemoryLocation, gpr, fpr, cr_bit, gqr, ps1, spr, spr_value_lr, spr_value_xer, spr_value_ctr,
}
use ppc2cpp.Program.{Outcome, ok, err, runtime_error, ◌>>=◌}

abbrev pub Definition : Type 0
Definition = List ℕ

abbrev pub member : ℕ → Definition → Bool
member v [] = false
member v (x ∷ d) = (v == x) || member v d

-- `def.insert(first, last)`
unfoldable pub insert_all : Definition → Definition → Definition
insert_all d [] = d
insert_all d (v ∷ vs) = insert_all (if member v d then d else d ++ v ∷ []) vs

pub record FlowContext : Type 0 where
  pub gprs : List Definition
  pub cr : List Definition
  pub lr : Definition
  pub ctr : Definition
  pub xer : Definition
  pub fprs : List Definition
  pub fpscr : Definition
  pub gqrs : List Definition
  pub ps1s : List Definition

pub record FlowContextSizes : Type 0 where
  pub gprs : List ℕ
  pub cr : List ℕ
  pub lr : ℕ
  pub ctr : ℕ
  pub xer : ℕ
  pub fprs : List ℕ
  pub fpscr : ℕ
  pub gqrs : List ℕ
  pub ps1s : List ℕ

-- The loop over two arrays of one size.
unfoldable pub union_arrays : List Definition → List Definition → List Definition
unfolding insert_all
union_arrays [] es = []
union_arrays (d ∷ ds) [] = d ∷ ds
union_arrays (d ∷ ds) (e ∷ es) = insert_all d e ∷ union_arrays ds es

unfoldable pub context_union : FlowContext → FlowContext → FlowContext
unfolding insert_all union_arrays
context_union c other = record {
  gprs = union_arrays c.gprs other.gprs;
  cr = union_arrays c.cr other.cr;
  lr = insert_all c.lr other.lr;
  ctr = insert_all c.ctr other.ctr;
  xer = insert_all c.xer other.xer;
  fprs = union_arrays c.fprs other.fprs;
  fpscr = insert_all c.fpscr other.fpscr;
  gqrs = union_arrays c.gqrs other.gqrs;
  ps1s = union_arrays c.ps1s other.ps1s;
}

abbrev pub array_sizes : List Definition → List ℕ
array_sizes [] = []
array_sizes (d ∷ ds) = length d ∷ array_sizes ds

unfoldable pub get_sizes : FlowContext → FlowContextSizes
get_sizes c = record {
  gprs = array_sizes c.gprs;
  cr = array_sizes c.cr;
  lr = length c.lr;
  ctr = length c.ctr;
  xer = length c.xer;
  fprs = array_sizes c.fprs;
  fpscr = length c.fpscr;
  gqrs = array_sizes c.gqrs;
  ps1s = array_sizes c.ps1s;
}

pub data Place : Type 0 where
  gpr_at : ℕ → Place
  fpr_at : ℕ → Place
  cr_at : ℕ → Place
  gqr_at : ℕ → Place
  ps1_at : ℕ → Place
  lr_place : Place
  ctr_place : Place
  xer_place : Place

unfoldable pub get_spr_definition : ℕ → Outcome Place
get_spr_definition spr_num =
    if spr_num == spr_value_xer
    then ok xer_place
    else if spr_num == spr_value_lr
    then ok lr_place
    else if spr_num == spr_value_ctr
    then ok ctr_place
    else if leb 912 spr_num && ltb spr_num 920
    then ok (gqr_at (spr_num - 912))
    else err runtime_error

unfoldable pub get_definition : CpuMemoryLocation → Outcome Place
unfolding get_spr_definition
get_definition l = elim l.memspace [
  | gpr ↦ ok (gpr_at l.value)
  | fpr ↦ ok (fpr_at l.value)
  | cr_bit ↦ ok (cr_at l.value)
  | gqr ↦ ok (gqr_at l.value)
  | ps1 ↦ ok (ps1_at l.value)
  | spr ↦ get_spr_definition l.value
]

-- What a reference reads, and an assignment through it.
abbrev pub read : FlowContext → Place → Definition
read c (gpr_at i) = get_or c.gprs i []
read c (fpr_at i) = get_or c.fprs i []
read c (cr_at i) = get_or c.cr i []
read c (gqr_at i) = get_or c.gqrs i []
read c (ps1_at i) = get_or c.ps1s i []
read c lr_place = c.lr
read c ctr_place = c.ctr
read c xer_place = c.xer

abbrev pub write : FlowContext → Place → Definition → FlowContext
write c (gpr_at i) d = record c { gprs = modify c.gprs i (λ _. d) }
write c (fpr_at i) d = record c { fprs = modify c.fprs i (λ _. d) }
write c (cr_at i) d = record c { cr = modify c.cr i (λ _. d) }
write c (gqr_at i) d = record c { gqrs = modify c.gqrs i (λ _. d) }
write c (ps1_at i) d = record c { ps1s = modify c.ps1s i (λ _. d) }
write c lr_place d = record c { lr = d }
write c ctr_place d = record c { ctr = d }
write c xer_place d = record c { xer = d }

unfoldable pub set_definition : FlowContext → CpuMemoryLocation → ℕ → Outcome FlowContext
unfolding get_definition
set_definition c l var = get_definition l >>= λ p. ok (write c p (var ∷ []))

unfoldable pub kill_definition : FlowContext → CpuMemoryLocation → Outcome FlowContext
unfolding get_definition
kill_definition c l = get_definition l >>= λ p. ok (write c p [])
