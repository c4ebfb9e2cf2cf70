-- ===== src/DataFlow/Context/Below.antt =====
-- Contexts whose definitions are nodes that have been made.
use ppc2cpp.Prelude.{
  ℕ, zero, suc, ◌≤◌, ◌<◌, List, [], ◌∷◌, ◌++◌, get_or, modify-keeps, Bool-cases, inl, inr,
}
use ppc2cpp.Model.CpuMemory.{CpuMemoryLocation}
use ppc2cpp.Program.{Outcome, ok, err, ◌>>=◌, Holds}
use ppc2cpp.DataFlow.Node.{AllBelow}
use ppc2cpp.DataFlow.Node.Acyclic.{AllBelow-mono, AllBelow-append}
use ppc2cpp.DataFlow.Context.{
  Definition, member, insert_all, union_arrays, FlowContext, context_union, Place, gpr_at, fpr_at,
  cr_at, gqr_at, ps1_at, lr_place, ctr_place, xer_place, get_definition, read, write,
  set_definition, kill_definition,
}

abbrev pub ContextBelow : ℕ → FlowContext → Type 0
ContextBelow k c = (p : Place) → AllBelow k (read c p)

pub ContextBelow-mono : (k n : ℕ) (c : FlowContext) → k ≤ n → ContextBelow k c → ContextBelow n c
ContextBelow-mono k n c h b p = AllBelow-mono k n (read c p) h (b p)

write-ContextBelow :
    (k : ℕ) (c : FlowContext) (p : Place) (d : Definition)
    → AllBelow k d
    → ContextBelow k c
    → ContextBelow k (write c p d)
write-ContextBelow k c (gpr_at i) d new b (gpr_at j) =
    modify-keeps (AllBelow k) c.gprs i j d [] new (b (gpr_at j))
write-ContextBelow k c (fpr_at i) d new b (fpr_at j) =
    modify-keeps (AllBelow k) c.fprs i j d [] new (b (fpr_at j))
write-ContextBelow k c (cr_at i) d new b (cr_at j) =
    modify-keeps (AllBelow k) c.cr i j d [] new (b (cr_at j))
write-ContextBelow k c (gqr_at i) d new b (gqr_at j) =
    modify-keeps (AllBelow k) c.gqrs i j d [] new (b (gqr_at j))
write-ContextBelow k c (ps1_at i) d new b (ps1_at j) =
    modify-keeps (AllBelow k) c.ps1s i j d [] new (b (ps1_at j))
write-ContextBelow k c lr_place d new b lr_place = new
write-ContextBelow k c ctr_place d new b ctr_place = new
write-ContextBelow k c xer_place d new b xer_place = new
write-ContextBelow k c _ d new b q = b q

pub set_definition-ContextBelow :
    (k : ℕ) (c : FlowContext) (l : CpuMemoryLocation) (var : ℕ)
    → var < k
    → ContextBelow k c
    → Holds (ContextBelow k) (set_definition c l var)
unfolding set_definition
set_definition-ContextBelow k c l var h b = go (get_definition l)
  where
    go : (r : Outcome Place) → Holds (ContextBelow k) (r >>= λ p. ok (write c p (var ∷ [])))
    go (ok p) = write-ContextBelow k c p (var ∷ []) (h, tt) b
    go (err e) = tt

pub kill_definition-ContextBelow :
    (k : ℕ) (c : FlowContext) (l : CpuMemoryLocation)
    → ContextBelow k c
    → Holds (ContextBelow k) (kill_definition c l)
unfolding kill_definition
kill_definition-ContextBelow k c l b = go (get_definition l)
  where
    go : (r : Outcome Place) → Holds (ContextBelow k) (r >>= λ p. ok (write c p []))
    go (ok p) = write-ContextBelow k c p [] tt b
    go (err e) = tt

insert_all-AllBelow :
    (k : ℕ) (d vs : Definition) → AllBelow k d → AllBelow k vs → AllBelow k (insert_all d vs)
unfolding insert_all
insert_all-AllBelow k d [] b c = b
insert_all-AllBelow k d (v ∷ vs) b (l, c) = elim (Bool-cases (member v d)) [
  | inl e ↦ rw e (insert_all-AllBelow k d vs b c)
  | inr e ↦ rw e (insert_all-AllBelow k (d ++ v ∷ []) vs (AllBelow-append k d (v ∷ []) b (l, tt)) c)
]

union_arrays-AllBelow :
    (k : ℕ) (ds es : List Definition) (i : ℕ)
    → AllBelow k (get_or ds i [])
    → AllBelow k (get_or es i [])
    → AllBelow k (get_or (union_arrays ds es) i [])
unfolding union_arrays
union_arrays-AllBelow k [] es i b c = tt
union_arrays-AllBelow k (d ∷ ds) [] i b c = b
union_arrays-AllBelow k (d ∷ ds) (e ∷ es) zero b c = insert_all-AllBelow k d e b c
union_arrays-AllBelow k (d ∷ ds) (e ∷ es) (suc i) b c = union_arrays-AllBelow k ds es i b c

pub context_union-ContextBelow :
    (k : ℕ) (c other : FlowContext)
    → ContextBelow k c
    → ContextBelow k other
    → ContextBelow k (context_union c other)
unfolding context_union
context_union-ContextBelow k c o b d (gpr_at i) =
    union_arrays-AllBelow k c.gprs o.gprs i (b (gpr_at i)) (d (gpr_at i))
context_union-ContextBelow k c o b d (fpr_at i) =
    union_arrays-AllBelow k c.fprs o.fprs i (b (fpr_at i)) (d (fpr_at i))
context_union-ContextBelow k c o b d (cr_at i) =
    union_arrays-AllBelow k c.cr o.cr i (b (cr_at i)) (d (cr_at i))
context_union-ContextBelow k c o b d (gqr_at i) =
    union_arrays-AllBelow k c.gqrs o.gqrs i (b (gqr_at i)) (d (gqr_at i))
context_union-ContextBelow k c o b d (ps1_at i) =
    union_arrays-AllBelow k c.ps1s o.ps1s i (b (ps1_at i)) (d (ps1_at i))
context_union-ContextBelow k c o b d lr_place =
    insert_all-AllBelow k c.lr o.lr (b lr_place) (d lr_place)
context_union-ContextBelow k c o b d ctr_place =
    insert_all-AllBelow k c.ctr o.ctr (b ctr_place) (d ctr_place)
context_union-ContextBelow k c o b d xer_place =
    insert_all-AllBelow k c.xer o.xer (b xer_place) (d xer_place)
