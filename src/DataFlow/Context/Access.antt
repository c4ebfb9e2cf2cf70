-- ===== src/DataFlow/Context/Access.antt =====
-- Reading and writing definitions: which writes are seen at which locations.
use ppc2cpp.Prelude.{
  ℕ, ◌-◌, ◌≡◌, ◌∙◌, sym, refl, Bool, true, ◌&&◌, ◌||◌, List, [], ◌∷◌, ◌==◌, ltb, leb, if◌then◌else◌,
  arith, length, get_or, modify, get_or-modify, length-modify, Bool-cases, inl, inr, subst, ==_iff,
}
use ppc2cpp.Model.CpuMemory.{
  CpuMemorySpace, CpuMemoryLocation, eq_space, eq_location, gpr, fpr, cr_bit, gqr, ps1, spr,
  spr_value_lr, spr_value_xer, spr_value_ctr,
}
use ppc2cpp.Program.{Outcome, ok, ◌>>=◌}
use ppc2cpp.DataFlow.Context.{
  Definition, FlowContext, Place, gpr_at, fpr_at, cr_at, gqr_at, ps1_at, lr_place, ctr_place,
  xer_place, get_spr_definition, get_definition, read, write, set_definition, kill_definition,
}

-- The location that a place is named by.
abbrev pub location_of : Place → CpuMemoryLocation
location_of (gpr_at i) = record { memspace = gpr; value = i }
location_of (fpr_at i) = record { memspace = fpr; value = i }
location_of (cr_at i) = record { memspace = cr_bit; value = i }
location_of (gqr_at i) = record { memspace = gqr; value = i }
location_of (ps1_at i) = record { memspace = ps1; value = i }
location_of lr_place = record { memspace = spr; value = spr_value_lr }
location_of ctr_place = record { memspace = spr; value = spr_value_ctr }
location_of xer_place = record { memspace = spr; value = spr_value_xer }

-- The arrays have the sizes of the source.
abbrev pub IsSized : FlowContext → Type 0
IsSized c =
    (length c.gprs ≡ 32)
    × (length c.fprs ≡ 32)
    × (length c.cr ≡ 32)
    × (length c.gqrs ≡ 8)
    × (length c.ps1s ≡ 32)

abbrev pub in_bounds : Place → Bool
in_bounds (gpr_at i) = ltb i 32
in_bounds (fpr_at i) = ltb i 32
in_bounds (cr_at i) = ltb i 32
in_bounds (gqr_at i) = ltb i 8
in_bounds (ps1_at i) = ltb i 32
in_bounds _ = true

read_array-write :
    (ds : List Definition) (n i j : ℕ) (d : Definition)
    → length ds ≡ n
    → ltb i n ≡ true
    → get_or (modify ds i (λ _. d)) j [] ≡ (if i == j then d else get_or ds j [])
read_array-write ds n i j d l h = ground (arith, get_or-modify ds i j (λ _. d) [])

read-write :
    (c : FlowContext) (p p' : Place) (d : Definition)
    → IsSized c
    → in_bounds p ≡ true
    → read (write c p d) p'
      ≡ (if eq_location (location_of p) (location_of p') then d else read c p')
unfolding eq_location
read-write c (gpr_at i) (gpr_at j) d s h = read_array-write c.gprs 32 i j d s.0 h
read-write c (fpr_at i) (fpr_at j) d s h = read_array-write c.fprs 32 i j d s.1 h
read-write c (cr_at i) (cr_at j) d s h = read_array-write c.cr 32 i j d s.2 h
read-write c (gqr_at i) (gqr_at j) d s h = read_array-write c.gqrs 8 i j d s.3 h
read-write c (ps1_at i) (ps1_at j) d s h = read_array-write c.ps1s 32 i j d s.4 h
read-write c lr_place lr_place d s h = refl
read-write c ctr_place ctr_place d s h = refl
read-write c xer_place xer_place d s h = refl
read-write c _ _ d s h = refl

write-IsSized : (c : FlowContext) (p : Place) (d : Definition) → IsSized c → IsSized (write c p d)
write-IsSized c (gpr_at i) d (a, b, e, f, g) = (length-modify c.gprs i (λ _. d) ∙ a, b, e, f, g)
write-IsSized c (fpr_at i) d (a, b, e, f, g) = (a, length-modify c.fprs i (λ _. d) ∙ b, e, f, g)
write-IsSized c (cr_at i) d (a, b, e, f, g) = (a, b, length-modify c.cr i (λ _. d) ∙ e, f, g)
write-IsSized c (gqr_at i) d (a, b, e, f, g) = (a, b, e, length-modify c.gqrs i (λ _. d) ∙ f, g)
write-IsSized c (ps1_at i) d (a, b, e, f, g) = (a, b, e, f, length-modify c.ps1s i (λ _. d) ∙ g)
write-IsSized c _ d s = s

-- The locations of registers: the numbers of each space, and the special registers that are known.
abbrev pub is_register_location : CpuMemoryLocation → Bool
is_register_location l = elim l.memspace [
  | gpr ↦ ltb l.value 32
  | fpr ↦ ltb l.value 32
  | cr_bit ↦ ltb l.value 32
  | gqr ↦ ltb l.value 8
  | ps1 ↦ ltb l.value 32
  | spr ↦
      l.value == spr_value_xer
      || l.value == spr_value_lr
      || l.value == spr_value_ctr
      || (leb 912 l.value && ltb l.value 920)
]

-- A special register from 912 on is a graphics quantization register.
abbrev pub canonical : CpuMemoryLocation → CpuMemoryLocation
canonical l =
    if eq_space l.memspace spr && leb 912 l.value && ltb l.value 920
    then record { memspace = gqr; value = l.value - 912 }
    else l

-- What `getDefinition` refers to on the location of a register.
abbrev pub Resolves : CpuMemoryLocation → Type 0
Resolves l =
    (p : Place) × (get_definition l ≡ ok p) × (in_bounds p ≡ true) × (location_of p ≡ canonical l)

named_spr :
    (v n : ℕ)
    → (v == n) ≡ true
    → Resolves (record { memspace = spr; value = n })
    → Resolves (record { memspace = spr; value = v })
named_spr v n e r =
    subst (λ (w : ℕ). Resolves (record { memspace = spr; value = w })) {x = n} {y = v}
      (sym ((==_iff v n).0 e)) r

resolve_spr :
    (v : ℕ)
    → is_register_location (record { memspace = spr; value = v }) ≡ true
    → Resolves (record { memspace = spr; value = v })
unfolding get_definition get_spr_definition
resolve_spr v h = elim (Bool-cases (v == spr_value_xer)) [
  | inl x ↦ named_spr v spr_value_xer (x) (xer_place, refl, refl, refl)
  | inr x ↦ elim (Bool-cases (v == spr_value_lr)) [
    | inl l ↦ named_spr v spr_value_lr (l) (lr_place, refl, refl, refl)
    | inr l ↦ elim (Bool-cases (v == spr_value_ctr)) [
      | inl k ↦ named_spr v spr_value_ctr (k) (ctr_place, refl, refl, refl)
      | inr k ↦
          let b : leb 912 v && ltb v 920 ≡ true = ground arith in
          (gqr_at (v - 912), rw (x, l, k, b) refl, ground arith, rw b refl)
    ]
  ]
]

resolve :
    (space : CpuMemorySpace) (v : ℕ)
    → is_register_location (record { memspace = space; value = v }) ≡ true
    → Resolves (record { memspace = space; value = v })
unfolding get_definition
resolve gpr v h = (gpr_at v, refl, h, refl)
resolve fpr v h = (fpr_at v, refl, h, refl)
resolve cr_bit v h = (cr_at v, refl, h, refl)
resolve gqr v h = (gqr_at v, refl, h, refl)
resolve ps1 v h = (ps1_at v, refl, h, refl)
resolve spr v h = resolve_spr v h

-- `getDefinition(l)`, read.
abbrev pub definition : FlowContext → CpuMemoryLocation → Outcome Definition
definition c l = get_definition l >>= λ p. ok (read c p)

-- A context in which the definition of l has become d, and no other.
abbrev pub Assigns : FlowContext → CpuMemoryLocation → Definition → Outcome FlowContext → Type 0
Assigns c l d r =
    (c' : FlowContext) × (r ≡ ok c')
    × IsSized c'
    × ((l' : CpuMemoryLocation)
        → is_register_location l' ≡ true
        → definition c' l'
          ≡ (if eq_location (canonical l) (canonical l') then ok d else definition c l'))

assign :
    (c : FlowContext) (l : CpuMemoryLocation) (d : Definition)
    → IsSized c
    → is_register_location l ≡ true
    → Assigns c l d (get_definition l >>= λ p. ok (write c p d))
assign c l d s h =
    let (p, resolved, bounds, named) = resolve l.memspace l.value h in
    (
      write c p d,
      rw resolved refl,
      write-IsSized c p d s,
      λ l' h'.
          let (p', resolved', bounds', named') = resolve l'.memspace l'.value h' in
          let seen = read-write c p p' d s bounds in
          rw (resolved', seen, sym named, sym named')
            (elim (Bool-cases (eq_location (location_of p) (location_of p'))) [
              | inl e ↦ rw e refl
              | inr e ↦ rw e refl
            ]),
    )

-- For a context with arrays of the source's sizes and the location of a register, `setDefinition`
-- makes the variable the only definition of the location, `killDefinition` leaves none, and both
-- leave the definition of every other register as it was; the special registers from 912 on and the
-- graphics quantization registers are the same.
pub set_kill_definition :
    (c : FlowContext) (l : CpuMemoryLocation) (var : ℕ)
    → IsSized c
    → is_register_location l ≡ true
    → Assigns c l (var ∷ []) (set_definition c l var) × Assigns c l [] (kill_definition c l)
unfolding set_definition kill_definition
set_kill_definition c l var s h = (assign c l (var ∷ []) s h, assign c l [] s h)
