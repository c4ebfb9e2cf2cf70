-- ===== src/DataFlow/Convention.antt =====
-- The register sets of src/data_flow/PpcCallingConvention.cpp, as lists.
use ppc2cpp.Prelude.{
  ℕ, ◌≡◌, refl, subst, Bool-cases, inl, inr, Bool, true, false, ◌&&◌, ◌||◌, List, [], ◌∷◌, leb,
  ◌==◌, arith,
}
use ppc2cpp.Model.CpuMemory.{
  CpuMemoryLocation, CpuMemorySpace, gpr, fpr, cr_bit, gqr, ps1, spr, eq_space, eq_location,
  spr_value_lr, spr_value_xer, spr_value_ctr,
}
use ppc2cpp.DataFlow.InstructionUd.{loc}

unfoldable pub call_inputs : List CpuMemoryLocation
call_inputs =
    loc gpr 3
    ∷ loc gpr 4
    ∷ loc gpr 5
    ∷ loc gpr 6
    ∷ loc gpr 7
    ∷ loc gpr 8
    ∷ loc gpr 9
    ∷ loc gpr 10
    ∷ loc fpr 1
    ∷ loc fpr 2
    ∷ loc fpr 3
    ∷ loc fpr 4
    ∷ loc fpr 5
    ∷ loc fpr 6
    ∷ loc fpr 7
    ∷ loc fpr 8
    ∷ []

unfoldable pub killed_by_call : List CpuMemoryLocation
killed_by_call =
    loc gpr 0
    ∷ loc gpr 3
    ∷ loc gpr 4
    ∷ loc gpr 5
    ∷ loc gpr 6
    ∷ loc gpr 7
    ∷ loc gpr 8
    ∷ loc gpr 9
    ∷ loc gpr 10
    ∷ loc gpr 11
    ∷ loc gpr 12
    ∷ loc fpr 0
    ∷ loc fpr 1
    ∷ loc fpr 2
    ∷ loc fpr 3
    ∷ loc fpr 4
    ∷ loc fpr 5
    ∷ loc fpr 6
    ∷ loc fpr 7
    ∷ loc fpr 8
    ∷ loc fpr 9
    ∷ loc fpr 10
    ∷ loc fpr 11
    ∷ loc fpr 12
    ∷ loc fpr 13
    ∷ loc cr_bit 0
    ∷ loc cr_bit 1
    ∷ loc cr_bit 2
    ∷ loc cr_bit 3
    ∷ loc cr_bit 4
    ∷ loc cr_bit 5
    ∷ loc cr_bit 6
    ∷ loc cr_bit 7
    ∷ loc cr_bit 8
    ∷ loc cr_bit 21
    ∷ loc cr_bit 22
    ∷ loc cr_bit 23
    ∷ loc cr_bit 24
    ∷ loc cr_bit 25
    ∷ loc cr_bit 26
    ∷ loc cr_bit 27
    ∷ loc cr_bit 28
    ∷ loc cr_bit 29
    ∷ loc cr_bit 30
    ∷ loc cr_bit 31
    ∷ loc spr spr_value_lr
    ∷ loc spr spr_value_xer
    ∷ loc spr spr_value_ctr
    ∷ []

unfoldable pub defined_by_call : List CpuMemoryLocation
defined_by_call = loc gpr 3 ∷ loc gpr 4 ∷ loc fpr 1 ∷ []

unfoldable pub global_registers : List CpuMemoryLocation
global_registers =
    loc gpr 2
    ∷ loc gpr 13
    ∷ loc gqr 0
    ∷ loc gqr 1
    ∷ loc gqr 2
    ∷ loc gqr 3
    ∷ loc gqr 4
    ∷ loc gqr 5
    ∷ loc gqr 6
    ∷ loc gqr 7
    ∷ []

-- `set.contains(l)`
abbrev pub has_location : List CpuMemoryLocation → CpuMemoryLocation → Bool
has_location [] l = false
has_location (x ∷ xs) l = eq_location x l || has_location xs l

-- A call kills GPR 0 and 3 to 12, FPR 0 to 13, the condition bits 0 to 8 and 21 to 31, LR, XER and
-- CTR, and nothing else: the bit 8, of CR2, is killed, and the bit 20, of CR5, is not.
pub has_location-killed_by_call :
    (v : ℕ)
    → (has_location killed_by_call (loc gpr v) ≡ (v == 0 || (leb 3 v && leb v 12)))
      × (has_location killed_by_call (loc fpr v) ≡ leb v 13)
      × (has_location killed_by_call (loc cr_bit v) ≡ (leb v 8 || (leb 21 v && leb v 31)))
      × (has_location killed_by_call (loc gqr v) ≡ false)
      × (has_location killed_by_call (loc ps1 v) ≡ false)
      × (has_location killed_by_call (loc spr v)
          ≡ (v == spr_value_lr || v == spr_value_xer || v == spr_value_ctr))
unfolding killed_by_call eq_location
has_location-killed_by_call v = (ground arith, ground arith, ground arith, refl, refl, ground arith)

abbrev all_in : List CpuMemoryLocation → List CpuMemoryLocation → Bool
all_in [] ys = true
all_in (x ∷ xs) ys = has_location ys x && all_in xs ys

eq_space-true : (a b : CpuMemorySpace) → eq_space a b ≡ true → a ≡ b
eq_space-true gpr gpr h = refl
eq_space-true fpr fpr h = refl
eq_space-true cr_bit cr_bit h = refl
eq_space-true gqr gqr h = refl
eq_space-true ps1 ps1 h = refl
eq_space-true spr spr h = refl
eq_space-true _ _ h = absurd (cc)

eq_location-true : (a b : CpuMemoryLocation) → eq_location a b ≡ true → a ≡ b
unfolding eq_location
eq_location-true a b h =
    let same_space : a.memspace ≡ b.memspace = eq_space-true a.memspace b.memspace (ground arith) in
    let same_value : a.value ≡ b.value = ground arith in (cc)

has_location-all_in :
    (xs ys : List CpuMemoryLocation) (l : CpuMemoryLocation)
    → all_in xs ys ≡ true
    → has_location xs l ≡ true
    → has_location ys l ≡ true
has_location-all_in [] ys l a h = absurd (ground arith)
has_location-all_in (x ∷ xs) ys l a h = elim (Bool-cases (eq_location x l)) [
  | inl e ↦
      subst (λ (m : CpuMemoryLocation). has_location ys m ≡ true) {x = x} {y = l}
        (eq_location-true x l e) (ground arith)
  | inr e ↦ has_location-all_in xs ys l (ground arith) (ground arith)
]

-- The registers that a call may read as arguments and those in which it returns a value are among
-- those that it kills.
killed_by_call-includes :
    (l : CpuMemoryLocation)
    → (has_location call_inputs l ≡ true → has_location killed_by_call l ≡ true)
      × (has_location defined_by_call l ≡ true → has_location killed_by_call l ≡ true)
unfolding eq_location call_inputs defined_by_call killed_by_call
killed_by_call-includes l = (
  has_location-all_in call_inputs killed_by_call l refl,
  has_location-all_in defined_by_call killed_by_call l refl,
)
