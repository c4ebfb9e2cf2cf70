-- ===== src/DataFlow/InsnSets/Partition.antt =====
-- That the instruction sets partition the supported instructions, as their comment in
-- src/data_flow/PpcInstructionUD.cpp says.
use ppc2cpp.Prelude.{
  ℕ, ◌+◌, ◌<◌, ◌≡◌, refl, ◌∙◌, sym, ap, Bool, true, false, ◌&&◌, ◌||◌, List, [], ◌∷◌, ◌++◌, ◌==◌,
  ltb, leb, if◌then◌else◌, arith, Bool-cases, inl, inr, ==_iff,
}
use ppc2cpp.DataFlow.Form.{Form, index}
use ppc2cpp.DataFlow.InsnSets.{has, InsnSets, start_sets, init_instruction_ud}
use ppc2cpp.DataFlow.InsnSets.Lists.{
  fixed_point_insn, float_insn, load_insn, store_insn, branch_insn, sets_cr0, sets_cr1,
  can_have_reloc_start,
}

has-append :
    (form : Form → ℕ) (xs ys : List Form) (opcode : ℕ)
    → has form (xs ++ ys) opcode ≡ (has form xs opcode || has form ys opcode)
has-append form [] ys opcode = refl
has-append form (x ∷ xs) ys opcode = ground (arith, has-append form xs ys opcode)

-- Every form of a list has its number in the range from lo, of n numbers.
abbrev all_within : ℕ → ℕ → List Form → Bool
all_within lo n [] = true
all_within lo n (f ∷ fs) = (leb lo (index f) && ltb (index f) (lo + n)) && all_within lo n fs

has-within :
    (form : Form → ℕ) (lo n : ℕ) (set : List Form) (opcode : ℕ)
    → all_within lo n set ≡ true
    → has form set opcode ≡ true
    → (f : Form) × (form f ≡ opcode) × (leb lo (index f) && ltb (index f) (lo + n) ≡ true)
has-within form lo n [] opcode w h = absurd (cc)
has-within form lo n (f ∷ fs) opcode w h = elim (Bool-cases (form f == opcode)) [
  | inl e ↦ (f, (==_iff (form f) opcode).0 e, ground arith)
  | inr e ↦ has-within form lo n fs opcode (ground arith) (ground arith)
]

-- Lists of forms of different ranges have no opcode in common.
has-apart :
    (form : Form → ℕ) (lo n lo' n' : ℕ) (set set' : List Form) (opcode : ℕ)
    → ((f g : Form) → form f ≡ form g → f ≡ g)
    → lo + n < lo' + 1
    → all_within lo n set ≡ true
    → all_within lo' n' set' ≡ true
    → has form set opcode && has form set' opcode ≡ false
has-apart form lo n lo' n' set set' opcode inj apart w w' =
    elim (Bool-cases (has form set opcode)) [
      | inr e ↦ ground arith
      | inl e ↦ elim (Bool-cases (has form set' opcode)) [
        | inr e' ↦ ground arith
        | inl e' ↦
            let (f, eq, r) = has-within form lo n set opcode w e in
            let (g, eq', r') = has-within form lo' n' set' opcode w' e' in
            let same : index f ≡ index g = ap index (inj f g (eq ∙ sym eq')) in
            absurd (ground arith)
      ]
    ]

-- The sets after `initInstructionUD`, which runs once.
abbrev pub sets : InsnSets
sets = init_instruction_ud start_sets

-- In how many of the five sets an opcode is.
abbrev pub memberships : (Form → ℕ) → ℕ → ℕ
memberships form opcode =
    let one : Bool → ℕ = λ b. if b then 1 else 0 in
    one (has form fixed_point_insn opcode)
    + one (has form float_insn opcode)
    + one (has form load_insn opcode)
    + one (has form store_insn opcode)
    + one (has form branch_insn opcode)

-- The two sets after the start, written with the five.
has-non_store_insn :
    (form : Form → ℕ) (opcode : ℕ)
    → has form sets.non_store_insn opcode ≡ (
        has form fixed_point_insn opcode || has form float_insn opcode || has form load_insn opcode)
unfolding init_instruction_ud start_sets
has-non_store_insn form opcode = ground (
  arith,
  has-append form fixed_point_insn (float_insn ++ load_insn) opcode,
  has-append form float_insn load_insn opcode,
)

has-supported_insn :
    (form : Form → ℕ) (opcode : ℕ)
    → has form sets.supported_insn opcode ≡ (
        has form sets.non_store_insn opcode
        || has form store_insn opcode
        || has form branch_insn opcode)
unfolding init_instruction_ud start_sets
has-supported_insn form opcode = ground (
  arith,
  has-append form sets.non_store_insn (store_insn ++ branch_insn) opcode,
  has-append form store_insn branch_insn opcode,
)

-- Where the constants of ppcdisasm have different values, the five sets partition the supported
-- instructions: a supported opcode is in exactly one of them, and any other opcode in none.
pub memberships-supported_insn :
    (form : Form → ℕ) (opcode : ℕ)
    → ((f g : Form) → form f ≡ form g → f ≡ g)
    → memberships form opcode ≡ (if has form sets.supported_insn opcode then 1 else 0)
unfolding fixed_point_insn float_insn load_insn store_insn branch_insn
memberships-supported_insn form opcode inj = ground (
  arith,
  has-supported_insn form opcode,
  has-non_store_insn form opcode,
  has-apart form 0 123 123 58 fixed_point_insn float_insn opcode inj (omega arith) refl refl,
  has-apart form 0 123 181 29 fixed_point_insn load_insn opcode inj (omega arith) refl refl,
  has-apart form 0 123 210 26 fixed_point_insn store_insn opcode inj (omega arith) refl refl,
  has-apart form 0 123 236 12 fixed_point_insn branch_insn opcode inj (omega arith) refl refl,
  has-apart form 123 58 181 29 float_insn load_insn opcode inj (omega arith) refl refl,
  has-apart form 123 58 210 26 float_insn store_insn opcode inj (omega arith) refl refl,
  has-apart form 123 58 236 12 float_insn branch_insn opcode inj (omega arith) refl refl,
  has-apart form 181 29 210 26 load_insn store_insn opcode inj (omega arith) refl refl,
  has-apart form 181 29 236 12 load_insn branch_insn opcode inj (omega arith) refl refl,
  has-apart form 210 26 236 12 store_insn branch_insn opcode inj (omega arith) refl refl,
)

-- Where the constants of ppcdisasm have different values, a supported opcode that sets CR0 is of the
-- fixed point unit, one that sets CR1 of the floating point unit, and one that may have a relocation
-- in its operands is no branch.
supported_insn-kinds :
    (form : Form → ℕ) (opcode : ℕ)
    → ((f g : Form) → form f ≡ form g → f ≡ g)
    → has form sets.supported_insn opcode ≡ true
    → (has form sets_cr0 opcode ≡ true → has form fixed_point_insn opcode ≡ true)
      × (has form sets_cr1 opcode ≡ true → has form float_insn opcode ≡ true)
      × (has form sets.can_have_reloc_insn opcode ≡ true → has form branch_insn opcode ≡ false)
unfolding sets_cr0 sets_cr1 fixed_point_insn float_insn load_insn store_insn branch_insn
    init_instruction_ud start_sets can_have_reloc_start
supported_insn-kinds form opcode inj h = (
  λ e. ground (
    arith,
    has-supported_insn form opcode,
    has-non_store_insn form opcode,
    has-apart form 0 123 123 58 sets_cr0 float_insn opcode inj (omega arith) refl refl,
    has-apart form 0 123 181 29 sets_cr0 load_insn opcode inj (omega arith) refl refl,
    has-apart form 0 123 210 26 sets_cr0 store_insn opcode inj (omega arith) refl refl,
    has-apart form 0 123 236 12 sets_cr0 branch_insn opcode inj (omega arith) refl refl,
  ),
  λ e. ground (
    arith,
    has-supported_insn form opcode,
    has-non_store_insn form opcode,
    has-apart form 0 123 123 58 fixed_point_insn sets_cr1 opcode inj (omega arith) refl refl,
    has-apart form 123 58 181 29 sets_cr1 load_insn opcode inj (omega arith) refl refl,
    has-apart form 123 58 210 26 sets_cr1 store_insn opcode inj (omega arith) refl refl,
    has-apart form 123 58 236 12 sets_cr1 branch_insn opcode inj (omega arith) refl refl,
  ),
  λ e. ground (
    arith,
    has-apart form 0 236 236 12 sets.can_have_reloc_insn branch_insn opcode inj (omega arith) refl
        refl,
  ),
)
