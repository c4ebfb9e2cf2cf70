-- ===== src/Program.antt =====
-- What the analyses take from the program loader (include/ppc2cpp/program_loader/ProgramLoader.hpp)
-- and from the disassembler ppcdisasm, which is a library that is not part of the repository. A
-- pointer into a buffer is the bytes from it on; how far they reach is not modelled.
use ppc2cpp.Prelude.{
  ℕ, ◌+◌, ◌*◌, ◌≡◌, refl, subst, Bool, true, false, Option, none, some, arith, if◌then◌else◌,
}
use ppc2cpp.Common.Endian.{Endian, be32, load32}
use ppc2cpp.Model.Location.{ProgramLocation}
use ppc2cpp.Model.Symbol.{Relocation}

abbrev pub Buffer : Type 0
Buffer = ℕ → ℕ

pub record Loader : Type 0 where
  pub get_buffer_at_location : ProgramLocation → Option Buffer
  pub resolve_target : ProgramLocation → ℕ → Bool → Option ProgramLocation
  pub lookup_by_insn_loc : ProgramLocation → Option Relocation

-- The instruction fields that the source asks `operand_value_powerpc` for.
pub data Field : Type 0 where
  li bd bo bi : Field

abbrev pub OperandValue : Type 0
OperandValue = Field → ℕ → ℕ

-- `be32(*(ptr + i))` for a `uint32_t* ptr`
unfoldable pub word_at : Endian → Buffer → ℕ → ℕ
unfolding be32 load32
word_at host buf i = be32 host (load32 host (λ k. buf (4 * i + k)))

-- What a run may end with in place of a result: the exception of `value()` on an empty optional, a
-- `runtime_error` or a `ProjectPersistenceException` that the source throws, a failed assertion, or
-- the end of the model's fuel.
pub data Fault : Type 0 where
  bad_optional_access runtime_error persistence_exception assertion_failed out_of_fuel : Fault

pub data Outcome {ℓ} (A : Type ℓ) : Type ℓ where
  ok : A → Outcome A
  err : Fault → Outcome A

infixl 5 ◌>>=◌ ◌>>◌
abbrev pub ◌>>=◌ {ℓ κ} : {A : Type ℓ} {B : Type κ} → Outcome A → (A → Outcome B) → Outcome B
ok a >>= f = f a
err e >>= f = err e

abbrev pub ◌>>◌ {ℓ} : {B : Type ℓ} → Outcome (Unit {0}) → Outcome B → Outcome B
m >> k = m >>= λ _. k

abbrev pub value {ℓ} : {A : Type ℓ} → Option A → Outcome A
value none = err bad_optional_access
value (some a) = ok a

abbrev pub assert : Bool → Outcome (Unit {0})
assert true = ok tt
assert false = err assertion_failed

pub value-eq-ok {ℓ} : {A : Type ℓ} (o : Option A) (a : A) → value o ≡ ok a → o ≡ some a
value-eq-ok none a e = absurd (cc)
value-eq-ok (some b) a e = cc

-- Inversion of a run of two parts.
pub bind-eq-ok {ℓ κ} :
    {A : Type ℓ} {B : Type κ} (run : Outcome A) (next : A → Outcome B) {final : B}
    → (run >>= next) ≡ ok final
    → (mid : A) × (run ≡ ok mid) × (next mid ≡ ok final)
bind-eq-ok (err e) next h = absurd (cc)
bind-eq-ok (ok mid) next h = (mid, refl, h)

-- Inversion of a test that ends a comparison.
pub if-eq-ok :
    (test : Bool) (r : Outcome Bool)
    → (if test then r else ok false) ≡ ok true
    → (test ≡ true) × (r ≡ ok true)
if-eq-ok true r h = (refl, h)
if-eq-ok false r h = absurd (ground arith)

pub if-eq-true : (test b : Bool) → (if test then b else false) ≡ true → (test ≡ true) × (b ≡ true)
if-eq-true true b h = (refl, h)
if-eq-true false b h = absurd (ground arith)

-- A condition on the result of a run, if it has one.
abbrev pub Holds {ℓ κ} : {A : Type ℓ} → (A → Type κ) → Outcome A → Type κ
Holds P (ok a) = P a
Holds P (err e) = Unit

pub Holds-bind {ℓ κ μ ν} :
    {A : Type ℓ} {B : Type κ} (P : A → Type μ) (Q : B → Type ν) (run : Outcome A)
    (next : A → Outcome B)
    → Holds P run
    → ((a : A) → P a → Holds Q (next a))
    → Holds Q (run >>= next)
Holds-bind P Q (ok a) next p q = q a p
Holds-bind P Q (err e) next p q = tt

pub Holds-after {ℓ κ ν} :
    {A : Type ℓ} {B : Type κ} (Q : B → Type ν) (run : Outcome A) (next : A → Outcome B)
    → ((a : A) → Holds Q (next a))
    → Holds Q (run >>= next)
Holds-after Q (ok a) next q = q a
Holds-after Q (err e) next q = tt

pub Holds-if {ℓ κ} :
    {A : Type ℓ} (P : A → Type κ) (b : Bool) (r s : Outcome A)
    → Holds P r
    → Holds P s
    → Holds P (if b then r else s)
Holds-if P true r s p q = p
Holds-if P false r s p q = q

pub Holds-ok {ℓ κ} :
    {A : Type ℓ} (P : A → Type κ) (run : Outcome A) (a : A) → Holds P run → run ≡ ok a → P a
Holds-ok P (ok b) a p e = subst P {x = b} {y = a} (cc) p
Holds-ok P (err f) a p e = absurd (cc)
