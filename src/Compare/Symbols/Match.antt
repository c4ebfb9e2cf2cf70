-- ===== src/Compare/Symbols/Match.antt =====
-- What it is for two symbols to match in the comparison of src/analysis/ProgramComparator.cpp, and
-- what the tests of relocations, words and bytes mean.
use native.Mathlib.Nat.{div-div-eq-div-mul}
use text.Mathlib.Text.{◌==◌ as str_eq}
use text.Mathlib.TextEquality.{eq_iff}
use ppc2cpp.Prelude.{
  ℕ, zero, suc, ◌+◌, ◌*◌, ◌/◌, ◌%◌, ◌^◌, ◌<◌, ◌≡◌, ◌↔◌, ◌⊎◌, inl, inr, refl, ap, subst, sym, ◌∙◌,
  Bool, true, false, ◌||◌, Option, none, some, if◌then◌else◌, ◌==◌, bit, arith, Bool-cases,
  Option-cases,
}
use ppc2cpp.Common.Endian.{Endian, be32, load32}
use ppc2cpp.Model.Location.{ProgramLocation}
use ppc2cpp.Model.Symbol.{Symbol, Relocation}
use ppc2cpp.Model.SymbolTable.{is_local, lookup_by_location}
use ppc2cpp.Program.{Buffer, Outcome, ok, err, assertion_failed, ◌>>=◌, bind-eq-ok, if-eq-ok}
use ppc2cpp.Loading.{ProgramLoader, get_buffer_at_location}
use ppc2cpp.Compare.Symbols.{
  RelocTypes, get_reloc_mask, bit_or, compare_relocations, both_buffers, masked_equal, compare_each,
  equal_bytes,
}

-- The words agree in the bits, below the width, that the mask does not have.
abbrev pub AgreeOutside : ℕ → ℕ → ℕ → ℕ → Type 0
AgreeOutside width mask x y = (i : ℕ) → i < width → (bit mask i ≡ true) ⊎ (bit x i ≡ bit y i)

ℕ-cases : (k : ℕ) → (k ≡ 0) ⊎ ((m : ℕ) × (k ≡ suc m))
ℕ-cases zero = inl refl
ℕ-cases (suc m) = inr (m, refl)

bit-suc : (x i : ℕ) → bit x (suc i) ≡ bit (x / 2) i
bit-suc x i =
    ap (λ m. (m % 2) == 1)
      (ap (λ m. x / m) {x = 2 ^ suc i} {y = 2 * 2 ^ i} (omega arith)
        ∙ sym (div-div-eq-div-mul x 2 (2 ^ i)))

lowest_iff :
    (m p q : Bool) (a b : ℕ)
    → ((if m || p then 1 else 0) + 2 * a ≡ (if m || q then 1 else 0) + 2 * b)
      ↔ (((m ≡ true) ⊎ (p ≡ q)) × (a ≡ b))
lowest_iff true p q a b = (λ e. (inl refl, omega arith), λ h. omega (arith, h.1))
lowest_iff false true true a b = (λ e. (inr refl, omega arith), λ h. omega (arith, h.1))
lowest_iff false false false a b = (λ e. (inr refl, omega arith), λ h. omega (arith, h.1))
lowest_iff false true false a b = (λ e. absurd (omega arith), λ h. absurd (ground (arith, h.0)))
lowest_iff false false true a b = (λ e. absurd (omega arith), λ h. absurd (ground (arith, h.0)))

pub bit_or-agree :
    (width mask x y : ℕ) → (bit_or width mask x ≡ bit_or width mask y) ↔ AgreeOutside width mask x y
unfolding bit_or
bit_or-agree zero mask x y = (λ e i l. absurd (omega arith), λ h. refl)
bit_or-agree (suc width) mask x y =
    let ih = bit_or-agree width (mask / 2) (x / 2) (y / 2) in
    let lowest =
      lowest_iff (bit mask 0) (bit x 0) (bit y 0) (bit_or width (mask / 2) (x / 2))
        (bit_or width (mask / 2) (y / 2)) in
    (
      λ e i l. elim (ℕ-cases i) [
        | inl z ↦
            subst (λ m. (bit mask m ≡ true) ⊎ (bit x m ≡ bit y m)) {x = 0} {y = i} (omega arith)
              (lowest.0 e).0
        | inr (k, s) ↦
            subst (λ m. (bit mask m ≡ true) ⊎ (bit x m ≡ bit y m)) {x = suc k} {y = i} (omega arith)
              (rw (bit-suc mask k, bit-suc x k, bit-suc y k) (ih.0 (lowest.0 e).1 k (omega arith)))
      ],
      λ h. lowest.1 (
        h 0 (omega arith),
        ih.1 (λ i l. rw (bit-suc mask i, bit-suc x i, bit-suc y i) at (h (suc i) (omega arith))),
      ),
    )

pub compare_each_iff :
    (round : ℕ → Outcome Bool) (rounds off : ℕ)
    → (compare_each round rounds off ≡ ok true)
      ↔ ((k : ℕ) → k < rounds → round (off + 4 * k) ≡ ok true)
unfolding compare_each
compare_each_iff round zero off = (λ e k l. absurd (omega arith), λ h. refl)
compare_each_iff round (suc rounds) off =
    let ih = compare_each_iff round rounds (off + 4) in
    (
      λ e.
          let (same, run, e1) = bind-eq-ok (round off) _ e in
          let (t, rest) = if-eq-ok same _ e1 in
          λ k l. elim (ℕ-cases k) [
            | inl z ↦
                subst (λ m. round m ≡ ok true) {x = off} {y = off + 4 * k} (omega arith)
                  (run ∙ ap ok t)
            | inr (k', s) ↦
                subst (λ m. round m ≡ ok true) {x = off + 4 + 4 * k'} {y = off + 4 * k}
                  (omega arith) (ih.0 rest k' (omega arith))
          ],
      λ h.
          let first : round off ≡ ok true =
            subst (λ m. round m ≡ ok true) {x = off + 4 * 0} {y = off} (omega arith)
              (h 0 (omega arith)) in
          rw (first, ◌>>=◌, compare_each)
            (ih.1 (λ k l.
              subst (λ m. round m ≡ ok true) {x = off + 4 * suc k} {y = off + 4 + 4 * k}
                (omega arith) (h (suc k) (omega arith)))),
    )

pub equal_bytes_iff :
    (n : ℕ) (b1 b2 : Buffer) → (equal_bytes n b1 b2 ≡ true) ↔ ((i : ℕ) → i < n → b1 i ≡ b2 i)
unfolding equal_bytes
equal_bytes_iff zero b1 b2 = (λ e i l. absurd (omega arith), λ h. refl)
equal_bytes_iff (suc n) b1 b2 =
    let ih = equal_bytes_iff n b1 b2 in
    (
      λ e i l. elim (Bool-cases (i == n)) [
        | inl t ↦ subst (λ m. b1 m ≡ b2 m) {x = n} {y = i} (ground arith) (ground arith)
        | inr f ↦ ih.0 (ground arith) i (ground arith)
      ],
      λ h. ground (arith, ih.1 (λ i l. h i (omega arith)), h n (omega arith)),
    )

-- A test on the bits outside a mask.
pub masked_equal_iff :
    (host : Endian) (types : RelocTypes) (p1 p2 : ProgramLoader) (r : Relocation) (b1 b2 : Buffer)
    → (masked_equal host types p1 p2 r b1 b2 ≡ true)
      ↔ AgreeOutside 32
          (get_reloc_mask types r.type)
          (be32 host (load32 host b1))
          (be32 host (load32 host b2))
masked_equal_iff host types p1 p2 r b1 b2 =
    let agree =
      bit_or-agree 32 (get_reloc_mask types r.type) (be32 host (load32 host b1))
        (be32 host (load32 host b2)) in
    (λ e. agree.0 (ground arith), λ h. ground (arith, agree.1 h))

module _ (host : Endian) (types : RelocTypes) (p1 p2 : ProgramLoader) where
  -- Both relocations refer to symbols. If one of these is local, they are to match as symbols;
  -- otherwise the names, the types and the addends are equal.
  pub record RelocationsMatch (Same : Symbol → Symbol → Type 0) (r1 r2 : Relocation) : Type 0 where
    pub sym1 : Symbol
    pub sym2 : Symbol
    pub found1 : lookup_by_location p1.symtab r1.destination ≡ some sym1
    pub found2 : lookup_by_location p2.symtab r2.destination ≡ some sym2
    pub agree :
        ((is_local sym1 || is_local sym2 ≡ true) × Same sym1 sym2)
        ⊎ ((is_local sym1 || is_local sym2 ≡ false)
            × (sym1.name ≡ sym2.name)
            × (r1.type ≡ r2.type)
            × (r1.addend ≡ r2.addend))

  module _ (compare : Symbol → Symbol → Outcome Bool) (Same : Symbol → Symbol → Type 0)
      (agrees : (a b : Symbol) → (compare a b ≡ ok true) ↔ Same a b) where
    pub compare_relocations_iff :
        (r1 r2 : Relocation)
        → (compare_relocations host types p1 p2 compare r1 r2 ≡ ok true)
          ↔ RelocationsMatch Same r1 r2
    unfolding compare_relocations
    compare_relocations_iff r1 r2 = (
      λ e. elim (Option-cases (lookup_by_location p1.symtab r1.destination)) [
        | inl n ↦ absurd (
            let no : ◌≡◌ {A = Outcome Bool} (err assertion_failed) (ok true) =
              rw (n, compare_relocations) at e in
            cc)
        | inr (sym1, f1) ↦ elim (Option-cases (lookup_by_location p2.symtab r2.destination)) [
          | inl n ↦ absurd (
              let no : ◌≡◌ {A = Outcome Bool} (err assertion_failed) (ok true) =
                rw (f1, n, compare_relocations) at e in
              cc)
          | inr (sym2, f2) ↦ record {
            sym1 = sym1;
            sym2 = sym2;
            found1 = f1;
            found2 = f2;
            agree = elim (Bool-cases (is_local sym1 || is_local sym2)) [
              | inl l ↦ inl (l, (agrees sym1 sym2).0 (rw (f1, f2, l, compare_relocations) at e))
              | inr l ↦
                  let e1 : (if str_eq sym1.name sym2.name
                        then (if r1.type == r2.type then ok (r1.addend == r2.addend) else ok false)
                        else ok false)
                      ≡ ok true =
                    rw (f1, f2, l, compare_relocations) at e in
                  let (named, e2) = if-eq-ok (str_eq sym1.name sym2.name) _ e1 in
                  let (typed, e3) = if-eq-ok (r1.type == r2.type) _ e2 in
                  inr (l, (eq_iff sym1.name sym2.name).0 named, ground arith, ground arith)
            ];
          }
        ]
      ],
      λ m. elim m.agree [
        | inl (l, same) ↦
            rw (m.found1, m.found2, l, compare_relocations) ((agrees m.sym1 m.sym2).1 same)
        | inr (l, named, typed, added) ↦
            rw
              (m.found1, m.found2, l, (eq_iff m.sym1.name m.sym2.name).1 named, compare_relocations)
              (ground arith)
      ],
    )

  -- Both programs have a buffer at the place. Either none has a relocation there, and the words are
  -- equal, or both have one, and these match and the condition on the words holds.
  pub record PlacesMatch (Same : Symbol → Symbol → Type 0)
      (Related : Relocation → Buffer → Buffer → Type 0) (o1 o2 : Option Relocation)
      (pos1 pos2 : ProgramLocation) : Type 0 where
    pub buf1 : Buffer
    pub buf2 : Buffer
    pub has1 : get_buffer_at_location p1 pos1 ≡ some buf1
    pub has2 : get_buffer_at_location p2 pos2 ≡ some buf2
    pub agree :
        ((o1 ≡ none) × (o2 ≡ none) × (load32 host buf1 ≡ load32 host buf2))
        ⊎ ((r1 : Relocation) × (r2 : Relocation) × (o1 ≡ some r1)
            × (o2 ≡ some r2)
            × RelocationsMatch Same r1 r2
            × Related r1 buf1 buf2)

  pub both_buffers_iff :
      (pos1 pos2 : ProgramLocation) (next : Buffer × Buffer → Outcome Bool)
      → ((both_buffers host types p1 p2 pos1 pos2 >>= next) ≡ ok true) ↔ (
          (b1 : Buffer) × (b2 : Buffer) × (get_buffer_at_location p1 pos1 ≡ some b1)
          × (get_buffer_at_location p2 pos2 ≡ some b2)
          × (next (b1, b2) ≡ ok true))
  both_buffers_iff pos1 pos2 next = (
    λ e. elim (Option-cases (get_buffer_at_location p1 pos1)) [
      | inl n ↦
          absurd
            (let no : ◌≡◌ {A = Outcome Bool} (err assertion_failed) (ok true) = rw n at e in cc)
      | inr (b1, h1) ↦ elim (Option-cases (get_buffer_at_location p2 pos2)) [
        | inl n ↦ absurd (
            let no : ◌≡◌ {A = Outcome Bool} (err assertion_failed) (ok true) = rw (h1, n) at e in
            cc)
        | inr (b2, h2) ↦ (b1, b2, h1, h2, rw (h1, h2) at e)
      ]
    ],
    λ h. let (b1, b2, h1, h2, e) = h in rw (h1, h2) e,
  )
