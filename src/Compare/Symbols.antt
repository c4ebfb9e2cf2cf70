-- ===== src/Compare/Symbols.antt =====
-- src/analysis/ProgramComparator.cpp: the comparison of two programs by their symbols, in a build
-- with assertions, where one that fails ends the program. The symbols and relocations that local
-- symbols refer to are compared by recursion, which is on fuel. A location of a section that is not
-- there is undefined in the source, and a fault here.
pub mod Match
pub mod Meaning
pub mod Depth
pub mod Fuel
pub mod Ends
pub mod Examples
use Prim.Native.String.{String}
use text.Mathlib.Text.{◌==◌ as str_eq}
use ppc2cpp.Prelude.{
  ℕ, zero, suc, ◌+◌, ◌*◌, ◌/◌, ◌%◌, ◌^◌, Bool, true, false, not, ◌&&◌, ◌||◌, Option, none, some,
  List, [], ◌∷◌, if◌then◌else◌, ◌==◌, ltb, sub32, is_some, bit,
}
use ppc2cpp.Common.Endian.{Endian, be32, load32}
use ppc2cpp.Model.Location.{ProgramLocation, advance}
use ppc2cpp.Model.Symbol.{Symbol, Relocation}
use ppc2cpp.Model.SymbolTable.{is_local, lookup_by_name, lookup_by_location}
use ppc2cpp.Model.RelocationTable.{lookup_by_source, lookup_by_insn_loc}
use ppc2cpp.Program.{
  Buffer, Outcome, ok, err, assertion_failed, out_of_fuel, ◌>>=◌, ◌>>◌, value, assert,
}
use ppc2cpp.Loading.{
  SectionType, type_text, type_data, eq_section_type, BinarySection, ProgramLoader, section_at,
  get_buffer_at_location,
}

-- The bits of an instruction that a relocation of each type fills in; the numbers of the types are
-- those of ppcdisasm.
pub record RelocTypes : Type 0 where
  pub addr16 : ℕ
  pub addr16_ha : ℕ
  pub addr16_hi : ℕ
  pub addr16_lo : ℕ
  pub addr14 : ℕ
  pub addr14_brntaken : ℕ
  pub addr14_brtaken : ℕ
  pub rel14 : ℕ
  pub rel14_brntaken : ℕ
  pub rel14_brtaken : ℕ
  pub addr24 : ℕ
  pub rel24 : ℕ
  pub addr32 : ℕ
  pub emb_sda21 : ℕ

unfoldable pub get_reloc_mask : RelocTypes → ℕ → ℕ
get_reloc_mask t type =
    if type == t.addr16 || type == t.addr16_ha || type == t.addr16_hi || type == t.addr16_lo
    then 0xffff
    else if type == t.addr14
        || type == t.addr14_brntaken
        || type == t.addr14_brtaken
        || type == t.rel14
        || type == t.rel14_brntaken
        || type == t.rel14_brtaken
    then 0xfffc
    else if type == t.addr24 || type == t.rel24
    then 0x3ff_fffc
    else if type == t.addr32
    then 0xffff_ffff
    else if type == t.emb_sda21
    then 0x1f_ffff
    else 0

-- `a | b` on numbers of the given width
unfoldable pub bit_or : ℕ → ℕ → ℕ → ℕ
bit_or zero a b = 0
bit_or (suc width) a b = (if bit a 0 || bit b 0 then 1 else 0) + 2 * bit_or width (a / 2) (b / 2)

module _ (host : Endian) (types : RelocTypes) (p1 p2 : ProgramLoader) where
  -- `compareRelocations`, with `compareSymbols` for local symbols.
  unfoldable pub compare_relocations :
      (Symbol → Symbol → Outcome Bool) → Relocation → Relocation → Outcome Bool
  compare_relocations compare_symbols reloc1 reloc2 =
      elim (lookup_by_location p1.symtab reloc1.destination) [
        | none ↦ err assertion_failed
        | some sym1 ↦ elim (lookup_by_location p2.symtab reloc2.destination) [
          | none ↦ err assertion_failed
          | some sym2 ↦
              if is_local sym1 || is_local sym2
              then compare_symbols sym1 sym2
              else if str_eq sym1.name sym2.name
              then (if reloc1.type == reloc2.type
                  then ok (reloc1.addend == reloc2.addend)
                  else ok false)
              else ok false
        ]
      ]

  -- The buffers, both of which are asserted to be there.
  abbrev pub both_buffers : ProgramLocation → ProgramLocation → Outcome (Buffer × Buffer)
  both_buffers pos1 pos2 =
      let buf1 = get_buffer_at_location p1 pos1 in
      let buf2 = get_buffer_at_location p2 pos2 in
      assert (is_some buf1)
      >> (assert (is_some buf2) >> (value buf1 >>= λ b1. value buf2 >>= λ b2. ok (b1, b2)))

  -- The words with the bits of the relocation set.
  abbrev pub masked_equal : Relocation → Buffer → Buffer → Bool
  masked_equal reloc b1 b2 =
      let mask = get_reloc_mask types reloc.type in
      bit_or 32 mask (be32 host (load32 host b1)) == bit_or 32 mask (be32 host (load32 host b2))

  -- What both loops do at a pair of places, given what they do where both have a relocation.
  unfoldable pub compare_at :
      (Relocation → Relocation → Buffer → Buffer → Outcome Bool)
      → Option Relocation
      → Option Relocation
      → ProgramLocation
      → ProgramLocation
      → Outcome Bool
  unfolding load32
  compare_at related none none pos1 pos2 =
      both_buffers pos1 pos2 >>= λ b. ok (load32 host b.0 == load32 host b.1)
  compare_at related (some reloc1) (some reloc2) pos1 pos2 =
      both_buffers pos1 pos2 >>= λ b. related reloc1 reloc2 b.0 b.1
  compare_at related _ _ pos1 pos2 = ok false

  -- One round of the loop of `compareFunctions`. The first program is read at the location of the
  -- second symbol, and the second at that of the first.
  unfoldable pub compare_insn :
      (Symbol → Symbol → Outcome Bool) → Symbol → Symbol → ℕ → Outcome Bool
  unfolding compare_at compare_relocations get_reloc_mask bit_or be32 load32 advance
  compare_insn compare_symbols source target off =
      let pos2 = advance source.location off in
      let pos1 = advance target.location off in
      compare_at
        (λ reloc1 reloc2 b1 b2. compare_relocations compare_symbols reloc1 reloc2 >>= λ same.
          ok (if same then masked_equal reloc1 b1 b2 else false))
        (lookup_by_insn_loc p1.reloctab pos1) (lookup_by_insn_loc p2.reloctab pos2) pos1 pos2

  -- One round of the loop of `compareData`.
  unfoldable pub compare_word :
      (Symbol → Symbol → Outcome Bool) → Symbol → Symbol → ℕ → Outcome Bool
  unfolding compare_at compare_relocations load32 advance
  compare_word compare_symbols source target off =
      let pos2 = advance source.location off in
      let pos1 = advance target.location off in
      compare_at (λ reloc1 reloc2 b1 b2. compare_relocations compare_symbols reloc1 reloc2)
        (lookup_by_source p1.reloctab pos1) (lookup_by_source p2.reloctab pos2) pos1 pos2

-- The loop over the offsets, from `off` on, with the number of rounds that are left.
unfoldable pub compare_each : (ℕ → Outcome Bool) → ℕ → ℕ → Outcome Bool
compare_each round zero off = ok true
compare_each round (suc rounds) off = round off >>= λ same.
    let rest = compare_each round rounds (off + 4) in if same then rest else ok false

-- `compareSize`, an `int`. A size that does not fit is negative, for which the loops do nothing; what
-- `memcmp` does for it is undefined, and it compares nothing here.
abbrev pub compare_size : Symbol → Symbol → ℕ
compare_size source target =
    let size = if ltb source.size target.size then target.size else source.size in
    if ltb size (2 ^ 31) then size else 0

-- The rounds of `for (int off = 0; off < size; off += 4)`.
abbrev pub rounds_of : ℕ → ℕ
rounds_of size = (size + 3) / 4

-- `std::abs((int) a - (int) b) < 8`
unfoldable pub close_sizes : ℕ → ℕ → Bool
close_sizes a b = ltb (sub32 a b) 8 || ltb (sub32 b a) 8

-- `memcmp(b1, b2, n) == 0`
unfoldable pub equal_bytes : ℕ → Buffer → Buffer → Bool
equal_bytes zero b1 b2 = true
equal_bytes (suc n) b1 b2 = equal_bytes n b1 b2 && b1 n == b2 n

-- Whether one of the numbers is not a multiple of four.
abbrev pub unaligned : Symbol → Symbol → Bool
unaligned source target =
    not (source.location.section_offset % 4 == 0)
    || not (source.size % 4 == 0)
    || not (target.location.section_offset % 4 == 0)
    || not (target.size % 4 == 0)

module _ (host : Endian) (types : RelocTypes) (p1 p2 : ProgramLoader) where
  unfoldable pub compare_functions :
      (Symbol → Symbol → Outcome Bool) → Symbol → Symbol → Outcome Bool
  unfolding close_sizes compare_insn compare_each
  compare_functions compare_symbols source target =
      assert (close_sizes source.size target.size)
      >> compare_each (compare_insn host types p1 p2 compare_symbols source target)
          (rounds_of (compare_size source target)) 0

  unfoldable pub compare_data : (Symbol → Symbol → Outcome Bool) → Symbol → Symbol → Outcome Bool
  unfolding compare_word compare_each equal_bytes
  compare_data compare_symbols source target =
      both_buffers host types p1 p2 target.location source.location >>= λ b.
      if unaligned source target
      then compare_each (compare_word host types p1 p2 compare_symbols source target)
          (rounds_of (compare_size source target)) 0
      else ok (equal_bytes (compare_size source target) b.0 b.1)

  abbrev pub by_section_type :
      SectionType → (Symbol → Symbol → Outcome Bool) → Symbol → Symbol → Outcome Bool
  by_section_type type_text compare_symbols = compare_functions compare_symbols
  by_section_type type_data compare_symbols = compare_data compare_symbols
  by_section_type _ compare_symbols = λ source target. ok true

  unfoldable pub compare_symbols : ℕ → Symbol → Symbol → Outcome Bool
  unfolding compare_functions compare_data
  compare_symbols zero source target = err out_of_fuel
  compare_symbols (suc fuel) source target = value (section_at p2 target.location) >>= λ section2.
      value (section_at p1 source.location) >>= λ section1.
      if eq_section_type section1.section_type section2.section_type
      then by_section_type section1.section_type (compare_symbols fuel) source target
      else ok false

  -- The loop over the symbols of the second program.
  unfoldable pub compare_all : ℕ → List Symbol → Outcome Bool
  unfolding compare_symbols
  compare_all fuel [] = ok true
  compare_all fuel (target ∷ targets) =
      let rest = compare_all fuel targets in
      if is_local target then rest else elim (lookup_by_name p1.symtab target.name) [
        | none ↦ ok false
        | some source ↦
            compare_symbols fuel source target >>= λ same. if same then rest else ok false
      ]

  unfoldable pub compare_programs : ℕ → Outcome Bool
  unfolding compare_all
  compare_programs fuel = compare_all fuel p2.symtab.symbols
