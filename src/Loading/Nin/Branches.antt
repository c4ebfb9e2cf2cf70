-- ===== src/Loading/Nin/Branches.antt =====
-- The relocations that src/program_loader/NinProgramLoader.cpp registers for the branches of a REL.
use ppc2cpp.Prelude.{
  ℕ, zero, suc, ◌+◌, ◌*◌, ◌/◌, ◌%◌, ◌<◌, ◌≤◌, ◌≡◌, refl, ap, subst, true, Option, none, some, List,
  [], ◌∷◌, arith, get_elem?, u32_mod, All, All-push, Bool-cases, Option-cases, inl, inr,
}
use ppc2cpp.Common.Endian.{Endian}
use ppc2cpp.Common.Insn.{is_branch_unconditional, branch_value}
use ppc2cpp.Model.Location.{ProgramLocation, eq_binary}
use ppc2cpp.Model.Index.{element_at, find}
use ppc2cpp.Model.Symbol.{Relocation}
use ppc2cpp.Model.RelocationTable
use ppc2cpp.Model.RelocationTable.{RelocationTable, lookup_by_source}
use ppc2cpp.Program.{Buffer, ok, ◌>>=◌, value, word_at, bind-eq-ok, value-eq-ok}
use ppc2cpp.Loading.{type_text, eq_section_type, BinarySection, Binary, find_section_by_offset}
use ppc2cpp.Loading.Lookup.{find_section_by_offset-Behind}
use ppc2cpp.Loading.Nin.{
  RelFile, RelSection, NinBinary, dol, rel, binary_of, NinFile, rel24_reloc, register_words,
  register_sections, register_rel24_relocs, register_all, load_binaries, load_nin,
}

-- A relocation for an unconditional branch in a text section of the binary. The offset of its
-- destination is counted from the start of the file, and the destination's section starts there or
-- behind.
pub record BranchReloc (host : Endian) (rel24 idx : ℕ) (b : Binary) (r : Relocation) : Type 0 where
  pub section_idx : ℕ
  pub section : BinarySection
  pub buf : Buffer
  pub word : ℕ
  pub section_at : get_elem? b.sections section_idx ≡ some section
  pub is_text : eq_section_type section.section_type type_text ≡ true
  pub has_buffer : section.get_buffer_at_offset 0 ≡ some buf
  pub inside : word < section.length / 4
  pub is_branch : is_branch_unconditional (word_at host buf word) ≡ true
  pub source :
      r.source
      ≡ record { binary_idx = idx; section_idx = section_idx; section_offset = 4 * word % u32_mod }
  pub type : r.type ≡ rel24
  pub to_binary : r.destination.binary_idx ≡ idx
  pub to_offset :
      r.destination.section_offset
      ≡ (section.offset + 4 * word + branch_value (word_at host buf word)) % u32_mod
  pub target : BinarySection
  pub target_at : get_elem? b.sections r.destination.section_idx ≡ some target
  pub behind : r.destination.section_offset ≤ target.offset

-- All relocations satisfy the predicate, and the index is as it was at first.
abbrev Holding : (Relocation → Type 0) → RelocationTable → Type 0
Holding P t = All P t.relocs × (t.source_index ≡ [])

module _ (host : Endian) (rel24 idx : ℕ) (b : Binary) where
  rel24_reloc-BranchReloc :
      (i : ℕ) (s : BinarySection) (buf : Buffer) (j : ℕ) (r : Relocation)
      → get_elem? b.sections i ≡ some s
      → eq_section_type s.section_type type_text ≡ true
      → s.get_buffer_at_offset 0 ≡ some buf
      → j < s.length / 4
      → rel24_reloc host rel24 idx b i s buf j ≡ some r
      → BranchReloc host rel24 idx b r
  unfolding rel24_reloc
  rel24_reloc-BranchReloc i s buf j r at is has l e =
      let insn = word_at host buf j in
      let off = (s.offset + 4 * j + branch_value insn) % u32_mod in
      elim (Bool-cases (is_branch_unconditional insn)) [
        | inr f ↦
            absurd
              (let no : ◌≡◌ {A = Option Relocation} none (some r) = rw (f, rel24_reloc) at e in cc)
        | inl t ↦ elim (Option-cases (find_section_by_offset b off)) [
          | inl n ↦ absurd (
              let no : ◌≡◌ {A = Option Relocation} none (some r) = rw (t, n, rel24_reloc) at e in
              cc)
          | inr (k, f) ↦
              let made : Relocation = record {
                source = record {
                  binary_idx = idx;
                  section_idx = i;
                  section_offset = 4 * j % u32_mod;
                };
                destination = record { binary_idx = idx; section_idx = k; section_offset = off };
                type = rel24;
                addend = 0;
              } in
              let same : some made ≡ some r = rw (t, f, rel24_reloc) at e in
              let (target, target_at, (behind, _)) = find_section_by_offset-Behind b off k f in
              let ok_made : BranchReloc host rel24 idx b made = record {
                section_idx = i;
                section = s;
                buf = buf;
                word = j;
                section_at = at;
                is_text = is;
                has_buffer = has;
                inside = l;
                is_branch = t;
                source = refl;
                type = refl;
                to_binary = refl;
                to_offset = refl;
                target = target;
                target_at = target_at;
                behind = behind;
              } in
              subst (λ (q : Relocation). BranchReloc host rel24 idx b q) {x = made} {y = r} (cc)
                ok_made
        ]
      ]

  module _ (P : Relocation → Type 0)
      (holds : (r : Relocation) → BranchReloc host rel24 idx b r → P r) where
    register_words-Holding :
        (i : ℕ) (s : BinarySection) (buf : Buffer) (rounds j : ℕ) (t : RelocationTable)
        → get_elem? b.sections i ≡ some s
        → eq_section_type s.section_type type_text ≡ true
        → s.get_buffer_at_offset 0 ≡ some buf
        → j + rounds ≤ s.length / 4
        → Holding P t
        → Holding P (register_words host rel24 idx b i s buf rounds j t)
    unfolding register_words RelocationTable.push_back
    register_words-Holding i s buf zero j t at is has l h = h
    register_words-Holding i s buf (suc rounds) j t at is has l h =
        elim (Option-cases (rel24_reloc host rel24 idx b i s buf j)) [
          | inl n ↦
              rw (n, register_words)
                (register_words-Holding i s buf rounds (j + 1) t at is has (omega arith) h)
          | inr (r, f) ↦
              let p = holds r (rel24_reloc-BranchReloc i s buf j r at is has (omega arith) f) in
              rw (f, register_words)
                (register_words-Holding i s buf rounds (j + 1) (RelocationTable.push_back t r) at is
                  has (omega arith) (All-push P t.relocs r h.0 p, h.1))
        ]

    register_sections-Holding :
        (i : ℕ) (ss : List BinarySection) (t t' : RelocationTable)
        → ((k : ℕ) (s : BinarySection)
            → get_elem? ss k ≡ some s
            → get_elem? b.sections (i + k) ≡ some s)
        → Holding P t
        → register_sections host rel24 idx b i ss t ≡ ok t'
        → Holding P t'
    unfolding register_sections
    register_sections-Holding i [] t t' within h e = subst (Holding P) {x = t} {y = t'} (cc) h
    register_sections-Holding i (s ∷ ss) t t' within h e =
        let here : get_elem? b.sections i ≡ some s =
          subst (λ m. get_elem? b.sections m ≡ some s) {x = i + 0} {y = i} (omega arith)
            (within 0 s refl) in
        let later = λ (k : ℕ) (s' : BinarySection) (q : get_elem? ss k ≡ some s').
          subst (λ m. get_elem? b.sections m ≡ some s') {x = i + suc k} {y = suc i + k}
            (omega arith) (within (suc k) s' q) in
        elim (Bool-cases (eq_section_type s.section_type type_text)) [
          | inr f ↦
              register_sections-Holding (suc i) ss t t' later h (rw (f, register_sections) at e)
          | inl is ↦
              let (mid, run, e1) =
                bind-eq-ok
                  (value (s.get_buffer_at_offset 0) >>= λ buf.
                    ok (register_words host rel24 idx b i s buf (s.length / 4) 0 t))
                  (λ m. register_sections host rel24 idx b (suc i) ss m)
                  (rw (is, register_sections) at e) in
              let (buf, has, made) = bind-eq-ok (value (s.get_buffer_at_offset 0)) _ run in
              let words = register_words host rel24 idx b i s buf (s.length / 4) 0 t in
              let held : Holding P words =
                register_words-Holding i s buf (s.length / 4) 0 t here is
                  (value-eq-ok (s.get_buffer_at_offset 0) buf has) (omega arith) h in
              register_sections-Holding (suc i) ss mid t' later
                (subst (Holding P) {x = words} {y = mid} (cc) held) e1
        ]

-- The relocation is one for a branch in a REL among the binaries.
abbrev pub InRel : Endian → ℕ → List NinBinary → Relocation → Type 0
InRel host rel24 bs r =
    (idx : ℕ) × (file : RelFile) × (ss : List RelSection) × (get_elem? bs idx ≡ some (rel file ss))
    × BranchReloc host rel24 idx (binary_of (rel file ss)) r

module _ (host : Endian) (rel24 : ℕ) (all : List NinBinary) where
  register_all-Holding :
      (i : ℕ) (bs : List NinBinary) (t t' : RelocationTable)
      → ((k : ℕ) (x : NinBinary) → get_elem? bs k ≡ some x → get_elem? all (i + k) ≡ some x)
      → Holding (InRel host rel24 all) t
      → register_all host rel24 i bs t ≡ ok t'
      → Holding (InRel host rel24 all) t'
  unfolding register_all register_rel24_relocs
  register_all-Holding i [] t t' within h e =
      subst (Holding (InRel host rel24 all)) {x = t} {y = t'} (cc) h
  register_all-Holding i (dol d ∷ bs) t t' within h e =
      register_all-Holding (suc i) bs t t'
        (λ k x q.
          subst (λ m. get_elem? all m ≡ some x) {x = i + suc k} {y = suc i + k} (omega arith)
            (within (suc k) x q))
        h e
  register_all-Holding i (rel f ss ∷ bs) t t' within h e =
      let (mid, run, e1) = bind-eq-ok (register_rel24_relocs host rel24 i (rel f ss) t) _ e in
      let b = binary_of (rel f ss) in
      let here : get_elem? all i ≡ some (rel f ss) =
        subst (λ m. get_elem? all m ≡ some (rel f ss)) {x = i + 0} {y = i} (omega arith)
          (within 0 (rel f ss) refl) in
      let held : Holding (InRel host rel24 all) mid =
        register_sections-Holding host rel24 i b (InRel host rel24 all)
          (λ r branch. (i, f, ss, here, branch)) 0 b.sections t mid
          (λ k s q.
            subst (λ m. get_elem? b.sections m ≡ some s) {x = k} {y = 0 + k} (omega arith) q)
          h run in
      register_all-Holding (suc i) bs mid t'
        (λ k x q.
          subst (λ m. get_elem? all m ≡ some x) {x = i + suc k} {y = suc i + k} (omega arith)
            (within (suc k) x q))
        held e1

-- After a load, each relocation of the table is for a word of a text section of a REL that is an
-- unconditional branch, of the type for these. Its destination has the offset of the branch's target
-- counted from the start of the file, in a section of the same REL that starts at that offset or behind
-- it. No lookup finds any of them.
pub load_nin-relocations :
    (host : Endian) (rel24 : ℕ) (files : List NinFile) (bs : List NinBinary) (t : RelocationTable)
    → load_nin host rel24 files ≡ ok (bs, t)
    → All (InRel host rel24 bs) t.relocs × ((loc : ProgramLocation) → lookup_by_source t loc ≡ none)
unfolding load_nin lookup_by_source find
load_nin-relocations host rel24 files bs t e =
    let (bs', loaded, e1) = bind-eq-ok (load_binaries files) _ e in
    let (t1, run, e2) = bind-eq-ok (register_all host rel24 0 bs' RelocationTable.empty) _ e1 in
    let held =
      register_all-Holding host rel24 bs' 0 bs' RelocationTable.empty t1
        (λ k x q. subst (λ m. get_elem? bs' m ≡ some x) {x = k} {y = 0 + k} (omega arith) q)
        (tt, refl) run in
    let held' =
      subst (λ (x : List NinBinary × RelocationTable). Holding (InRel host rel24 x.0) x.1)
        {x = (bs', t1)} {y = (bs, t)} (cc) held in
    (held'.0, λ loc. ap (λ m. element_at t.relocs (find eq_binary loc m)) held'.1)
