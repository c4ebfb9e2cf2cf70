-- ===== src/Common/Examples.antt =====
-- The theorems on words at concrete inputs.
use ppc2cpp.Prelude.{
  refl, ℕ, ◌+◌, ◌*◌, ◌-◌, ◌/◌, ◌%◌, ◌^◌, ◌<◌, ◌≡◌, ◌↔◌, true, false, ◌&&◌, ◌||◌, arith, u32_mod,
  signed32, negsuc,
}
use ppc2cpp.Common.Endian.{little, be16, be32, load32, be32-load32, be32-be32, be16-swaps_iff}
use ppc2cpp.Common.Insn.{
  is_branch, is_branch_unconditional, is_branch_conditional, is_branch_to_lr, is_branch_to_ctr,
  is_absolute, is_link, branch_value, branch_conditional_value, i_form, i_form_fields,
  is_branch_kinds,
}

-- The bytes of `blr`, 0x4e800020.
abbrev blr_bytes : ℕ → ℕ
blr_bytes k = (0x4e80_0020 / 2 ^ (24 - 8 * k)) % 256

be32-load32_example : be32 little (load32 little blr_bytes) ≡ 0x4e80_0020
be32-load32_example =
    be32-load32 little blr_bytes (omega arith) (omega arith) (omega arith) (omega arith)

be32-be32_example :
    (be32 little (be32 little 0x0102_0304) ≡ 0x0102_0304) × (be32 little 0x0102_0304 < u32_mod)
be32-be32_example = be32-be32 little 0x0102_0304 (omega arith)

be16-swaps_iff_example :
    (be16 little 0x0102 ≡ 0x0102 / 2 ^ 8 + 0x0102 % 2 ^ 8 * 2 ^ 8) ↔ (0x0102 < 256)
be16-swaps_iff_example = be16-swaps_iff 0x0102 (omega arith)

-- `bl` to the instruction before.
i_form_fields_example :
    (signed32 (branch_value (i_form 0xff_ffff 0 1)) ≡ negsuc 3)
    × (is_branch_unconditional (i_form 0xff_ffff 0 1) ≡ true)
    × (is_absolute (i_form 0xff_ffff 0 1) ≡ false)
    × (is_link (i_form 0xff_ffff 0 1) ≡ true)
i_form_fields_example = i_form_fields 0xff_ffff 0 1 (omega arith) (omega arith) (omega arith)

is_branch_kinds_example :
    (is_branch 0x4e80_0020 ≡ (
      is_branch_unconditional 0x4e80_0020
      || is_branch_conditional 0x4e80_0020
      || is_branch_to_lr 0x4e80_0020
      || is_branch_to_ctr 0x4e80_0020))
    × (is_branch_unconditional 0x4e80_0020 && is_branch_conditional 0x4e80_0020 ≡ false)
    × (is_branch_unconditional 0x4e80_0020
          && (is_branch_to_lr 0x4e80_0020 || is_branch_to_ctr 0x4e80_0020)
        ≡ false)
    × (is_branch_conditional 0x4e80_0020
          && (is_branch_to_lr 0x4e80_0020 || is_branch_to_ctr 0x4e80_0020)
        ≡ false)
    × (is_branch_to_lr 0x4e80_0020 && is_branch_to_ctr 0x4e80_0020 ≡ false)
is_branch_kinds_example = is_branch_kinds 0x4e80_0020

-- `bne +8` has BD = 2, but the value is -4.
bne-branch_conditional_value : branch_conditional_value 0x4082_0008 ≡ 0xffff_fffc
unfolding branch_conditional_value
bne-branch_conditional_value = refl
