-- ===== src/Common/Insn.antt =====
-- include/ppc2cpp/common/insn_properties.h: the fields of a 32-bit instruction word. A shift and a
-- mask of ones is `bits`. An `int32_t` result is a bit pattern.
use ppc2cpp.Prelude.{
  ℕ, ◌+◌, ◌-◌, ◌*◌, ◌%◌, ◌^◌, ◌<◌, ◌≡◌, Bool, true, false, ◌&&◌, ◌||◌, arith, bits, bit, u32_mod,
  ltb, ◌==◌, if◌then◌else◌, signed32, pos, negsuc,
}

-- `OP` and `XOP`
abbrev pub op : ℕ → ℕ
op insn = bits insn 26 6

abbrev pub xop : ℕ → ℕ
xop insn = bits insn 1 10

unfoldable pub is_branch : ℕ → Bool
is_branch insn =
    if op insn == 18 || op insn == 16
    then true
    else if op insn == 19 && (xop insn == 528 || xop insn == 16)
    then true
    else false

unfoldable pub is_link : ℕ → Bool
is_link insn = insn % 2 == 1

unfoldable pub is_absolute : ℕ → Bool
is_absolute insn = bit insn 1

unfoldable pub is_branch_with_link : ℕ → Bool
unfolding is_link is_branch
is_branch_with_link insn = is_link insn && is_branch insn

unfoldable pub is_branch_unconditional : ℕ → Bool
is_branch_unconditional insn = op insn == 18

-- `addr_val |= 0xFF000000` on a value below 2 ^ 24; the product wraps.
unfoldable pub branch_value : ℕ → ℕ
branch_value insn =
    let addr_val = bits insn 2 24 in
    (if bit addr_val 23 then addr_val + 0xff00_0000 else addr_val) * 4 % u32_mod

unfoldable pub is_branch_conditional : ℕ → Bool
is_branch_conditional insn = op insn == 16

-- The source starts from the constant 0xfffc, not from the instruction.
unfoldable pub branch_conditional_value : ℕ → ℕ
branch_conditional_value insn =
    let addr_val : ℕ = 0xfffc in if bit addr_val 15 then addr_val + 0xffff_0000 else addr_val

unfoldable pub is_branch_to_lr : ℕ → Bool
is_branch_to_lr insn = op insn == 19 && xop insn == 16

unfoldable pub is_branch_to_ctr : ℕ → Bool
is_branch_to_ctr insn = op insn == 19 && xop insn == 528

unfoldable pub get_bo : ℕ → ℕ
get_bo insn = bits insn 21 5

-- `((bo >> 2) & 0x5) == 0x5`: bits 2 and 4 of the BO field are set.
unfoldable pub is_branch_condition_unconditional : ℕ → Bool
unfolding get_bo
is_branch_condition_unconditional insn = bit (get_bo insn) 2 && bit (get_bo insn) 4

unfoldable pub is_lis : ℕ → Bool
is_lis insn = op insn == 15

-- An I-form instruction word: opcode 18, LI, AA and LK.
abbrev pub i_form : ℕ → ℕ → ℕ → ℕ
i_form li aa lk = 18 * 2 ^ 26 + li * 4 + aa * 2 + lk

-- For an I-form word with a 24-bit field LI, `branch_value` is, read as a signed number, four times
-- the field as a two's complement number; and the link and absolute tests read the two low bits.
pub i_form_fields :
    (li aa lk : ℕ)
    → li < 2 ^ 24
    → aa < 2
    → lk < 2
    → (signed32 (branch_value (i_form li aa lk))
        ≡ (if ltb li (2 ^ 23) then pos (4 * li) else negsuc (4 * (2 ^ 24 - li) - 1)))
      × (is_branch_unconditional (i_form li aa lk) ≡ true)
      × (is_absolute (i_form li aa lk) ≡ (aa == 1))
      × (is_link (i_form li aa lk) ≡ (lk == 1))
unfolding branch_value is_branch_unconditional is_absolute is_link
i_form_fields li aa lk h a l = (ground arith, ground arith, ground arith, ground arith)

-- A word is a branch exactly when it is of one of the four kinds that the analyses tell apart, and
-- no word is of two of them.
pub is_branch_kinds :
    (insn : ℕ)
    → (is_branch insn ≡ (
        is_branch_unconditional insn
        || is_branch_conditional insn
        || is_branch_to_lr insn
        || is_branch_to_ctr insn))
      × (is_branch_unconditional insn && is_branch_conditional insn ≡ false)
      × (is_branch_unconditional insn && (is_branch_to_lr insn || is_branch_to_ctr insn) ≡ false)
      × (is_branch_conditional insn && (is_branch_to_lr insn || is_branch_to_ctr insn) ≡ false)
      × (is_branch_to_lr insn && is_branch_to_ctr insn ≡ false)
unfolding is_branch is_branch_unconditional is_branch_conditional is_branch_to_lr is_branch_to_ctr
is_branch_kinds insn = (ground arith, ground arith, ground arith, ground arith, ground arith)
