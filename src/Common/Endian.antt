-- ===== src/Common/Endian.antt =====
-- include/ppc2cpp/common/endian.h. The byte order of the host, which the source reads from
-- `std::endian::native`, is an argument. The fields that `|` joins do not overlap, so they are added.
use ppc2cpp.Prelude.{ℕ, ◌+◌, ◌*◌, ◌/◌, ◌%◌, ◌^◌, ◌<◌, ◌≡◌, ◌↔◌, arith, bits, u16_mod, u32_mod}

pub data Endian : Type 0 where
  little big : Endian

-- `((x & 0xff) >> 8) | (x << 8)`, cut to 16 bits by the return type.
unfoldable pub be16 : Endian → ℕ → ℕ
be16 little x = x % 2 ^ 8 / 2 ^ 8 + x * 2 ^ 8 % u16_mod
be16 big x = x

unfoldable pub be32 : Endian → ℕ → ℕ
be32 little num =
    bits num 24 8 + bits num 16 8 * 2 ^ 8 + bits num 8 8 * 2 ^ 16 + num * 2 ^ 24 % u32_mod
be32 big num = num

-- What `*(uint32_t*) p` reads on each host, from the bytes at p, p + 1, p + 2 and p + 3.
unfoldable pub load32 : Endian → (ℕ → ℕ) → ℕ
load32 little p = p 0 + p 1 * 2 ^ 8 + p 2 * 2 ^ 16 + p 3 * 2 ^ 24
load32 big p = p 0 * 2 ^ 24 + p 1 * 2 ^ 16 + p 2 * 2 ^ 8 + p 3

-- On every host, `be32` of a word that is read from memory is the big-endian number of the four
-- bytes at that place.
pub be32-load32 :
    (host : Endian) (p : ℕ → ℕ)
    → p 0 < 256
    → p 1 < 256
    → p 2 < 256
    → p 3 < 256
    → be32 host (load32 host p) ≡ p 0 * 2 ^ 24 + p 1 * 2 ^ 16 + p 2 * 2 ^ 8 + p 3
unfolding be32 load32
be32-load32 little p h0 h1 h2 h3 = omega arith
be32-load32 big p h0 h1 h2 h3 = omega arith

-- Swapping the bytes of a 32-bit word twice gives it back, and its result is a 32-bit word.
pub be32-be32 :
    (host : Endian) (x : ℕ) → x < u32_mod → (be32 host (be32 host x) ≡ x) × (be32 host x < u32_mod)
unfolding be32
be32-be32 little x h = omega arith
be32-be32 big x h = omega arith

-- On a little-endian host `be16` loses the high byte: it swaps a 16-bit word exactly when that byte
-- is zero, that is, its result is the swapped word if and only if x is below 256.
pub be16-swaps_iff :
    (x : ℕ) → x < u16_mod → (be16 little x ≡ x / 2 ^ 8 + x % 2 ^ 8 * 2 ^ 8) ↔ (x < 256)
unfolding be16
be16-swaps_iff x h = (λ e. omega arith, λ l. omega arith)
