-- ===== src/Bytes/Laws.antt =====
-- Fields of two and four bytes: what is appended, and that it is read back.
use full_stack_shinfeld.Common.{
  ℕ, ◌+◌, ◌*◌, ◌/◌, ◌%◌, ◌^◌, ◌<◌, ◌≤◌, ◌≡◌, bit_or, List, [], ◌∷◌, ◌++◌, some, length, get_or,
  arith, append_assoc, ◌∙◌, ap, le→ltb,
}
use full_stack_shinfeld.Common.Bits.{u8, ◌<<◌, ◌>>◌, bit_or_add}
use Prim.Native.Nat.{bit_or-bitwise}
use full_stack_shinfeld.Bytes.{append_bits, combine_bytes}

pub shift_zero : (v : ℕ) → v >> 0 ≡ v
shift_zero v = omega arith

pub append_bits_16 :
    (packet : List ℕ) (v : ℕ) → append_bits 2 packet v ≡ packet ++ (v / 256 % 256 ∷ v % 256 ∷ [])
unfolding append_bits
append_bits_16 packet v = simp (append_assoc, shift_zero v)

pub append_bits_32 :
    (packet : List ℕ) (v : ℕ)
    → append_bits 4 packet v
      ≡ packet ++ (v / 2 ^ 24 % 256 ∷ v / 2 ^ 16 % 256 ∷ v / 2 ^ 8 % 256 ∷ v % 256 ∷ [])
unfolding append_bits
append_bits_32 packet v = simp (append_assoc, shift_zero v)

pub or_16 : (a b : ℕ) → b < 256 → bit_or (a << 8) b ≡ a * 256 + b
or_16 a b h = bit_or_add 8 a b h

pub or_32 :
    (a b c d : ℕ)
    → b < 256
    → c < 256
    → d < 256
    → bit_or (bit_or (bit_or (a << 24) (b << 16)) (c << 8)) d
      ≡ a * 2 ^ 24 + b * 2 ^ 16 + c * 2 ^ 8 + d
or_32 a b c d hb hc hd =
    let high : bit_or (a << 24) (b << 16) ≡ (a * 256 + b) << 16 =
      omega (arith, bit_or_add 24 a (b << 16) (omega arith)) in
    let middle : bit_or (a * 256 + b << 16) (c << 8) ≡ (a * 65536 + b * 256 + c) << 8 =
      omega (arith, bit_or_add 16 (a * 256 + b) (c << 8) (omega arith)) in
    rw (high, middle) (omega (arith, bit_or_add 8 (a * 65536 + b * 256 + c) d hd))

pub bytes_16 : (v : ℕ) → v < 2 ^ 16 → v / 256 % 256 * 256 + v % 256 ≡ v
bytes_16 v h = omega arith

pub bytes_32 :
    (v : ℕ)
    → v < 2 ^ 32
    → v / 2 ^ 24 % 256 * 2 ^ 24 + v / 2 ^ 16 % 256 * 2 ^ 16 + v / 2 ^ 8 % 256 * 2 ^ 8 + v % 256 ≡ v
bytes_32 v h = omega arith

-- The two bytes of a 16-bit number, put together by `|`, and the four of a 32-bit number.
pub or_bytes_16 : (v : ℕ) → v < 2 ^ 16 → bit_or (v / 256 % 256 << 8) (v % 256) ≡ v
or_bytes_16 v h = omega (arith, or_16 (v / 256 % 256) (v % 256) (omega arith), bytes_16 v h)

pub or_bytes_32 :
    (v : ℕ)
    → v < 2 ^ 32
    → bit_or
        (bit_or (bit_or (v / 2 ^ 24 % 256 << 24) (v / 2 ^ 16 % 256 << 16)) (v / 2 ^ 8 % 256 << 8))
        (v % 256)
      ≡ v
or_bytes_32 v h =
    or_32 (v / 2 ^ 24 % 256) (v / 2 ^ 16 % 256) (v / 2 ^ 8 % 256) (v % 256) (omega arith)
      (omega arith) (omega arith)
    ∙ bytes_32 v h

shift_left_zero : (v : ℕ) → v << 0 ≡ v
shift_left_zero v = omega arith

zero-bit_or : (b : ℕ) → bit_or 0 b ≡ b
zero-bit_or b = bit_or-bitwise 0 b

-- A field whose bytes stand in the packet is read back.
pub combine_bytes_16 :
    (bytes : List ℕ) (i v : ℕ)
    → i + 2 ≤ length bytes
    → v < 2 ^ 16
    → get_or bytes i 0 ≡ u8 (v >> 8)
    → get_or bytes (i + 1) 0 ≡ u8 (v >> 0)
    → combine_bytes 2 bytes i ≡ some v
unfolding combine_bytes
combine_bytes_16 bytes i v fits h high low =
    rw
      (
        le→ltb (length bytes) (i + 2) fits,
        high,
        low,
        zero-bit_or,
        shift_zero v,
        shift_left_zero (u8 v),
      )
      (ap some (or_bytes_16 v h))

pub combine_bytes_32 :
    (bytes : List ℕ) (i v : ℕ)
    → i + 4 ≤ length bytes
    → v < 2 ^ 32
    → get_or bytes i 0 ≡ u8 (v >> 24)
    → get_or bytes (i + 1) 0 ≡ u8 (v >> 16)
    → get_or bytes (i + 1 + 1) 0 ≡ u8 (v >> 8)
    → get_or bytes (i + 1 + 1 + 1) 0 ≡ u8 (v >> 0)
    → combine_bytes 4 bytes i ≡ some v
unfolding combine_bytes
combine_bytes_32 bytes i v fits h b3 b2 b1 b0 =
    rw
      (
        le→ltb (length bytes) (i + 4) fits,
        b3,
        b2,
        b1,
        b0,
        zero-bit_or,
        shift_zero v,
        shift_left_zero (u8 v),
      )
      (ap some (or_bytes_32 v h))
