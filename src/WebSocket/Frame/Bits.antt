-- ===== src/WebSocket/Frame/Bits.antt =====
-- The header bytes, bit by bit.
use full_stack_shinfeld.Common.{
  ℕ, ◌<◌, ◌≡◌, refl, bit_or, Bool, true, false, ◌&&◌, ◌==◌, bool_to_num, arith, test_all,
  test_all_lem,
}
use full_stack_shinfeld.Common.Bits.{u8, ◌<<◌}
use full_stack_shinfeld.WebSocket.Frame.{
  fin, rsv1, rsv2, rsv3, opcode, mask, payload_length, make_fin_opcode, make_mask_length,
  short_length,
}

same : Bool → Bool → Bool
same true b = b
same false true = false
same false false = true

same→eq : (a b : Bool) → same a b ≡ true → a ≡ b
unfolding same
same→eq a b h = ground arith

both : (Bool → Bool) → Bool
both p = p true && p false

both_sound : (p : Bool → Bool) (b : Bool) → both p ≡ true → p b ≡ true
unfolding both
both_sound p b h = ground arith

-- Every combination of the four flags and of a four-bit opcode.
fields_kept : Bool → Bool → Bool → Bool → ℕ → Bool
unfolding same fin rsv1 rsv2 rsv3 opcode make_fin_opcode
fields_kept f r1 r2 r3 op =
    let byte = make_fin_opcode f r1 r2 r3 op in
    same (fin byte) f
    && same (rsv1 byte) r1
    && same (rsv2 byte) r2
    && same (rsv3 byte) r3
    && opcode byte == op

fields_table :
    both (λ f. both (λ r1. both (λ r2. both (λ r3. test_all (fields_kept f r1 r2 r3) 16)))) ≡ true
unfolding both test_all fields_kept
fields_table = refl

fields_kept-true : (f r1 r2 r3 : Bool) (op : ℕ) → op < 16 → fields_kept f r1 r2 r3 op ≡ true
fields_kept-true f r1 r2 r3 op h =
    test_all_lem (fields_kept f r1 r2 r3) 16 op h
      (both_sound _ r3 (both_sound _ r2 (both_sound _ r1 (both_sound _ f fields_table))))

-- The flags and the opcode are read back from the byte that the constructor builds.
pub make_fin_opcode_fields :
    (f r1 r2 r3 : Bool) (op : ℕ)
    → op < 16
    → let byte = make_fin_opcode f r1 r2 r3 op in
      (fin byte ≡ f) × (rsv1 byte ≡ r1) × (rsv2 byte ≡ r2) × (rsv3 byte ≡ r3) × (opcode byte ≡ op)
make_fin_opcode_fields f r1 r2 r3 op h =
    let byte = make_fin_opcode f r1 r2 r3 op in
    let kept : (same (fin byte) f
          && same (rsv1 byte) r1
          && same (rsv2 byte) r2
          && same (rsv3 byte) r3
          && opcode byte == op)
        ≡ true =
      unfold fields_kept in fields_kept-true f r1 r2 r3 op h in
    ground (
      arith,
      kept,
      same→eq (fin byte) f,
      same→eq (rsv1 byte) r1,
      same→eq (rsv2 byte) r2,
      same→eq (rsv3 byte) r3,
    )

length_kept : Bool → ℕ → Bool
unfolding same mask payload_length
length_kept m len =
    let byte = u8 (bit_or (u8 (bit_or 0 (bool_to_num m << 7))) len) in
    same (mask byte) m && payload_length byte == len

length_table : both (λ m. test_all (length_kept m) 128) ≡ true
unfolding both test_all length_kept
length_table = refl

short_length-lt : (len : ℕ) → short_length len < 128
unfolding short_length
short_length-lt len = ground arith

-- The mask bit and the 7-bit length are read back from the byte that the constructor builds.
pub make_mask_length_fields :
    (m : Bool) (len : ℕ)
    → let byte = make_mask_length m len in
      (mask byte ≡ m) × (payload_length byte ≡ short_length len)
unfolding make_mask_length
make_mask_length_fields m len =
    let byte = make_mask_length m len in
    let kept : (same (mask byte) m && payload_length byte == short_length len) ≡ true =
      unfold length_kept in
      test_all_lem (length_kept m) 128 (short_length len) (short_length-lt len)
        (both_sound _ m length_table) in
    ground (arith, kept, same→eq (mask byte) m)
