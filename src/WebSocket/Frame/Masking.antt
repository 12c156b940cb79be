-- ===== src/WebSocket/Frame/Masking.antt =====
-- Masking and unmasking the payload, and the numbers that are shifted in byte by byte.
use full_stack_shinfeld.Common.{
  ℕ, zero, suc, ◌+◌, ◌/◌, ◌%◌, ◌^◌, ◌<◌, ◌≡◌, refl, ap, ap₂, ◌∙◌, bit_or, bit_xor, List, [], ◌∷◌,
  ◌++◌, length, get_or, arith, append_assoc, append-nil,
}
use full_stack_shinfeld.Common.Bits.{u8, ◌<<◌, ◌>>◌, bit_or_add, xor_undo}
use full_stack_shinfeld.WebSocket.Frame.{mask_loop, unmask_loop, shift_in}

get_or-append : (xs ys : List ℕ) (i d : ℕ) → i < length xs → get_or (xs ++ ys) i d ≡ get_or xs i d
get_or-append [] ys i d h = absurd (omega arith)
get_or-append (x ∷ xs) ys zero d h = refl
get_or-append (x ∷ xs) ys (suc i) d h = get_or-append xs ys i d (omega arith)

pub get_or-append_right :
    (xs ys : List ℕ) (k j d : ℕ) → k ≡ length xs + j → get_or (xs ++ ys) k d ≡ get_or ys j d
get_or-append_right [] ys k j d e = ap (λ (t : ℕ). get_or ys t d) (omega arith)
get_or-append_right (x ∷ xs) ys zero j d e = absurd (omega arith)
get_or-append_right (x ∷ xs) ys (suc k) j d e = get_or-append_right xs ys k j d (omega arith)

-- The bytes that the loop of `encodeFrame` pushes are those that the loop of `decodeFrame` makes
-- from the four key bytes.
pub mask_loop-eq :
    (head key : List ℕ) (i : ℕ) (payload done : List ℕ)
    → length key ≡ 4
    → mask_loop (length head) i payload (head ++ (key ++ done))
      ≡ head ++ (key ++ (done ++ unmask_loop key i payload))
unfolding mask_loop unmask_loop
mask_loop-eq head key i [] done four = simp append-nil
mask_loop-eq head key i (x ∷ xs) done four =
    let key_byte : get_or (head ++ (key ++ done)) (length head + i % 4) 0 ≡ get_or key (i % 4) 0 =
      get_or-append_right head (key ++ done) (length head + i % 4) (i % 4) 0 refl
      ∙ get_or-append key done (i % 4) 0 (omega arith) in
    let masked = bit_xor x (get_or key (i % 4) 0) in
    rw key_byte (
      simp (append_assoc)
        (mask_loop-eq head key (i + 1) xs (done ++ masked ∷ []) four ∙ simp append_assoc))

pub length-unmask_loop :
    (key : List ℕ) (i : ℕ) (payload : List ℕ) → length (unmask_loop key i payload) ≡ length payload
unfolding unmask_loop
length-unmask_loop key i [] = refl
length-unmask_loop key i (x ∷ xs) = ap suc (length-unmask_loop key (i + 1) xs)

-- Unmasking with the key that masked gives the payload back.
pub unmask_loop-unmask_loop :
    (key : List ℕ) (i : ℕ) (payload : List ℕ)
    → unmask_loop key i (unmask_loop key i payload) ≡ payload
unfolding unmask_loop
unmask_loop-unmask_loop key i [] = refl
unmask_loop-unmask_loop key i (x ∷ xs) =
    ap₂ ◌∷◌ (xor_undo x (get_or key (i % 4) 0)) (unmask_loop-unmask_loop key (i + 1) xs)

-- One round of shifting in: the bytes above, then one more.
round_32 : (above v : ℕ) → above ≡ v / 256 → v < 2 ^ 32 → bit_or ((above << 8) % 2 ^ 32) (u8 v) ≡ v
round_32 above v e h =
    let room : (above << 8) % 2 ^ 32 ≡ above << 8 = omega arith in
    rw room (omega (arith, bit_or_add 8 above (u8 v) (omega arith)))

round_64 : (above v : ℕ) → above ≡ v / 256 → v < 2 ^ 64 → bit_or ((above << 8) % 2 ^ 64) (u8 v) ≡ v
round_64 above v e h =
    let room : (above << 8) % 2 ^ 64 ≡ above << 8 = omega arith in
    rw room (omega (arith, bit_or_add 8 above (u8 v) (omega arith)))

-- A number is read back from its four bytes, and from its eight.
pub shift_in_32 :
    (v pos : ℕ) (frame : List ℕ)
    → v < 2 ^ 32
    → get_or frame pos 0 ≡ u8 (v >> 24)
    → get_or frame (pos + 1) 0 ≡ u8 (v >> 16)
    → get_or frame (pos + 1 + 1) 0 ≡ u8 (v >> 8)
    → get_or frame (pos + 1 + 1 + 1) 0 ≡ u8 (v >> 0)
    → shift_in 32 4 0 frame pos ≡ v
unfolding shift_in
shift_in_32 v pos frame h b3 b2 b1 b0 =
    rw
      (
        b3,
        b2,
        b1,
        b0,
        round_32 0 (v >> 24) (omega arith) (omega arith),
        round_32 (v >> 24) (v >> 16) (omega arith) (omega arith),
        round_32 (v >> 16) (v >> 8) (omega arith) (omega arith),
        round_32 (v >> 8) (v >> 0) (omega arith) (omega arith),
      )
      (omega arith)

pub shift_in_64 :
    (v pos : ℕ) (frame : List ℕ)
    → v < 2 ^ 64
    → get_or frame pos 0 ≡ u8 (v >> 56)
    → get_or frame (pos + 1) 0 ≡ u8 (v >> 48)
    → get_or frame (pos + 1 + 1) 0 ≡ u8 (v >> 40)
    → get_or frame (pos + 1 + 1 + 1) 0 ≡ u8 (v >> 32)
    → get_or frame (pos + 1 + 1 + 1 + 1) 0 ≡ u8 (v >> 24)
    → get_or frame (pos + 1 + 1 + 1 + 1 + 1) 0 ≡ u8 (v >> 16)
    → get_or frame (pos + 1 + 1 + 1 + 1 + 1 + 1) 0 ≡ u8 (v >> 8)
    → get_or frame (pos + 1 + 1 + 1 + 1 + 1 + 1 + 1) 0 ≡ u8 (v >> 0)
    → shift_in 64 8 0 frame pos ≡ v
unfolding shift_in
shift_in_64 v pos frame h b7 b6 b5 b4 b3 b2 b1 b0 =
    rw
      (
        b7,
        b6,
        b5,
        b4,
        b3,
        b2,
        b1,
        b0,
        round_64 0 (v >> 56) (omega arith) (omega arith),
        round_64 (v >> 56) (v >> 48) (omega arith) (omega arith),
        round_64 (v >> 48) (v >> 40) (omega arith) (omega arith),
        round_64 (v >> 40) (v >> 32) (omega arith) (omega arith),
        round_64 (v >> 32) (v >> 24) (omega arith) (omega arith),
        round_64 (v >> 24) (v >> 16) (omega arith) (omega arith),
        round_64 (v >> 16) (v >> 8) (omega arith) (omega arith),
        round_64 (v >> 8) (v >> 0) (omega arith) (omega arith),
      )
      (omega arith)
