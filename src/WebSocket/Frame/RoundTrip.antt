-- ===== src/WebSocket/Frame/RoundTrip.antt =====
-- `decodeFrame` of what `encodeFrame` makes of a frame.
use full_stack_shinfeld.Common.{
  ℕ, zero, suc, ◌+◌, ◌-◌, ◌^◌, ◌≤◌, ◌<◌, ◌≡◌, inl, inr, refl, sym, ap, ◌∙◌, Bool, true, false, List,
  [], ◌∷◌, ◌++◌, length, length-append, take-length, drop-append, arith, append_assoc, leb, ltb,
  nonzero, if◌then◌else◌, Bool-cases, le→ltb,
}
use full_stack_shinfeld.Common.Bits.{u8, u64, ◌>>◌}
use full_stack_shinfeld.Bytes.{append_bits}
use full_stack_shinfeld.Bytes.Laws.{or_bytes_16, append_bits_32, shift_zero}
use full_stack_shinfeld.WebSocket.Frame.{
  field, WebSocketFrame, web_socket_frame, encode_frame, decode_frame, decode_length, decode_key,
  decode_payload, decoded, push_length, unmask_loop, mask_bytes_of, validate_opcode,
  make_mask_length, make_fin_opcode, payload_length, mask, short_length, fin, rsv1, rsv2, rsv3,
  opcode,
}
use full_stack_shinfeld.WebSocket.Frame.Bits.{make_fin_opcode_fields, make_mask_length_fields}
use full_stack_shinfeld.WebSocket.Frame.Masking.{
  mask_loop-eq, length-unmask_loop, unmask_loop-unmask_loop, get_or-append_right, shift_in_32,
  shift_in_64,
}

-- The extended length, the mask key and the masked payload of a frame, as bytes.
abbrev length_bytes_long : ℕ → List ℕ
length_bytes_long len =
    u8 (len >> 56)
    ∷ u8 (len >> 48)
    ∷ u8 (len >> 40)
    ∷ u8 (len >> 32)
    ∷ u8 (len >> 24)
    ∷ u8 (len >> 16)
    ∷ u8 (len >> 8)
    ∷ u8 (len >> 0)
    ∷ []

length_bytes : ℕ → List ℕ
length_bytes len =
    if leb len 125
    then []
    else if leb len 0xFFFF
    then u8 (len >> 8) ∷ u8 (len >> 0) ∷ []
    else length_bytes_long len

key_bytes : ℕ → List ℕ
key_bytes key =
    if nonzero key then u8 (key >> 24) ∷ u8 (key >> 16) ∷ u8 (key >> 8) ∷ u8 key ∷ [] else []

masked : ℕ → List ℕ → List ℕ
unfolding mask_bytes_of
masked key payload = if nonzero key then unmask_loop (mask_bytes_of key) 0 payload else payload

module _ (b0 b1 len : ℕ) (len_read : payload_length b1 ≡ short_length len) where
  push_length-eq : push_length b0 b1 len ≡ b0 ∷ b1 ∷ length_bytes len
  unfolding push_length append_bits length_bytes short_length
  push_length-eq = ground arith

  decode_length-eq :
      (rest : List ℕ)
      → len < 2 ^ 64
      → decode_length (b0 ∷ b1 ∷ (length_bytes len ++ rest)) b1
        ≡ field len (length (b0 ∷ b1 ∷ length_bytes len))
  unfolding decode_length length_bytes short_length
  decode_length-eq rest h = elim (Bool-cases (leb len 125)) [
    | inl s ↦ rw s (ground arith)
    | inr s ↦ elim (Bool-cases (leb len 0xFFFF)) [
      | inl m ↦ rw (s, m) (ground (arith, or_bytes_16 len (ground arith), shift_zero len))
      | inr m ↦
          rw (s, m)
            (ground (
              arith,
              shift_in_64 len 2 (b0 ∷ b1 ∷ (length_bytes_long len ++ rest)) h refl refl refl refl
                  refl refl refl refl,
            ))
    ]
  ]

module _ (head : List ℕ) (b1 : ℕ) where
  decode_key-eq :
      (key : ℕ) (rest : List ℕ)
      → key < 2 ^ 32
      → mask b1 ≡ nonzero key
      → decode_key (head ++ (key_bytes key ++ rest)) b1 (length head)
        ≡ field key (length head + length (key_bytes key))
  unfolding decode_key key_bytes
  decode_key-eq zero rest h m = rw m (ground arith)
  decode_key-eq (suc key) rest h m =
      let frame = head ++ (key_bytes (suc key) ++ rest) in
      let at = get_or-append_right head (key_bytes (suc key) ++ rest) in
      let long = length-append head (key_bytes (suc key) ++ rest) in
      rw (m, le→ltb (length frame) (length head + 4) (omega (arith, long)))
        (ap (λ (t : ℕ). field t (length head + 4))
          (shift_in_32 (suc key) (length head) frame h (at (length head) 0 0 (omega arith))
            (at (length head + 1) 1 0 (omega arith)) (at (length head + 1 + 1) 2 0 (omega arith))
            (at (length head + 1 + 1 + 1) 3 0 (omega arith) ∙ sym (ap u8 (shift_zero (suc key))))))

  -- The payload is what stands behind the header, unmasked where the mask bit is set.
  decode_payload-body :
      (b0 key : ℕ) (body : List ℕ)
      → length head + length body < 2 ^ 64
      → decode_payload (head ++ body) b0 b1 (length body) key (length head)
        ≡ decoded (
            web_socket_frame
              (fin b0)
              (rsv1 b0)
              (rsv2 b0)
              (rsv3 b0)
              (opcode b0)
              (mask b1)
              (length body)
              key
              (if mask b1 then unmask_loop (mask_bytes_of key) 0 body else body))
  unfolding decode_payload
  decode_payload-body b0 key body small =
      let size = length-append head body in
      rw (
        le→ltb (length (head ++ body)) (u64 (length head + length body)) (omega (arith, size)),
        le→ltb (length (head ++ body)) (length head + length body) (omega (arith, size)),
        drop-append head body,
        take-length body,
      )

  decode_payload-eq :
      (b0 key : ℕ) (payload : List ℕ)
      → mask b1 ≡ nonzero key
      → length head + length payload < 2 ^ 64
      → decode_payload (head ++ masked key payload) b0 b1 (length payload) key (length head)
        ≡ decoded (
            web_socket_frame
              (fin b0)
              (rsv1 b0)
              (rsv2 b0)
              (rsv3 b0)
              (opcode b0)
              (nonzero key)
              (length payload)
              key
              payload)
  unfolding masked
  decode_payload-eq b0 zero payload m small = decode_payload-body b0 0 payload small ∙ rw m
  decode_payload-eq b0 (suc key) payload m small =
      let body = unmask_loop (mask_bytes_of (suc key)) 0 payload in
      let size : length body ≡ length payload = length-unmask_loop _ 0 payload in
      rw (← size) (
        decode_payload-body b0 (suc key) body (omega (arith, size))
        ∙ rw (m, unmask_loop-unmask_loop (mask_bytes_of (suc key)) 0 payload))

encode_frame-eq :
    (b0 b1 key : ℕ) (payload : List ℕ) (f : WebSocketFrame)
    → payload_length b1 ≡ short_length (length payload)
    → f ≡ record {
      fin_opcode_byte = b0;
      mask_length_byte = b1;
      payload_length = length payload;
      mask_key = key;
      payload = payload;
    }
    → encode_frame f
      ≡ b0 ∷ b1 ∷ (length_bytes (length payload) ++ (key_bytes key ++ masked key payload))
unfolding encode_frame key_bytes masked mask_bytes_of
encode_frame-eq b0 b1 zero payload f len_read e =
    rw (e, push_length-eq b0 b1 (length payload) len_read)
encode_frame-eq b0 b1 (suc key) payload f len_read e =
    let head = b0 ∷ b1 ∷ length_bytes (length payload) in
    let four = mask_bytes_of (suc key) in
    let start : length (head ++ four) - 4 ≡ length head = omega (arith, length-append head four) in
    rw (e, push_length-eq b0 b1 (length payload) len_read, append_bits_32 head (suc key), start)
      (mask_loop-eq head four 0 payload [] refl)

length_bytes-le : (len : ℕ) → length (length_bytes len) ≤ 8
unfolding length_bytes
length_bytes-le len = ground arith

key_bytes-le : (key : ℕ) → length (key_bytes key) ≤ 4
unfolding key_bytes
key_bytes-le key = ground arith

validate_opcode-lt : (op : ℕ) → validate_opcode op ≡ true → op < 16
unfolding validate_opcode
validate_opcode-lt op h = ground arith

lt→ltb2 : (n : ℕ) → ltb (suc (suc n)) 2 ≡ false
lt→ltb2 n = ground arith

module _ (f r1 r2 r3 : Bool) (op key : ℕ) (payload : List ℕ) (known : validate_opcode op ≡ true)
    (key_fits : key < 2 ^ 32) (size_fits : length payload < 2 ^ 64 - 14) where
  abbrev frame : WebSocketFrame
  frame = web_socket_frame f r1 r2 r3 op (nonzero key) (length payload) key payload

  abbrev b0 : ℕ
  b0 = make_fin_opcode f r1 r2 r3 op

  abbrev b1 : ℕ
  b1 = make_mask_length (nonzero key) (length payload)

  abbrev head : List ℕ
  head = b0 ∷ b1 ∷ length_bytes (length payload)

  header-le : length (head ++ key_bytes key) ≤ 14
  header-le = omega (
    arith,
    length-append head (key_bytes key),
    length_bytes-le (length payload),
    key_bytes-le key,
  )

  -- A frame with a known opcode, whose mask bit is set exactly when its key is not 0, and whose
  -- length is that of its payload, is read back whole from its bytes: flags, opcode, length, key and
  -- the payload, masked and unmasked on the way.
  pub decode_frame-encode_frame : decode_frame (encode_frame frame) ≡ decoded frame
  unfolding decode_frame web_socket_frame
  decode_frame-encode_frame =
      let fields = make_fin_opcode_fields f r1 r2 r3 op (validate_opcode-lt op known) in
      let lens = make_mask_length_fields (nonzero key) (length payload) in
      let rest = key_bytes key ++ masked key payload in
      let behind = decode_payload-eq (head ++ key_bytes key) b1 b0 key payload lens.0 small in
      rw
        (
          encode_frame-eq b0 b1 key payload frame lens.1 refl,
          lt→ltb2 (length (length_bytes (length payload) ++ rest)),
          fields.4,
          known,
          decode_length-eq b0 b1 (length payload) lens.1 rest (omega arith),
          decode_key-eq head b1 key (masked key payload) key_fits lens.0,
          ← length-append head (key_bytes key),
          ← append_assoc head (key_bytes key) (masked key payload),
          behind,
        )
        (rw (fields.0, fields.1, fields.2, fields.3, fields.4))
    where
      small : length (head ++ key_bytes key) + length payload < 2 ^ 64
      small = omega (arith, header-le)
