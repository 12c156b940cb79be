-- ===== src/Tcp/Segment/Checksum.antt =====
-- The checksum as a number: the sum of the 16-bit words modulo 65535.
use full_stack_shinfeld.Common.{
  ℕ, zero, suc, ◌+◌, ◌-◌, ◌*◌, ◌/◌, ◌%◌, ◌^◌, ◌≤◌, ◌<◌, ◌≡◌, ◌↔◌, refl, ap, ◌∙◌, bit_or, true, List,
  [], ◌∷◌, ◌==◌, length, arith, if◌then◌else◌,
}
use full_stack_shinfeld.Common.Bits.{u16, u32, ◌<<◌, ◌>>◌}
use full_stack_shinfeld.Bytes.{IsBytes}
use full_stack_shinfeld.Bytes.Laws.{or_16}
use full_stack_shinfeld.Tcp.Segment.{
  sum_words, fold_carries, pseudo_header, calculate_checksum, check_checksum,
}

-- The sum of the words as a number that does not wrap.
unfoldable pub word_total : List ℕ → ℕ
word_total [] = 0
word_total (x ∷ []) = x * 256
word_total (x ∷ y ∷ rest) = x * 256 + y + word_total rest

-- The sum of the pseudo header, likewise.
unfoldable pub pseudo_total : ℕ → ℕ → ℕ → ℕ → ℕ
pseudo_total source_ip destination_ip protocol size =
    source_ip / 2 ^ 16
    + source_ip % 2 ^ 16
    + destination_ip / 2 ^ 16
    + destination_ip % 2 ^ 16
    + protocol
    + size

pub word_total-le :
    (bytes : List ℕ) → IsBytes bytes → 2 * word_total bytes ≤ (length bytes + 1) * 65535
unfolding word_total
word_total-le [] h = omega arith
word_total-le (x ∷ []) h = omega arith
word_total-le (x ∷ y ∷ rest) h = omega (arith, word_total-le rest h.1.1)

sum_words-eq :
    (sum : ℕ) (bytes : List ℕ)
    → IsBytes bytes
    → sum + word_total bytes < 2 ^ 32
    → sum_words sum bytes ≡ sum + word_total bytes
unfolding sum_words word_total
sum_words-eq sum [] h small = omega arith
sum_words-eq sum (x ∷ []) h small = omega arith
sum_words-eq sum (x ∷ y ∷ rest) h small =
    let word : bit_or (u16 (x << 8)) y ≡ x * 256 + y =
      ap (λ (t : ℕ). bit_or t y) (omega (arith, h.0)) ∙ or_16 x y h.1.0 in
    let next : u32 (sum + u16 (bit_or (u16 (x << 8)) y)) ≡ sum + (x * 256 + y) =
      rw word (omega (arith, h.0, h.1.0)) in
    rw next
      (omega (arith, sum_words-eq (sum + (x * 256 + y)) rest h.1.1 (omega (arith, h.0, h.1.0))))

pseudo_header-eq :
    (source_ip destination_ip protocol size : ℕ)
    → source_ip < 2 ^ 32
    → destination_ip < 2 ^ 32
    → protocol < 256
    → size < 2 ^ 16
    → pseudo_header source_ip destination_ip protocol size
      ≡ pseudo_total source_ip destination_ip protocol size
unfolding pseudo_header pseudo_total
pseudo_header-eq source_ip destination_ip protocol size hs hd hp hz = omega arith

-- A sum folded to 16 bits with its carries: the remainder by 65535, 65535 standing for a multiple
-- of it that is not 0.
unfoldable pub ones_sum : ℕ → ℕ
ones_sum total = if total == 0 then 0 else (total - 1) % 65535 + 1

fold_carries-ones_sum : (sum : ℕ) → sum < 2 ^ 32 → fold_carries 2 sum ≡ ones_sum sum
unfolding fold_carries ones_sum
fold_carries-ones_sum sum h = ground arith

fold_carries_done : (fuel sum : ℕ) → sum ≤ 0xFFFF → fold_carries fuel sum ≡ sum
unfolding fold_carries
fold_carries_done zero sum h = refl
fold_carries_done (suc fuel) sum h = ground arith

-- The loop over the carries ends after at most two rounds: more rounds change nothing, and what it
-- leaves fits in 16 bits.
pub fold_carries_ends :
    (sum more : ℕ)
    → sum < 2 ^ 32
    → (fold_carries (suc (suc more)) sum ≡ fold_carries 2 sum) × (fold_carries 2 sum ≤ 0xFFFF)
unfolding fold_carries
fold_carries_ends sum more h =
    let once = (sum >> 16) + u16 sum in
    ground (arith, fold_carries_done more ((once >> 16) + u16 once))

module _ (source_ip destination_ip protocol : ℕ) (bytes : List ℕ) where
  -- The values that the types of the code's parameters allow, and the size of a UDP datagram.
  pub record InRange : Type 0 where
    pub source : source_ip < 2 ^ 32
    pub destination : destination_ip < 2 ^ 32
    pub protocol_byte : protocol < 256
    pub size : length bytes < 2 ^ 16
    pub bytes_fit : IsBytes bytes

  abbrev pub total : ℕ
  total = pseudo_total source_ip destination_ip protocol (length bytes) + word_total bytes

  pub total-lt : InRange → total < 2 ^ 32 - 65535
  unfolding pseudo_total
  total-lt r = omega (arith, word_total-le bytes r.bytes_fit)

  -- For values in range, `calculateCheckSum` is the one's complement sum of the pseudo header and
  -- the 16-bit words: nothing is lost to the width of the counter.
  pub calculate_checksum-ones_sum :
      InRange → calculate_checksum source_ip destination_ip protocol bytes ≡ ones_sum total
  unfolding calculate_checksum
  calculate_checksum-ones_sum r =
      let small : total < 2 ^ 32 = omega (arith, total-lt r) in
      rw
        (
          pseudo_header-eq source_ip destination_ip protocol (length bytes) r.source r.destination
              r.protocol_byte r.size,
          sum_words-eq (pseudo_total source_ip destination_ip protocol (length bytes)) bytes
              r.bytes_fit small,
        )
        (fold_carries-ones_sum total small)

  -- A packet passes the check exactly when its sum is a multiple of 65535 and not 0.
  pub check_checksum_iff :
      InRange
      → (check_checksum source_ip destination_ip protocol bytes ≡ true)
        ↔ (total % 65535 ≡ 0) × (0 < total)
  unfolding check_checksum ones_sum
  check_checksum_iff r = rw (calculate_checksum-ones_sum r) (ground arith)
