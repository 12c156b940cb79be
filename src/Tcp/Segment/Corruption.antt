-- ===== src/Tcp/Segment/Corruption.antt =====
-- What the checksum detects.
use full_stack_shinfeld.Common.{
  ℕ, zero, suc, ◌+◌, ◌*◌, ◌<◌, ◌≡◌, ◌≢◌, ◌⊎◌, inl, inr, ap, true, List, [], ◌∷◌, length, arith,
  none, set, get_or, length-set, Bool-cases, ltb,
}
use full_stack_shinfeld.Bytes.{IsBytes}
use full_stack_shinfeld.Tcp.Segment.Checksum.{word_total, pseudo_total, InRange, check_checksum_iff}
use full_stack_shinfeld.Tcp.Segment.{decode, check_checksum}

-- A byte counts once or 256 times in the sum.
word_total-set :
    (bytes : List ℕ) (i b : ℕ)
    → i < length bytes
    → (word_total (set bytes i b) + get_or bytes i 0 ≡ word_total bytes + b)
      ⊎ (word_total (set bytes i b) + get_or bytes i 0 * 256 ≡ word_total bytes + b * 256)
unfolding word_total
word_total-set [] i b h = absurd (omega arith)
word_total-set (x ∷ []) zero b h = inr (omega arith)
word_total-set (x ∷ []) (suc i) b h = absurd (omega arith)
word_total-set (x ∷ y ∷ rest) zero b h = inr (omega arith)
word_total-set (x ∷ y ∷ rest) (suc zero) b h = inl (omega arith)
word_total-set (x ∷ y ∷ rest) (suc (suc i)) b h =
    ground (arith, word_total-set rest i b (omega arith))

IsBytes-set : (bytes : List ℕ) (i b : ℕ) → IsBytes bytes → b < 256 → IsBytes (set bytes i b)
IsBytes-set [] i b h hb = tt
IsBytes-set (x ∷ rest) zero b h hb = (hb, h.1)
IsBytes-set (x ∷ rest) (suc i) b h hb = (h.0, IsBytes-set rest i b h.1 hb)

get_or-lt : (bytes : List ℕ) (i : ℕ) → IsBytes bytes → get_or bytes i 0 < 256
get_or-lt [] i h = omega arith
get_or-lt (x ∷ rest) zero h = h.0
get_or-lt (x ∷ rest) (suc i) h = get_or-lt rest i h.1

module _ {source_ip destination_ip protocol : ℕ} {bytes : List ℕ}
    (r : InRange source_ip destination_ip protocol bytes) (i b : ℕ) (inside : i < length bytes)
    (byte : b < 256) (differs : b ≢ get_or bytes i 0)
    (passes : check_checksum source_ip destination_ip protocol bytes ≡ true) where
  set-InRange : InRange source_ip destination_ip protocol (set bytes i b)
  set-InRange = record {
    source = r.source;
    destination = r.destination;
    protocol_byte = r.protocol_byte;
    size = omega (arith, r.size, length-set bytes i b);
    bytes_fit = IsBytes-set bytes i b r.bytes_fit byte;
  }

  no_longer_passes : check_checksum source_ip destination_ip protocol (set bytes i b) ≢ true
  no_longer_passes passes' =
      let before = (check_checksum_iff source_ip destination_ip protocol bytes r).0 passes in
      let after =
        (check_checksum_iff source_ip destination_ip protocol (set bytes i b) set-InRange).0
          passes' in
      omega (
        arith,
        before,
        after,
        word_total-set bytes i b inside,
        get_or-lt bytes i r.bytes_fit,
        ap (pseudo_total source_ip destination_ip protocol) (length-set bytes i b),
      )

  -- If a packet with values in range passes the checksum, then the same packet with one byte
  -- changed, whichever it is and whatever its new value, is rejected by `decode`.
  pub decode_corrupted : decode source_ip destination_ip protocol (set bytes i b) ≡ none
  unfolding decode
  decode_corrupted =
      elim (Bool-cases (check_checksum source_ip destination_ip protocol (set bytes i b))) [
        | inl passes' ↦ absurd (no_longer_passes passes')
        | inr fails ↦ rw fails (elim (Bool-cases (ltb (length (set bytes i b)) 20)) [
          | inl short ↦ rw short
          | inr long ↦ rw long
        ])
      ]
