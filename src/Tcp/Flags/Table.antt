-- ===== src/Tcp/Flags/Table.antt =====
-- What `decodeFlags` says of every flag byte, by the bits of the byte.
use full_stack_shinfeld.Common.{
  ℕ, ◌/◌, ◌%◌, ◌<◌, ◌≡◌, refl, sym, ap, ◌∙◌, Bool, true, false, ◌==◌, leb, if◌then◌else◌, ==_iff,
  test_all, test_all_lem, nonzero,
}
use full_stack_shinfeld.Tcp.Flags.{FlagType, decode_flags}

-- The type by the position of the set bits: SYN before FIN before RST before ACK.
pub flag_type_of_bits : Bool → Bool → Bool → Bool → Bool → FlagType
flag_type_of_bits true fin rst psh true = FlagType.syn_ack
flag_type_of_bits true fin rst psh false = FlagType.syn
flag_type_of_bits false true rst psh true = FlagType.fin_ack
flag_type_of_bits false true rst psh false = FlagType.fin
flag_type_of_bits false false true psh ack = FlagType.rst
flag_type_of_bits false false false true true = FlagType.psh_ack
flag_type_of_bits false false false false true = FlagType.ack
flag_type_of_bits false false false psh false = FlagType.data_type

abbrev pub bit_at : ℕ → ℕ → Bool
bit_at v weight = nonzero (v / weight % 2)

type_code : FlagType → ℕ
type_code FlagType.invalid = 0
type_code FlagType.syn = 1
type_code FlagType.syn_ack = 2
type_code FlagType.fin = 3
type_code FlagType.fin_ack = 4
type_code FlagType.ack = 5
type_code FlagType.psh_ack = 6
type_code FlagType.rst = 7
type_code FlagType.data_type = 8

type_of_code : ℕ → FlagType
type_of_code n =
    if n == 0
    then FlagType.invalid
    else if n == 1
    then FlagType.syn
    else if n == 2
    then FlagType.syn_ack
    else if n == 3
    then FlagType.fin
    else if n == 4
    then FlagType.fin_ack
    else if n == 5
    then FlagType.ack
    else if n == 6
    then FlagType.psh_ack
    else if n == 7
    then FlagType.rst
    else FlagType.data_type

type_of_code-type_code : (t : FlagType) → type_of_code (type_code t) ≡ t
unfolding type_of_code type_code
type_of_code-type_code FlagType.invalid = refl
type_of_code-type_code FlagType.syn = refl
type_of_code-type_code FlagType.syn_ack = refl
type_of_code-type_code FlagType.fin = refl
type_of_code-type_code FlagType.fin_ack = refl
type_of_code-type_code FlagType.ack = refl
type_of_code-type_code FlagType.psh_ack = refl
type_of_code-type_code FlagType.rst = refl
type_of_code-type_code FlagType.data_type = refl

type_code_injective : (s t : FlagType) → type_code s ≡ type_code t → s ≡ t
type_code_injective s t e =
    sym (type_of_code-type_code s) ∙ ap type_of_code e ∙ type_of_code-type_code t

-- The type of a flag byte, by its bits.
pub flag_type : ℕ → FlagType
unfolding flag_type_of_bits
flag_type v =
    if leb 64 v
    then FlagType.invalid
    else flag_type_of_bits (bit_at v 2) (bit_at v 1) (bit_at v 4) (bit_at v 8) (bit_at v 16)

flag_table : test_all (λ v. type_code (decode_flags v) == type_code (flag_type v)) 256 ≡ true
unfolding test_all decode_flags flag_type type_code
flag_table = refl

-- For every flag byte, `decodeFlags` gives INVALID exactly when one of the two reserved bits is
-- set, and otherwise the type that the SYN, FIN, RST, PSH and ACK bits have, SYN before FIN before
-- RST before the others.
pub decode_flags-eq-flag_type : (v : ℕ) → v < 256 → decode_flags v ≡ flag_type v
decode_flags-eq-flag_type v h =
    type_code_injective (decode_flags v) (flag_type v)
      ((==_iff _ _).0 (test_all_lem _ 256 v h flag_table))
