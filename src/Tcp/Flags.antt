-- ===== src/Tcp/Flags.antt =====
-- backend/TCP/include/Flags.hpp: the flag byte of a segment and the states of a connection.
pub mod Table
use Prim.Native.String.{String}
use full_stack_shinfeld.Common.{ℕ, ◌-◌, ◌^◌, bit_and, bit_or, nonzero, if◌then◌else◌}

pub data FlagType : Type 0 where
  invalid syn syn_ack fin fin_ack ack psh_ack rst data_type : FlagType

pub data Flags : Type 0 where
  urg ack psh rst syn fin : Flags

-- `static_cast<uint8_t>` of a flag.
unfoldable pub flag_byte : Flags → ℕ
flag_byte Flags.urg = 2 ^ 5
flag_byte Flags.ack = 2 ^ 4
flag_byte Flags.psh = 2 ^ 3
flag_byte Flags.rst = 2 ^ 2
flag_byte Flags.syn = 2 ^ 1
flag_byte Flags.fin = 2 ^ 0

unfoldable pub create_flag : Flags → Flags → ℕ
unfolding flag_byte
create_flag f1 f2 = bit_or (flag_byte f1) (flag_byte f2)

unfoldable pub valid_flags : ℕ
unfolding flag_byte
valid_flags =
    bit_or
      (bit_or
        (bit_or (bit_or (bit_or (flag_byte Flags.urg) (flag_byte Flags.ack)) (flag_byte Flags.psh))
          (flag_byte Flags.rst))
        (flag_byte Flags.syn))
      (flag_byte Flags.fin)

-- `value` is a uint8_t, so only the low byte of `~VALID_FLAGS` meets it.
unfoldable pub decode_flags : ℕ → FlagType
unfolding flag_byte valid_flags
decode_flags value =
    if nonzero (bit_and value (255 - valid_flags))
    then FlagType.invalid
    else if nonzero (bit_and value (flag_byte Flags.syn))
    then (if nonzero (bit_and value (flag_byte Flags.ack)) then FlagType.syn_ack else FlagType.syn)
    else if nonzero (bit_and value (flag_byte Flags.fin))
    then (if nonzero (bit_and value (flag_byte Flags.ack)) then FlagType.fin_ack else FlagType.fin)
    else if nonzero (bit_and value (flag_byte Flags.rst))
    then FlagType.rst
    else if nonzero (bit_and value (flag_byte Flags.ack))
    then (if nonzero (bit_and value (flag_byte Flags.psh)) then FlagType.psh_ack else FlagType.ack)
    else FlagType.data_type

pub flag_type_name : FlagType → String
flag_type_name FlagType.invalid = "INVALID"
flag_type_name FlagType.syn = "SYN"
flag_type_name FlagType.syn_ack = "SYN_ACK"
flag_type_name FlagType.fin = "FIN"
flag_type_name FlagType.fin_ack = "FIN_ACK"
flag_type_name FlagType.ack = "ACK"
flag_type_name FlagType.psh_ack = "PSH_ACK"
flag_type_name FlagType.rst = "RST"
flag_type_name FlagType.data_type = "DATA"

pub flags_to_str : ℕ → String
unfolding flag_type_name decode_flags
flags_to_str flag = flag_type_name (decode_flags flag)

-- `STATE`, which the code stores as its number.
pub data State : Type 0 where
  none_state syn_sent syn_received established fin_wait_1 fin_wait_2 : State
  time_wait closing closed last_ack : State

pub state_to_str : State → String
state_to_str State.none_state = "NONE"
state_to_str State.syn_sent = "SYN_SENT"
state_to_str State.syn_received = "SYN_RECEIVED"
state_to_str State.established = "ESTABLISHED"
state_to_str State.fin_wait_1 = "FIN_WAIT_1"
state_to_str State.fin_wait_2 = "FIN_WAIT_2"
state_to_str State.time_wait = "TIME_WAIT"
state_to_str State.closing = "CLOSING"
state_to_str State.closed = "CLOSED"
state_to_str State.last_ack = "LAST_ACK"
