-- ===== src/Tcp/Connection/Next.antt =====
-- Where each type of segment leads the state of a client in backend/TCP/src/Connection.cpp.
use full_stack_shinfeld.Common.{Bool, true, false, leb, ◌&&◌, ◌≡◌, ◌==◌}
use full_stack_shinfeld.Tcp.Flags.{State, FlagType}
use full_stack_shinfeld.Tcp.Segment.{Segment}
use full_stack_shinfeld.Tcp.Client.{Client}
use full_stack_shinfeld.Tcp.Connection.Sending.{is_closing}

-- The states in which a FIN, and in which a FIN_ACK, is expected; and the types that are handled.
abbrev pub expects_fin : State → Bool
expects_fin State.established = true
expects_fin State.fin_wait_2 = true
expects_fin _ = false

abbrev pub expects_fin_ack : State → Bool
expects_fin_ack State.fin_wait_1 = true
expects_fin_ack State.last_ack = true
expects_fin_ack _ = false

abbrev pub is_syn_sent : State → Bool
is_syn_sent State.syn_sent = true
is_syn_sent _ = false

abbrev pub is_handled : FlagType → Bool
is_handled FlagType.invalid = false
is_handled FlagType.psh_ack = false
is_handled FlagType.rst = false
is_handled FlagType.data_type = false
is_handled _ = true

-- Whether the numbers of a segment of a type are those that the client expects.
unfoldable pub accepts : {D : Type 0} → FlagType → Client D → Segment → Bool
accepts FlagType.syn_ack client seg = seg.acknowledgement_number == client.expected_sequence
accepts FlagType.fin_ack client seg =
    seg.acknowledgement_number == client.expected_sequence
    && seg.sequence_number == client.expected_ack
accepts FlagType.fin client seg =
    leb client.last_ack seg.acknowledgement_number
    && leb seg.acknowledgement_number client.expected_sequence
    && seg.sequence_number == client.expected_ack
accepts FlagType.ack client seg =
    leb client.last_ack seg.acknowledgement_number
    && leb seg.acknowledgement_number client.expected_sequence
    && seg.sequence_number == client.expected_ack
accepts _ client seg = true

-- Where a segment of a type, accepted or not, leads from a state. What is not accepted leads nowhere;
-- what is accepted must lead on, in the states that expect it. Our own FIN may follow at once an ACK,
-- and a FIN that is answered in ESTABLISHED.
pub data Next : FlagType → Bool → State → State → Type 0 where
  stays : (type : FlagType) (s : State) → Next type false s s
  resets : (s : State) → Next FlagType.syn true s State.syn_sent
  opens : (s : State) → Next FlagType.syn_ack true s State.established
  opened : Next FlagType.ack true State.syn_sent State.established
  opened_and_left : Next FlagType.ack true State.syn_sent State.fin_wait_1
  goes_on : (s : State) → is_syn_sent s ≡ false → Next FlagType.ack true s s
  leaves :
      (s : State)
      → is_syn_sent s ≡ false
      → is_closing s ≡ false
      → Next FlagType.ack true s State.fin_wait_1
  ends : Next FlagType.ack true State.closing State.last_ack
  answers : Next FlagType.fin true State.established State.closing
  follows : Next FlagType.fin true State.established State.last_ack
  waits : Next FlagType.fin true State.fin_wait_2 State.time_wait
  ignores : (s : State) → expects_fin s ≡ false → Next FlagType.fin true s s
  acknowledged : Next FlagType.fin_ack true State.fin_wait_1 State.fin_wait_2
  closes : Next FlagType.fin_ack true State.last_ack State.closed
  loses : (s : State) → expects_fin_ack s ≡ false → Next FlagType.fin_ack true s State.none_state
  unhandled : (type : FlagType) (s : State) → is_handled type ≡ false → Next type true s s
