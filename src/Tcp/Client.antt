-- ===== src/Tcp/Client.antt =====
-- backend/TCP/src/Client.cpp and include/Client.hpp: what a connection keeps of one peer. `double` is
-- a parameter with its operations. The received file is the list of bytes written; opening and
-- writing succeed (a failure ends the program by an exception that nothing catches). The peer's
-- queue of received data is a list, since nothing closes it.
pub mod Sent
pub mod Accounting
use full_stack_shinfeld.Common.{
  ℕ, zero, suc, ◌+◌, ◌-◌, ◌*◌, ◌^◌, ◌%◌, ◌<◌, ◌++◌, Bool, true, false, ◌&&◌, not, List, [], ◌∷◌,
  Option, none, some, ltb, leb, ◌==◌, length, is_empty, is_some, if◌then◌else◌,
}
use full_stack_shinfeld.Common.Bits.{u8, u16, u32}
use full_stack_shinfeld.Tcp.Flags.{State}
use full_stack_shinfeld.Tcp.MessageBuffer
use full_stack_shinfeld.Tcp.Segment.{Segment, header_size}
use full_stack_shinfeld.Tcp.SegmentInfo.{SegmentInfo, Store, deref}

-- The operations of `double` that the code uses, and its literals; `of_num` is the conversion.
pub record Doubles (D : Type 0) : Type 0 where
  pub of_num : ℕ → D
  pub alpha : D
  pub beta : D
  pub add : D → D → D
  pub sub : D → D → D
  pub mul : D → D → D
  pub div : D → D → D
  pub abs : D → D
  pub is_zero : D → Bool
  pub less : D → D → Bool

pub record TransmissionInfo (D : Type 0) : Type 0 where
  pub estimated_rtt : D
  pub deviation_rtt : D
  pub timeout_interval : D
  pub number_of_timeouts : ℕ

pub record Client (D : Type 0) : Type 0 where
  pub port : ℕ
  pub ip : ℕ
  pub expected_sequence : ℕ
  pub expected_ack : ℕ
  pub last_ack : ℕ
  pub state : State
  pub message_buffer : List (ℕ × Segment)
  pub messages_sent : List ℕ
  pub tracker_segment : Option ℕ
  pub total_size_of_messages_sent : ℕ
  pub last_byte_sent : ℕ
  pub window_size : ℕ
  pub is_fin_sent : Bool
  pub transmission_info : TransmissionInfo D
  pub file_is_open : Bool
  pub file : List ℕ
  pub received_data : List (List ℕ)

module _ {D : Type 0} (F : Doubles D) where
  open F use {of_num, alpha, beta, add, sub, mul, div, abs, is_zero, less}

  unfoldable pub new_client : ℕ → ℕ → ℕ → ℕ → ℕ → State → Client D
  new_client port ip expected_seq expected_ack last_ack state = record {
    port = port;
    ip = ip;
    expected_sequence = expected_seq;
    expected_ack = expected_ack;
    last_ack = last_ack;
    state = state;
    message_buffer = [];
    messages_sent = [];
    tracker_segment = none;
    total_size_of_messages_sent = 0;
    last_byte_sent = 0;
    window_size = 0;
    is_fin_sent = false;
    transmission_info = record {
      estimated_rtt = of_num 0;
      deviation_rtt = of_num 0;
      timeout_interval = of_num 10000;
      number_of_timeouts = 0;
    };
    file_is_open = false;
    file = [];
    received_data = [];
  }

  unfoldable pub update_transmission_info : Client D → D → Client D
  update_transmission_info c sample_rtt =
      let t = c.transmission_info in
      let first = is_zero t.estimated_rtt in
      let estimated =
        if first
        then sample_rtt
        else add (mul (sub (of_num 1) alpha) t.estimated_rtt) (mul alpha sample_rtt) in
      let deviation =
        if first
        then div sample_rtt (of_num 2)
        else add (mul (sub (of_num 1) beta) t.deviation_rtt)
            (mul beta (abs (sub estimated sample_rtt))) in
      record c {
        transmission_info = record t {
          estimated_rtt = estimated;
          deviation_rtt = deviation;
          timeout_interval = add estimated (mul (of_num 4) deviation);
        };
      }

  unfoldable pub double_timeout_interval : Client D → Client D
  double_timeout_interval c =
      let t = c.transmission_info in
      record c {
        transmission_info = record t {
          timeout_interval =
              if less t.timeout_interval (of_num 5000)
              then mul t.timeout_interval (of_num 2)
              else t.timeout_interval;
          number_of_timeouts = u8 (t.number_of_timeouts + 1);
        };
      }

  -- The round trip in milliseconds that is taken for a measured one: a default for a short one, a
  -- limit for a long one.
  unfoldable pub sample_rtt_of : ℕ → ℕ
  sample_rtt_of elapsed = if ltb elapsed 1 then 1000 else if ltb 5000 elapsed then 5000 else elapsed

  unfoldable pub check_tracker : Option ℕ → Store → ℕ → Client D → ℕ → Client D
  check_tracker none store now c seq_num = c
  check_tracker (some p) store now c seq_num =
      let info = deref store p in
      if ltb info.sequence_number seq_num && info.tracking
      then record (update_transmission_info c (of_num (sample_rtt_of (now - info.time_sent)))) {
        tracker_segment = none;
      }
      else c

  unfoldable pub check_tracker_segment : Store → ℕ → Client D → ℕ → Client D
  unfolding check_tracker
  check_tracker_segment store now c seq_num = check_tracker c.tracker_segment store now c seq_num
