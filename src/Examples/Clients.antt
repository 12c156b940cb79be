-- ===== src/Examples/Clients.antt =====
-- A client with one sent segment, over whole numbers in place of `double`.
use full_stack_shinfeld.Common.{
  ℕ, ◌≡◌, ◌+◌, ◌-◌, ◌*◌, ◌/◌, ◌==◌, ltb, refl, [], ◌∷◌, some, true, arith,
}
use full_stack_shinfeld.Tcp.Flags.{State}
use full_stack_shinfeld.Tcp.SegmentInfo.{Store, deref}
use full_stack_shinfeld.Tcp.Client.{Client, Doubles, new_client}
use full_stack_shinfeld.Tcp.Client.Sent.{push_message, copy_front, check_front_all, sent_size}
use full_stack_shinfeld.Tcp.Client.Accounting.{
  sum_sizes, IsCounted, keeps_IsCounted, copy_front_leaks,
}

abbrev pub whole : Doubles ℕ
whole = record {
  of_num = λ n. n;
  alpha = 0;
  beta = 0;
  add = λ a b. a + b;
  sub = λ a b. a - b;
  mul = λ a b. a * b;
  div = λ a b. a / b;
  abs = λ a. a;
  is_zero = λ a. a == 0;
  less = ltb;
}

-- A segment of 80 bytes of data with the sequence number 1.
abbrev sent : Store
sent =
    record {
      sequence_number = 1;
      flag = 16;
      start = 0;
      data_size = 80;
      tracking = true;
      time_sent = 0;
    }
    ∷ []

abbrev waiting : Client ℕ
waiting = record (new_client whole 8080 0x7f000001 1 81 1 State.established) {
  messages_sent = 0 ∷ [];
  total_size_of_messages_sent = 100;
}

abbrev retransmitted : Client ℕ
retransmitted = record waiting { total_size_of_messages_sent = 200 }

waiting-IsCounted : IsCounted sent waiting
unfolding sum_sizes sent_size deref
waiting-IsCounted = refl

keeps_IsCounted_example :
    IsCounted sent (push_message sent waiting 0) × IsCounted sent (check_front_all sent waiting 81)
keeps_IsCounted_example = keeps_IsCounted sent waiting waiting-IsCounted 0 81

copied : copy_front sent waiting ≡ some (0, retransmitted)
unfolding copy_front sent_size deref
copied = refl

copy_front_leaks_example :
    ((check_front_all sent retransmitted 81).messages_sent ≡ [])
    × ((check_front_all sent retransmitted 81).total_size_of_messages_sent
        ≡ sent_size (record {
          sequence_number = 1;
          flag = 16;
          start = 0;
          data_size = 80;
          tracking = true;
          time_sent = 0;
        }))
unfolding deref
copy_front_leaks_example =
    copy_front_leaks sent waiting waiting-IsCounted 0 81 retransmitted copied (omega arith)
