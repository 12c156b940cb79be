-- ===== src/Tcp/SegmentInfo.antt =====
-- backend/TCP/src/SegmentInfo.cpp: what is remembered of a sent segment. The objects are shared: the
-- client's queue, its tracker and the closure that the sender thread calls point to one object. So
-- they live in a store, and a pointer is an index into it.
use full_stack_shinfeld.Common.{ℕ, ◌++◌, Bool, List, [], ◌∷◌, get_or, set}

-- `time_sent` is in milliseconds of the steady clock, 0 for the default time point.
pub record SegmentInfo : Type 0 where
  pub sequence_number : ℕ
  pub flag : ℕ
  pub start : ℕ
  pub data_size : ℕ
  pub tracking : Bool
  pub time_sent : ℕ

abbrev pub no_info : SegmentInfo
no_info = record {
  sequence_number = 0;
  flag = 0;
  start = 0;
  data_size = 0;
  tracking = Bool.false;
  time_sent = 0;
}

abbrev pub Store : Type 0
Store = List SegmentInfo

unfoldable pub segment_info : ℕ → ℕ → ℕ → ℕ → Bool → SegmentInfo
segment_info seq_num flag start data_size tracking = record {
  sequence_number = seq_num;
  flag = flag;
  start = start;
  data_size = data_size;
  tracking = tracking;
  time_sent = 0;
}

-- The object behind a pointer; pointers are made only by `allocate`.
unfoldable pub deref : Store → ℕ → SegmentInfo
deref store p = get_or store p no_info

-- `std::make_shared`: the new pointer is the length of the store.
unfoldable pub allocate : Store → SegmentInfo → Store
allocate store info = store ++ info ∷ []

unfoldable set_seq_num : Store → ℕ → ℕ → Store
unfolding deref
set_seq_num store p val = set store p (record (deref store p) { sequence_number = val })

unfoldable set_flag : Store → ℕ → ℕ → Store
unfolding deref
set_flag store p val = set store p (record (deref store p) { flag = val })

unfoldable set_start : Store → ℕ → ℕ → Store
unfolding deref
set_start store p val = set store p (record (deref store p) { start = val })

unfoldable set_data_size : Store → ℕ → ℕ → Store
unfolding deref
set_data_size store p val = set store p (record (deref store p) { data_size = val })

unfoldable pub set_tracking : Store → ℕ → Bool → Store
unfolding deref
set_tracking store p val = set store p (record (deref store p) { tracking = val })

-- The closure of `LastTimeMessageSent`, called at the time `now`.
unfoldable pub set_time_sent : Store → ℕ → ℕ → Store
unfolding deref
set_time_sent store p now = set store p (record (deref store p) { time_sent = now })
