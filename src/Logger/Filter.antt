-- ===== src/Logger/Filter.antt =====
-- What gets into the file of the logger of backend/TCP/include/Logger.hpp, over a sequence of calls.
use full_stack_shinfeld.Common.{
  ℕ, ◌≡◌, inl, inr, refl, ap, sym, ◌∙◌, ◌++◌, Bool, true, false, List, [], ◌∷◌, leb, is_empty,
  arith, Bool-cases, append_assoc, append-nil, if◌then◌else◌,
}
use full_stack_shinfeld.Text.{codes}
use full_stack_shinfeld.Logger.Levels.{log_by_src, log_by, log_by_src_lem, log_by_lem}
use full_stack_shinfeld.Logger.{
  LogLevel, level_num, Formatting, Logger, write, close_file, open_file, enable_file_output,
  generate_log_file_name, line_src, line_plain, log_src, log_plain,
}

-- A call of one of the twelve functions that log: with its place in the source, or without.
pub data Call (A : Type 0) : Type 0 where
  src : ℕ → ℕ → List ℕ → LogLevel → List ℕ → List A → Call A
  plain : ℕ → LogLevel → List ℕ → List A → Call A

module _ {A : Type 0} where
  unfoldable pub level_of : Call A → LogLevel
  level_of (Call.src now line file level msg args) = level
  level_of (Call.plain now level msg args) = level

  -- What a function makes of the calls with at least the priority, in order.
  unfoldable pub select : {B : Type 0} → (Call A → B) → LogLevel → List (Call A) → List B
  select text priority [] = []
  select text priority (call ∷ rest) =
      let later = select text priority rest in
      if leb (level_num priority) (level_num (level_of call)) then text call ∷ later else later

module _ {A : Type 0} (F : Formatting A) where
  unfoldable pub text_of : Call A → List ℕ
  text_of (Call.src now line file level msg args) = line_src F now line file level msg args
  text_of (Call.plain now level msg args) = line_plain F now level msg args

  unfoldable pub log : Logger → Call A → Logger
  log logger (Call.src now line file level msg args) =
      log_by_src F level now logger line file msg args
  log logger (Call.plain now level msg args) = log_by F level now logger msg args

  unfoldable pub log_all : Logger → List (Call A) → Logger
  log_all logger [] = logger
  log_all logger (call ∷ rest) = log_all (log logger call) rest

  -- One call, whichever of the two overloads.
  log-write :
      (logger : Logger) (call : Call A)
      → log logger call ≡ (
          if leb (level_num logger.priority) (level_num (level_of call))
          then write logger (text_of call)
          else logger)
  unfolding log log_src log_plain level_of text_of
  log-write logger (Call.src now line file level msg args) =
      ground (arith, log_by_src_lem F level now logger line file msg args)
  log-write logger (Call.plain now level msg args) =
      ground (arith, log_by_lem F level now logger msg args)

  log_all-closed :
      (logger : Logger) (calls : List (Call A))
      → logger.is_open ≡ false
      → log_all logger calls ≡ logger
  unfolding log_all write
  log_all-closed logger [] closed = refl
  log_all-closed logger (call ∷ rest) closed =
      let same : log logger call ≡ logger = ground (arith, log-write logger call, closed) in
      rw same (log_all-closed logger rest closed)

  log_all-open :
      (logger : Logger) (calls : List (Call A))
      → logger.is_open ≡ true
      → (log_all logger calls).written
        ≡ logger.written ++ select (λ call. (logger.filename, text_of call)) logger.priority calls
  unfolding log_all write select
  log_all-open logger [] opened = sym (append-nil logger.written)
  log_all-open logger (call ∷ rest) opened =
      elim (Bool-cases (leb (level_num logger.priority) (level_num (level_of call)))) [
        | inl t ↦
            let line = (logger.filename, text_of call) ∷ [] in
            let longer : Logger = record logger { written = logger.written ++ line } in
            let step : log logger call ≡ longer =
              ground (arith, log-write logger call, t, opened) in
            let later = select (λ call. (logger.filename, text_of call)) logger.priority rest in
            rw (log_all, step, t)
              (log_all-open longer rest opened ∙ append_assoc logger.written line later)
        | inr t ↦ rw (log_all, log-write logger call, t) (log_all-open logger rest opened)
      ]

  abbrev new_name : ℕ → List ℕ → List ℕ
  new_name now name = if is_empty name then generate_log_file_name F (codes "app") now else name

  enabled :
      (succeeds : Bool) (now : ℕ) (logger : Logger) (name : List ℕ)
      → (enable_file_output F succeeds now logger name).0
        ≡ record logger { filename = new_name now name; is_open = succeeds }
  unfolding enable_file_output open_file close_file
  enabled succeeds now logger name = elim (Bool-cases logger.is_open) [
    | inl t ↦ rw t refl
    | inr t ↦ rw t refl
  ]

  -- After enableFileOutput, calls that log add to what was written exactly the texts of those calls
  -- whose level is at least the priority, in order and under the new name, if the file could be opened;
  -- if it could not, they add nothing, also to the file that was open before.
  pub enable-log_all :
      (succeeds : Bool) (now : ℕ) (logger : Logger) (name : List ℕ) (calls : List (Call A))
      → let filename = if is_empty name then generate_log_file_name F (codes "app") now else name in
        (log_all (enable_file_output F succeeds now logger name).0 calls).written
        ≡ logger.written
          ++ (if succeeds
              then select (λ call. (filename, text_of call)) logger.priority calls
              else [])
  enable-log_all true now logger name calls =
      rw (enabled true now logger name) (log_all-open _ calls refl)
  enable-log_all false now logger name calls =
      rw (enabled false now logger name)
        (ap (λ l. l.written) (log_all-closed _ calls refl) ∙ sym (append-nil logger.written))
