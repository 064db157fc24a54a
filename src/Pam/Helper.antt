-- ===== src/Pam/Helper.antt =====
-- crates/pam-sentinel/src/helper.rs: the dialog's process, from the parent's side.
pub mod Pipe
pub mod Deadline
pub mod Child
pub mod Arguments
pub mod EndToEnd
pub mod Tests
use sentinel_cosmic.Common.{
  true, ◌||◌, not, ◌==◌, ◌++◌, ◌%◌, false, ◌∷◌, take, List, ◌+◌, ◌*◌, [], ltb, retain, unwrap_or,
  Bool, if◌then◌else◌, ℕ,
}
use sentinel_cosmic.Config.{ServiceConfig}
use sentinel_cosmic.Pam.ProcessInfo.{ProcessInfo}
use sentinel_cosmic.Pam.Utf8.{from_utf8}
use sentinel_cosmic.Text.{contains, Text, is_empty, codes, first_part}
use sentinel_cosmic.Text.Decimal.{to_string}
use sentinel_cosmic.Verdict.{Outcome, parse_verdict, Verdict}

-- `PollTimeout`: for ever, some milliseconds, or the longest time.

pub data PollTimeout : Type 0 where
  never : PollTimeout
  millis : ℕ → PollTimeout
  longest : PollTimeout

abbrev pub helper_grace_secs : ℕ
helper_grace_secs = 5

-- A value of the type i32, as the release build computes it: modulo 2^32, the upper half negative.
abbrev of_i32 : ℕ → PollTimeout
of_i32 w = if ltb w 2147483648 then millis w else longest

-- `parent_poll_timeout`.
unfoldable pub parent_poll_timeout : ℕ → PollTimeout
parent_poll_timeout timeout_secs =
    if timeout_secs == 0
    then never
    else (let bounded = (if ltb timeout_secs 2147483648 then timeout_secs else 30) in
        of_i32 ((bounded + helper_grace_secs) * 1000 % 4294967296))

-- `CString::new(s)`, and the push that passes over what holds a NUL.
abbrev pub without_nul : List Text → List Text
without_nul ss = retain (λ s. not (contains s 0)) ss

abbrev pub flag_value : Text → Text → List Text
flag_value flag value = if is_empty value then [] else flag ∷ value ∷ []

-- What the request for the dialog holds.
pub record HelperRequest : Type 0 where
  pub cfg : ServiceConfig
  pub user : Text
  pub service : Text
  pub process : ProcessInfo
  pub title : Text
  pub message : Text
  pub secondary : Text
  pub target_uid : ℕ
  pub requesting_pid : ℕ
  pub remember_secs : ℕ

abbrev pub process_args : HelperRequest → List Text
process_args req =
    if req.cfg.show_process_info
    then (codes "--process-exe"
        ∷ req.process.exe
        ∷ (flag_value (codes "--process-cmdline") req.process.cmdline
            ++ (codes "--process-pid"
                ∷ to_string req.requesting_pid
                ∷ (flag_value (codes "--process-cwd") req.process.cwd
                    ++ (codes "--requesting-user"
                        ∷ req.user
                        ∷ codes "--action"
                        ∷ req.service
                        ∷ [])))))
    else []

-- The arguments that the child passes to the helper. The helper's path is fixed by the build.
unfoldable pub child_argv : Text → HelperRequest → List Text
unfolding contains to_string
child_argv helper_path req = without_nul (
    helper_path
    ∷ codes "--title"
    ∷ req.title
    ∷ codes "--message"
    ∷ req.message
    ∷ codes "--secondary"
    ∷ req.secondary
    ∷ codes "--timeout"
    ∷ to_string req.cfg.timeout
    ∷ codes "--min-time"
    ∷ to_string req.cfg.min_display_time_ms
    ∷ codes "--remember-secs"
    ∷ to_string req.remember_secs
    ∷ (flag_value (codes "--sound-name") req.cfg.sound_name
        ++ ((if req.cfg.randomize_buttons then codes "--randomize" ∷ [] else [])
            ++ process_args req)))

pub data Read : Type 0 where
  bytes : List ℕ → Read
  interrupted : Read
  read_failed : Read

-- How the wait goes: the poll fails, it times out, or the pipe is read once.
pub data Wait : Type 0 where
  poll_failed : Wait
  poll_timeout : Wait
  ready : Read → Wait

pub data HelperError : Type 0 where
  no_pipe : HelperError
  no_fork : HelperError
  poll_error : HelperError
  helper_timeout : HelperError
  read_error : HelperError
  no_output : HelperError

pub data Result {ℓ} (A : Type ℓ) : Type ℓ where
  ok : A → Result A
  err : HelperError → Result A

abbrev pub bare_deny : Verdict
bare_deny = record { outcome = Outcome.deny; remember = false }

-- The verdict that the bytes in the buffer of 16 spell: a bare Deny where they spell none.
unfoldable pub read_answer : List ℕ → Verdict
unfolding from_utf8 first_part parse_verdict
read_answer buf =
    unwrap_or
      (parse_verdict (first_part (λ c. c == b'\n' || c == b'\r') (unwrap_or (from_utf8 buf) [])))
      bare_deny

abbrev answer_of : List ℕ → Result Verdict
answer_of [] = err no_output
answer_of (b ∷ bs) = ok (read_answer (b ∷ bs))

-- `parent_wait`, and whether the child is killed.
unfoldable pub parent_wait : Wait → Bool × Result Verdict
unfolding read_answer
parent_wait poll_failed = (true, err poll_error)
parent_wait poll_timeout = (true, err helper_timeout)
parent_wait (ready (bytes out)) = (false, answer_of (take 16 out))
parent_wait (ready interrupted) = (false, err no_output)
parent_wait (ready read_failed) = (false, err read_error)

-- What becomes of the child.
pub data Spawn : Type 0 where
  pipe_failed : Spawn
  fork_failed : Spawn
  forked : Wait → Spawn

-- `run`, from the parent's side.
unfoldable pub run_child : Spawn → Result Verdict
unfolding parent_wait
run_child pipe_failed = err no_pipe
run_child fork_failed = err no_fork
run_child (forked w) = (parent_wait w).1
