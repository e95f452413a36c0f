-- ===== src/Process.antt =====
-- Running a subprocess: src/process.rs and src/process/unix.rs. What the operating system does is a
-- list of polls, one for each turn of the loop of `Process::run`; a duration is in nanoseconds.
pub mod Run
pub mod Quote
mod Examples
use cargo_mutants.Prelude.Text.{Text}
use cargo_mutants.Prelude.{
  ℕ, zero, suc, Bool, true, false, ◌||◌, Option, none, some, List, [], ◌∷◌, ◌++◌, ltb, ◌==◌,
  if◌then◌else◌, Result, ok, err, ◌>>=◌, ◌>>◌,
}

-- `Duration`
abbrev pub Duration : Type 0
Duration = ℕ

-- The errors of the runs that are modelled, told apart by where they come from. `out_of_polls`
-- belongs to the model: the list of polls ended while the child was running. So does `blocked`: the
-- waiter thread never answers, as the child ignores the signal, and the program does not return.
pub data Error : Type 0 where
  interrupted failed_to_terminate failed_to_wait failed_to_spawn out_of_polls blocked : Error
  io : Text → Error

-- `enum Exit`
pub data Exit : Type 0 where
  success : Exit
  failure : ℕ → Exit
  timeout : Exit
  signalled : ℕ → Exit
  other : Exit

-- `Exit::is_success`
abbrev pub is_success : Exit → Bool
is_success success = true
is_success _ = false

-- `Exit::is_timeout`
abbrev pub is_timeout : Exit → Bool
is_timeout timeout = true
is_timeout _ = false

-- `Exit::is_failure`
abbrev pub is_failure : Exit → Bool
is_failure (failure code) = true
is_failure _ = false

-- An `ExitStatus` of Unix: its code, or else its signal
pub record ExitStatus : Type 0 where
  pub code : Option ℕ
  pub signal : Option ℕ

abbrev exit_of : Option ℕ → Option ℕ → Exit
exit_of (some zero) signal = success
exit_of (some (suc code)) signal = failure (suc code)
exit_of none (some signal) = signalled signal
exit_of none none = other

-- `impl From<ExitStatus> for Exit`
unfoldable pub from_status : ExitStatus → Exit
from_status status = exit_of status.code status.signal

-- What the waiter thread reports within one poll interval: the child is running, or its `wait`
-- returned or failed, or the thread is gone.
pub data Wait : Type 0 where
  running : Wait
  exited : ExitStatus → Wait
  wait_failed disconnected : Wait

-- What `killpg` answers to `terminate_child`; on Unix other than macOS only ESRCH passes for success.
pub data Kill : Type 0 where
  killed no_such_process kill_failed : Kill

-- One turn of the loop: the time since the start, whether Ctrl-C was pressed, what a kill would answer,
-- whether the child would be gone at some time after it, and what the wait reports.
pub record Poll : Type 0 where
  pub elapsed : Duration
  pub interrupt : Bool
  pub kill : Kill
  pub gone : Bool
  pub wait : Wait

-- `ChildHandle::wait_for_exit`
unfoldable pub wait_for_exit : Wait → Result Error (Option Exit)
unfolding from_status
wait_for_exit running = ok none
wait_for_exit (exited status) = ok (some (from_status status))
wait_for_exit wait_failed = err failed_to_wait
wait_for_exit disconnected = err failed_to_wait

-- `terminate_child`
unfoldable pub terminate_child : Kill → Result Error (Unit {0})
terminate_child killed = ok tt
terminate_child no_such_process = ok tt
terminate_child kill_failed = err failed_to_terminate

-- `exit_rx.recv()`, which blocks until the waiter thread answers
unfoldable pub receive : Bool → Result Error (Unit {0})
receive true = ok tt
receive false = err blocked

-- `terminate`, which ignores what the waiter thread reports
unfoldable pub terminate : Poll → Result Error (Unit {0})
unfolding terminate_child receive
terminate poll = do terminate_child poll.kill; receive poll.gone

abbrev pub past : Option Duration → Duration → Bool
past none elapsed = false
past (some t) elapsed = ltb t elapsed

-- `Process::wait_step`
unfoldable pub wait_step : Option Duration → Poll → Result Error (Option Exit)
unfolding wait_for_exit terminate
wait_step limit poll =
    if past limit poll.elapsed
    then (do terminate poll; ok (some timeout))
    else if poll.interrupt
    then (do terminate poll; err interrupted)
    else wait_for_exit poll.wait

-- The loop of `Process::run`
unfoldable pub run_polls : Option Duration → List Poll → Result Error Exit
run_polls limit [] = err out_of_polls
run_polls limit (poll ∷ polls) = do
  status ← wait_step limit poll
  elim status [ some exit ↦ ok exit | none ↦ run_polls limit polls ]

-- `quote_argv`
abbrev pub backslash : ℕ
backslash = 92

unfoldable pub quote_char : ℕ → Text
quote_char c =
    if c == b'\t'
    then backslash ∷ b't' ∷ []
    else if c == b'\n'
    then backslash ∷ b'n' ∷ []
    else if c == b'\r'
    then backslash ∷ b'r' ∷ []
    else if c == b' ' || c == backslash || c == 39 || c == b'"'
    then backslash ∷ c ∷ []
    else c ∷ []

abbrev pub quote_arg : Text → Text
quote_arg [] = []
quote_arg (c ∷ s) = quote_char c ++ quote_arg s

abbrev pub spacer : Text → Text
spacer [] = []
spacer (c ∷ r) = b' ' ∷ []

pub quote_onto : Text → List Text → Text
quote_onto r [] = r
quote_onto r (s ∷ argv) = quote_onto (r ++ (spacer r ++ quote_arg s)) argv

unfoldable pub quote_argv : List Text → Text
unfolding quote_onto quote_char
quote_argv = quote_onto []
