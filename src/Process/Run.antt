-- ===== src/Process/Run.antt =====
-- How the loop that waits for a child ends.
use cargo_mutants.Prelude.{
  ◌<◌, ◌≡◌, refl, ◌≢◌, inl, inr, true, false, Option, none, some, List, [], ◌∷◌, arith, All, Any,
  Result, ok, err, ◌>>=◌,
}
use cargo_mutants.Process.{
  Duration, Error, blocked, out_of_polls, Exit, success, timeout, ExitStatus, from_status, Wait,
  running, exited, wait_failed, disconnected, Poll, wait_for_exit, terminate, past, wait_step,
  run_polls,
}

-- Whether the loop came to an end
abbrev pub Ended : Result Error Exit → Type 0
Ended r = (r ≢ err out_of_polls) × (r ≢ err blocked)

wait_step-answers :
    (limit : Option Duration) (p : Poll) → p.gone ≡ true → wait_step limit p ≢ err out_of_polls
unfolding wait_step wait_for_exit terminate
wait_step-answers limit p g e = ground arith

wait_step-unblocked :
    (limit : Option Duration) (p : Poll) → p.gone ≡ true → wait_step limit p ≢ err blocked
unfolding wait_step wait_for_exit terminate
wait_step-unblocked limit p g e = ground arith

wait_step-late : (t : Duration) (p : Poll) → t < p.elapsed → wait_step (some t) p ≢ ok none
unfolding wait_step wait_for_exit terminate
wait_step-late t p h e = ground arith

-- With a time limit, the loop ends at a poll past the limit at the latest, where a child that is sent
-- the signal to terminate is gone at some time after it. A child that ignores the signal is waited for
-- without a limit.
pub run_polls-ends :
    (t : Duration) (polls : List Poll)
    → All (λ p. p.gone ≡ true) polls
    → Any (λ p. t < p.elapsed) polls
    → Ended (run_polls (some t) polls)
unfolding run_polls
run_polls-ends t [] g h = absurd h
run_polls-ends t (poll ∷ polls) (g, gs) h =
    by_step (wait_step (some t) poll) (wait_step-answers (some t) poll g)
      (wait_step-unblocked (some t) poll g)
      (elim h [
        | inl late ↦ (λ e. absurd (wait_step-late t poll late e))
        | inr rest ↦ (λ e. run_polls-ends t polls gs rest)
      ])
  where
    by_step :
        (r : Result Error (Option Exit))
        → r ≢ err out_of_polls
        → r ≢ err blocked
        → (r ≡ ok none → Ended (run_polls (some t) polls))
        → Ended
            (r >>= λ status. elim status [ some exit ↦ ok exit | none ↦ run_polls (some t) polls ])
    by_step (ok none) a b k = k refl
    by_step (ok (some exit)) a b k = (λ e. cc, λ e. cc)
    by_step (err e) a b k = (λ f. a (cc), λ f. b (cc))

from_status-ne_timeout : (s : ExitStatus) → from_status s ≢ timeout
unfolding from_status
from_status-ne_timeout s e = ground arith

wait_for_exit-ne_timeout : (w : Wait) → wait_for_exit w ≢ ok (some timeout)
unfolding wait_for_exit
wait_for_exit-ne_timeout (exited s) e = from_status-ne_timeout s (cc)
wait_for_exit-ne_timeout _ e = cc

wait_step-timeout :
    (limit : Option Duration) (p : Poll)
    → wait_step limit p ≡ ok (some timeout)
    → past limit p.elapsed ≡ true
unfolding wait_step
wait_step-timeout limit p e = ground (arith, wait_for_exit-ne_timeout p.wait)

-- The loop ends with the status that some poll gave.
run_polls-from :
    (limit : Option Duration) (polls : List Poll) (exit : Exit)
    → run_polls limit polls ≡ ok exit
    → Any (λ p. wait_step limit p ≡ ok (some exit)) polls
unfolding run_polls
run_polls-from limit [] exit e = cc
run_polls-from limit (p ∷ polls) exit e = ground (arith, run_polls-from limit polls exit)

Any-map :
    {A : Type 0} (P Q : A → Type 0) → ((a : A) → P a → Q a) → (xs : List A) → Any P xs → Any Q xs
Any-map P Q f [] h = h
Any-map P Q f (x ∷ xs) (inl p) = inl (f x p)
Any-map P Q f (x ∷ xs) (inr r) = inr (Any-map P Q f xs r)

-- A timeout is reported only of a child that was past its limit at some poll.
pub run_polls-timeout :
    (limit : Option Duration) (polls : List Poll)
    → run_polls limit polls ≡ ok timeout
    → Any (λ p. past limit p.elapsed ≡ true) polls
run_polls-timeout limit polls e =
    Any-map (λ p. wait_step limit p ≡ ok (some timeout)) (λ p. past limit p.elapsed ≡ true)
      (wait_step-timeout limit) polls (run_polls-from limit polls timeout e)

-- What a poll shows at which the child has exited with status 0, in time.
pub record ExitedInTime (limit : Option Duration) (p : Poll) : Type 0 where
  pub in_time : past limit p.elapsed ≡ false
  pub undisturbed : p.interrupt ≡ false
  pub status : ExitStatus
  pub reported : p.wait ≡ exited status
  pub zero_code : status.code ≡ some 0

wait_for_exit-success :
    (w : Wait)
    → wait_for_exit w ≡ ok (some success)
    → (s : ExitStatus) × (w ≡ exited s) × (s.code ≡ some 0)
unfolding wait_for_exit from_status
wait_for_exit-success (exited s) e = (s, refl, ground arith)
wait_for_exit-success running e = cc
wait_for_exit-success wait_failed e = cc
wait_for_exit-success disconnected e = cc

wait_step-success :
    (limit : Option Duration) (p : Poll)
    → wait_step limit p ≡ ok (some success)
    → ExitedInTime limit p
unfolding wait_step terminate
wait_step-success limit p e =
    let late : past limit p.elapsed ≡ false = ground arith in
    let calm : p.interrupt ≡ false = ground arith in
    let (s, w, z) = wait_for_exit-success p.wait (rw (late, calm) at e) in
    record { in_time = late; undisturbed = calm; status = s; reported = w; zero_code = z }

-- Success is reported only of a child that exited with status 0 within its limit, uninterrupted.
pub run_polls-success :
    (limit : Option Duration) (polls : List Poll)
    → run_polls limit polls ≡ ok success
    → Any (ExitedInTime limit) polls
run_polls-success limit polls e =
    Any-map (λ p. wait_step limit p ≡ ok (some success)) (ExitedInTime limit)
      (wait_step-success limit) polls (run_polls-from limit polls success e)
