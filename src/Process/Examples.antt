-- ===== src/Process/Examples.antt =====
-- Tests of the process loop and of quoting, and the theorems at concrete inputs.
use cargo_mutants.Prelude.Text.{codes}
use cargo_mutants.Prelude.{
  ◌≡◌, refl, inl, inr, true, false, none, some, [], ◌∷◌, arith, Any, ok, err,
}
use cargo_mutants.Process.{
  Duration, blocked, success, timeout, running, exited, killed, Poll, past, run_polls, quote_argv,
  quote_arg, wait_step, wait_for_exit, terminate,
}
use cargo_mutants.Process.Run.{
  Ended, run_polls-ends, run_polls-timeout, run_polls-success, ExitedInTime,
}
use cargo_mutants.Process.Quote.{unquote, unquote-quote_arg}

abbrev still : Duration → Poll
still t = record { elapsed = t; interrupt = false; kill = killed; gone = true; wait = running }

abbrev done : Duration → Poll
done t = record {
  elapsed = t;
  interrupt = false;
  kill = killed;
  gone = true;
  wait = exited (record { code = some 0; signal = none });
}

finishes : run_polls (some 100) (still 50 ∷ done 80 ∷ []) ≡ ok success
unfolding run_polls wait_step wait_for_exit
finishes = refl

times_out : run_polls (some 100) (still 50 ∷ done 120 ∷ []) ≡ ok timeout
unfolding run_polls wait_step wait_for_exit terminate
times_out = refl

quotes : quote_argv (codes "cargo" ∷ codes "a b" ∷ []) ≡ codes "cargo a\\ b"
unfolding quote_argv
quotes = refl

-- A child that ignores the signal
blocks : run_polls (some 100) (record (still 150) { gone = false } ∷ []) ≡ err blocked
unfolding run_polls wait_step wait_for_exit terminate
blocks = refl

run_polls-ends_example : Ended (run_polls (some 100) (still 50 ∷ still 150 ∷ []))
run_polls-ends_example =
    run_polls-ends 100 (still 50 ∷ still 150 ∷ []) (refl, (refl, tt)) (inr (inl (omega arith)))

run_polls-timeout_example : Any (λ p. past (some 100) p.elapsed ≡ true) (still 50 ∷ done 120 ∷ [])
run_polls-timeout_example = run_polls-timeout (some 100) (still 50 ∷ done 120 ∷ []) times_out

run_polls-success_example : Any (ExitedInTime (some 100)) (still 50 ∷ done 80 ∷ [])
run_polls-success_example = run_polls-success (some 100) (still 50 ∷ done 80 ∷ []) finishes

unquote-quote_arg_example : unquote false (quote_arg (codes "a \"\tb")) ≡ some (codes "a \"\tb")
unquote-quote_arg_example = unquote-quote_arg (codes "a \"\tb")
