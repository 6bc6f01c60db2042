-- ===== src/Worker.antt =====
-- app/worker.py: the rotation over the three queues. A queue's runner (run_next_extraction_job and
-- the like) is a function on the state of the session: whether it claimed a job, or the exception
-- that it raises, and the state left.
pub mod Fairness
use contract_change_intel.Prelude.{ℕ, zero, suc, ◌+◌, ◌%◌, Bool, true, false}
use contract_change_intel.Llm.Failure.{Outcome, returned, raised}

abbrev pub queue_count : ℕ
queue_count = 3

module _ {S : Type 0} where
  -- The queues in the order of the tuple; an index past them is not used.
  abbrev pub queue_at :
      (S → Outcome Bool × S)
      → (S → Outcome Bool × S)
      → (S → Outcome Bool × S)
      → ℕ
      → S
      → Outcome Bool × S
  queue_at extraction ingestion change_report zero = extraction
  queue_at extraction ingestion change_report (suc zero) = ingestion
  queue_at extraction ingestion change_report (suc (suc n)) = change_report

  abbrev pub or_next : (S → Outcome Bool × S) → Outcome Bool × S → Outcome Bool × S
  or_next rest (returned true, s) = (returned true, s)
  or_next rest (returned false, s) = rest s
  or_next rest (raised e, s) = (raised e, s)

  -- The `for offset in range(...)` loop, with `n` queues left to try.
  unfoldable pub try_queues : (ℕ → S → Outcome Bool × S) → ℕ → ℕ → ℕ → S → Outcome Bool × S
  try_queues queues first offset zero s = (returned false, s)
  try_queues queues first offset (suc n) s =
      or_next (λ t. try_queues queues first (offset + 1) n t)
        (queues ((first + offset) % queue_count) s)

  unfoldable pub run_next_job : (ℕ → S → Outcome Bool × S) → ℕ → S → Outcome Bool × S
  unfolding try_queues
  run_next_job queues first s = try_queues queues first 0 queue_count s

  -- An exception of a runner ends the loop.
  abbrev pub after_turn : (S → Outcome (Unit {0}) × S) → Outcome Bool × S → Outcome (Unit {0}) × S
  after_turn rest (returned ran, s) = rest s
  after_turn rest (raised e, s) = (raised e, s)

  -- `n` turns of the loop of `main`, from `turn` on. Pauses are left out.
  unfoldable pub run_turns : (ℕ → S → Outcome Bool × S) → ℕ → ℕ → S → Outcome (Unit {0}) × S
  unfolding run_next_job
  run_turns queues zero turn s = (returned tt, s)
  run_turns queues (suc n) turn s =
      after_turn (λ t. run_turns queues n ((turn + 1) % queue_count) t) (run_next_job queues turn s)
