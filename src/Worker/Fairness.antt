-- ===== src/Worker/Fairness.antt =====
-- No queue starves another.
use contract_change_intel.Prelude.{
  ℕ, zero, suc, ◌+◌, ◌-◌, ◌%◌, ◌<◌, Bool, true, false, ◌≡◌, refl, ap, sym, ◌∙◌, arith,
}
use std.Path.{subst}
use contract_change_intel.Llm.Failure.{Outcome, returned, raised}
use contract_change_intel.Worker.{
  or_next, after_turn, try_queues, run_next_job, run_turns, queue_count,
}

-- The turns before the one that begins with queue `i`.
abbrev pub turns_until : ℕ → ℕ → ℕ
turns_until i turn = (i + queue_count - turn) % queue_count

module _ {S : Type 0} (queues : ℕ → S → Outcome Bool × S) where
  or_next-true :
      (rest : S → Outcome Bool × S) (r : Outcome Bool × S)
      → r.0 ≡ returned true
      → or_next rest r ≡ (returned true, r.1)
  or_next-true rest (returned true, s) h = refl
  or_next-true rest (returned false, s) h = cc
  or_next-true rest (raised e, s) h = cc

  -- A pass begins with the queue at its rotation index.
  run_next_job-first :
      (first : ℕ) (s : S)
      → first < queue_count
      → (queues first s).0 ≡ returned true
      → run_next_job queues first s ≡ (returned true, (queues first s).1)
  unfolding run_next_job try_queues
  run_next_job-first first s h work =
      let z : (first + 0) % queue_count ≡ first = omega arith in
      rw z (or_next-true _ (queues first s) work)

  -- One more turn.
  turn_at : ℕ → S → Outcome (Unit {0}) × S
  turn_at turn s = after_turn (λ t. (returned tt, t)) (run_next_job queues turn s)

  after_turn-suc :
      (k turn : ℕ) (t : S) (r : Outcome Bool × S)
      → ((u : S)
          → run_turns queues k ((turn + 1) % queue_count) u ≡ (returned tt, t)
          → run_turns queues (suc k) ((turn + 1) % queue_count) u
            ≡ turn_at ((turn + suc k) % queue_count) t)
      → after_turn (λ u. run_turns queues k ((turn + 1) % queue_count) u) r ≡ (returned tt, t)
      → after_turn (λ u. run_turns queues (suc k) ((turn + 1) % queue_count) u) r
        ≡ turn_at ((turn + suc k) % queue_count) t
  after_turn-suc k turn t (returned ran, u) step h = step u h
  after_turn-suc k turn t (raised e, u) step h = cc

  run_turns-suc :
      (k turn : ℕ) (s t : S)
      → turn < queue_count
      → run_turns queues k turn s ≡ (returned tt, t)
      → run_turns queues (suc k) turn s ≡ turn_at ((turn + k) % queue_count) t
  unfolding run_turns turn_at
  run_turns-suc zero turn s t h run =
      let z : (turn + 0) % queue_count ≡ turn = omega arith in
      let same : s ≡ t = ap (λ (r : Outcome (Unit {0}) × S). r.1) run in
      ap (turn_at turn) same ∙ ap (λ q. turn_at q t) (sym z)
  run_turns-suc (suc k) turn s t h run =
      after_turn-suc k turn t (run_next_job queues turn s)
        (λ u later.
          let z : ((turn + 1) % queue_count + k) % queue_count ≡ (turn + suc k) % queue_count =
            omega arith in
          subst (λ q. run_turns queues (suc k) ((turn + 1) % queue_count) u ≡ turn_at q t) z
            (run_turns-suc k ((turn + 1) % queue_count) u t (omega arith) later))
        run

  -- Where the turns before the one that begins with a queue raise nothing, and the queue has work
  -- when that turn comes, that turn runs the queue, whatever work the other queues have; it is one
  -- of the first three.
  pub run_turns-served :
      (i turn : ℕ) (s t : S)
      → i < queue_count
      → turn < queue_count
      → run_turns queues (turns_until i turn) turn s ≡ (returned tt, t)
      → (queues i t).0 ≡ returned true
      → (turns_until i turn < queue_count)
        × (run_turns queues (turns_until i turn + 1) turn s ≡ (returned tt, (queues i t).1))
  unfolding turn_at
  run_turns-served i turn s t hi ht run work =
      let k : ℕ = turns_until i turn in
      let z : (turn + k) % queue_count ≡ i = omega arith in
      let n : k + 1 ≡ suc k = omega arith in
      let shifted : run_turns queues (suc k) turn s ≡ turn_at i t =
        subst (λ q. run_turns queues (suc k) turn s ≡ turn_at q t) z
          (run_turns-suc k turn s t ht run) in
      (
        omega arith,
        ap (λ m. run_turns queues m turn s) n
            ∙ (shifted ∙ ap (after_turn (λ u. (returned tt, u))) (run_next_job-first i t hi work)),
      )
