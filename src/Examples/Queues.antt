-- ===== src/Examples/Queues.antt =====
-- Runs of safeQueue of Server/src/safeQueue.hpp, and the theorems about it applied to them.
use sonic_bmp.Common.{
  ℕ, zero, suc, ◌+◌, ◌<◌, ◌≤◌, ◌≡◌, refl, ◌⊎◌, true, false, List, [], ◌∷◌, All, length, arith,
  set_thread,
}
use sonic_bmp.Queue.{
  Call, push, back, pop_front, entry, crashed, access, System, init, run_thread, call, run, Reach,
  start, later,
}
use sonic_bmp.Queue.Exclusion.{mutual_exclusion}
use sonic_bmp.Queue.Limit.{length-below_limit}
use sonic_bmp.Queue.Progress.{blocked, Advances, has_crashed, no_deadlock}

abbrev Limits : ℕ → Type 0
Limits l = (1 ≤ l) × (l ≤ 1)

-- Three threads, of which two push; the limit is one element.
abbrev Run : System ℕ → Type 0
Run s = Reach Limits 2 3 s

runs : List ℕ → System ℕ → System ℕ
unfolding run_thread
runs [] s = s
runs (i ∷ is) s = runs is (run_thread i s)

Run-runs : (is : List ℕ) {s : System ℕ} → All (λ i. i < 3) is → Run s → Run (runs is s)
unfolding runs
Run-runs [] h r = r
Run-runs (i ∷ is) (l, h) r = Run-runs is h (later r (run i l))

abbrev begin : ℕ → Call ℕ → System ℕ → System ℕ
begin i c s = record s { pc = set_thread i (entry c) s.pc }

Run-start : Run (init 1)
Run-start = start 1 (omega arith, omega arith)

-- Thread 0 has put 10 in, and the queue is full; threads 0 and 1 wait in `push` for room, and thread 2 has
-- taken the mutex in `popFront`.
abbrev one_in : System ℕ
one_in = runs (0 ∷ 0 ∷ 0 ∷ 0 ∷ []) (begin 0 (push 10) (init 1))

abbrev second_push : System ℕ
second_push = runs (0 ∷ 0 ∷ 0 ∷ []) (begin 0 (push 11) one_in)

abbrev third_push : System ℕ
third_push = runs (1 ∷ 1 ∷ 1 ∷ []) (begin 1 (push 12) second_push)

abbrev taking : System ℕ
taking = runs (2 ∷ []) (begin 2 pop_front third_push)

-- Thread 2 has taken 10; both of the others have seen the room, and both have put theirs in.
abbrev both_in : System ℕ
both_in = runs (2 ∷ 2 ∷ 0 ∷ 1 ∷ 0 ∷ 0 ∷ 0 ∷ 1 ∷ 1 ∷ []) taking

Run-one_in : Run one_in
Run-one_in =
    Run-runs (0 ∷ 0 ∷ 0 ∷ 0 ∷ []) (omega arith)
      (later Run-start (call 0 (push 10) (omega arith) refl (λ e. omega arith)))

Run-second_push : Run second_push
unfolding run_thread access runs
Run-second_push =
    Run-runs (0 ∷ 0 ∷ 0 ∷ []) (omega arith)
      (later Run-one_in (call 0 (push 11) (omega arith) refl (λ e. omega arith)))

Run-third_push : Run third_push
unfolding run_thread access runs
Run-third_push =
    Run-runs (1 ∷ 1 ∷ 1 ∷ []) (omega arith)
      (later Run-second_push (call 1 (push 12) (omega arith) refl (λ e. omega arith)))

Run-taking : Run taking
unfolding run_thread access runs
Run-taking =
    Run-runs (2 ∷ []) (omega arith)
      (later Run-third_push (call 2 pop_front (omega arith) refl (λ e. ground arith)))

Run-both_in : Run both_in
Run-both_in = Run-runs (2 ∷ 2 ∷ 0 ∷ 1 ∷ 0 ∷ 0 ∷ 0 ∷ 1 ∷ 1 ∷ []) (omega arith) Run-taking

-- The limit is 1, and the queue holds two elements.
past_the_limit : both_in.queue.items ≡ 11 ∷ 12 ∷ []
unfolding access runs
past_the_limit = refl

mutual_exclusion_example : ◌≡◌ {A = ℕ} 2 2
unfolding access runs
mutual_exclusion_example = mutual_exclusion Run-taking 2 2 (omega arith) (omega arith) refl refl

length-below_limit_example : length both_in.queue.items < 1 + 2
length-below_limit_example = length-below_limit Run-both_in

taking-fine : (j : ℕ) → has_crashed (taking.pc j) ≡ false
unfolding access runs
taking-fine zero = refl
taking-fine (suc zero) = refl
taking-fine (suc (suc zero)) = refl
taking-fine (suc (suc (suc j))) = ground arith

no_deadlock_example :
    (blocked taking.queue (taking.pc 0) ≡ true)
    ⊎ ((j : ℕ) × (j < 3) × Advances taking.queue (taking.pc j))
unfolding access runs
no_deadlock_example = no_deadlock Run-taking taking-fine zero (omega arith) refl

-- `back` of an empty queue.
back_crashes : (runs (0 ∷ 0 ∷ []) (begin 0 back (init 1))).pc 0 ≡ crashed
unfolding access runs
back_crashes = refl
