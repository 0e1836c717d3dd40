-- ===== src/Queue/Exclusion.antt =====
-- The mutex of safeQueue: who owns it.
use sonic_bmp.Common.{
  ℕ, ◌+◌, ◌<◌, ◌≤◌, ◌≡◌, Bool, true, false, arith, total, total-set_thread, weight-le-total,
  two-le-total, total-zero,
}
use native.Mathlib.Decide.{dec_lt}
use sonic_bmp.Queue.{
  SafeQueue, Pc, idle, entry, held, push_leave, push_spin, push_relock, push_add, leave, waiting,
  crashed, push, pop, front, back, pop_front, access, take_front, see_front, see_back, System,
  run_thread, Step, call, call_wait, run, set_limit, init, Reach, start, later,
}

-- 1 from the return of pthread_mutex_lock to the unlock
abbrev pub owns {ℓ} : {A : Type ℓ} → Pc A → ℕ
owns (held _) = 1
owns (push_leave _) = 1
owns (push_add _) = 1
owns (leave _) = 1
owns crashed = 1
owns _ = 0

abbrev pub bit : Bool → ℕ
bit true = 1
bit false = 0

access-owns {ℓ} :
    {A : Type ℓ} (q : SafeQueue A) (p : Pc A)
    → owns p ≤ bit q.locked
    → bit (access q p).queue.locked + owns p ≡ bit q.locked + owns (access q p).pc
unfolding access take_front see_front see_back
access-owns q idle h = omega arith
access-owns q (entry c) h = ground arith
access-owns q (held (push x)) h = ground arith
access-owns q (held pop) h = ground arith
access-owns q (held front) h = ground arith
access-owns q (held back) h = ground arith
access-owns q (held pop_front) h = ground arith
access-owns q (push_leave x) h = ground arith
access-owns q (push_spin x) h = ground arith
access-owns q (push_relock x) h = ground arith
access-owns q (push_add x) h = ground arith
access-owns q (leave e) h = ground arith
access-owns q waiting h = ground arith
access-owns q crashed h = omega arith

module _ {ℓ} {A : Type ℓ} {Lim : ℕ → Type 0} {k n : ℕ} where
  Step-owners :
      {s t : System A}
      → Step Lim k n s t
      → total owns s.pc n ≡ bit s.queue.locked
      → total owns t.pc n ≡ bit t.queue.locked
  unfolding run_thread
  Step-owners {s} (call i c l e g) h = ground (arith, total-set_thread owns s.pc i (entry c) n l)
  Step-owners {s} (call_wait i l e) h = ground (arith, total-set_thread owns s.pc i waiting n l)
  Step-owners {s} (run i l) h = omega (
    arith,
    total-set_thread owns s.pc i (access s.queue (s.pc i)).pc n l,
    weight-le-total owns s.pc i n l,
    access-owns s.queue (s.pc i) (omega (arith, weight-le-total owns s.pc i n l)),
  )
  Step-owners (set_limit l g) h = h

  -- The mutex is locked when a thread owns it, and then exactly one does.
  pub Reach-owners : {s : System A} → Reach Lim k n s → total owns s.pc n ≡ bit s.queue.locked
  Reach-owners (start l g) = total-zero owns (init {A = A} l).pc n (λ i. omega arith)
  Reach-owners (later r st) = Step-owners st (Reach-owners r)

-- However the threads run, two of them are never between the lock and the unlock together.
pub mutual_exclusion {ℓ} :
    {A : Type ℓ} {Lim : ℕ → Type 0} {k n : ℕ} {s : System A}
    → Reach Lim k n s
    → (i j : ℕ) → i < n
    → j < n
    → owns (s.pc i) ≡ 1
    → owns (s.pc j) ≡ 1
    → i ≡ j
mutual_exclusion {n} {s} r i j li lj hi hj = elim (dec_lt i j) [
  | yes before ↦ ground (arith, Reach-owners r, two-le-total owns s.pc i j n before lj)
  | no other ↦ elim (dec_lt j i) [
    | yes behind ↦ ground (arith, Reach-owners r, two-le-total owns s.pc j i n behind li)
    | no same ↦ omega arith
  ]
]
