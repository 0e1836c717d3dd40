-- ===== src/Queue/Progress.antt =====
-- The threads of safeQueue go on: no deadlock.
use sonic_bmp.Common.{
  ℕ, ◌<◌, ◌≡◌, ◌⊎◌, inl, inr, Bool, true, false, List, [], ◌∷◌, not, ◌==◌, ◌||◌, ltb, length, arith,
  Bool-cases, find_thread,
}
use sonic_bmp.Queue.{
  SafeQueue, Call, Pc, idle, entry, held, push_leave, push_spin, push_relock, push_add, leave,
  waiting, crashed, push, pop, front, back, pop_front, access, take_front, see_front, see_back,
  System, Reach,
}
use sonic_bmp.Queue.Exclusion.{owns, Reach-owners}

-- The accesses that a method still makes at most, if it never has to wait.
abbrev pub accesses_left {ℓ} : {A : Type ℓ} → Pc A → ℕ
accesses_left idle = 0
accesses_left (entry _) = 7
accesses_left (held _) = 6
accesses_left (push_leave _) = 5
accesses_left (push_spin _) = 4
accesses_left (push_relock _) = 3
accesses_left (push_add _) = 2
accesses_left (leave _) = 1
accesses_left waiting = 1
accesses_left crashed = 0

-- A thread in a method, that has not run into `back` of an empty queue.
abbrev pub active {ℓ} : {A : Type ℓ} → Pc A → Bool
active idle = false
active crashed = false
active _ = true

abbrev pub has_crashed {ℓ} : {A : Type ℓ} → Pc A → Bool
has_crashed crashed = true
has_crashed _ = false

abbrev pub has_room {ℓ} : {A : Type ℓ} → SafeQueue A → Bool
has_room q = ltb (length q.items) q.limit

abbrev pub unlimited {ℓ} : {A : Type ℓ} → SafeQueue A → Bool
unlimited q = q.limit == 0

abbrev pub is_empty {ℓ} : {A : Type ℓ} → List A → Bool
is_empty [] = true
is_empty (x ∷ xs) = false

-- A thread that waits for another: in `push` with a limit and no room, or with no limit at all, in `wait`
-- for an element.
abbrev pub blocked {ℓ} : {A : Type ℓ} → SafeQueue A → Pc A → Bool
blocked q (push_spin _) = unlimited q || not (has_room q)
blocked q waiting = is_empty q.items
blocked q _ = false

-- The thread's next access brings its method nearer to its end.
abbrev pub Advances {ℓ} : {A : Type ℓ} → SafeQueue A → Pc A → Type 0
Advances q p = accesses_left (access q p).pc < accesses_left p

module _ {ℓ} {A : Type ℓ} (q : SafeQueue A) where
  take-left : (xs : List A) → accesses_left (take_front q xs).pc < 6
  unfolding take_front
  take-left [] = omega arith
  take-left (x ∷ xs) = omega arith

  front-left : (xs : List A) → accesses_left (see_front q xs).pc < 6
  unfolding see_front
  front-left [] = omega arith
  front-left (x ∷ xs) = omega arith

  back-left : (xs : List A) → accesses_left (see_back q xs).pc < 6
  unfolding see_back
  back-left [] = omega arith
  back-left (x ∷ xs) = omega arith

  held-Advances : (c : Call A) → Advances q (held c)
  unfolding access
  held-Advances (push x) = ground arith
  held-Advances pop = take-left q.items
  held-Advances front = front-left q.items
  held-Advances back = back-left q.items
  held-Advances pop_front = take-left q.items

  -- The owner of the mutex never waits.
  owner-Advances : (p : Pc A) → 0 < owns p → has_crashed p ≡ false → Advances q p
  unfolding access
  owner-Advances (held c) h g = held-Advances c
  owner-Advances (push_leave x) h g = omega arith
  owner-Advances (push_add x) h g = omega arith
  owner-Advances (leave e) h g = omega arith
  owner-Advances p h g = ground arith

  -- While nobody owns it, only the loops wait.
  free-Advances :
      (p : Pc A) → q.locked ≡ false → active p ≡ true → Advances q p ⊎ (blocked q p ≡ true)
  unfolding access
  free-Advances (held c) h g = inl (held-Advances c)
  free-Advances p h g = ground arith

-- No deadlock but one: while no thread has run into `back` of an empty queue and a thread is in a method,
-- that thread is in the loop of push and the queue has reached its limit, or it is in that loop and the
-- limit is 0, which means no limit and yet keeps it there, or it is in `wait` and the queue is empty, or
-- some thread's next access brings its method nearer to its end.
pub no_deadlock {ℓ} :
    {A : Type ℓ} {Lim : ℕ → Type 0} {k n : ℕ} {s : System A}
    → Reach Lim k n s
    → ((j : ℕ) → has_crashed (s.pc j) ≡ false)
    → (i : ℕ) → i < n
    → active (s.pc i) ≡ true
    → (blocked s.queue (s.pc i) ≡ true) ⊎ ((j : ℕ) × (j < n) × Advances s.queue (s.pc j))
no_deadlock {n} {s} r fine i li a = elim (Bool-cases s.queue.locked) [
  | inl locked ↦
      let (j, lj, o) = find_thread owns s.pc n (ground (arith, Reach-owners r)) in
      inr (j, lj, owner-Advances s.queue (s.pc j) o (fine j))
  | inr free ↦ elim (free-Advances s.queue (s.pc i) free a) [
    | inl goes ↦ inr (i, li, goes)
    | inr waits ↦ inl waits
  ]
]
