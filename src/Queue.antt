-- ===== src/Queue.antt =====
-- safeQueue of Server/src/safeQueue.hpp: a queue that threads share under a mutex. A thread's method
-- runs in single accesses to what is shared; between two of them any other thread may run.
pub mod Exclusion
pub mod Limit
pub mod Progress
use sonic_bmp.Common.{
  ℕ, ◌<◌, ◌≡◌, Bool, true, false, not, ◌&&◌, List, [], ◌∷◌, ◌++◌, ◌==◌, ltb, leb, if◌then◌else◌,
  length, set_thread,
}

-- The object: the elements of the std::queue, first the front, the mutex, and the limit.
pub record SafeQueue {ℓ} (A : Type ℓ) : Type ℓ where
  pub items : List A
  pub locked : Bool
  pub limit : ℕ  -- uint32_t

-- The methods that take the mutex.
pub data Call {ℓ} (A : Type ℓ) : Type ℓ where
  push : A → Call A
  pop front back pop_front : Call A

-- What a method did to the queue, and what it gives back: an element that it put behind the last, took
-- from the front, or copied from the front or from the end; `empty`: nothing was there.
pub data Event {ℓ} (A : Type ℓ) : Type ℓ where
  added removed seen_front seen_back : A → Event A
  empty : Event A

-- Where a thread stands. It owns the mutex from `held` to `leave`.
pub data Pc {ℓ} (A : Type ℓ) : Type ℓ where
  idle : Pc A
  entry : Call A → Pc A  -- before pthread_mutex_lock
  held : Call A → Pc A  -- behind it
  push_leave : A → Pc A  -- before the unlock in front of the loop of `push`
  push_spin : A → Pc A  -- the loop's test
  push_relock : A → Pc A  -- before the second lock
  push_add : A → Pc A  -- before queue::push
  leave : Event A → Pc A  -- before the last unlock
  waiting : Pc A  -- the loop's test in `wait`
  crashed : Pc A  -- queue::back of an empty queue, which is undefined

-- What one access makes of the object and of the thread, and the event, if it was one.
pub record Access {ℓ} (A : Type ℓ) : Type ℓ where
  pub queue : SafeQueue A
  pub pc : Pc A
  pub events : List (Event A)

abbrev pub silent {ℓ} : {A : Type ℓ} → SafeQueue A → Pc A → Access A
silent q p = record { queue = q; pc = p; events = [] }

-- The rest of a method behind the test whether there is an element.
abbrev pub finish {ℓ} : {A : Type ℓ} → SafeQueue A → List A → Event A → Access A
finish q items e = record { queue = record q { items = items }; pc = leave e; events = e ∷ [] }

-- pthread_mutex_lock: a thread that finds the mutex locked stays.
abbrev pub lock_then {ℓ} : {A : Type ℓ} → SafeQueue A → Pc A → Pc A → Access A
lock_then q here next = if q.locked then silent q here else silent (record q { locked = true }) next

abbrev pub unlock_then {ℓ} : {A : Type ℓ} → SafeQueue A → Pc A → Access A
unlock_then q next = silent (record q { locked = false }) next

-- pop, and popFront, which also gives the element back
unfoldable pub take_front {ℓ} : {A : Type ℓ} → SafeQueue A → List A → Access A
take_front q [] = finish q [] empty
take_front q (x ∷ xs) = finish q xs (removed x)

unfoldable pub see_front {ℓ} : {A : Type ℓ} → SafeQueue A → List A → Access A
see_front q [] = finish q [] empty
see_front q (x ∷ xs) = finish q (x ∷ xs) (seen_front x)

abbrev pub last_of {ℓ} : {A : Type ℓ} → A → List A → A
last_of x [] = x
last_of x (y ∷ ys) = last_of y ys

-- `back` does not ask whether there is an element.
unfoldable pub see_back {ℓ} : {A : Type ℓ} → SafeQueue A → List A → Access A
see_back q [] = silent q crashed
see_back q (x ∷ xs) = finish q (x ∷ xs) (seen_back (last_of x xs))

-- One access of a thread, by where it stands.
unfoldable pub access {ℓ} : {A : Type ℓ} → SafeQueue A → Pc A → Access A
unfolding take_front see_front see_back
access q idle = silent q idle
access q (entry c) = lock_then q (entry c) (held c)
access q (held (push x)) =
    if not (q.limit == 0) && leb q.limit (length q.items)
    then silent q (push_leave x)
    else silent q (push_add x)
access q (held pop) = take_front q q.items
access q (held front) = see_front q q.items
access q (held back) = see_back q q.items
access q (held pop_front) = take_front q q.items
access q (push_leave x) = unlock_then q (push_spin x)
access q (push_spin x) =
    if leb q.limit (length q.items) then silent q (push_spin x) else silent q (push_relock x)
access q (push_relock x) = lock_then q (push_relock x) (push_add x)
access q (push_add x) = finish q (q.items ++ (x ∷ [])) (added x)
access q (leave e) = unlock_then q idle
access q waiting = if leb (length q.items) 0 then silent q waiting else silent q idle
access q crashed = silent q crashed

pub record System {ℓ} (A : Type ℓ) : Type ℓ where
  pub queue : SafeQueue A
  pub pc : ℕ → Pc A
  pub events : List (Event A)  -- all that happened, first the oldest

abbrev pub pushes {ℓ} : {A : Type ℓ} → Call A → Bool
pushes (push x) = true
pushes _ = false

-- The constructor
abbrev pub new_queue {ℓ} : {A : Type ℓ} → ℕ → SafeQueue A
new_queue limit = record { items = []; locked = false; limit = limit }

abbrev pub init {ℓ} : {A : Type ℓ} → ℕ → System A
init limit = record { queue = new_queue limit; pc = λ _. idle; events = [] }

-- The thread `i` runs for one access.
unfoldable pub run_thread {ℓ} : {A : Type ℓ} → ℕ → System A → System A
run_thread i s =
    let a = access s.queue (s.pc i) in
    record { queue = a.queue; pc = set_thread i a.pc s.pc; events = s.events ++ a.events }

-- `n` threads share the queue, and the first `k` of them may call push. setLimit takes no lock; `Lim`
-- are the limits it is called with.
pub data Step {ℓ} {A : Type ℓ} (Lim : ℕ → Type 0) (k n : ℕ) (s : System A) : System A → Type ℓ where
  call :
      (i : ℕ) (c : Call A)
      → i < n
      → s.pc i ≡ idle
      → (pushes c ≡ true → i < k)
      → Step Lim k n s (record s { pc = set_thread i (entry c) s.pc })
  call_wait :
      (i : ℕ) → i < n → s.pc i ≡ idle → Step Lim k n s (record s { pc = set_thread i waiting s.pc })
  run : (i : ℕ) → i < n → Step Lim k n s (run_thread i s)
  set_limit : (l : ℕ) → Lim l → Step Lim k n s (record s { queue = record s.queue { limit = l } })

pub data Reach {ℓ} {A : Type ℓ} (Lim : ℕ → Type 0) (k n : ℕ) : System A → Type ℓ where
  start : (l : ℕ) → Lim l → Reach Lim k n (init l)
  later : {s t : System A} → Reach Lim k n s → Step Lim k n s t → Reach Lim k n t
