-- ===== src/Queue/Limit.antt =====
-- The limit of safeQueue: how far `push` may go past it.
use sonic_bmp.Common.{
  ℕ, ◌+◌, ◌<◌, ◌≤◌, ◌≡◌, refl, ◌⊎◌, inl, inr, true, List, [], ◌∷◌, length, length-append, arith,
  total, set_thread, total-set_thread, total-zero, total-le-min,
}
use sonic_bmp.Queue.{
  SafeQueue, Access, Call, Pc, idle, entry, held, push_leave, push_spin, push_relock, push_add,
  waiting, push, pop, front, back, pop_front, pushes, access, take_front, see_front, see_back,
  System, init, run_thread, call, call_wait, run, set_limit, Reach, start, later,
}

-- A thread that will put its element in, whatever the others do before.
abbrev pending {ℓ} : {A : Type ℓ} → Pc A → ℕ
pending (push_relock _) = 1
pending (push_add _) = 1
pending _ = 0

-- A thread in `push`, up to where the element is in.
abbrev pushing {ℓ} : {A : Type ℓ} → Pc A → ℕ
pushing (entry (push _)) = 1
pushing (held (push _)) = 1
pushing (push_leave _) = 1
pushing (push_spin _) = 1
pushing (push_relock _) = 1
pushing (push_add _) = 1
pushing _ = 0

abbrev Between : ℕ → ℕ → Type 0
Between top l = (1 ≤ l) × (l ≤ top)

-- What one access does to the limit, to who is in `push`, and to the length.
record Account {ℓ} {A : Type ℓ} (q : SafeQueue A) (p : Pc A) (a : Access A) : Type 0 where
  same_limit : a.queue.limit ≡ q.limit
  no_new : pushing a.pc ≤ pushing p
  room :
      (length a.queue.items + pending a.pc ≤ length q.items + pending p)
      ⊎ ((length a.queue.items ≡ length q.items) × ((q.limit ≡ 0) ⊎ (length q.items < q.limit)))

module _ {ℓ} {A : Type ℓ} (q : SafeQueue A) where
  take-Account : (p : Pc A) (xs : List A) → q.items ≡ xs → Account q p (take_front q xs)
  unfolding take_front
  take-Account p [] e = record {
    same_limit = refl;
    no_new = omega arith;
    room = inl (rw e (omega arith));
  }
  take-Account p (x ∷ xs) e = record {
    same_limit = refl;
    no_new = omega arith;
    room = inl (rw e (omega arith));
  }

  front-Account : (p : Pc A) (xs : List A) → q.items ≡ xs → Account q p (see_front q xs)
  unfolding see_front
  front-Account p [] e = record {
    same_limit = refl;
    no_new = omega arith;
    room = inl (rw e (omega arith));
  }
  front-Account p (x ∷ xs) e = record {
    same_limit = refl;
    no_new = omega arith;
    room = inl (rw e (omega arith));
  }

  back-Account : (p : Pc A) (xs : List A) → q.items ≡ xs → Account q p (see_back q xs)
  unfolding see_back
  back-Account p [] e = record {
    same_limit = refl;
    no_new = omega arith;
    room = inl (rw e (omega arith));
  }
  back-Account p (x ∷ xs) e = record {
    same_limit = refl;
    no_new = omega arith;
    room = inl (rw e (omega arith));
  }

  access-Account : (p : Pc A) → Account q p (access q p)
  unfolding access
  access-Account (held pop) = take-Account (held pop) q.items refl
  access-Account (held front) = front-Account (held front) q.items refl
  access-Account (held back) = back-Account (held back) q.items refl
  access-Account (held pop_front) = take-Account (held pop_front) q.items refl
  access-Account (push_add x) = record {
    same_limit = refl;
    no_new = omega arith;
    room = inl (omega (arith, length-append q.items (x ∷ [])));
  }
  access-Account p = record {
    same_limit = ground arith;
    no_new = ground arith;
    room = ground arith;
  }

-- The limit is in its range, none but the first `k` threads is in `push`, and there is room for the
-- elements of the threads that will put theirs in.
record Inv {ℓ} {A : Type ℓ} (top k n : ℕ) (s : System A) : Type 0 where
  limits : Between top s.queue.limit
  pushers : (i : ℕ) → k ≤ i → pushing (s.pc i) ≡ 0
  room : length s.queue.items + total pending s.pc n < top + k

pending-le {ℓ} : {A : Type ℓ} (p : Pc A) → pending p ≤ pushing p
pending-le p = ground arith

pending-small {ℓ} : {A : Type ℓ} (p : Pc A) → pending p ≤ 1
pending-small p = ground arith

pending-le-pushers {ℓ} :
    {A : Type ℓ} (k n : ℕ) (pc : ℕ → Pc A)
    → ((i : ℕ) → k ≤ i → pushing (pc i) ≡ 0)
    → total pending pc n ≤ k
pending-le-pushers k n pc h =
    total-le-min pending pc k n pending-small (λ i l. omega (arith, h i l, pending-le (pc i)))

pushes-pushing {ℓ} :
    {A : Type ℓ} (k i : ℕ) (c : Call A) → (pushes c ≡ true → i < k) → k ≤ i → pushing (entry c) ≡ 0
pushes-pushing k i (push x) g b = absurd (omega (arith, g refl))
pushes-pushing k i c g b = ground arith

module _ {ℓ} {A : Type ℓ} {top k n : ℕ} where
  call-Inv :
      {s : System A} (i : ℕ) (p : Pc A)
      → i < n
      → s.pc i ≡ idle
      → pending p ≡ 0
      → (k ≤ i → pushing p ≡ 0)
      → Inv top k n s
      → Inv top k n (record s { pc = set_thread i p s.pc })
  call-Inv {s} i p l e h g v = record {
    limits = v.limits;
    pushers = λ j b. ground (arith, v.pushers j b, g);
    room = let r = v.room in ground (arith, r, total-set_thread pending s.pc i p n l);
  }

  run-Inv : {s : System A} (i : ℕ) → i < n → Inv top k n s → Inv top k n (run_thread i s)
  unfolding run_thread
  run-Inv {s} i l v =
      let p' : Pc A = (access s.queue (s.pc i)).pc in
      let a = access-Account s.queue (s.pc i) in
      let limited = a.same_limit in
      let fewer = a.no_new in
      let others : ((j : ℕ) → k ≤ j → pushing (set_thread i p' s.pc j) ≡ 0) =
        λ j b. ground (arith, v.pushers j b, fewer) in
      record {
        limits = rw limited v.limits;
        pushers = others;
        room = elim a.room [
          | inl less ↦
              let r = v.room in omega (arith, less, r, total-set_thread pending s.pc i p' n l)
          | inr (same, why) ↦
              let (lo, hi) = v.limits in
              elim why [
                | inl none ↦ absurd (omega (arith, lo, none))
                | inr below ↦
                    omega
                      (arith, same, below, hi, pending-le-pushers k n (set_thread i p' s.pc) others)
              ]
        ];
      }

  Reach-Inv : {s : System A} → Reach (Between top) k n s → Inv top k n s
  Reach-Inv (start l (lo, hi)) = record {
    limits = (lo, hi);
    pushers = λ i b. omega arith;
    room = omega (arith, lo, hi, total-zero pending (init {A = A} l).pc n (λ i. omega arith));
  }
  Reach-Inv (later r (call i c l e g)) =
      call-Inv i (entry c) l e (ground arith) (pushes-pushing k i c g) (Reach-Inv r)
  Reach-Inv (later r (call_wait i l e)) =
      call-Inv i waiting l e (omega arith) (λ b. omega arith) (Reach-Inv r)
  Reach-Inv (later r (run i l)) = run-Inv i l (Reach-Inv r)
  Reach-Inv (later r (set_limit l g)) =
      let v = Reach-Inv r in record { limits = g; pushers = v.pushers; room = v.room }

-- If push is only called by `k` threads and the limit is never above `top` and never taken away, the queue
-- holds at most `top + k - 1` elements, however the threads run: with one thread that pushes, the limit
-- is never exceeded.
pub length-below_limit {ℓ} :
    {A : Type ℓ} {top k n : ℕ} {s : System A}
    → Reach (λ l. (1 ≤ l) × (l ≤ top)) k n s
    → length s.queue.items < top + k
length-below_limit {n} {s} r = let b = (Reach-Inv r).room in omega (arith, b)
