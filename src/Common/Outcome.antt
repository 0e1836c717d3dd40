-- ===== src/Common/Outcome.antt =====
-- The outcome of a piece of parsing code.
use mathlib.Core.List.{List}
use Prim.Native.Nat.{ℕ}

-- What C++ leaves undefined: a read past the end of the buffer that a pointer points into, and a
-- write past the end of an array.
pub data Fault : Type 0 where
  overread overwrite : Fault

-- `throw` carries the bytes of the `const char *` that the code throws. `stuck` is no C++ outcome:
-- the fuel of a loop ran out.
pub data Result {ℓ} (A : Type ℓ) : Type ℓ where
  ok : A → Result A
  throw : List ℕ → Result A
  fault : Fault → Result A
  stuck : Result A

infixl 5 ◌>>=◌ ◌>>◌
abbrev pub ◌>>=◌ {ℓ κ} : {A : Type ℓ} {B : Type κ} → Result A → (A → Result B) → Result B
ok a >>= f = f a
throw e >>= f = throw e
fault e >>= f = fault e
stuck >>= f = stuck

abbrev pub ◌>>◌ {ℓ} : {B : Type ℓ} → Result (Unit {0}) → Result B → Result B
m >> k = m >>= λ _. k

-- What a piece of code guarantees: it never runs out of fuel, what it returns satisfies `P`, and
-- `F` says which faults it may run into.
abbrev pub Post {ℓ} : (Fault → Type 0) → {A : Type ℓ} → (A → Type 0) → Result A → Type 0
Post F P (ok a) = P a
Post F P (throw e) = Unit
Post F P (fault e) = F e
Post F P stuck = ⊥

abbrev pub NoFault : Fault → Type 0
NoFault e = ⊥

abbrev pub AnyFault : Fault → Type 0
AnyFault e = Unit

abbrev pub OnlyOverwrite : Fault → Type 0
OnlyOverwrite overread = ⊥
OnlyOverwrite overwrite = Unit

-- The code neither faults nor runs out of fuel, and what it returns satisfies `P`.
abbrev pub Safe {ℓ} : {A : Type ℓ} → (A → Type 0) → Result A → Type 0
Safe P = Post NoFault P

-- The code comes to an end, by whatever outcome, and what it returns satisfies `P`.
abbrev pub Ends {ℓ} : {A : Type ℓ} → (A → Type 0) → Result A → Type 0
Ends P = Post AnyFault P

pub Post-bind {ℓ κ} :
    {A : Type ℓ} {B : Type κ} (F : Fault → Type 0) (P : A → Type 0) (Q : B → Type 0) (m : Result A)
    (f : A → Result B)
    → Post F P m
    → ((a : A) → P a → Post F Q (f a))
    → Post F Q (m >>= f)
Post-bind F P Q (ok a) f h k = k a h
Post-bind F P Q (throw e) f h k = tt
Post-bind F P Q (fault e) f h k = h
Post-bind F P Q stuck f h k = h

-- A guarantee with no fault is one with any faults allowed.
pub Safe-Post {ℓ} :
    {A : Type ℓ} (F : Fault → Type 0) (P : A → Type 0) (m : Result A) → Safe P m → Post F P m
Safe-Post F P (ok a) h = h
Safe-Post F P (throw e) h = tt
Safe-Post F P (fault e) h = absurd h
Safe-Post F P stuck h = h

pub Post-imp {ℓ} :
    {A : Type ℓ} (F : Fault → Type 0) (P Q : A → Type 0) (m : Result A)
    → Post F P m
    → ((a : A) → P a → Q a)
    → Post F Q m
Post-imp F P Q (ok a) h k = k a h
Post-imp F P Q (throw e) h k = tt
Post-imp F P Q (fault e) h k = h
Post-imp F P Q stuck h k = h

pub OnlyOverwrite-Ends {ℓ} :
    {A : Type ℓ} (P : A → Type 0) (m : Result A) → Post OnlyOverwrite P m → Ends P m
OnlyOverwrite-Ends P (ok a) h = h
OnlyOverwrite-Ends P (throw e) h = tt
OnlyOverwrite-Ends P (fault e) h = tt
OnlyOverwrite-Ends P stuck h = h

-- What holds of what a piece of code returns, if it returns.
abbrev pub IfOk {ℓ} : {A : Type ℓ} → (A → Type 0) → Result A → Type 0
IfOk P (ok a) = P a
IfOk P (throw e) = Unit
IfOk P (fault e) = Unit
IfOk P stuck = Unit

pub IfOk-bind {ℓ κ} :
    {A : Type ℓ} {B : Type κ} (Q : B → Type 0) (m : Result A) (f : A → Result B)
    → ((a : A) → IfOk Q (f a))
    → IfOk Q (m >>= f)
IfOk-bind Q (ok a) f k = k a
IfOk-bind Q (throw e) f k = tt
IfOk-bind Q (fault e) f k = tt
IfOk-bind Q stuck f k = tt

pub IfOk-then {ℓ κ} :
    {A : Type ℓ} {B : Type κ} (P : A → Type 0) (Q : B → Type 0) (m : Result A) (f : A → Result B)
    → IfOk P m
    → ((a : A) → P a → IfOk Q (f a))
    → IfOk Q (m >>= f)
IfOk-then P Q (ok a) f h k = k a h
IfOk-then P Q (throw e) f h k = tt
IfOk-then P Q (fault e) f h k = tt
IfOk-then P Q stuck f h k = tt

pub IfOk-imp {ℓ} :
    {A : Type ℓ} (P Q : A → Type 0) (m : Result A) → IfOk P m → ((a : A) → P a → Q a) → IfOk Q m
IfOk-imp P Q (ok a) h k = k a h
IfOk-imp P Q (throw e) h k = tt
IfOk-imp P Q (fault e) h k = tt
IfOk-imp P Q stuck h k = tt
