-- ===== src/Common/Decimal.antt =====
-- Texts as their bytes, and the numbers that a stream prints.
use Prim.Native.Nat.{ℕ, zero, suc, ◌+◌, ◌-◌, ◌*◌, ◌/◌, ◌%◌, ◌<◌, ◌≤◌, ◌^◌}
use Prim.Native.Char.{code}
use Prim.Native.String.{String}
use mathlib.Core.Path.{◌≡◌, refl, ap, ◌∙◌}
use mathlib.Core.Logic.{inl, inr}
use mathlib.Core.List.{List, [], ◌∷◌, ◌++◌}
use native.Mathlib.Omega.{arith}
use native.Mathlib.Nat.{pow-suc}
use sonic_bmp.Common.Tests.{ltb, ◌==◌, if◌then◌else◌, Bool-cases}

abbrev pub Text : Type 0
Text = List ℕ

-- The bytes of a literal; every literal of the model is ASCII.
abbrev pub codes : String → Text
codes String.[] = []
codes (String.◌∷◌ c s) = code c ∷ codes s

-- The decimal digits of `n` in front of `acc`, on fuel: one round for each digit.
unfoldable pub dec_onto : ℕ → ℕ → Text → Text
dec_onto zero n acc = acc
dec_onto (suc f) n acc =
    let rest = dec_onto f (n / 10) ((48 + n % 10) ∷ acc) in
    if ltb n 10 then (48 + n) ∷ acc else rest

-- What `numString << n` prints for a number below 10 ^ 20; a uint64_t has 20 digits at most.
unfoldable pub to_dec : ℕ → Text
unfolding dec_onto
to_dec n = dec_onto 20 n []

-- A hexadecimal digit as `std::hex` prints it
abbrev pub hex_digit : ℕ → ℕ
hex_digit d = if ltb d 10 then 48 + d else 87 + d

unfoldable pub hex_onto : ℕ → ℕ → Text → Text
hex_onto zero n acc = acc
hex_onto (suc f) n acc =
    let rest = hex_onto f (n / 16) (hex_digit (n % 16) ∷ acc) in
    if ltb n 16 then hex_digit n ∷ acc else rest

-- `<< std::hex << n` of at most 32 bits
unfoldable pub to_hex : ℕ → Text
unfolding hex_onto
to_hex n = hex_onto 8 n []

pub dec_onto-append : (f n : ℕ) (acc t : Text) → dec_onto f n acc ++ t ≡ dec_onto f n (acc ++ t)
unfolding dec_onto
dec_onto-append zero n acc t = refl
dec_onto-append (suc f) n acc t = ground (arith, dec_onto-append f (n / 10) ((48 + n % 10) ∷ acc) t)

-- A reader of digits: it stops behind the first byte `stop`, or at the end.
abbrev pub read_dec : ℕ → ℕ → Text → ℕ × Text
read_dec stop n [] = (n, [])
read_dec stop n (c ∷ cs) =
    let rest = read_dec stop (n * 10 + (c - 48)) cs in if c == stop then (n, cs) else rest

read_dec-digit :
    (stop d n : ℕ) (t : Text)
    → 58 ≤ stop
    → d < 10
    → read_dec stop n ((48 + d) ∷ t) ≡ read_dec stop (n * 10 + d) t
read_dec-digit stop d n t h k = ground (arith)

-- Reading what was printed gives the number back, and what follows it.
pub read_dec-dec_onto :
    (f n stop : ℕ) (t : Text)
    → 58 ≤ stop
    → n < 10 ^ f
    → read_dec stop 0 (dec_onto f n t) ≡ read_dec stop n t
unfolding dec_onto
read_dec-dec_onto zero n stop t h k = let e : n ≡ 0 = omega arith in rw e
read_dec-dec_onto (suc f) n stop t h k = elim (Bool-cases (ltb n 10)) [
  | inl small ↦ ground (arith, read_dec-digit stop n 0 t)
  | inr large ↦ rw large (
      read_dec-dec_onto f (n / 10) stop ((48 + n % 10) ∷ t) h (omega (arith, pow-suc 10 f))
      ∙ read_dec-digit stop (n % 10) (n / 10) t h (omega arith)
      ∙ ap (λ (m : ℕ). read_dec stop m t) (omega arith))
]

pub read_dec-to_dec :
    (n stop : ℕ) (t : Text)
    → 58 ≤ stop
    → n < 10 ^ 20
    → read_dec stop 0 (to_dec n ++ t) ≡ read_dec stop n t
unfolding to_dec
read_dec-to_dec n stop t h k = rw (dec_onto-append 20 n [] t) (read_dec-dec_onto 20 n stop t h k)
