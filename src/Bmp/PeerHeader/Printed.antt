-- ===== src/Bmp/PeerHeader/Printed.antt =====
-- How the bytes of a peer header are to be printed, and which bits its flags are; compared with what
-- Server/src/bmp/parseBMP.cpp computes.
use sonic_bmp.Common.{
  ℕ, ◌+◌, ◌-◌, ◌*◌, ◌/◌, ◌%◌, ◌^◌, ◌≡◌, refl, Bool, List, [], ◌∷◌, ◌++◌, ◌==◌, ltb, if◌then◌else◌,
  Text, codes, to_dec, Bytes, length, take, drop, arith, little_endian, swap_bytes, bit_and-power,
  pow_pos,
}
use Prim.Native.Nat.{bit_or}
use sonic_bmp.Bgp.ExtCommunity.{uint_of}
use sonic_bmp.Bmp.PeerHeader.{has_flag, dotted, ulong_of_int, rd_text, ipv4_text}
use sonic_bmp.Bmp.Version2.{rd_text_v2}

-- The bit with the weight 2 ^ i
abbrev pub bit_set : ℕ → ℕ → Bool
bit_set i flags = flags / 2 ^ i % 2 == 1

-- Numbers with dots between them
abbrev pub separated : List ℕ → Text
separated [] = []
separated (n ∷ []) = to_dec n
separated (n ∷ m ∷ ns) = to_dec n ++ (codes "." ++ separated (m ∷ ns))

-- The number in the n bytes from `at` on, the most significant first
abbrev pub number_at : ℕ → ℕ → Bytes → ℕ
number_at at n bs = uint_of (take n (drop at bs))

-- A number of 32 bits that is printed as a long after it was an int
abbrev pub sign_extended : ℕ → ℕ
sign_extended v = if ltb v (2 ^ 31) then v else v + (2 ^ 64 - 2 ^ 32)

abbrev pub with_colon : Text → Text → Text
with_colon t u = t ++ (codes ":" ++ u)

-- A route distinguisher, by its second byte
abbrev pub printed_rd : Bytes → Text
printed_rd rd =
    if number_at 1 1 rd == 1
    then with_colon (separated (take 4 (drop 2 rd))) (to_dec (number_at 6 2 rd))
    else if number_at 1 1 rd == 2
    then with_colon (to_dec (sign_extended (number_at 2 4 rd))) (to_dec (number_at 6 2 rd))
    else with_colon (to_dec (number_at 2 2 rd)) (to_dec (sign_extended (number_at 4 4 rd)))

-- The same as versions 1 and 2 print it: by its first two bytes, and for the other types a byte too early
-- and with the last two bytes joined by a bitwise or.
abbrev pub printed_old_rd : Bytes → Text
printed_old_rd rd =
    if number_at 0 2 rd == 1
    then with_colon (separated (take 4 (drop 2 rd))) (to_dec (number_at 6 2 rd))
    else if number_at 0 2 rd == 2
    then with_colon (to_dec (sign_extended (number_at 2 4 rd))) (to_dec (number_at 6 2 rd))
    else with_colon (to_dec (number_at 1 2 rd)) (
        to_dec (
          sign_extended (
            number_at 3 1 rd * 2 ^ 24
            + number_at 4 1 rd * 2 ^ 16
            + number_at 5 1 rd * 2 ^ 8
            + bit_or (number_at 6 1 rd) (number_at 7 1 rd))))

pub ipv4_text-separated : (bs : Bytes) → length bs ≡ 4 → ipv4_text bs ≡ separated bs
unfolding ipv4_text dotted
ipv4_text-separated [] l = absurd (omega arith)
ipv4_text-separated (a ∷ []) l = absurd (omega arith)
ipv4_text-separated (a ∷ b ∷ []) l = absurd (omega arith)
ipv4_text-separated (a ∷ b ∷ c ∷ []) l = absurd (omega arith)
ipv4_text-separated (a ∷ b ∷ c ∷ d ∷ []) l = refl
ipv4_text-separated (a ∷ b ∷ c ∷ d ∷ e ∷ es) l = absurd (omega arith)

-- A list of eight bytes is written out.
eight :
    (P : Bytes → Type 0)
    → ((a b c d e f g i : ℕ) → P (a ∷ b ∷ c ∷ d ∷ e ∷ f ∷ g ∷ i ∷ []))
    → (bs : Bytes) → length bs ≡ 8
    → P bs
eight P k [] l = absurd (omega arith)
eight P k (a ∷ []) l = absurd (omega arith)
eight P k (a ∷ b ∷ []) l = absurd (omega arith)
eight P k (a ∷ b ∷ c ∷ []) l = absurd (omega arith)
eight P k (a ∷ b ∷ c ∷ d ∷ []) l = absurd (omega arith)
eight P k (a ∷ b ∷ c ∷ d ∷ e ∷ []) l = absurd (omega arith)
eight P k (a ∷ b ∷ c ∷ d ∷ e ∷ f ∷ []) l = absurd (omega arith)
eight P k (a ∷ b ∷ c ∷ d ∷ e ∷ f ∷ g ∷ []) l = absurd (omega arith)
eight P k (a ∷ b ∷ c ∷ d ∷ e ∷ f ∷ g ∷ i ∷ []) l = k a b c d e f g i
eight P k (a ∷ b ∷ c ∷ d ∷ e ∷ f ∷ g ∷ i ∷ j ∷ js) l = absurd (omega arith)

long_lem : (v : ℕ) → ulong_of_int v ≡ sign_extended v
unfolding ulong_of_int
long_lem v = ground arith

one : (a : ℕ) → uint_of (a ∷ []) ≡ a
unfolding uint_of little_endian swap_bytes
one a = omega arith

two : (a b : ℕ) → uint_of (a ∷ b ∷ []) ≡ a * 256 + b
unfolding uint_of little_endian swap_bytes
two a b = omega arith

four : (a b c d : ℕ) → uint_of (a ∷ b ∷ c ∷ d ∷ []) ≡ a * 2 ^ 24 + b * 2 ^ 16 + c * 2 ^ 8 + d
unfolding uint_of little_endian swap_bytes
four a b c d = omega arith

pub rd_text-printed : (rd : Bytes) → length rd ≡ 8 → rd_text rd ≡ printed_rd rd
unfolding rd_text dotted
rd_text-printed =
    eight (λ rd. rd_text rd ≡ printed_rd rd)
      (λ a b c d e f g i.
        rw
          (
            one b,
            two g i,
            two c d,
            four c d e f,
            four e f g i,
            long_lem (c * 2 ^ 24 + d * 2 ^ 16 + e * 2 ^ 8 + f),
            long_lem (e * 2 ^ 24 + f * 2 ^ 16 + g * 2 ^ 8 + i),
          )
          refl)

pub rd_text_v2-printed : (rd : Bytes) → length rd ≡ 8 → rd_text_v2 rd ≡ printed_old_rd rd
unfolding rd_text_v2 dotted
rd_text_v2-printed =
    eight (λ rd. rd_text_v2 rd ≡ printed_old_rd rd)
      (λ a b c d e f g i.
        rw
          (
            two a b,
            two g i,
            two b c,
            one d,
            one e,
            one f,
            one g,
            one i,
            four c d e f,
            long_lem (c * 2 ^ 24 + d * 2 ^ 16 + e * 2 ^ 8 + f),
            long_lem (d * 2 ^ 24 + e * 2 ^ 16 + f * 2 ^ 8 + bit_or g i),
          )
          refl)

-- A mask of one bit asks for that bit.
pub has_flag-bit : (i flags : ℕ) → has_flag flags (2 ^ i) ≡ bit_set i flags
has_flag-bit i flags = rw (bit_and-power i flags) (ground (arith, pow_pos i))
