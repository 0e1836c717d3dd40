-- ===== src/Bgp/ExtCommunity/Numbers.antt =====
-- The administrator and the number of a community, and how they are printed.
use sonic_bmp.Common.{
  ℕ, ◌^◌, ◌<◌, ◌≡◌, refl, subst, ◌++◌, Bool, true, false, Text, codes, to_dec, Bytes, length,
  length-append, take, drop, take-append-length, drop-append-length, network, length-network,
  little_endian-network, swap_bytes, arith,
}
use sonic_bmp.Bgp.Types.{Host}
use sonic_bmp.Bgp.ExtCommunity.{uint_of, admin_of, as_number, any_number}

-- Who gives a number, and the number: RFC 4360 and RFC 5668.
pub data Number : Type 0 where
  two_octet : (asn n : ℕ) → Number
  four_octet : (asn n : ℕ) → Number
  address : (addr : Bytes) (n : ℕ) → Number

abbrev pub IsNumber : Number → Type 0
IsNumber (two_octet asn n) = (asn < 2 ^ 16) × (n < 2 ^ 32)
IsNumber (four_octet asn n) = (asn < 2 ^ 32) × (n < 2 ^ 16)
IsNumber (address addr n) = (length addr ≡ 4) × (n < 2 ^ 16)

abbrev pub type_of : Number → ℕ
type_of (two_octet asn n) = 0
type_of (four_octet asn n) = 2
type_of (address addr n) = 1

abbrev pub value_of : Number → Bytes
value_of (two_octet asn n) = network 2 asn ++ network 4 n
value_of (four_octet asn n) = network 4 asn ++ network 2 n
value_of (address addr n) = addr ++ network 2 n

abbrev pub number_text : Host → Number → Text
number_text h (two_octet asn n) = to_dec asn ++ (codes ":" ++ to_dec n)
number_text h (four_octet asn n) = to_dec asn ++ (codes ":" ++ to_dec n)
number_text h (address addr n) = h.inet_ntop true addr ++ (codes ":" ++ to_dec n)

pub uint_of-network : (n v : ℕ) → v < 256 ^ n → uint_of (network n v) ≡ v
unfolding uint_of swap_bytes
uint_of-network n v h = little_endian-network n v h

-- The two fields of the value are found, whichever of them is the longer.
record Fields (n m : ℕ) (a b : ℕ) : Type 0 where
  front : uint_of (take n (network n a ++ network m b)) ≡ a
  behind : uint_of (drop n (network n a ++ network m b)) ≡ b

fields : (n m a b : ℕ) → a < 256 ^ n → b < 256 ^ m → Fields n m a b
fields n m a b ha hb =
    let l = length-network n a in
    record {
      front =
          subst (λ (k : ℕ). uint_of (take k (network n a ++ network m b)) ≡ a) l
            (rw (take-append-length (network n a) (network m b)) (uint_of-network n a ha));
      behind =
          subst (λ (k : ℕ). uint_of (drop k (network n a ++ network m b)) ≡ b) l
            (rw (drop-append-length (network n a) (network m b)) (uint_of-network m b hb));
    }

abbrev pub four_of : Number → Bool
four_of (two_octet asn n) = false
four_of (four_octet asn n) = true
four_of (address addr n) = true

abbrev pub ipv4_of : Number → Bool
ipv4_of (address addr n) = true
ipv4_of _ = false

pub any_number-value_of :
    (h : Host) (a : Number)
    → IsNumber a
    → any_number (four_of a) (ipv4_of a) (admin_of h (four_of a) (ipv4_of a) (value_of a))
      ≡ number_text h a
unfolding any_number as_number admin_of
any_number-value_of h (two_octet asn n) (s, t) =
    let f = fields 2 4 asn n (omega (arith, s)) (omega (arith, t)) in rw (f.front, f.behind) refl
any_number-value_of h (four_octet asn n) (s, t) =
    let f = fields 4 2 asn n (omega (arith, s)) (omega (arith, t)) in rw (f.front, f.behind) refl
any_number-value_of h (address addr n) (l, t) =
    let front : take 4 (addr ++ network 2 n) ≡ addr =
      subst (λ (k : ℕ). take k (addr ++ network 2 n) ≡ addr) l
        (take-append-length addr (network 2 n)) in
    let behind : uint_of (drop 4 (addr ++ network 2 n)) ≡ n =
      subst (λ (k : ℕ). uint_of (drop k (addr ++ network 2 n)) ≡ n) l
        (rw (drop-append-length addr (network 2 n)) (uint_of-network 2 n (omega (arith, t)))) in
    rw (front, behind) refl

pub length-value_of : (a : Number) → IsNumber a → length (value_of a) ≡ 6
length-value_of (two_octet asn n) v = refl
length-value_of (four_octet asn n) v = refl
length-value_of (address addr n) (l, v) = omega (arith, l, length-append addr (network 2 n))
