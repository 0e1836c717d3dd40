-- ===== src/Bgp/LastAddress/Range.antt =====
-- The address that Server/src/bgp/parseBGP.cpp computes ends the range of the prefix.
use sonic_bmp.Common.{
  ℕ, zero, suc, ◌+◌, ◌-◌, ◌*◌, ◌^◌, ◌<◌, ◌≡◌, refl, sym, subst, Bool, true, false, All, [], ◌∷◌,
  ◌++◌, inl, inr, Bool-cases, ltb, leb, if◌then◌else◌, Bytes, length, length-append, take, drop,
  take-whole, replicate, arith, little_endian, swap_bytes, length-network, reverse, reverse-append,
  last_of, bit_or-ones, ones_shifted, last_of-lt, last_of-high, last_of-low, ltb→lt, ltb→le, leb→le,
  leb→lt, length-take-le, length-drop, take-append-drop, take-exact, All-take, All-drop, pow-add,
}
use native.Mathlib.Nat.{pow-suc, add-mul, mul-le-mul_right, mul_assoc, mul_comm}
use sonic_bmp.Bgp.ExtCommunity.{uint_of}
use sonic_bmp.Bgp.ExtCommunity.Numbers.{uint_of-network}
use sonic_bmp.Bgp.LastAddress.{set_low, last_address}

little_endian-append :
    (xs ys : Bytes)
    → little_endian (xs ++ ys) ≡ little_endian xs + 256 ^ length xs * little_endian ys
unfolding little_endian
little_endian-append [] ys = omega arith
little_endian-append (x ∷ xs) ys =
    rw (little_endian-append xs ys, pow-suc 256 (length xs))
      (omega (
        arith,
        mul_comm (256 ^ length xs) 256,
        mul_assoc 256 (256 ^ length xs) (little_endian ys),
        mul_comm (256 * 256 ^ length xs) (little_endian ys),
      ))

length-reverse : (xs : Bytes) → length (reverse xs) ≡ length xs
length-reverse [] = refl
length-reverse (x ∷ xs) =
    rw (reverse-append (x ∷ []) xs)
      (omega (arith, length-append (reverse xs) (x ∷ []), length-reverse xs))

-- A number's bytes, the most significant first
pub uint_of-append :
    (xs ys : Bytes) → uint_of (xs ++ ys) ≡ uint_of xs * 256 ^ length ys + uint_of ys
unfolding uint_of swap_bytes
uint_of-append xs ys =
    rw
      (
        reverse-append xs ys,
        little_endian-append (reverse ys) (reverse xs),
        length-reverse ys,
        mul_comm (256 ^ length ys) (little_endian (reverse xs)),
      )
      (omega arith)

abbrev pub IsBytes : Bytes → Type 0
IsBytes bs = All (λ b. b < 256) bs

uint_of-byte : (b : ℕ) → uint_of (b ∷ []) ≡ b
unfolding uint_of little_endian swap_bytes
uint_of-byte b = omega arith

pub uint_of-lt : (bs : Bytes) → IsBytes bs → uint_of bs < 256 ^ length bs
unfolding uint_of little_endian swap_bytes
uint_of-lt [] v = omega arith
uint_of-lt (b ∷ bs) (vb, v) = omega (
  arith,
  uint_of-append (b ∷ []) bs,
  uint_of-byte b,
  uint_of-lt bs v,
  pow-suc 256 (length bs),
  add-mul b 1 (256 ^ length bs),
  mul-le-mul_right {m = b + 1} {n = 256} (256 ^ length bs) (omega (arith, vb)),
)

pow-bytes : (n : ℕ) → 256 ^ n ≡ 2 ^ (8 * n)
pow-bytes zero = refl
pow-bytes (suc n) =
    let next : 8 * suc n ≡ 8 * n + 8 = omega arith in
    rw (next, pow-suc 256 n, pow-add (8 * n) 8, pow-bytes n) refl

-- With n bytes and a mask of k ones, the last number of the range is written.
set_low-last :
    (n k s : ℕ) (bs : Bytes)
    → k + s ≡ 8 * n
    → uint_of bs < 256 ^ n
    → uint_of (set_low n s bs) ≡ last_of (uint_of bs) k
unfolding set_low
set_low-last n k s bs e h =
    let bound : last_of (uint_of bs) k < 256 ^ n =
      rw (pow-bytes n, ← e) (last_of-lt (uint_of bs) k s (rw (e, ← pow-bytes n) h)) in
    rw (← e, ones_shifted k s, bit_or-ones k (uint_of bs)) (uint_of-network n _ bound)

length-set_low : (n s : ℕ) (bs : Bytes) → length (set_low n s bs) ≡ n
unfolding set_low
length-set_low n s bs = length-network n _

last_of-zero : (v : ℕ) → last_of v 0 ≡ v
last_of-zero v = omega arith

-- The bytes of an address, and its bits.
abbrev pub address : Bool → Bytes → Bytes
address ipv4 bs = if ipv4 then take 4 bs else bs

abbrev pub bits : Bool → ℕ
bits ipv4 = if ipv4 then 32 else 128

ones : uint_of (replicate 8 255) ≡ 2 ^ 64 - 1
unfolding uint_of little_endian swap_bytes
ones = refl

module _ (len : ℕ) (bin bcast : Bytes) (full : length bin ≡ 16) (v : IsBytes bin) where
  range_v4 :
      uint_of (take 4 (last_address true len bin bcast)) ≡ last_of (uint_of (take 4 bin)) (32 - len)
  unfolding last_address
  range_v4 = elim (Bool-cases (ltb len 32)) [
    | inl short ↦
        let l : length (take 4 bin) ≡ 4 = length-take-le 4 bin (omega (arith, full)) in
        rw
          (
            short,
            take-exact 4 (set_low 4 len (take 4 bin)) (drop 4 bcast)
                (length-set_low 4 len (take 4 bin)),
          )
          (set_low-last 4 (32 - len) len (take 4 bin) (omega (arith, ltb→lt len 32 short))
            (rw l at (uint_of-lt (take 4 bin) (All-take _ 4 bin v))))
    | inr long ↦
        let none : 32 - len ≡ 0 = omega (arith, ltb→le len 32 long) in
        rw (long, none, take-whole 16 bin (omega (arith, full))) (sym (last_of-zero _))
  ]

  range_v6 : uint_of (last_address false len bin bcast) ≡ last_of (uint_of bin) (128 - len)
  unfolding last_address
  range_v6 =
      let hi = take 8 bin in
      let lo = drop 8 bin in
      let lh : length hi ≡ 8 = length-take-le 8 bin (omega (arith, full)) in
      let ll : length lo ≡ 8 = omega (arith, length-drop 8 bin, full) in
      let whole : uint_of bin ≡ uint_of hi * 2 ^ 64 + uint_of lo =
        rw ll at (rw (take-append-drop 8 bin) at (uint_of-append hi lo)) in
      let high : uint_of hi < 256 ^ 8 = rw lh at (uint_of-lt hi (All-take _ 8 bin v)) in
      let low : uint_of lo < 256 ^ 8 = rw ll at (uint_of-lt lo (All-drop _ 8 bin v)) in
      elim (Bool-cases (ltb len 128)) [
        | inl short ↦
            rw (short, whole)
              (elim (Bool-cases (leb 64 len)) [
                | inl behind ↦
                    let k = 128 - len in
                    let e : len - 64 + k ≡ 64 =
                      omega (arith, leb→le 64 len behind, ltb→lt len 128 short) in
                    let range : last_of (uint_of hi * 2 ^ 64 + uint_of lo) k
                        ≡ uint_of hi * 2 ^ 64 + last_of (uint_of lo) k =
                      subst
                        (λ (n : ℕ).
                          last_of (uint_of hi * 2 ^ n + uint_of lo) k
                          ≡ uint_of hi * 2 ^ n + last_of (uint_of lo) k)
                        e (last_of-low (uint_of hi) (uint_of lo) k (len - 64)) in
                    rw
                      (
                        behind,
                        range,
                        take-whole 8 lo (omega (arith, ll)),
                        uint_of-append hi (set_low 8 (len - 64) lo),
                        length-set_low 8 (len - 64) lo,
                        set_low-last 8 k (len - 64) lo (omega (arith, e)) low,
                      )
                      refl
                | inr before ↦
                    let k = 64 - len in
                    let e : 128 - len ≡ k + 64 = omega (arith, leb→lt 64 len before) in
                    rw
                      (
                        before,
                        e,
                        last_of-high (uint_of hi) (uint_of lo) k 64 low,
                        uint_of-append (set_low 8 len hi) (replicate 8 255),
                        set_low-last 8 k len hi (omega (arith, leb→lt 64 len before)) high,
                        ones,
                      )
                      refl
              ])
        | inr long ↦
            let none : 128 - len ≡ 0 = omega (arith, ltb→le len 128 long) in
            rw (long, none, take-whole 16 bin (omega (arith, full))) (sym (last_of-zero _))
      ]

-- The last address of a prefix that UpdateDBAdvPrefixes and UpdateDBL3Vpn send with it: of the family's 32
-- or 128 bits the first `len` are those of the prefix and the others are ones; a length beyond the bits of
-- the family gives the address itself.
pub last_address-range :
    (ipv4 : Bool) (len : ℕ) (bin bcast : Bytes)
    → length bin ≡ 16
    → IsBytes bin
    → uint_of (address ipv4 (last_address ipv4 len bin bcast))
      ≡ last_of (uint_of (address ipv4 bin)) (bits ipv4 - len)
last_address-range true len bin bcast full v = range_v4 len bin bcast full v
last_address-range false len bin bcast full v = range_v6 len bin bcast full v
