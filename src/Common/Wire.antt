-- ===== src/Common/Wire.antt =====
-- Reading from a byte buffer. A pointer into a buffer is the list of the bytes from there to the
-- buffer's end, so `data += n` drops bytes, and a read past the last of them is `fault overread`.
use Prim.Native.Nat.{ℕ, zero, suc, ◌+◌, ◌*◌, ◌/◌, ◌%◌, ◌^◌, ◌<◌, ◌≤◌}
use mathlib.Core.Path.{◌≡◌, refl, ap, ◌∙◌, subst}
use mathlib.Core.List.{List, [], ◌∷◌, ◌++◌, reverse, reverse-append}
use native.Mathlib.Omega.{arith}
use native.Mathlib.Nat.{pow-suc}
use sonic_bmp.Common.Lists.{length, take, drop, length-append, length-take, length-drop}
use sonic_bmp.Common.Outcome.{Result, ok, fault, overread, ◌>>=◌, Safe, Ends, Post-bind, AnyFault}

abbrev pub Bytes : Type 0
Bytes = List ℕ

-- `memcpy(dst, data, n); data += n`.
unfoldable pub read_bytes : ℕ → Bytes → Result (Bytes × Bytes)
read_bytes zero d = ok ([], d)
read_bytes (suc n) [] = fault overread
read_bytes (suc n) (b ∷ d) = do (bs, r) ← read_bytes n d; ok (b ∷ bs, r)

-- `*data++`
unfoldable pub read_u8 : Bytes → Result (ℕ × Bytes)
read_u8 [] = fault overread
read_u8 (b ∷ d) = ok (b, d)

-- The number whose bytes lie in memory in this order; the host is little-endian.
unfoldable pub little_endian : Bytes → ℕ
little_endian [] = 0
little_endian (b ∷ bs) = b + 256 * little_endian bs

-- `bgp::SWAP_BYTES`: the bytes of a variable, last first.
unfoldable pub swap_bytes : Bytes → Bytes
swap_bytes bs = reverse bs

-- A variable of n bytes is copied from the buffer and its bytes are swapped.
unfoldable pub read_uint : ℕ → Bytes → Result (ℕ × Bytes)
unfolding read_bytes little_endian swap_bytes
read_uint n d = do (bs, r) ← read_bytes n d; ok (little_endian (swap_bytes bs), r)

-- With enough bytes left, `read_bytes` splits the buffer.
pub read_bytes-eq_ok : (n : ℕ) (d : Bytes) → n ≤ length d → read_bytes n d ≡ ok (take n d, drop n d)
unfolding read_bytes
read_bytes-eq_ok zero d h = refl
read_bytes-eq_ok (suc n) [] h = absurd (omega arith)
read_bytes-eq_ok (suc n) (b ∷ d) h = rw (read_bytes-eq_ok n d (omega arith))

-- With too few it reads past the end.
pub read_bytes-eq_fault : (n : ℕ) (d : Bytes) → length d < n → read_bytes n d ≡ fault overread
unfolding read_bytes
read_bytes-eq_fault zero d h = absurd (omega arith)
read_bytes-eq_fault (suc n) [] h = refl
read_bytes-eq_fault (suc n) (b ∷ d) h = rw (read_bytes-eq_fault n d (omega arith))

pub read_bytes-append : (bs d : Bytes) → read_bytes (length bs) (bs ++ d) ≡ ok (bs, d)
unfolding read_bytes
read_bytes-append [] d = refl
read_bytes-append (b ∷ bs) d = rw (read_bytes-append bs d)

-- `v` in network order in `n` bytes, the most significant first.
abbrev pub network : ℕ → ℕ → Bytes
network zero v = []
network (suc n) v = network n (v / 256) ++ (v % 256 ∷ [])

pub length-network : (n v : ℕ) → length (network n v) ≡ n
length-network zero v = refl
length-network (suc n) v =
    omega (arith, length-append (network n (v / 256)) (v % 256 ∷ []), length-network n (v / 256))

pub little_endian-network : (n v : ℕ) → v < 256 ^ n → little_endian (reverse (network n v)) ≡ v
unfolding little_endian
little_endian-network zero v h = omega arith
little_endian-network (suc n) v h =
    rw (reverse-append (network n (v / 256)) (v % 256 ∷ []))
      (omega (arith, little_endian-network n (v / 256) (omega (arith, pow-suc 256 n))))

pub read_bytes-length : (n : ℕ) (bs d : Bytes) → length bs ≡ n → read_bytes n (bs ++ d) ≡ ok (bs, d)
read_bytes-length n bs d h =
    subst (λ k. read_bytes k (bs ++ d) ≡ ok (bs, d)) h (read_bytes-append bs d)

read_uint-bytes :
    (n : ℕ) (bs d : Bytes)
    → length bs ≡ n
    → read_uint n (bs ++ d) ≡ ok (little_endian (reverse bs), d)
unfolding read_uint swap_bytes
read_uint-bytes n bs d h = ground (arith, read_bytes-length n bs d h)

-- A number that was written in network order is read back, whatever follows it.
pub read_uint-network :
    (n v : ℕ) (d : Bytes) → v < 256 ^ n → read_uint n (network n v ++ d) ≡ ok (v, d)
read_uint-network n v d h =
    read_uint-bytes n (network n v) d (length-network n v)
    ∙ ap (λ (k : ℕ). ok (k, d)) (little_endian-network n v h)

-- What a read leaves of the buffer.
abbrev pub LeavesOf : ℕ → Bytes → ℕ × Bytes → Type 0
LeavesOf n d p = length p.1 + n ≡ length d

pub read_bytes-Safe :
    (n : ℕ) (d : Bytes)
    → n ≤ length d
    → Safe (λ p. (length p.0 ≡ n) × (length p.1 + n ≡ length d)) (read_bytes n d)
read_bytes-Safe n d h =
    rw (read_bytes-eq_ok n d h) (omega (arith, length-take n d), omega (arith, length-drop n d))

pub read_uint-Safe : (n : ℕ) (d : Bytes) → n ≤ length d → Safe (LeavesOf n d) (read_uint n d)
unfolding read_uint
read_uint-Safe n d h = rw (read_bytes-eq_ok n d h, read_uint) (omega (arith, length-drop n d))

pub read_u8-Safe : (d : Bytes) → 1 ≤ length d → Safe (LeavesOf 1 d) (read_u8 d)
unfolding read_u8
read_u8-Safe [] h = absurd (omega arith)
read_u8-Safe (b ∷ d) h = omega arith

-- A read ends, whatever is left.
pub read_bytes-Ends : (n : ℕ) (d : Bytes) → Ends (λ p. length p.0 ≡ n) (read_bytes n d)
unfolding read_bytes
read_bytes-Ends zero d = refl
read_bytes-Ends (suc n) [] = tt
read_bytes-Ends (suc n) (b ∷ d) =
    Post-bind AnyFault _ _ (read_bytes n d) _ (read_bytes-Ends n d) (λ p e. ap suc e)

pub read_uint-Ends : (n : ℕ) (d : Bytes) → Ends (λ p. Unit) (read_uint n d)
unfolding read_uint
read_uint-Ends n d = Post-bind AnyFault _ _ (read_bytes n d) _ (read_bytes-Ends n d) (λ p e. tt)

pub read_u8-Ends : (d : Bytes) → Ends (λ p. Unit) (read_u8 d)
unfolding read_u8
read_u8-Ends [] = tt
read_u8-Ends (b ∷ d) = tt
