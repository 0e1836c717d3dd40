-- ===== src/Bgp/ExtCommunity/Version6.antt =====
-- parsev6ExtCommunities and decodeType_IPv6Specific of Server/src/bgp/ExtCommunity.cpp.
use sonic_bmp.Common.{
  ℕ, zero, suc, ◌*◌, ◌/◌, ◌%◌, ◌≤◌, ◌≡◌, refl, Option, some, none, ◌⊎◌, [], ◌∷◌, ◌++◌, ◌==◌,
  if◌then◌else◌, inl, inr, Bool-cases, Text, codes, to_dec, Bytes, length, Result, ok, ◌>>=◌,
  read_u8, read_bytes, drop, arith, read_bytes-eq_ok, length-drop, take,
}
use sonic_bmp.Bgp.ExtCommunity.{uint_of, pair, hex_pair}
use sonic_bmp.Bgp.Types.{ParsedData}

-- decodeType_IPv6Specific. `inet_ntop` gives nothing where the function of the C library returns NULL, and
-- the text is then empty.
unfoldable pub decode_ipv6_specific : (Bytes → Option Text) → ℕ → Bytes → Result Text
decode_ipv6_specific inet_ntop low v = do
  (addr, d) ← read_bytes 16 v
  elim (inet_ntop addr) [
    | some t ↦ ok []
    | none ↦ do
      (n, d') ← read_bytes 2 d
      ok (
          if low == 3
          then codes "soo=" ++ pair [] (to_dec (uint_of n))
          else if low == 2
          then codes "rt=" ++ pair [] (to_dec (uint_of n))
          else if low == 0x10
          then codes "vpn-id=" ++ hex_pair [] (uint_of n)
          else if low == 0x0b
          then codes "import=" ++ pair [] (to_dec (uint_of n))
          else if low == 0x12
          then codes "p2mp-nh=" ++ pair [] (to_dec (uint_of n))
          else [])
  ]

-- The loop: the pointer stays on the first community.
unfoldable pub v6_loop : (Bytes → Option Text) → ℕ → Bytes → Text → Result Text
v6_loop inet_ntop zero d acc = ok acc
v6_loop inet_ntop (suc k) d acc = do
  (high, d1) ← read_u8 d
  (low, d2) ← read_u8 d1
  t ← if high == 0 then decode_ipv6_specific inet_ntop low d2 else ok []
  v6_loop inet_ntop k d (acc ++ t)

-- parsev6ExtCommunities: what was printed is not stored.
unfoldable pub parse_v6_ext_communities :
    {X : Type 0} → (Bytes → Option Text) → ℕ → Bytes → ParsedData X → Result (ParsedData X)
parse_v6_ext_communities inet_ntop attr_len d p =
    if attr_len % 20 == 0 then (do t ← v6_loop inet_ntop (attr_len / 20) d []; ok p) else ok p

Option-cases : (m : Option Text) → (m ≡ none) ⊎ ((t : Text) × (m ≡ some t))
Option-cases none = inl refl
Option-cases (some t) = inr (t, refl)

decode-returns :
    (inet_ntop : Bytes → Option Text) (low : ℕ) (v : Bytes)
    → 18 ≤ length v
    → (t : Text) × (decode_ipv6_specific inet_ntop low v ≡ ok t)
unfolding decode_ipv6_specific
decode-returns inet_ntop low v l =
    rw (read_bytes-eq_ok 16 v (omega (arith, l))) (elim (Option-cases (inet_ntop (take 16 v))) [
      | inl none_there ↦
          rw (none_there, read_bytes-eq_ok 2 (drop 16 v) (omega (arith, l, length-drop 16 v)))
            (_, refl)
      | inr (t, there) ↦ rw there ([], refl)
    ])

v6_loop-returns :
    (inet_ntop : Bytes → Option Text) (k : ℕ) (high low : ℕ) (v : Bytes) (acc : Text)
    → 18 ≤ length v
    → (t : Text) × (v6_loop inet_ntop k (high ∷ low ∷ v) acc ≡ ok t)
unfolding v6_loop read_u8
v6_loop-returns inet_ntop zero high low v acc l = (acc, refl)
v6_loop-returns inet_ntop (suc k) high low v acc l =
    let (t, e) = decode-returns inet_ntop low v l in
    elim (Bool-cases (high == 0)) [
      | inl zero_type ↦ rw (zero_type, e) (v6_loop-returns inet_ntop k high low v (acc ++ t) l)
      | inr other ↦ rw other (v6_loop-returns inet_ntop k high low v (acc ++ []) l)
    ]

loop-returns :
    (inet_ntop : Bytes → Option Text) (k : ℕ) (d : Bytes)
    → k * 20 ≤ length d
    → (t : Text) × (v6_loop inet_ntop k d [] ≡ ok t)
unfolding v6_loop
loop-returns inet_ntop zero d l = ([], refl)
loop-returns inet_ntop (suc k) [] l = absurd (omega arith)
loop-returns inet_ntop (suc k) (a ∷ []) l = absurd (omega arith)
loop-returns inet_ntop (suc k) (a ∷ b ∷ v) l =
    v6_loop-returns inet_ntop (suc k) a b v [] (omega arith)

-- parsev6ExtCommunities comes to an end on every attribute that is there in full, whatever inet_ntop
-- gives, and changes nothing of what was parsed: no IPv6 extended community is ever stored.
pub parse_v6_ext_communities-no_effect :
    {X : Type 0} (inet_ntop : Bytes → Option Text) (attr_len : ℕ) (d : Bytes) (p : ParsedData X)
    → attr_len ≤ length d
    → parse_v6_ext_communities inet_ntop attr_len d p ≡ ok p
unfolding parse_v6_ext_communities
parse_v6_ext_communities-no_effect inet_ntop attr_len d p h =
    elim (Bool-cases (attr_len % 20 == 0)) [
      | inl whole ↦
          let (t, e) = loop-returns inet_ntop (attr_len / 20) d (ground arith) in rw (whole, e) refl
      | inr other ↦ rw other refl
    ]
