-- ===== src/Bgp/Evpn/Fields.antt =====
-- The fields of an EVPN route: parseEthernetSegmentIdentifier of Server/src/bgp/EVPN.cpp, and what the
-- cases of parseNlriData repeat.
use sonic_bmp.Common.{
  ℕ, ◌+◌, ◌/◌, Bool, ◌&&◌, [], ◌∷◌, ◌++◌, min, ◌==◌, ltb, leb, if◌then◌else◌, Text, codes, to_dec,
  hex_digit, Bytes, take, drop, Result, ok, ◌>>=◌, read_bytes, ℤ, pos, to_int, int_text,
  shift_right, ◌%◌,
}
use sonic_bmp.Bgp.ExtCommunity.{uint_of, parse_mac}
use sonic_bmp.Bgp.Types.{Host, copy_into}

-- Two hexadecimal digits for each byte
unfoldable pub hex_bytes : Bytes → Text
hex_bytes [] = []
hex_bytes (b ∷ bs) = hex_digit (b / 16) ∷ hex_digit (b % 16) ∷ hex_bytes bs

-- The switch of parseEthernetSegmentIdentifier, on the nine bytes behind the type.
unfoldable pub segment_value : ℕ → Bytes → Text
unfolding hex_bytes
segment_value type v =
    let two_ints =
      int_text (to_int (uint_of (take 4 v)))
      ++ (codes " " ++ int_text (to_int (uint_of (take 4 (drop 4 v))))) in
    if type == 0
    then hex_bytes (take 9 v)
    else if type == 1
    then parse_mac (take 6 v) ++ (codes " " ++ to_dec (uint_of (take 2 (drop 6 v))))
    else if type == 2
    then parse_mac (take 6 v) ++ (codes " " ++ to_dec (uint_of (take 2 (drop 6 v))))
    else if type == 3
    then parse_mac (take 6 v) ++ (codes " " ++ to_dec (uint_of (take 3 (drop 6 v))))
    else if type == 4
    then two_ints
    else if type == 5
    then two_ints
    else []

-- parseEthernetSegmentIdentifier, on the ten bytes that it looks at.
unfoldable pub segment_identifier : Bytes → Text
unfolding segment_value
segment_identifier [] = []
segment_identifier (type ∷ v) = to_dec type ++ (codes " " ++ segment_value type v)

-- A label: three bytes in a zeroed int, whose bytes are swapped and shifted.
unfoldable pub read_mpls : Bytes → Result (ℤ × Bytes)
read_mpls d = do
  (bs, rest) ← read_bytes 3 d
  ok (shift_right (to_int (uint_of (bs ++ (0 ∷ [])))) 8, rest)

-- A label behind a test, and how many bytes it took.
unfoldable pub read_mpls_if : Bool → Bytes → Result (ℤ × ℕ × Bytes)
unfolding read_mpls
read_mpls_if test d =
    let label : Result (ℤ × ℕ × Bytes) = (do (l, rest) ← read_mpls d; ok (l, 3, rest)) in
    if test then label else ok (pos 0, 0, d)

-- addr_bytes
abbrev pub ip_bytes : ℕ → ℕ
ip_bytes ip_len = min (ip_len / 8) 16

-- An address of `ip_len` bits, if it has any and they are there, and how many bytes it took.
unfoldable pub read_ip : Host → ℕ → ℕ → ℕ → Bytes → Result (Text × ℕ × Bytes)
unfolding copy_into
read_ip h ip_len data_len read d =
    let address : Result (Text × ℕ × Bytes) = (do
      (bs, rest) ← read_bytes (ip_bytes ip_len) d
      raw ← copy_into 16 bs
      ok (h.inet_ntop (leb ip_len 32) raw, ip_bytes ip_len, rest)) in
    if ltb 0 ip_len && leb (ip_bytes ip_len + read) data_len then address else ok ([], 0, d)
