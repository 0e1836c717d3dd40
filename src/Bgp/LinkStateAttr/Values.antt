-- ===== src/Bgp/LinkStateAttr/Values.antt =====
-- Values of BGP-LS attributes in Server/src/bgp/linkstate/MPLinkStateAttr.cpp: bandwidths, flags and
-- segment identifiers.
use sonic_bmp.Common.{
  ℕ, ◌+◌, ◌-◌, ◌*◌, ◌/◌, ◌%◌, ◌^◌, Bool, true, false, List, [], ◌∷◌, ◌++◌, ◌==◌, ltb, leb,
  if◌then◌else◌, Text, codes, to_dec, Bytes, Result, ok, fault, overread, ◌>>=◌, read_bytes,
  read_u8, read_uint,
}
use sonic_bmp.Bgp.Types.{Host}

-- ieee_float_to_kbps of the 32 bits `v`, as an uint32_t. From 2 ^ 60 on a signed product leaves 64 bits and
-- C++ does not say what comes out: `wide` is asked. The division of a negative number rounds to 0.
unfoldable pub ieee_float_to_kbps : (ℕ → ℕ) → ℕ → ℕ
ieee_float_to_kbps wide v =
    let e = v / 2 ^ 23 % 256 in
    let mantissa = v % 2 ^ 23 + 2 ^ 23 in
    let bits = if leb e 150 then mantissa / 2 ^ (150 - e) else mantissa * 2 ^ (e - 150) in
    let kbits = bits * 8 / 1000 % 2 ^ 32 in
    if v % 2 ^ 31 == 0
    then 0
    else if e == 255
    then (if v / 2 ^ 31 == 1 then 2 ^ 31 else 2 ^ 31 - 1)
    else if ltb e 127
    then 0
    else if leb 187 e
    then wide v % 2 ^ 32
    else if v / 2 ^ 31 == 1
    then (2 ^ 32 - kbits) % 2 ^ 32
    else kbits

-- parse_flags_to_string, from the bit `mask` on
unfoldable pub parse_flags_to_string : ℕ → ℕ → List Text → Text
parse_flags_to_string mask data_byte [] = []
parse_flags_to_string mask data_byte (flag ∷ flags) =
    let rest = parse_flags_to_string (mask / 2) data_byte flags in
    if data_byte / mask % 2 == 1 then flag ++ rest else rest

abbrev pub flags_node_nlri : List Text
flags_node_nlri = codes "O" ∷ codes "T" ∷ codes "E" ∷ codes "B" ∷ codes "R" ∷ codes "V" ∷ []

abbrev pub flags_peer_adj_sid_isis : List Text
flags_peer_adj_sid_isis = codes "F" ∷ codes "B" ∷ codes "V" ∷ codes "L" ∷ codes "S" ∷ []

abbrev pub flags_peer_adj_sid_ospf : List Text
flags_peer_adj_sid_ospf = codes "B" ∷ codes "V" ∷ codes "L" ∷ codes "G" ∷ []

abbrev pub flags_sr_cap_isis : List Text
flags_sr_cap_isis = codes "I" ∷ codes "V" ∷ codes "H" ∷ []

abbrev pub flags_prefix_sid_isis : List Text
flags_prefix_sid_isis = codes "R" ∷ codes "N" ∷ codes "P" ∷ codes "E" ∷ codes "V" ∷ codes "L" ∷ []

abbrev pub flags_prefix_sid_ospf : List Text
flags_prefix_sid_ospf = [] ∷ codes "NP" ∷ codes "M" ∷ codes "E" ∷ codes "V" ∷ codes "L" ∷ []

-- The flags in the byte at the pointer.
abbrev pub read_flags : List Text → Bytes → Result Text
read_flags flags d = do (b, rest) ← read_u8 d; ok (parse_flags_to_string 128 b flags)

-- `strcmp(t, u) >= 0`
unfoldable pub strcmp_ge : Text → Text → Bool
strcmp_ge t [] = true
strcmp_ge [] (c ∷ cs) = false
strcmp_ge (b ∷ bs) (c ∷ cs) = let rest = strcmp_ge bs cs in if b == c then rest else ltb c b

-- The choice by the protocol of the row in front.
unfoldable pub by_protocol : Text → Result Text → Result Text → Result Text
by_protocol protocol isis ospf =
    if strcmp_ge protocol (codes "IS-IS")
    then isis
    else if strcmp_ge protocol (codes "OSPF")
    then ospf
    else ok []

-- `rows.front()`, of a list that may be empty
unfoldable pub front : {A : Type 0} → List A → Result A
front [] = fault overread
front (x ∷ xs) = ok x

-- parse_sid_value, whose length is an int: a negative one is none of these either.
unfoldable pub parse_sid_value : Host → Bytes → ℕ → Result Text
parse_sid_value h d len =
    if len == 3
    then (do (v, rest) ← read_uint 3 d; ok (to_dec v))
    else if leb 16 len
    then (do (raw, rest) ← read_bytes 16 d; ok (h.inet_ntop false raw))
    else if len == 4
    then (do (v, rest) ← read_uint 4 d; ok (to_dec v))
    else ok []
