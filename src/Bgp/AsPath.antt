-- ===== src/Bgp/AsPath.antt =====
-- UpdateMsg::parseAttr_AsPath of Server/src/bgp/UpdateMsg.cpp. `size` is asn_octet_size, `left` the
-- int path_len, which is compared as `left < n + 2` where the code has taken 2 away and tests
-- `path_len < n`: it may be 1 there, and the difference -1.
pub mod Bounds
pub mod RoundTrip
pub mod Fallback
use sonic_bmp.Common.{
  ℕ, zero, suc, ◌+◌, ◌-◌, ◌*◌, ◌%◌, ◌^◌, Bool, true, false, not, List, [], ◌∷◌, ◌++◌, Option, none,
  some, ◌==◌, ltb, if◌then◌else◌, Text, codes, to_dec, Bytes, Result, ok, stuck, ◌>>=◌, read_u8,
  read_uint,
}
use sonic_bmp.Bgp.Attrs.{Attrs, set_attr}
use sonic_bmp.Bgp.AttrType
use sonic_bmp.Bgp.Types.{PeerInfo}

-- decoded_path, as_path_cnt (a uint16_t) and seg_asn.
pub record PathState : Type 0 where
  pub decoded : Text
  pub count : ℕ
  pub asn : ℕ

abbrev pub no_path : PathState
no_path = record { decoded = []; count = 0; asn = 0 }

-- What the code does with an ASN that it has read.
abbrev pub add_asn : PathState → ℕ → PathState
add_asn s asn = record {
  decoded = s.decoded ++ codes " " ++ to_dec asn;
  count = (s.count + 1) % 2 ^ 16;
  asn = asn;
}

-- The loop over the ASNs of one segment.
unfoldable pub read_segment : ℕ → ℕ → Bytes → PathState → Result (PathState × Bytes)
read_segment size zero d s = ok (s, d)
read_segment size (suc n) d s = do
  (asn, rest) ← read_uint size d
  read_segment size n rest (add_asn s asn)

abbrev pub as_set : ℕ
as_set = 1

abbrev pub open_brace : ℕ → Text
open_brace type = if type == as_set then codes " {" else []

abbrev pub close_brace : ℕ → Text
close_brace type = if type == as_set then codes " }" else []

-- One round of the while loop; `none` when the segment has more bytes than are left.
unfoldable pub as_path_round : ℕ → ℕ → Bytes → PathState → Result (Option (PathState × ℕ × Bytes))
unfolding read_segment
as_path_round size left d s = do
  (seg_type, d') ← read_u8 d
  (seg_len, rest) ← read_u8 d'
  let opened = record s { decoded = s.decoded ++ open_brace seg_type }
  if ltb left (seg_len * size + 2) then ok none else (do
    (read, rest') ← read_segment size seg_len rest opened
    let closed = record read { decoded = read.decoded ++ close_brace seg_type }
    ok (some (closed, left - 2 - seg_len * size, rest')))

-- `while (path_len > 0)`. Each round takes two bytes at least.
unfoldable pub as_path_loop : ℕ → ℕ → ℕ → Bytes → PathState → Result (Option PathState)
unfolding as_path_round
as_path_loop zero size left d s = stuck
as_path_loop (suc f) size left d s =
    let round : Result (Option PathState) = (do
      r ← as_path_round size left d s
      elim r [ none ↦ ok none | some (s', left', d') ↦ as_path_loop f size left' d' s' ]) in
    if ltb 0 left then round else ok (some s)

-- The three assignments behind the loop.
unfoldable pub set_as_path : PathState → Attrs → Attrs
set_as_path s attrs = set_attr AttrType.internal_as_origin (to_dec s.asn) (
    set_attr AttrType.internal_as_count (to_dec s.count)
      (set_attr AttrType.as_path s.decoded attrs))

-- The whole function, on fuel for its call of itself: it switches to two octets once at most.
unfoldable pub parse_as_path : ℕ → PeerInfo → ℕ → Bytes → Attrs → Result (PeerInfo × Attrs)
parse_as_path zero info len d attrs = stuck
parse_as_path (suc f) info len d attrs =
    let size = if info.using_2_octet_asn then 2 else 4 in
    let again = parse_as_path f (record info { using_2_octet_asn = true }) len d attrs in
    let parsed : Result (PeerInfo × Attrs) = (do
      r ← as_path_loop (suc len) size len d no_path
      elim r [
        | some s ↦ ok (info, set_as_path s attrs)
        | none ↦ if not info.using_2_octet_asn then again else ok (info, attrs)
      ]) in
    if ltb len size then ok (info, attrs) else parsed

-- parseAttr_AsPath
unfoldable pub parse_attr_as_path : PeerInfo → ℕ → Bytes → Attrs → Result (PeerInfo × Attrs)
unfolding parse_as_path
parse_attr_as_path = parse_as_path 2
