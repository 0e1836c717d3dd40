-- ===== src/Bgp/AsPath/Fallback.antt =====
-- What parseAttr_AsPath stores, for a peer whose ASN size is known and for one where it is not.
use sonic_bmp.Common.{
  ℕ, suc, ◌+◌, ◌*◌, ◌%◌, ◌^◌, ◌≤◌, ◌<◌, ◌≡◌, ◌≢◌, refl, ap, ◌∙◌, Bool, true, false, List, ◌∷◌, ◌++◌,
  ◌==◌, if◌then◌else◌, none, to_dec, Bytes, length, All, arith, ok, read_u8, lt→ltb, le→ltb,
}
use native.Mathlib.Nat.{zero-add}
use sonic_bmp.Bgp.Attrs.{Attrs, get_attr, get_attr-set_attr}
use sonic_bmp.Bgp.AttrType
use sonic_bmp.Bgp.Types.{PeerInfo}
use sonic_bmp.Bgp.AsPath.RoundTrip.{
  Segment, IsSegment, encode_segments, print_segments, total, last_of, as_path_loop-encode_segments,
}
use sonic_bmp.Bgp.AsPath.{
  PathState, no_path, as_path_round, as_path_loop, set_as_path, parse_as_path, parse_attr_as_path,
}

-- `attrs'` holds the path `gs`: its printed form, its number of ASNs (in 16 bits) and its last ASN, or
-- 0 if it has none; every other attribute is as in `attrs`.
pub record HoldsPath (gs : List Segment) (attrs attrs' : Attrs) : Type 0 where
  pub path_is : get_attr AttrType.as_path attrs' ≡ print_segments gs
  pub count_is : get_attr AttrType.internal_as_count attrs' ≡ to_dec (total gs % 2 ^ 16)
  pub origin_is : get_attr AttrType.internal_as_origin attrs' ≡ to_dec (last_of 0 gs)
  pub others_are :
      (k : ℕ)
      → k ≢ AttrType.as_path
      → k ≢ AttrType.internal_as_count
      → k ≢ AttrType.internal_as_origin
      → get_attr k attrs' ≡ get_attr k attrs

abbrev pub path_state : List Segment → PathState
path_state gs = record {
  decoded = print_segments gs;
  count = (0 + total gs) % 2 ^ 16;
  asn = last_of 0 gs;
}

get_attr-set_as_path :
    (k : ℕ) (s : PathState) (attrs : Attrs)
    → get_attr k (set_as_path s attrs) ≡ (
        if 9001 == k
        then to_dec s.asn
        else if 9000 == k
        then to_dec s.count
        else if 2 == k
        then s.decoded
        else get_attr k attrs)
unfolding set_as_path
get_attr-set_as_path k s attrs = simp get_attr-set_attr

set_as_path-HoldsPath :
    (gs : List Segment) (attrs : Attrs) → HoldsPath gs attrs (set_as_path (path_state gs) attrs)
set_as_path-HoldsPath gs attrs = record {
  path_is = get_attr-set_as_path 2 (path_state gs) attrs;
  count_is =
      get_attr-set_as_path 9000 (path_state gs) attrs
      ∙ ap (λ (n : ℕ). to_dec (n % 2 ^ 16)) (zero-add (total gs));
  origin_is = get_attr-set_as_path 9001 (path_state gs) attrs;
  others_are = λ k h i j. get_attr-set_as_path k (path_state gs) attrs ∙ ground arith;
}

abbrev pub octets : Bool → ℕ
octets two = if two then 2 else 4

pub parse_as_path-encode_segments :
    (f : ℕ) (info : PeerInfo) (gs : List Segment) (d : Bytes) (attrs : Attrs)
    → All (IsSegment (octets info.using_2_octet_asn)) gs
    → octets info.using_2_octet_asn ≤ length (encode_segments (octets info.using_2_octet_asn) gs)
    → parse_as_path
        (suc f)
        info
        (length (encode_segments (octets info.using_2_octet_asn) gs))
        (encode_segments (octets info.using_2_octet_asn) gs ++ d)
        attrs
      ≡ ok (info, set_as_path (path_state gs) attrs)
unfolding parse_as_path
parse_as_path-encode_segments f info gs d attrs v long =
    let size = octets info.using_2_octet_asn in
    let len = length (encode_segments size gs) in
    rw (
      le→ltb len size long,
      as_path_loop-encode_segments gs (suc len) size len d no_path v (omega arith) (omega arith)
          refl,
    )

-- For a path of segments whose ASNs fit the size that the peer is known to use, two or four octets, and of at
-- least that many bytes, parseAttr_AsPath stores the path and leaves the peer's state as it was,
-- whatever follows the attribute.
pub parse_attr_as_path-encode_segments :
    (info : PeerInfo) (gs : List Segment) (d : Bytes) (attrs : Attrs)
    → All (IsSegment (octets info.using_2_octet_asn)) gs
    → octets info.using_2_octet_asn ≤ length (encode_segments (octets info.using_2_octet_asn) gs)
    → (attrs' : Attrs) × (parse_attr_as_path info
          (length (encode_segments (octets info.using_2_octet_asn) gs))
          (encode_segments (octets info.using_2_octet_asn) gs ++ d)
          attrs
        ≡ ok (info, attrs'))
      × HoldsPath gs attrs attrs'
unfolding parse_attr_as_path
parse_attr_as_path-encode_segments info gs d attrs v long = (
  set_as_path (path_state gs) attrs,
  parse_as_path-encode_segments 1 info gs d attrs v long,
  set_as_path-HoldsPath gs attrs,
)

four_octets_short :
    (g : Segment) (gs : List Segment) (f : ℕ) (d : Bytes)
    → length (encode_segments 2 (g ∷ gs)) < length g.asns * 4 + 2
    → as_path_loop
        (suc f)
        4
        (length (encode_segments 2 (g ∷ gs)))
        (encode_segments 2 (g ∷ gs) ++ d)
        no_path
      ≡ ok none
unfolding as_path_loop as_path_round read_u8
four_octets_short g gs f d h =
    rw (lt→ltb 0 (length (encode_segments 2 (g ∷ gs))) (omega arith), lt→ltb _ _ h)

switch :
    (f : ℕ) (info : PeerInfo) (len : ℕ) (d : Bytes) (attrs : Attrs)
    → info.using_2_octet_asn ≡ false
    → 4 ≤ len
    → as_path_loop (suc len) 4 len d no_path ≡ ok none
    → parse_as_path (suc f) info len d attrs
      ≡ parse_as_path f (record info { using_2_octet_asn = true }) len d attrs
unfolding parse_as_path
switch f info len d attrs four long short = rw (four, le→ltb len 4 long, short, four)

-- A path of one or more two-octet segments whose first segment could not hold its ASNs in four octets
-- each, from a peer not yet known to use two, is noticed: the code reads it again with two octets,
-- stores the path, and remembers that the peer uses two.
pub parse_attr_as_path-two_octets :
    (info : PeerInfo) (g : Segment) (gs : List Segment) (d : Bytes) (attrs : Attrs)
    → info.using_2_octet_asn ≡ false
    → All (IsSegment 2) (g ∷ gs)
    → 4 ≤ length (encode_segments 2 (g ∷ gs))
    → length (encode_segments 2 (g ∷ gs)) < length g.asns * 4 + 2
    → (attrs' : Attrs) × (parse_attr_as_path info
          (length (encode_segments 2 (g ∷ gs)))
          (encode_segments 2 (g ∷ gs) ++ d)
          attrs
        ≡ ok (record info { using_2_octet_asn = true }, attrs'))
      × HoldsPath (g ∷ gs) attrs attrs'
unfolding parse_attr_as_path
parse_attr_as_path-two_octets info g gs d attrs four v long short =
    let gs' = g ∷ gs in
    let len = length (encode_segments 2 gs') in
    (
      set_as_path (path_state gs') attrs,
      rw
          (switch 1 info len (encode_segments 2 gs' ++ d) attrs four long
            (four_octets_short g gs len d short))
          (parse_as_path-encode_segments 0 (record info { using_2_octet_asn = true }) gs' d attrs v
            (omega arith)),
      set_as_path-HoldsPath gs' attrs,
    )
