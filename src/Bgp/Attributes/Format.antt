-- ===== src/Bgp/Attributes/Format.antt =====
-- Path attributes to be written, as RFC 4271 (section 4.3), RFC 1997, RFC 4456 and RFC 8092 say, and what
-- they mean. `two` says that the peer writes AS paths with two octets for an ASN.
use sonic_bmp.Common.{
  ℕ, ◌^◌, ◌≤◌, ◌<◌, ◌≡◌, Bool, true, false, List, [], All, ◌∷◌, ◌++◌, if◌then◌else◌, Text, codes,
  to_dec, Bytes, length, network,
}
use sonic_bmp.Bgp.AsPath.{set_as_path}
use sonic_bmp.Bgp.AsPath.Fallback.{octets, path_state}
use sonic_bmp.Bgp.AsPath.RoundTrip.{Segment, IsSegment, encode_segments}
use sonic_bmp.Bgp.Attributes.{is_extended, origin_text, put}
use sonic_bmp.Bgp.AttrType
use sonic_bmp.Bgp.Types.{Host, Session}

-- A list of entries, written one after another.
abbrev pub encode_items {ℓ} : {E : Type ℓ} → (E → Bytes) → List E → Bytes
encode_items encode [] = []
encode_items encode (e ∷ es) = encode e ++ encode_items encode es

-- A list of entries printed, with a space before each but the first.
abbrev pub print_items {ℓ} : {E : Type ℓ} → (E → Text) → Bool → List E → Text
print_items print first [] = []
print_items print first (e ∷ es) =
    ((if first then [] else codes " ") ++ print e) ++ print_items print false es

-- A list of addresses printed, with a space behind each.
abbrev pub print_clusters : Host → List Bytes → Text
print_clusters h [] = []
print_clusters h (a ∷ ips) = (h.inet_ntop true a ++ codes " ") ++ print_clusters h ips

pub record Community : Type 0 where
  pub asn : ℕ
  pub value : ℕ

pub record LargeCommunity : Type 0 where
  pub global : ℕ
  pub local_1 : ℕ
  pub local_2 : ℕ

abbrev pub encode_community : Community → Bytes
encode_community c = network 2 c.asn ++ network 2 c.value

abbrev pub print_community : Community → Text
print_community c = to_dec c.asn ++ (codes ":" ++ to_dec c.value)

abbrev pub IsCommunity : Community → Type 0
IsCommunity c = (c.asn < 256 ^ 2) × (c.value < 256 ^ 2)

abbrev pub encode_large : LargeCommunity → Bytes
encode_large c = network 4 c.global ++ (network 4 c.local_1 ++ network 4 c.local_2)

abbrev pub print_large : LargeCommunity → Text
print_large c =
    to_dec c.global ++ (codes ":" ++ (to_dec c.local_1 ++ (codes ":" ++ to_dec c.local_2)))

abbrev pub IsLarge : LargeCommunity → Type 0
IsLarge c = (c.global < 256 ^ 4) × (c.local_1 < 256 ^ 4) × (c.local_2 < 256 ^ 4)

-- The value of an attribute.
pub data Value : Type 0 where
  origin : (v : ℕ) → Value
  as_path : (segments : List Segment) → Value
  next_hop : (ip : Bytes) → Value
  med : (v : ℕ) → Value
  local_pref : (v : ℕ) → Value
  atomic_aggregate : Value
  aggregator : (asn : ℕ) (ip : Bytes) → Value
  communities : (cs : List Community) → Value
  originator_id : (ip : Bytes) → Value
  cluster_list : (ips : List Bytes) → Value
  large_community : (cs : List LargeCommunity) → Value

abbrev pub IsAddress : Bytes → Type 0
IsAddress ip = length ip ≡ 4

abbrev pub IsValue : Bool → Value → Type 0
IsValue two (origin v) = Unit
IsValue two (as_path gs) =
    All (IsSegment (octets two)) gs × (octets two ≤ length (encode_segments (octets two) gs))
IsValue two (next_hop ip) = IsAddress ip
IsValue two (med v) = v < 256 ^ 4
IsValue two (local_pref v) = v < 256 ^ 4
IsValue two atomic_aggregate = Unit
IsValue two (aggregator asn ip) = (asn < 256 ^ 4) × IsAddress ip
IsValue two (communities cs) = (1 ≤ length cs) × All IsCommunity cs
IsValue two (originator_id ip) = IsAddress ip
IsValue two (cluster_list ips) = (1 ≤ length ips) × All IsAddress ips
IsValue two (large_community cs) = (1 ≤ length cs) × All IsLarge cs

abbrev pub type_of : Value → ℕ
type_of (origin v) = AttrType.origin
type_of (as_path gs) = AttrType.as_path
type_of (next_hop ip) = AttrType.next_hop
type_of (med v) = AttrType.med
type_of (local_pref v) = AttrType.local_pref
type_of atomic_aggregate = AttrType.atomic_aggregate
type_of (aggregator asn ip) = AttrType.aggregator
type_of (communities cs) = AttrType.communities
type_of (originator_id ip) = AttrType.originator_id
type_of (cluster_list ips) = AttrType.cluster_list
type_of (large_community cs) = AttrType.large_community

abbrev pub encode_value : Bool → Value → Bytes
encode_value two (origin v) = v ∷ []
encode_value two (as_path gs) = encode_segments (octets two) gs
encode_value two (next_hop ip) = ip
encode_value two (med v) = network 4 v
encode_value two (local_pref v) = network 4 v
encode_value two atomic_aggregate = []
encode_value two (aggregator asn ip) = network 4 asn ++ ip
encode_value two (communities cs) = encode_items encode_community cs
encode_value two (originator_id ip) = ip
encode_value two (cluster_list ips) = encode_items (λ a. a) ips
encode_value two (large_community cs) = encode_items encode_large cs

-- An attribute: its flags, of which the extended-length flag decides the size of the length field.
pub record Attr : Type 0 where
  pub flags : ℕ
  pub value : Value

abbrev pub IsAttr : Bool → Attr → Type 0
IsAttr two a = IsValue two a.value × (length (encode_value two a.value) < 256 ^ 2)

abbrev pub encode_length : ℕ → ℕ → Bytes
encode_length flags n = if is_extended flags then network 2 n else n ∷ []

abbrev pub encode_attrs : Bool → List Attr → Bytes
encode_attrs two [] = []
encode_attrs two (a ∷ xs) =
    a.flags
    ∷ type_of a.value
    ∷ (encode_length a.flags (length (encode_value two a.value))
        ++ (encode_value two a.value ++ encode_attrs two xs))

-- What the code makes of an attribute. ATOMIC_AGGREGATE, whose value is empty, is left out.
module _ {X : Type 0} where
  abbrev pub apply_value : Host → Value → Session X → Session X
  apply_value h (origin v) s = put AttrType.origin (origin_text v) s
  apply_value h (as_path gs) s = record s {
    parsed = record s.parsed { attrs = set_as_path (path_state gs) s.parsed.attrs };
  }
  apply_value h (next_hop ip) s = put AttrType.next_hop (h.inet_ntop true ip) s
  apply_value h (med v) s = put AttrType.med (to_dec v) s
  apply_value h (local_pref v) s = put AttrType.local_pref (to_dec v) s
  apply_value h atomic_aggregate s = s
  apply_value h (aggregator asn ip) s =
      put AttrType.aggregator (to_dec asn ++ (codes " " ++ h.inet_ntop true ip)) s
  apply_value h (communities cs) s =
      put AttrType.communities (print_items print_community true cs) s
  apply_value h (originator_id ip) s = put AttrType.originator_id (h.inet_ntop true ip) s
  apply_value h (cluster_list ips) s = put AttrType.cluster_list (print_clusters h ips) s
  apply_value h (large_community cs) s =
      put AttrType.large_community (print_items print_large true cs) s

  abbrev pub apply_attrs : Host → List Attr → Session X → Session X
  apply_attrs h [] s = s
  apply_attrs h (a ∷ xs) s = apply_attrs h xs (apply_value h a.value s)
