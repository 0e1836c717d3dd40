-- ===== src/Bgp/LinkStateAttr/RoundTrip.antt =====
-- BGP-LS attributes of fixed sizes and names, as RFC 7752 writes them, through parseAttrLinkState of
-- Server/src/bgp/linkstate/MPLinkStateAttr.cpp.
use sonic_bmp.Common.{
  ℕ, zero, suc, ◌+◌, ◌-◌, ◌^◌, ◌<◌, ◌≡◌, refl, true, false, ◌==◌, ltb, leb, List, [], ◌∷◌, ◌++◌,
  All, Bytes, length, drop, reverse, arith, ok, read_bytes, swap_bytes, network, read_uint-network,
  read_bytes-length, ap, ◌∙◌, drop-append-length,
}
use sonic_bmp.Bgp.Evpn.{Others}
use sonic_bmp.Bgp.LinkState.Descriptors.{overlay}
use sonic_bmp.Bgp.LinkState.Rows.{LsData, LsAttrs, LinkStateData}
use sonic_bmp.Bgp.Types.{Host, ParsedData}
use sonic_bmp.Bgp.LinkStateAttr.{
  router_id, uint32, te_def_metric, parse_value, parse_attr_link_state_tlv, ls_attr_loop,
  parse_attr_link_state,
}
use sonic_bmp.Bgp.LinkStateAttr.Arrays.{ls_at, ls_put, ls_copy_onto}

-- Router ids of the two ends of a link, and numbers: administrative group, metrics and route tag.
pub data Item : Type 0 where
  local_ipv4 local_ipv6 remote_ipv4 remote_ipv6 : Bytes → Item
  admin_group igp_metric te_metric prefix_metric route_tag : ℕ → Item

abbrev pub type_of : Item → ℕ
type_of (local_ipv4 bs) = 1028
type_of (local_ipv6 bs) = 1029
type_of (remote_ipv4 bs) = 1030
type_of (remote_ipv6 bs) = 1031
type_of (admin_group v) = 1088
type_of (igp_metric v) = 1095
type_of (te_metric v) = 1092
type_of (prefix_metric v) = 1155
type_of (route_tag v) = 1153

-- The value on the wire.
abbrev pub value_of : Item → Bytes
value_of (local_ipv4 bs) = bs
value_of (local_ipv6 bs) = bs
value_of (remote_ipv4 bs) = bs
value_of (remote_ipv6 bs) = bs
value_of (admin_group v) = network 4 v
value_of (igp_metric v) = network 4 v
value_of (te_metric v) = network 4 v
value_of (prefix_metric v) = network 4 v
value_of (route_tag v) = network 4 v

-- The value in the array: numbers in the order of the host.
abbrev pub stored_of : Item → Bytes
stored_of (local_ipv4 bs) = bs
stored_of (local_ipv6 bs) = bs
stored_of (remote_ipv4 bs) = bs
stored_of (remote_ipv6 bs) = bs
stored_of (admin_group v) = reverse (network 4 v)
stored_of (igp_metric v) = reverse (network 4 v)
stored_of (te_metric v) = reverse (network 4 v)
stored_of (prefix_metric v) = reverse (network 4 v)
stored_of (route_tag v) = reverse (network 4 v)

abbrev pub IsItem : Item → Type 0
IsItem (local_ipv4 bs) = length bs ≡ 4
IsItem (local_ipv6 bs) = length bs ≡ 16
IsItem (remote_ipv4 bs) = length bs ≡ 4
IsItem (remote_ipv6 bs) = length bs ≡ 16
IsItem (admin_group v) = v < 2 ^ 32
IsItem (igp_metric v) = v < 2 ^ 32
IsItem (te_metric v) = v < 2 ^ 32
IsItem (prefix_metric v) = v < 2 ^ 32
IsItem (route_tag v) = v < 2 ^ 32

-- RFC 7752, section 3.3
abbrev pub encode_item : Item → Bytes → Bytes
encode_item i d = network 2 (type_of i) ++ (network 2 (length (value_of i)) ++ (value_of i ++ d))

unfoldable pub encode_items : List Item → Bytes → Bytes
encode_items [] d = d
encode_items (i ∷ is) d = encode_item i (encode_items is d)

unfoldable pub size_of : List Item → ℕ
size_of [] = 0
size_of (i ∷ is) = 4 + (length (value_of i) + size_of is)

-- The array of the item's type has its value in front.
abbrev pub store_item : Item → LsAttrs → LsAttrs
store_item i m = ls_put (type_of i) (overlay (stored_of i) (ls_at (type_of i) m)) m

unfoldable pub store_items : List Item → LsAttrs → LsAttrs
store_items [] m = m
store_items (i ∷ is) m = store_items is (store_item i m)

same : (n : ℕ) → n == n ≡ true
same n = ground arith

router_id-eq :
    (n k : ℕ) (bs d : Bytes) (m : LsAttrs)
    → length bs ≡ n
    → leb n 255 ≡ true
    → router_id n k (length bs) (bs ++ d) m ≡ ok (ls_put k (overlay bs (ls_at k m)) m)
unfolding router_id ls_copy_onto
router_id-eq n k bs d m size fits =
    rw (size, same n, read_bytes-length n bs d size, size, fits) refl

uint32-eq :
    (k v : ℕ) (d : Bytes) (m : LsAttrs)
    → uint32 k 4 (network 4 v ++ d) m
      ≡ ok (ls_put k (overlay (reverse (network 4 v)) (ls_at k m)) m)
unfolding uint32 ls_copy_onto swap_bytes read_bytes
uint32-eq k v d m = refl

parse_value-item :
    (h : Host) (wide : ℕ → ℕ) (l : LsData) (i : Item) (d : Bytes) (m : LsAttrs)
    → IsItem i
    → parse_value h wide l (type_of i) (length (value_of i)) (value_of i ++ d) m
      ≡ ok (store_item i m)
unfolding parse_value te_def_metric ls_copy_onto swap_bytes read_bytes
parse_value-item h wide l (local_ipv4 bs) d m v = router_id-eq 4 1028 bs d m v refl
parse_value-item h wide l (local_ipv6 bs) d m v = router_id-eq 16 1029 bs d m v refl
parse_value-item h wide l (remote_ipv4 bs) d m v = router_id-eq 4 1030 bs d m v refl
parse_value-item h wide l (remote_ipv6 bs) d m v = router_id-eq 16 1031 bs d m v refl
parse_value-item h wide l (admin_group n) d m v = uint32-eq 1088 n d m
parse_value-item h wide l (igp_metric n) d m v = uint32-eq 1095 n d m
parse_value-item h wide l (te_metric n) d m v = refl
parse_value-item h wide l (prefix_metric n) d m v = uint32-eq 1155 n d m
parse_value-item h wide l (route_tag n) d m v = uint32-eq 1153 n d m

type_of-lt : (i : Item) → type_of i < 256 ^ 2
type_of-lt (local_ipv4 bs) = omega arith
type_of-lt (local_ipv6 bs) = omega arith
type_of-lt (remote_ipv4 bs) = omega arith
type_of-lt (remote_ipv6 bs) = omega arith
type_of-lt (admin_group v) = omega arith
type_of-lt (igp_metric v) = omega arith
type_of-lt (te_metric v) = omega arith
type_of-lt (prefix_metric v) = omega arith
type_of-lt (route_tag v) = omega arith

length-value_of : (i : Item) → IsItem i → length (value_of i) < 256 ^ 2
length-value_of (local_ipv4 bs) v = omega arith
length-value_of (local_ipv6 bs) v = omega arith
length-value_of (remote_ipv4 bs) v = omega arith
length-value_of (remote_ipv6 bs) v = omega arith
length-value_of (admin_group n) v = omega arith
length-value_of (igp_metric n) v = omega arith
length-value_of (te_metric n) v = omega arith
length-value_of (prefix_metric n) v = omega arith
length-value_of (route_tag n) v = omega arith

not_short : (n : ℕ) → ltb (4 + n) 4 ≡ false
not_short n = ground arith

some_left : (n : ℕ) → ltb 0 (4 + n) ≡ true
some_left n = ground arith

parse_attr_link_state_tlv-item :
    (h : Host) (wide : ℕ → ℕ) (l : LsData) (i : Item) (n : ℕ) (d : Bytes) (m : LsAttrs)
    → IsItem i
    → parse_attr_link_state_tlv h wide l (4 + n) (encode_item i d) m
      ≡ ok (length (value_of i) + 4, store_item i m)
unfolding parse_attr_link_state_tlv
parse_attr_link_state_tlv-item h wide l i n d m v =
    rw
      (
        not_short n,
        read_uint-network 2 (type_of i) (network 2 (length (value_of i)) ++ (value_of i ++ d))
            (type_of-lt i),
        read_uint-network 2 (length (value_of i)) (value_of i ++ d) (length-value_of i v),
        parse_value-item h wide l i d m v,
      )
      refl

drop-encode_item : (i : Item) (d : Bytes) → drop (length (value_of i) + 4) (encode_item i d) ≡ d
drop-encode_item i d =
    let four : length (value_of i) + 4 ≡ suc (suc (suc (suc (length (value_of i))))) =
      omega arith in
    ap (λ (k : ℕ). drop k (encode_item i d)) four ∙ drop-append-length (value_of i) d

left_over : (i : Item) (n : ℕ) → 4 + (length (value_of i) + n) - (length (value_of i) + 4) ≡ n
left_over i n = omega arith

ls_attr_loop-items :
    (h : Host) (wide : ℕ → ℕ) (l : LsData) (is : List Item) (f : ℕ) (d : Bytes) (m : LsAttrs)
    → All IsItem is
    → size_of is < f
    → ls_attr_loop h wide l f (size_of is) (encode_items is d) m ≡ ok (store_items is m)
unfolding ls_attr_loop encode_items size_of store_items
ls_attr_loop-items h wide l is zero d m v fuel = absurd (omega arith)
ls_attr_loop-items h wide l [] (suc f) d m v fuel = refl
ls_attr_loop-items h wide l (i ∷ is) (suc f) d m (v, vs) fuel =
    rw
      (
        some_left (length (value_of i) + size_of is),
        parse_attr_link_state_tlv-item h wide l i (length (value_of i) + size_of is)
            (encode_items is d) m v,
        left_over i (size_of is),
        drop-encode_item i (encode_items is d),
      )
      (ls_attr_loop-items h wide l is f d (store_item i m) vs (omega (arith, fuel)))

-- Router ids, metrics, administrative groups and route tags that are written one after another as RFC 7752
-- says are read back by parseAttrLinkState: the array of each type has the value of the last of that type in
-- front, router ids as they are and numbers in the order of the host, and nothing else changes.
pub parse_attr_link_state-encode_items :
    (h : Host) (wide : ℕ → ℕ) (is : List Item) (d : Bytes) (p : ParsedData (Others LinkStateData))
    → All IsItem is
    → parse_attr_link_state h wide (size_of is) (encode_items is d) p
      ≡ ok (record p {
        other = record p.other {
          link_state = record p.other.link_state {
            ls_attrs = store_items is p.other.link_state.ls_attrs;
          };
        };
      })
unfolding parse_attr_link_state
parse_attr_link_state-encode_items h wide is d p v =
    rw
      (ls_attr_loop-items h wide p.other.link_state.ls is (suc (size_of is)) d
        p.other.link_state.ls_attrs v (omega arith))
      refl
