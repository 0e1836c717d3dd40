-- ===== src/Bgp/UpdateDb/Rows.antt =====
-- The rows of the advertised prefixes that UpdateDBAdvPrefixes and UpdateDBL3Vpn of
-- Server/src/bgp/parseBGP.cpp send.
use sonic_bmp.Common.{
  ◌-◌, ◌≡◌, refl, List, [], ◌∷◌, All, All2, Bytes, length, take, take-whole, last_of, arith,
}
use sonic_bmp.Bgp.ExtCommunity.{uint_of}
use sonic_bmp.Bgp.LastAddress.{last_address}
use sonic_bmp.Bgp.LastAddress.Range.{IsBytes, address, bits, last_address-range}
use sonic_bmp.Bgp.Types.{PrefixTuple, VpnTuple}
use sonic_bmp.Bgp.UpdateDb.{RibRow, VpnRow, Store, rib_row, adv_rows, vpn_rows}

-- prefix_bin is an array of sixteen bytes.
abbrev pub IsPrefix : PrefixTuple → Type 0
IsPrefix t = (length t.prefix_bin ≡ 16) × IsBytes t.prefix_bin

-- The row of a prefix: its fields, the hash ids, and the last address that begins with its bits.
abbrev pub IsRow : Store → PrefixTuple → RibRow → Type 0
IsRow s t r =
    (r ≡ record {
      path_attr_hash_id = s.path_hash_id;
      peer_hash_id = s.peer_hash_id;
      is_ipv4 = t.is_ipv4;
      prefix = take 46 t.prefix;
      prefix_len = t.len;
      prefix_bin = t.prefix_bin;
      prefix_bcast_bin = r.prefix_bcast_bin;
      path_id = t.path_id;
      labels = take 254 t.labels;
    })
    × (uint_of (address t.is_ipv4 r.prefix_bcast_bin)
        ≡ last_of (uint_of (address t.is_ipv4 t.prefix_bin)) (bits t.is_ipv4 - t.len))

abbrev pub IsVpnRow : Store → VpnTuple → VpnRow → Type 0
IsVpnRow s t r = (r.rd ≡ t.rd) × IsRow s t.tuple r.rib

rib_row-IsRow :
    (s : Store) (t : PrefixTuple) (bcast : Bytes)
    → IsPrefix t
    → IsRow s t (rib_row s t (last_address t.is_ipv4 t.len t.prefix_bin bcast))
rib_row-IsRow s t bcast (l, b) = (
  rw (take-whole 16 t.prefix_bin (omega (arith, l))) refl,
  last_address-range t.is_ipv4 t.len t.prefix_bin bcast l b,
)

-- UpdateDBAdvPrefixes sends one row for each advertised prefix, in order, with the prefix's fields (a text
-- cut to its array), the hash ids of the message, and the last address of the prefix: the family's 32 or 128
-- bits with ones behind the first `len`.
pub adv_rows-IsRow :
    (s : Store) (ts : List PrefixTuple) (bcast : Bytes)
    → All IsPrefix ts
    → All2 (IsRow s) ts (adv_rows s bcast ts)
unfolding adv_rows
adv_rows-IsRow s [] bcast v = tt
adv_rows-IsRow s (t ∷ ts) bcast (v, vs) = (
  rib_row-IsRow s t bcast v,
  adv_rows-IsRow s ts (last_address t.is_ipv4 t.len t.prefix_bin bcast) vs,
)

-- The same of the routes of a VPN, each with its route distinguisher.
pub vpn_rows-IsVpnRow :
    (s : Store) (ts : List VpnTuple) (bcast : Bytes)
    → All (λ t. IsPrefix t.tuple) ts
    → All2 (IsVpnRow s) ts (vpn_rows s bcast ts)
unfolding vpn_rows
vpn_rows-IsVpnRow s [] bcast v = tt
vpn_rows-IsVpnRow s (t ∷ ts) bcast (v, vs) = (
  (refl, rib_row-IsRow s t.tuple bcast v),
  vpn_rows-IsVpnRow s ts (last_address t.tuple.is_ipv4 t.tuple.len t.tuple.prefix_bin bcast) vs,
)
