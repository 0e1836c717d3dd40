-- ===== src/Bgp/Nlri/RoundTrip.antt =====
-- Prefixes that are written as RFC 4271 (section 4.3) and RFC 7911 (section 3) say are read back.
use sonic_bmp.Common.{
  ℕ, zero, suc, ◌+◌, ◌-◌, ◌^◌, ◌≤◌, ◌<◌, ◌≡◌, refl, Bool, true, false, List, [], All, ◌∷◌, ◌++◌,
  ◌==◌, if◌then◌else◌, Bytes, length, replicate, map, arith, ok, read_u8, network, length-network,
  read_uint-network, read_bytes-length, length-append, append_assoc, append-nil, lt→ltb, le→ltb,
  le→leb,
}
use native.Mathlib.Nat.{add-zero}
use sonic_bmp.Bgp.AddPath.{is_add_path_enabled}
use sonic_bmp.Bgp.Types.{
  Host, PrefixTuple, PeerInfo, addr_bytes, copy_into, afi_ipv4, afi_ipv6, safi_unicast,
}
use sonic_bmp.Bgp.Nlri.{
  read_path_id, tuple_v4, nlri_v4_round, nlri_v4_loop, parse_nlri_data_v4, tuple_unicast,
  nlri_unicast_round, nlri_unicast_loop, parse_nlri_data_ipv4_ipv6,
}

-- A prefix to be written: the address without its trailing zero bytes.
pub record Route : Type 0 where
  pub path_id : ℕ
  pub bits : ℕ
  pub addr : Bytes

-- The address has the bytes that its bits need, at most `size`, and the path id is a uint32_t, which
-- is 0 where path ids are not written.
pub record IsRoute (enabled : Bool) (size : ℕ) (r : Route) : Type 0 where
  pub fits : addr_bytes r.bits ≤ size
  pub addr_length : length r.addr ≡ addr_bytes r.bits
  pub id_small : r.path_id < 256 ^ 4
  pub id_unused : enabled ≡ false → r.path_id ≡ 0

-- The wire format of one prefix, and of a list of them.
abbrev pub encode : Bool → Route → Bytes
encode true r = network 4 r.path_id ++ (r.bits ∷ r.addr)
encode false r = r.bits ∷ r.addr

abbrev pub encode_all : Bool → List Route → Bytes
encode_all enabled [] = []
encode_all enabled (r ∷ rs) = encode enabled r ++ encode_all enabled rs

-- The length of the path id's field.
abbrev id_size : Bool → ℕ
id_size true = 4
id_size false = 0

length-encode :
    (enabled : Bool) (r : Route) → length (encode enabled r) ≡ id_size enabled + 1 + length r.addr
length-encode true r =
    omega (arith, length-append (network 4 r.path_id) (r.bits ∷ r.addr), length-network 4 r.path_id)
length-encode false r = omega arith

read_path_id-encode :
    (enabled : Bool) (size : ℕ) (r : Route) (len read : ℕ) (d : Bytes)
    → IsRoute enabled size r
    → length (encode enabled r) ≤ len - read
    → read_path_id enabled len read (encode enabled r ++ d)
      ≡ ok (r.path_id, read + id_size enabled, r.bits ∷ (r.addr ++ d))
unfolding read_path_id
read_path_id-encode true size r len read d v room =
    rw (le→leb 4 (len - read) (omega (arith, length-encode true r)), read_path_id)
      (rw (append_assoc (network 4 r.path_id) (r.bits ∷ r.addr) d)
        (rw (read_uint-network 4 r.path_id (r.bits ∷ (r.addr ++ d)) v.id_small)))
read_path_id-encode false size r len read d v room = rw (v.id_unused refl, add-zero)

-- The address in an array of `size` bytes.
abbrev pub padded : ℕ → Bytes → Bytes
padded size bs = bs ++ replicate (size - length bs) 0

pub copy_into-padded :
    (size : ℕ) (bs : Bytes) → length bs ≤ size → copy_into size bs ≡ ok (padded size bs)
unfolding copy_into
copy_into-padded size bs h = rw (le→leb _ _ h)

-- read_size counts a prefix's bytes, all but the one that the loop's `read_size++` stands for.
nlri_v4_round-encode :
    (h : Host) (enabled : Bool) (r : Route) (len read : ℕ) (d : Bytes) (out : List PrefixTuple)
    → IsRoute enabled 4 r
    → length (encode enabled r) ≤ len - read
    → nlri_v4_round h enabled len read (encode enabled r ++ d) out
      ≡ ok (
        out ++ (tuple_v4 h r.path_id r.bits (padded 4 r.addr) ∷ []),
        read + id_size enabled + addr_bytes r.bits,
        d,
      )
unfolding nlri_v4_round read_u8
nlri_v4_round-encode h enabled r len read d out v room = rw (
  read_path_id-encode enabled 4 r len read d v room,
  nlri_v4_round,
  le→leb _ _ v.fits,
  read_bytes-length (addr_bytes r.bits) r.addr d v.addr_length,
  copy_into-padded 4 r.addr (omega (arith, v.fits, v.addr_length)),
)

-- The tuple that is stored for a prefix.
abbrev pub stored_v4 : Host → Route → PrefixTuple
stored_v4 h r = tuple_v4 h r.path_id r.bits (padded 4 r.addr)

nlri_v4_loop-encode_all :
    (rs : List Route) (f : ℕ) (h : Host) (enabled : Bool) (len read : ℕ) (d : Bytes)
    (out : List PrefixTuple)
    → All (IsRoute enabled 4) rs
    → len - read < f
    → read + length (encode_all enabled rs) ≡ len
    → nlri_v4_loop h enabled f len read (encode_all enabled rs ++ d) out
      ≡ ok (out ++ map (stored_v4 h) rs)
unfolding nlri_v4_loop
nlri_v4_loop-encode_all rs zero h enabled len read d out v fuel total = absurd (omega arith)
nlri_v4_loop-encode_all [] (suc f) h enabled len read d out v fuel total =
    rw (le→ltb read len (omega arith), append-nil out)
nlri_v4_loop-encode_all (r ∷ rs) (suc f) h enabled len read d out (vr, vrs) fuel total =
    let split = length-append (encode enabled r) (encode_all enabled rs) in
    let size = length-encode enabled r in
    rw (
      lt→ltb read len (omega arith),
      append_assoc (encode enabled r) (encode_all enabled rs) d,
      nlri_v4_round-encode h enabled r len read (encode_all enabled rs ++ d) out vr (omega arith),
      nlri_v4_loop-encode_all rs f h enabled len (read + id_size enabled + addr_bytes r.bits + 1) d
          _ vrs (omega arith) (omega (arith, vr.addr_length)),
      append_assoc out,
    )

pub encode_all-ne-zero :
    (enabled : Bool) (r : Route) (rs : List Route)
    → (length (encode_all enabled (r ∷ rs)) == 0) ≡ false
encode_all-ne-zero enabled r rs =
    ground
      (arith, length-append (encode enabled r) (encode_all enabled rs), length-encode enabled r)

-- Prefixes of at most 32 bits that are written one after another, with path ids exactly if the family
-- takes part in ADD-PATH, are stored in that order by parseNlriData_v4, behind what was there, each
-- with its bits, its path id and its address filled up with zero bytes; what follows the announced
-- length changes nothing.
pub parse_nlri_data_v4-encode_all :
    (h : Host) (info : PeerInfo) (enabled : Bool) (rs : List Route) (d : Bytes)
    (out : List PrefixTuple)
    → is_add_path_enabled afi_ipv4 safi_unicast info.add_path_capability ≡ enabled
    → All (IsRoute enabled 4) rs
    → parse_nlri_data_v4 h info (encode_all enabled rs ++ d) (length (encode_all enabled rs)) out
      ≡ ok (out ++ map (stored_v4 h) rs)
unfolding parse_nlri_data_v4
parse_nlri_data_v4-encode_all h info enabled [] d out e v = rw (append-nil out)
parse_nlri_data_v4-encode_all h info enabled (r ∷ rs) d out e v =
    let len = length (encode_all enabled (r ∷ rs)) in
    rw (e, encode_all-ne-zero enabled r rs)
      (nlri_v4_loop-encode_all (r ∷ rs) (suc len) h enabled len 0 d out v (omega arith)
        (omega arith))

-- The tuple that is stored for an IPv4 or IPv6 prefix of an MP attribute.
abbrev pub stored_unicast : Host → Bool → Route → PrefixTuple
stored_unicast h ipv4 r = tuple_unicast h ipv4 r.path_id r.bits (padded 16 r.addr)

nlri_unicast_round-encode :
    (h : Host) (ipv4 enabled : Bool) (r : Route) (len read : ℕ) (d : Bytes)
    → IsRoute enabled 16 r
    → length (encode enabled r) ≤ len - read
    → nlri_unicast_round h ipv4 enabled len read (encode enabled r ++ d)
      ≡ ok (stored_unicast h ipv4 r, read + id_size enabled + addr_bytes r.bits, d)
unfolding nlri_unicast_round read_u8
nlri_unicast_round-encode h ipv4 enabled r len read d v room = rw (
  read_path_id-encode enabled 16 r len read d v room,
  nlri_unicast_round,
  read_bytes-length (addr_bytes r.bits) r.addr d v.addr_length,
  copy_into-padded 16 r.addr (omega (arith, v.fits, v.addr_length)),
)

nlri_unicast_loop-encode_all :
    (rs : List Route) (f : ℕ) (h : Host) (ipv4 enabled : Bool) (len read : ℕ) (d : Bytes)
    (out : List PrefixTuple)
    → All (IsRoute enabled 16) rs
    → len - read < f
    → read + length (encode_all enabled rs) ≡ len
    → nlri_unicast_loop h ipv4 enabled f len read (encode_all enabled rs ++ d) out
      ≡ ok (out ++ map (stored_unicast h ipv4) rs)
unfolding nlri_unicast_loop
nlri_unicast_loop-encode_all rs zero h ipv4 enabled len read d out v fuel total =
    absurd (omega arith)
nlri_unicast_loop-encode_all [] (suc f) h ipv4 enabled len read d out v fuel total =
    rw (le→ltb read len (omega arith), append-nil out)
nlri_unicast_loop-encode_all (r ∷ rs) (suc f) h ipv4 enabled len read d out (vr, vrs) fuel total =
    let split = length-append (encode enabled r) (encode_all enabled rs) in
    let size = length-encode enabled r in
    rw (
      lt→ltb read len (omega arith),
      append_assoc (encode enabled r) (encode_all enabled rs) d,
      nlri_unicast_round-encode h ipv4 enabled r len read (encode_all enabled rs ++ d) vr
          (omega arith),
      nlri_unicast_loop-encode_all rs f h ipv4 enabled len
          (read + id_size enabled + addr_bytes r.bits + 1) d _ vrs (omega arith)
          (omega (arith, vr.addr_length)),
      append_assoc out,
    )

-- Prefixes of at most 128 bits that are written one after another, with path ids exactly if the
-- family's unicast prefixes take part in ADD-PATH, are stored in that order by parseNlriData_IPv4IPv6,
-- behind what was there, each with its bits, its path id and its address filled up with zero bytes;
-- what follows the announced length changes nothing.
pub parse_nlri_data_ipv4_ipv6-encode_all :
    (h : Host) (ipv4 : Bool) (info : PeerInfo) (enabled : Bool) (rs : List Route) (d : Bytes)
    (out : List PrefixTuple)
    → is_add_path_enabled
        (if ipv4 then afi_ipv4 else afi_ipv6)
        safi_unicast
        info.add_path_capability
      ≡ enabled
    → All (IsRoute enabled 16) rs
    → parse_nlri_data_ipv4_ipv6 h ipv4
        (encode_all enabled rs ++ d)
        (length (encode_all enabled rs))
        info
        out
      ≡ ok (out ++ map (stored_unicast h ipv4) rs)
unfolding parse_nlri_data_ipv4_ipv6
parse_nlri_data_ipv4_ipv6-encode_all h ipv4 info enabled [] d out e v = rw (append-nil out)
parse_nlri_data_ipv4_ipv6-encode_all h ipv4 info enabled (r ∷ rs) d out e v =
    let len = length (encode_all enabled (r ∷ rs)) in
    rw (e, encode_all-ne-zero enabled r rs)
      (nlri_unicast_loop-encode_all (r ∷ rs) (suc len) h ipv4 enabled len 0 d out v (omega arith)
        (omega arith))
