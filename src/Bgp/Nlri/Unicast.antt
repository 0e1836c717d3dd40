-- ===== src/Bgp/Nlri/Unicast.antt =====
-- MPReachAttr::parseNlriData_IPv4IPv6: it ends, how far it reads, and its unguarded copy.
use sonic_bmp.Common.{
  ℕ, zero, suc, ◌+◌, ◌-◌, ◌*◌, ◌≤◌, ◌<◌, ◌≡◌, refl, Bool, false, inl, inr, List, [], All, ◌∷◌, ◌++◌,
  ◌==◌, ltb, if◌then◌else◌, Bool-cases, Bytes, length, arith, fault, overwrite, Ends, Post,
  Post-bind, Post-imp, OnlyOverwrite-Ends, AnyFault, OnlyOverwrite, read_bytes, read_u8,
  read_bytes-Ends, read_u8-Ends, ltb→lt, read_bytes-eq_ok, length-take, All-append,
}
use sonic_bmp.Bgp.AddPath.{is_add_path_enabled}
use sonic_bmp.Bgp.Types.{
  Host, PrefixTuple, PeerInfo, addr_bytes, copy_into, afi_ipv4, afi_ipv6, safi_unicast,
}
use sonic_bmp.Bgp.Nlri.Bounds.{copy_into-Post}
use sonic_bmp.Bgp.Nlri.Ends.{read_path_id-Ends}
use sonic_bmp.Bgp.Nlri.{
  read_path_id, tuple_unicast, nlri_unicast_round, nlri_unicast_loop, parse_nlri_data_ipv4_ipv6,
}

-- A stored prefix: at most 128 bits, and all sixteen bytes of the address set.
abbrev pub IsUnicast : Bool → PrefixTuple → Type 0
IsUnicast ipv4 t = (t.len ≤ 128) × (length t.prefix_bin ≡ 16) × (t.is_ipv4 ≡ ipv4)

addr_bytes-le : (bits n : ℕ) → addr_bytes bits ≤ n → bits ≤ 8 * n
addr_bytes-le bits n h = ground arith

tuple_unicast-IsUnicast :
    (h : Host) (ipv4 : Bool) (path_id bits : ℕ) (raw : Bytes)
    → addr_bytes bits ≤ 16
    → length raw ≡ 16
    → IsUnicast ipv4 (tuple_unicast h ipv4 path_id bits raw)
unfolding tuple_unicast
tuple_unicast-IsUnicast h ipv4 path_id bits raw small e = (addr_bytes-le bits 16 small, e, refl)

copy_into-address :
    (h : Host) (ipv4 : Bool) (path_id bits : ℕ) (bs : Bytes)
    → length bs ≡ addr_bytes bits
    → Post OnlyOverwrite
        (λ raw. IsUnicast ipv4 (tuple_unicast h ipv4 path_id bits raw))
        (copy_into 16 bs)
copy_into-address h ipv4 path_id bits bs e =
    Post-imp OnlyOverwrite _ _ (copy_into 16 bs) (copy_into-Post 16 bs)
      λ raw fact. tuple_unicast-IsUnicast h ipv4 path_id bits raw (omega arith) fact.1

nlri_unicast_round-Ends :
    (h : Host) (ipv4 enabled : Bool) (len read : ℕ) (d : Bytes)
    → Ends (λ p. IsUnicast ipv4 p.0 × (read ≤ p.1)) (nlri_unicast_round h ipv4 enabled len read d)
unfolding nlri_unicast_round
nlri_unicast_round-Ends h ipv4 enabled len read d =
    Post-bind AnyFault _ _ (read_path_id enabled len read d) _
      (read_path_id-Ends enabled len read d)
      λ p ep. Post-bind AnyFault _ _ (read_u8 p.2) _ (read_u8-Ends p.2) λ q eq.
        Post-bind AnyFault _ _ (read_bytes (addr_bytes q.0) q.1) _
          (read_bytes-Ends (addr_bytes q.0) q.1)
          λ r er.
            Post-bind AnyFault _ _ (copy_into 16 r.0) _
              (OnlyOverwrite-Ends _ (copy_into 16 r.0) (copy_into-address h ipv4 p.0 q.0 r.0 er))
              λ raw e. (e, omega arith)

nlri_unicast_loop-Ends :
    (f : ℕ) (h : Host) (ipv4 enabled : Bool) (len read : ℕ) (d : Bytes) (out : List PrefixTuple)
    → len - read < f
    → All (IsUnicast ipv4) out
    → Ends (All (IsUnicast ipv4)) (nlri_unicast_loop h ipv4 enabled f len read d out)
unfolding nlri_unicast_loop
nlri_unicast_loop-Ends zero h ipv4 enabled len read d out fuel good = absurd (omega arith)
nlri_unicast_loop-Ends (suc f) h ipv4 enabled len read d out fuel good =
    elim (Bool-cases (ltb read len)) [
      | inl more ↦ rw more (
          Post-bind AnyFault _ _ (nlri_unicast_round h ipv4 enabled len read d) _
            (nlri_unicast_round-Ends h ipv4 enabled len read d)
            λ p ep.
              nlri_unicast_loop-Ends f h ipv4 enabled len (p.1 + 1) p.2 (out ++ (p.0 ∷ []))
                (omega (arith, ltb→lt read len more))
                (All-append (IsUnicast ipv4) out (p.0 ∷ []) good (ep.0, tt)))
      | inr done ↦ rw done good
    ]

-- parseNlriData_IPv4IPv6 ends on every input and every announced length. If it stored only prefixes
-- of at most 128 bits with sixteen address bytes, of the family that it was called for, then so are
-- all that it returns.
pub parse_nlri_data_ipv4_ipv6-Ends :
    (h : Host) (ipv4 : Bool) (d : Bytes) (len : ℕ) (info : PeerInfo) (out : List PrefixTuple)
    → All (IsUnicast ipv4) out
    → Ends (All (IsUnicast ipv4)) (parse_nlri_data_ipv4_ipv6 h ipv4 d len info out)
unfolding parse_nlri_data_ipv4_ipv6
parse_nlri_data_ipv4_ipv6-Ends h ipv4 d len info out good = elim (Bool-cases (len == 0)) [
  | inl empty ↦ rw empty good
  | inr some ↦ rw some (nlri_unicast_loop-Ends (suc len) h ipv4 _ len 0 d out (omega arith) good)
]

-- A prefix of more than 128 bits whose bytes are there is copied past the end of `ip_raw`: the code has
-- no guard. (The family takes no part in ADD-PATH, and the announced length is not 0.)
pub parse_nlri_data_ipv4_ipv6-overwrite :
    (h : Host) (ipv4 : Bool) (bits len : ℕ) (rest : Bytes) (info : PeerInfo)
    (out : List PrefixTuple)
    → is_add_path_enabled
        (if ipv4 then afi_ipv4 else afi_ipv6)
        safi_unicast
        info.add_path_capability
      ≡ false
    → 128 < bits
    → addr_bytes bits ≤ length rest
    → 0 < len
    → parse_nlri_data_ipv4_ipv6 h ipv4 (bits ∷ rest) len info out ≡ fault overwrite
unfolding parse_nlri_data_ipv4_ipv6 nlri_unicast_loop read_u8 copy_into
parse_nlri_data_ipv4_ipv6-overwrite h ipv4 bits len rest info out off large room some = rw off (
    ground
      (arith, read_bytes-eq_ok (addr_bytes bits) rest room, length-take (addr_bytes bits) rest))
