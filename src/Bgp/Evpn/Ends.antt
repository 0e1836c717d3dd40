-- ===== src/Bgp/Evpn/Ends.antt =====
-- The loop over EVPN routes of Server/src/bgp/EVPN.cpp ends on every input.
use sonic_bmp.Common.{
  ℕ, zero, suc, ◌+◌, ◌-◌, ◌*◌, ◌≤◌, ◌<◌, Bool, ◌&&◌, true, false, inl, inr, List, [], ◌∷◌, ◌++◌,
  ◌==◌, ltb, leb, Bool-cases, Bytes, arith, Ends, Post-bind, AnyFault, read_bytes, read_u8,
  read_bytes-Ends, read_u8-Ends, ltb→lt, length, length-append, drop,
}
use sonic_bmp.Bgp.Nlri.Bounds.{copy_into-Ends}
use sonic_bmp.Bgp.Labels.{parse_route_distinguisher}
use sonic_bmp.Bgp.Labels.Ends.{parse_route_distinguisher-Ends}
use sonic_bmp.Bgp.Types.{Host, copy_into}
use sonic_bmp.Bgp.Evpn.{
  EvpnTuple, EvpnState, read_mpls, read_mpls_if, ip_bytes, read_ip, ethernet_ad, mac_ip,
  inclusive_multicast, segment_route, read_route, evpn_round, evpn_loop, parse_nlri_data, fresh_rd,
  fresh_tuple,
}

read_mpls-Ends : (d : Bytes) → Ends (λ r. Unit) (read_mpls d)
unfolding read_mpls
read_mpls-Ends d = Post-bind AnyFault _ _ (read_bytes 3 d) _ (read_bytes-Ends 3 d) (λ p e. tt)

read_mpls_if-Ends : (test : Bool) (d : Bytes) → Ends (λ r. Unit) (read_mpls_if test d)
unfolding read_mpls_if
read_mpls_if-Ends true d = Post-bind AnyFault _ _ (read_mpls d) _ (read_mpls-Ends d) (λ p e. tt)
read_mpls_if-Ends false d = tt

read_ip-Ends :
    (h : Host) (ip_len data_len read : ℕ) (d : Bytes)
    → Ends (λ r. Unit) (read_ip h ip_len data_len read d)
unfolding read_ip
read_ip-Ends h ip_len data_len read d =
    elim (Bool-cases (ltb 0 ip_len && leb (ip_bytes ip_len + read) data_len)) [
      | inl room ↦ rw room (
          Post-bind AnyFault _ _ (read_bytes (ip_bytes ip_len) d) _ (read_bytes-Ends _ d)
            λ p e. Post-bind AnyFault _ _ (copy_into 16 p.0) _ (copy_into-Ends 16 p.0) (λ r er. tt))
      | inr short ↦ rw short tt
    ]

abbrev Grows : EvpnState → EvpnState → Type 0
Grows s t = s.read ≤ t.read

module _ (h : Host) (data_len : ℕ) (s : EvpnState) where
  ethernet_ad-Ends : Ends (Grows s) (ethernet_ad data_len s)
  unfolding ethernet_ad
  ethernet_ad-Ends = elim (Bool-cases (leb (s.read + 17) data_len)) [
    | inl room ↦ rw room (
        Post-bind AnyFault _ _ (read_bytes 10 s.rest) _ (read_bytes-Ends 10 s.rest) λ p e.
          Post-bind AnyFault _ _ (read_bytes 4 p.1) _ (read_bytes-Ends 4 p.1) λ q e'.
            Post-bind AnyFault _ _ (read_mpls q.1) _ (read_mpls-Ends q.1) (λ r er. omega arith))
    | inr short ↦ rw short (omega arith)
  ]

  mac_ip-Ends : (nlri_len : ℕ) → Ends (Grows s) (mac_ip h data_len nlri_len s)
  unfolding mac_ip
  mac_ip-Ends nlri_len = elim (Bool-cases (leb (s.read + 25) data_len)) [
    | inl room ↦ rw room (
        Post-bind AnyFault _ _ (read_bytes 10 s.rest) _ (read_bytes-Ends 10 s.rest) λ a e.
          Post-bind AnyFault _ _ (read_bytes 4 a.1) _ (read_bytes-Ends 4 a.1) λ b e.
            Post-bind AnyFault _ _ (read_u8 b.1) _ (read_u8-Ends b.1) λ c e.
              Post-bind AnyFault _ _ (read_bytes 6 c.1) _ (read_bytes-Ends 6 c.1) λ m e.
                Post-bind AnyFault _ _ (read_u8 m.1) _ (read_u8-Ends m.1) λ i e.
                  Post-bind AnyFault _ _ (read_ip h i.0 data_len (s.read + 22) i.1) _
                    (read_ip-Ends h i.0 data_len (s.read + 22) i.1)
                    λ j e.
                      Post-bind AnyFault _ _
                        (read_mpls_if (leb (s.read + 22 + j.1 + 3) data_len) j.2) _
                        (read_mpls_if-Ends _ j.2)
                        λ k e.
                          Post-bind AnyFault _ _
                            (read_mpls_if (nlri_len == 8 + 22 + j.1 + k.1 + 3) k.2) _
                            (read_mpls_if-Ends _ k.2) (λ l e. omega arith))
    | inr short ↦ rw short (omega arith)
  ]

  inclusive_multicast-Ends : Ends (Grows s) (inclusive_multicast h data_len s)
  unfolding inclusive_multicast
  inclusive_multicast-Ends = elim (Bool-cases (leb (s.read + 5) data_len)) [
    | inl room ↦ rw room (
        Post-bind AnyFault _ _ (read_bytes 4 s.rest) _ (read_bytes-Ends 4 s.rest) λ p e.
          Post-bind AnyFault _ _ (read_u8 p.1) _ (read_u8-Ends p.1) λ q e'.
            Post-bind AnyFault _ _ (read_ip h q.0 data_len (s.read + 5) q.1) _
              (read_ip-Ends h q.0 data_len (s.read + 5) q.1) (λ r er. omega arith))
    | inr short ↦ rw short (omega arith)
  ]

  segment_route-Ends : Ends (Grows s) (segment_route h data_len s)
  unfolding segment_route
  segment_route-Ends = elim (Bool-cases (leb (s.read + 11) data_len)) [
    | inl room ↦ rw room (
        Post-bind AnyFault _ _ (read_bytes 10 s.rest) _ (read_bytes-Ends 10 s.rest) λ p e.
          Post-bind AnyFault _ _ (read_u8 p.1) _ (read_u8-Ends p.1) λ q e'.
            Post-bind AnyFault _ _ (read_ip h q.0 data_len (s.read + 11) q.1) _
              (read_ip-Ends h q.0 data_len (s.read + 11) q.1) (λ r er. omega arith))
    | inr short ↦ rw short (omega arith)
  ]

  read_route-Ends :
      (route_type nlri_len : ℕ) → Ends (Grows s) (read_route h data_len route_type nlri_len s)
  unfolding read_route
  read_route-Ends route_type nlri_len = elim (Bool-cases (route_type == 1)) [
    | inl one ↦ rw one ethernet_ad-Ends
    | inr more ↦ rw more (elim (Bool-cases (route_type == 2)) [
      | inl two ↦ rw two (mac_ip-Ends nlri_len)
      | inr more ↦ rw more (elim (Bool-cases (route_type == 3)) [
        | inl three ↦ rw three inclusive_multicast-Ends
        | inr more ↦ rw more (elim (Bool-cases (route_type == 4)) [
          | inl four ↦ rw four segment_route-Ends
          | inr unknown ↦ rw unknown (omega arith)
        ])
      ])
    ])
  ]

evpn_round-Ends :
    (h : Host) (data_len read : ℕ) (d : Bytes)
    → Ends (λ (s : EvpnState). read + 10 ≤ s.read) (evpn_round h data_len read d)
unfolding evpn_round
evpn_round-Ends h data_len read d = Post-bind AnyFault _ _ (read_u8 d) _ (read_u8-Ends d) λ p e.
    Post-bind AnyFault _ _ (read_u8 p.1) _ (read_u8-Ends p.1) λ q e.
      Post-bind AnyFault _ _ (parse_route_distinguisher h q.1 (fresh_rd h)) _
        (parse_route_distinguisher-Ends h q.1 (fresh_rd h))
        λ rd e.
          read_route-Ends h data_len
            (record { entry = fresh_tuple rd; read = read + 10; rest = drop 8 q.1 }) p.0 q.0

-- Every round but the last takes ten bytes at least off those that are left.
evpn_loop-Ends :
    (h : Host) (f data_len read : ℕ) (d : Bytes) (out : List EvpnTuple)
    → data_len - read < f
    → 10 * length out ≤ read
    → 10 * length out ≤ data_len
    → Ends (λ ts. 10 * length ts ≤ data_len) (evpn_loop h f data_len read d out)
unfolding evpn_loop
evpn_loop-Ends h zero data_len read d out fuel behind few = absurd (omega arith)
evpn_loop-Ends h (suc f) data_len read d out fuel behind few =
    elim (Bool-cases (ltb (read + 10) data_len)) [
      | inl more ↦ rw more (
          Post-bind AnyFault _ _ (evpn_round h data_len read d) _
            (evpn_round-Ends h data_len read d)
            λ s es.
              let l = length-append out (s.entry ∷ []) in
              let room = ltb→lt (read + 10) data_len more in
              evpn_loop-Ends h f data_len s.read s.rest (out ++ (s.entry ∷ []))
                (omega (arith, es, room)) (omega (arith, es, l)) (omega (arith, l, room)))
      | inr done ↦ rw done few
    ]

-- EVPN's parseNlriData ends on every input and every announced length, and pushes at most one tuple
-- for every ten bytes announced.
pub parse_nlri_data-Ends :
    (h : Host) (d : Bytes) (data_len : ℕ)
    → Ends (λ ts. 10 * length ts ≤ data_len) (parse_nlri_data h d data_len)
unfolding parse_nlri_data
parse_nlri_data-Ends h d data_len =
    evpn_loop-Ends h (suc data_len) data_len 0 d [] (omega arith) (omega arith) (omega arith)
