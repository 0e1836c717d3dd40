-- ===== src/Bgp/Nlri/Ends.antt =====
-- parseNlriData_v4 ends on every input.
use sonic_bmp.Common.{
  ℕ, zero, suc, ◌+◌, ◌-◌, ◌≤◌, ◌<◌, Bool, ◌&&◌, inl, inr, List, ◌==◌, ltb, leb, Bool-cases, Bytes,
  arith, Ends, Post-bind, AnyFault, read_bytes, read_u8, read_uint, read_bytes-Ends, read_uint-Ends,
  read_u8-Ends, ltb→lt,
}
use sonic_bmp.Bgp.Types.{Host, PrefixTuple, PeerInfo, addr_bytes, copy_into}
use sonic_bmp.Bgp.Nlri.Bounds.{copy_into-Ends}
use sonic_bmp.Bgp.Nlri.{read_path_id, nlri_v4_round, nlri_v4_loop, parse_nlri_data_v4}

pub read_path_id-Ends :
    (enabled : Bool) (len read : ℕ) (d : Bytes)
    → Ends (λ p. read ≤ p.1) (read_path_id enabled len read d)
unfolding read_path_id
read_path_id-Ends enabled len read d = elim (Bool-cases (enabled && leb 4 (len - read))) [
  | inl path ↦
      rw (path, read_path_id)
        (Post-bind AnyFault _ _ (read_uint 4 d) _ (read_uint-Ends 4 d) (λ p e. omega arith))
  | inr bare ↦ rw (bare, read_path_id) (omega arith)
]

nlri_v4_round-Ends :
    (h : Host) (enabled : Bool) (len read : ℕ) (d : Bytes) (out : List PrefixTuple)
    → Ends (λ p. read ≤ p.1) (nlri_v4_round h enabled len read d out)
unfolding nlri_v4_round
nlri_v4_round-Ends h enabled len read d out =
    Post-bind AnyFault _ _ (read_path_id enabled len read d) _
      (read_path_id-Ends enabled len read d)
      λ p ep. Post-bind AnyFault _ _ (read_u8 p.2) _ (read_u8-Ends p.2) λ q eq.
        elim (Bool-cases (leb (addr_bytes q.0) 4)) [
          | inl fits ↦ rw fits (
              Post-bind AnyFault _ _ (read_bytes (addr_bytes q.0) q.1) _
                (read_bytes-Ends (addr_bytes q.0) q.1)
                λ r er.
                  Post-bind AnyFault (λ raw. Unit) _ (copy_into 4 r.0) _ (copy_into-Ends 4 r.0)
                    λ raw e. omega arith)
          | inr large ↦ rw large ep
        ]

nlri_v4_loop-Ends :
    (f : ℕ) (h : Host) (enabled : Bool) (len read : ℕ) (d : Bytes) (out : List PrefixTuple)
    → len - read < f
    → Ends (λ ps. Unit) (nlri_v4_loop h enabled f len read d out)
unfolding nlri_v4_loop
nlri_v4_loop-Ends zero h enabled len read d out fuel = absurd (omega arith)
nlri_v4_loop-Ends (suc f) h enabled len read d out fuel = elim (Bool-cases (ltb read len)) [
  | inl more ↦ rw more (
      Post-bind AnyFault _ _ (nlri_v4_round h enabled len read d out) _
        (nlri_v4_round-Ends h enabled len read d out)
        λ p ep.
          nlri_v4_loop-Ends f h enabled len (p.1 + 1) p.2 p.0 (omega (arith, ltb→lt read len more)))
  | inr done ↦ rw done tt
]

-- parseNlriData_v4 ends on every input and every announced length.
pub parse_nlri_data_v4-Ends :
    (h : Host) (info : PeerInfo) (d : Bytes) (len : ℕ) (out : List PrefixTuple)
    → Ends (λ ps. Unit) (parse_nlri_data_v4 h info d len out)
unfolding parse_nlri_data_v4
parse_nlri_data_v4-Ends h info d len out = elim (Bool-cases (len == 0)) [
  | inl empty ↦ rw empty tt
  | inr some ↦ rw some (nlri_v4_loop-Ends (suc len) h _ len 0 d out (omega arith))
]
