-- ===== src/Bgp/Labels/Ends.antt =====
-- The loops over labels and labelled prefixes end on every input.
use sonic_bmp.Common.{
  ℕ, zero, suc, ◌+◌, ◌-◌, ◌≤◌, ◌<◌, Bool, not, ◌&&◌, inl, inr, List, [], ◌==◌, ltb, leb, Bool-cases,
  Text, Bytes, arith, ok, ◌>>=◌, Ends, Post-bind, Post-imp, AnyFault, read_bytes, read_u8,
  read_uint, read_bytes-Ends, read_uint-Ends, read_u8-Ends, ltb→lt, leb→le,
}
use sonic_bmp.Bgp.Nlri.Bounds.{copy_into-Ends}
use sonic_bmp.Bgp.Nlri.Ends.{read_path_id-Ends}
use sonic_bmp.Bgp.Nlri.{read_path_id}
use sonic_bmp.Bgp.Types.{Host, RdTuple, VpnTuple, PeerInfo, addr_bytes, copy_into}
use sonic_bmp.Bgp.Labels.{
  read_label, is_last_label, decode_label_loop, decode_label, parse_route_distinguisher, LabelState,
  read_rd, read_address, label_round, label_loop, parse_nlri_data_label,
}

read_label-Ends : (d : Bytes) → Ends (λ p. Unit) (read_label d)
unfolding read_label
read_label-Ends d = Post-bind AnyFault _ _ (read_bytes 3 d) _ (read_bytes-Ends 3 d) (λ p e. tt)

decode_label_loop-Ends :
    (f len read : ℕ) (d : Bytes) (labels : Text)
    → len + 1 - read < f
    → Ends (λ p. Unit) (decode_label_loop f len read d labels)
unfolding decode_label_loop
decode_label_loop-Ends zero len read d labels fuel = absurd (omega arith)
decode_label_loop-Ends (suc f) len read d labels fuel = elim (Bool-cases (leb read len)) [
  | inl more ↦ rw more (
      Post-bind AnyFault _ _ (read_label d) _ (read_label-Ends d) λ p e.
        elim (Bool-cases (is_last_label p.0)) [
          | inl last ↦ rw last tt
          | inr inner ↦
              rw inner (
                decode_label_loop-Ends f len (read + 3) p.1 _ (omega (arith, leb→le read len more)))
        ])
  | inr done ↦ rw done tt
]

decode_label-Ends : (d : Bytes) (len : ℕ) → Ends (λ p. Unit) (decode_label d len)
unfolding decode_label
decode_label-Ends d len = decode_label_loop-Ends (len + 2) len 0 d [] (omega arith)

-- Three reads, and what is built from them.
three_reads :
    {A : Type 0} (d : Bytes) (n : ℕ) (k : ℕ) (build : ℕ → ℕ → A)
    → Ends (λ r. Unit) (read_uint n d >>= λ p. read_uint k p.1 >>= λ q. ok (build p.0 q.0))
three_reads d n k build =
    Post-bind AnyFault _ _ (read_uint n d) _ (read_uint-Ends n d)
      λ p e. Post-bind AnyFault _ _ (read_uint k p.1) _ (read_uint-Ends k p.1) (λ q e'. tt)

pub parse_route_distinguisher-Ends :
    (h : Host) (d : Bytes) (rd : RdTuple) → Ends (λ r. Unit) (parse_route_distinguisher h d rd)
unfolding parse_route_distinguisher
parse_route_distinguisher-Ends h d rd = Post-bind AnyFault _ _ (read_u8 d) _ (read_u8-Ends d) λ p e.
    Post-bind AnyFault _ _ (read_u8 p.1) _ (read_u8-Ends p.1) λ q e'. elim (Bool-cases (q.0 == 0)) [
      | inl zero_type ↦ rw zero_type (three_reads q.1 2 4 _)
      | inr other ↦ rw other (elim (Bool-cases (q.0 == 1)) [
        | inl one ↦ rw one (
            Post-bind AnyFault _ _ (read_bytes 4 q.1) _ (read_bytes-Ends 4 q.1) λ r er.
              Post-bind AnyFault _ _ (read_uint 2 r.1) _ (read_uint-Ends 2 r.1) (λ s es. tt))
        | inr more ↦ rw more (elim (Bool-cases (q.0 == 2)) [
          | inl two ↦ rw two (three_reads q.1 4 2 _)
          | inr unknown ↦ rw unknown tt
        ])
      ])
    ]

abbrev Grows : ℕ → LabelState → Type 0
Grows read s = read ≤ s.read

read_rd-Ends :
    (h : Host) (is_vpn : Bool) (s : LabelState) → Ends (Grows s.read) (read_rd h is_vpn s)
unfolding read_rd
read_rd-Ends h is_vpn s = elim (Bool-cases (is_vpn && leb 8 s.bytes)) [
  | inl rd ↦ rw rd (
      Post-bind AnyFault _ _ (parse_route_distinguisher h s.rest s.entry.rd) _
        (parse_route_distinguisher-Ends h s.rest s.entry.rd) (λ p e. omega arith))
  | inr bare ↦ rw bare (omega arith)
]

read_address-Ends :
    (h : Host) (ipv4 : Bool) (s : LabelState) → Ends (Grows s.read) (read_address h ipv4 s)
unfolding read_address
read_address-Ends h ipv4 s = elim (Bool-cases (ltb 0 s.bytes)) [
  | inl some ↦ rw some (
      Post-bind AnyFault _ _ (read_bytes s.bytes s.rest) _ (read_bytes-Ends s.bytes s.rest) λ p e.
        Post-bind AnyFault _ _ (copy_into 16 p.0) _ (copy_into-Ends 16 p.0) (λ r er. omega arith))
  | inr none ↦ rw none (omega arith)
]

label_round-Ends :
    (h : Host) (ipv4 is_vpn enabled : Bool) (len read : ℕ) (d : Bytes) (entry : VpnTuple)
    → Ends (Grows read) (label_round h ipv4 is_vpn enabled len read d entry)
unfolding label_round
label_round-Ends h ipv4 is_vpn enabled len read d entry =
    Post-bind AnyFault _ _ (read_path_id (not is_vpn && enabled) len read d) _
      (read_path_id-Ends (not is_vpn && enabled) len read d)
      λ p ep. Post-bind AnyFault _ _ (read_u8 p.2) _ (read_u8-Ends p.2) λ q eq.
        Post-bind AnyFault _ _ (decode_label q.1 (addr_bytes q.0)) _
          (decode_label-Ends q.1 (addr_bytes q.0))
          λ r er. Post-bind AnyFault _ _ (read_rd h is_vpn _) _ (read_rd-Ends h is_vpn _) λ s es.
            Post-imp AnyFault _ _ (read_address h ipv4 s) (read_address-Ends h ipv4 s)
              λ t et. omega arith

label_loop-Ends :
    (f : ℕ) (h : Host) (ipv4 is_vpn enabled : Bool) (len read : ℕ) (d : Bytes) (entry : VpnTuple)
    (out : List VpnTuple)
    → len - read < f
    → Ends (λ r. Unit) (label_loop h ipv4 is_vpn enabled f len read d entry out)
unfolding label_loop
label_loop-Ends zero h ipv4 is_vpn enabled len read d entry out fuel = absurd (omega arith)
label_loop-Ends (suc f) h ipv4 is_vpn enabled len read d entry out fuel =
    elim (Bool-cases (ltb read len)) [
      | inl more ↦ rw more (
          Post-bind AnyFault _ _ (label_round h ipv4 is_vpn enabled len read d entry) _
            (label_round-Ends h ipv4 is_vpn enabled len read d entry)
            λ s es.
              label_loop-Ends f h ipv4 is_vpn enabled len (s.read + 1) s.rest s.entry _
                (omega (arith, es, ltb→lt read len more)))
      | inr done ↦ rw done tt
    ]

-- parseNlriData_LabelIPv4IPv6, at either tuple type, ends on every input and every announced length,
-- with the labels and route distinguishers that it decodes on the way.
pub parse_nlri_data_label-Ends :
    (h : Host) (ipv4 is_vpn : Bool) (d : Bytes) (len : ℕ) (info : PeerInfo)
    → Ends (λ r. Unit) (parse_nlri_data_label h ipv4 is_vpn d len info)
unfolding parse_nlri_data_label
parse_nlri_data_label-Ends h ipv4 is_vpn d len info = elim (Bool-cases (len == 0)) [
  | inl empty ↦ rw empty tt
  | inr some ↦ rw some (label_loop-Ends (suc len) h ipv4 is_vpn _ len 0 d _ [] (omega arith))
]
