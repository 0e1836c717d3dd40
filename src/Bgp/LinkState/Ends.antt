-- ===== src/Bgp/LinkState/Ends.antt =====
-- The loop over BGP-LS routes of Server/src/bgp/linkstate/MPLinkState.cpp ends on every input.
use sonic_bmp.Common.{
  [], ◌∷◌, ℕ, zero, suc, ◌+◌, ◌-◌, ◌^◌, ◌%◌, ◌≤◌, ◌<◌, Bool, true, false, not, ◌&&◌, inl, inr, ◌==◌,
  ltb, Bool-cases, Bytes, arith, Ends, Post-bind, AnyFault, read_u8, read_uint, read_uint-Ends,
  length, drop, length-drop, Option, none, some, Result, read_bytes-eq_ok, read_bytes-eq_fault, leb,
  leb→le, leb→lt,
}
use sonic_bmp.Bgp.LinkState.DescriptorEnds.{
  descriptor_loop-Ends, fill_node-Ends, fill_link-Ends, fill_prefix-Ends,
}
use sonic_bmp.Bgp.LinkState.Descriptors.{
  descriptor_loop, fill_node, fill_link, fill_prefix, empty_node_descriptor, empty_link_descriptor,
  empty_prefix_descriptor,
}
use sonic_bmp.Bgp.LinkState.Routes.{
  read_node_part, NodePart, with_part, parse_nlri_node, parse_nlri_link, parse_nlri_prefix,
}
use sonic_bmp.Bgp.LinkState.Rows.{LsData}
use sonic_bmp.Bgp.LinkState.{parse_by_type, go_on, ls_nlri_loop, parse_link_state_nlri_data}

read_node_part-Ends :
    (only_local : Bool) (data_len : ℕ) (d : Bytes)
    → Ends (λ r. Unit) (read_node_part only_local data_len d)
unfolding read_node_part
read_node_part-Ends only_local data_len d =
    Post-bind AnyFault _ _ (read_uint 2 d) _ (read_uint-Ends 2 d) λ p e.
      Post-bind AnyFault _ _ (read_uint 2 p.1) _ (read_uint-Ends 2 p.1) λ q e.
        elim (Bool-cases (ltb data_len (q.0 + 4))) [
          | inl long ↦ rw long tt
          | inr fits ↦ rw fits (elim (Bool-cases (only_local && not (p.0 == 256))) [
            | inl foreign ↦ rw foreign tt
            | inr part ↦ rw part (
                Post-bind AnyFault _ _
                  (descriptor_loop fill_node (suc q.0) q.0 0 q.1 empty_node_descriptor) _
                  (descriptor_loop-Ends (suc q.0) fill_node q.0 0 q.1 empty_node_descriptor
                    fill_node-Ends (omega arith))
                  (λ r e. tt))
          ])
        ]

with_part-Ends :
    {A : Type 0} (part : Option NodePart) (f : NodePart → Result (Option A))
    → ((p : NodePart) → Ends (λ r. Unit) (f p))
    → Ends (λ r. Unit) (with_part part f)
with_part-Ends none f h = tt
with_part-Ends (some p) f h = h p

module _ (md5 : Bytes → Bytes) (d : Bytes) (data_len id proto : ℕ) where
  parse_nlri_node-Ends : Ends (λ r. Unit) (parse_nlri_node md5 d data_len id proto)
  unfolding parse_nlri_node
  parse_nlri_node-Ends = elim (Bool-cases (ltb data_len 4)) [
    | inl short ↦ rw short tt
    | inr room ↦ rw room (
        Post-bind AnyFault _ _ (read_node_part true data_len d) _
          (read_node_part-Ends true data_len d) λ part e. with_part-Ends part _ (λ p. tt))
  ]

  parse_nlri_link-Ends : Ends (λ r. Unit) (parse_nlri_link md5 d data_len id proto)
  unfolding parse_nlri_link
  parse_nlri_link-Ends = elim (Bool-cases (ltb data_len 4)) [
    | inl short ↦ rw short tt
    | inr room ↦ rw room (
        Post-bind AnyFault _ _ (read_node_part false data_len d) _
          (read_node_part-Ends false data_len d)
          λ first e. with_part-Ends first _ λ p.
            Post-bind AnyFault _ _ (read_node_part false p.left p.rest) _
              (read_node_part-Ends false p.left p.rest)
              λ second e. with_part-Ends second _ λ q.
                Post-bind AnyFault _ _
                  (descriptor_loop fill_link (suc q.left) q.left 0 q.rest empty_link_descriptor) _
                  (descriptor_loop-Ends (suc q.left) fill_link q.left 0 q.rest empty_link_descriptor
                    fill_link-Ends (omega arith))
                  (λ r e. tt))
  ]

  parse_nlri_prefix-Ends :
      (ipv4 : Bool) → Ends (λ r. Unit) (parse_nlri_prefix md5 ipv4 d data_len id proto)
  unfolding parse_nlri_prefix
  parse_nlri_prefix-Ends ipv4 = elim (Bool-cases (ltb data_len 4)) [
    | inl short ↦ rw short tt
    | inr room ↦ rw room (
        Post-bind AnyFault _ _ (read_node_part true data_len d) _
          (read_node_part-Ends true data_len d)
          λ part e. with_part-Ends part _ λ p.
            Post-bind AnyFault _ _
              (descriptor_loop (fill_prefix ipv4) (suc p.left) p.left 0 p.rest
                empty_prefix_descriptor)
              _
              (descriptor_loop-Ends (suc p.left) (fill_prefix ipv4) p.left 0 p.rest
                empty_prefix_descriptor (fill_prefix-Ends ipv4) (omega arith))
              (λ r e. tt))
  ]

  parse_by_type-Ends :
      (type : ℕ) (l : LsData) → Ends (λ r. Unit) (parse_by_type md5 type d data_len id proto l)
  unfolding parse_by_type
  parse_by_type-Ends type l = elim (Bool-cases (type == 1)) [
    | inl e ↦ rw e (
        Post-bind AnyFault _ _ (parse_nlri_node md5 d data_len id proto) _ parse_nlri_node-Ends
          (λ t h. tt))
    | inr e ↦ rw e (elim (Bool-cases (type == 2)) [
      | inl e ↦ rw e (
          Post-bind AnyFault _ _ (parse_nlri_link md5 d data_len id proto) _ parse_nlri_link-Ends
            (λ t h. tt))
      | inr e ↦ rw e (elim (Bool-cases (type == 3)) [
        | inl e ↦ rw e (
            Post-bind AnyFault _ _ (parse_nlri_prefix md5 true d data_len id proto) _
              (parse_nlri_prefix-Ends true) (λ t h. tt))
        | inr e ↦ rw e (elim (Bool-cases (type == 4)) [
          | inl e ↦ rw e (
              Post-bind AnyFault _ _ (parse_nlri_prefix md5 false d data_len id proto) _
                (parse_nlri_prefix-Ends false) (λ t h. tt))
          | inr e ↦ rw e tt
        ])
      ])
    ])
  ]

-- What a number takes off the buffer.
read_uint-shrinks : (n : ℕ) (d : Bytes) → Ends (λ p. length p.1 + n ≤ length d) (read_uint n d)
unfolding read_uint
read_uint-shrinks n d = elim (Bool-cases (leb n (length d))) [
  | inl room ↦
      let l = length-drop n d in
      rw (read_bytes-eq_ok n d (leb→le n (length d) room))
        (omega (arith, l, leb→le n (length d) room))
  | inr short ↦ rw (read_bytes-eq_fault n d (leb→lt n (length d) short)) tt
]

go_on-Ends :
    (parsed : Option LsData) (l : LsData) (next : LsData → Result LsData)
    → ((l' : LsData) → Ends (λ r. Unit) (next l'))
    → Ends (λ r. Unit) (go_on parsed l next)
go_on-Ends none l next h = tt
go_on-Ends (some l') l next h = h l'

read_u8-shrinks : (d : Bytes) → Ends (λ p. length p.1 + 1 ≤ length d) (read_u8 d)
unfolding read_u8
read_u8-shrinks [] = tt
read_u8-shrinks (b ∷ d) = omega arith

ls_nlri_loop-Ends :
    (f : ℕ) (md5 : Bytes → Bytes) (len read : ℕ) (d : Bytes) (l : LsData)
    → length d < f
    → Ends (λ r. Unit) (ls_nlri_loop md5 f len read d l)
unfolding ls_nlri_loop
ls_nlri_loop-Ends zero md5 len read d l fuel = absurd (omega arith)
ls_nlri_loop-Ends (suc f) md5 len read d l fuel = elim (Bool-cases (ltb read len)) [
  | inl more ↦ rw more (
      Post-bind AnyFault _ _ (read_uint 2 d) _ (read_uint-shrinks 2 d) λ p hp.
        Post-bind AnyFault _ _ (read_uint 2 p.1) _ (read_uint-shrinks 2 p.1) λ q hq.
          elim (Bool-cases (ltb len q.0)) [
            | inl long ↦ rw long tt
            | inr fits ↦ rw fits (
                let n = (q.0 + 2 ^ 16 - 9) % 2 ^ 16 in
                Post-bind AnyFault _ _ (read_u8 q.1) _ (read_u8-shrinks q.1) λ a ha.
                  Post-bind AnyFault _ _ (read_uint 8 a.1) _ (read_uint-shrinks 8 a.1) λ b hb.
                    Post-bind AnyFault _ _ (parse_by_type md5 p.0 b.1 n b.0 a.0 l) _
                      (parse_by_type-Ends md5 b.1 n b.0 a.0 p.0 l)
                      λ parsed e. go_on-Ends parsed l _ λ l'.
                        ls_nlri_loop-Ends f md5 len ((read + 13 + n) % 2 ^ 16) (drop n b.1) l'
                          (omega (arith, hp, hq, ha, hb, fuel, length-drop n b.1)))
          ])
  | inr done ↦ rw done tt
]

-- parseLinkStateNlriData ends on every input and every announced length, although the count of the bytes
-- that it has read wraps around.
pub parse_link_state_nlri_data-Ends :
    (md5 : Bytes → Bytes) (d : Bytes) (len : ℕ) (l : LsData)
    → Ends (λ r. Unit) (parse_link_state_nlri_data md5 d len l)
unfolding parse_link_state_nlri_data
parse_link_state_nlri_data-Ends md5 d len l =
    ls_nlri_loop-Ends (suc (length d)) md5 len 0 d l (omega arith)
