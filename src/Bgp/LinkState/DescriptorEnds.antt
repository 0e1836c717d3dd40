-- ===== src/Bgp/LinkState/DescriptorEnds.antt =====
-- The loops over the descriptors of BGP-LS routes of Server/src/bgp/linkstate/MPLinkState.cpp end on every
-- input.
use sonic_bmp.Common.{
  ℕ, zero, suc, ◌+◌, ◌-◌, ◌<◌, Bool, inl, inr, ◌==◌, ltb, Bool-cases, Bytes, arith, Ends, Post-bind,
  AnyFault, read_bytes, read_u8, read_uint, read_bytes-Ends, read_uint-Ends, read_u8-Ends, ltb→lt,
  drop,
}
use sonic_bmp.Bgp.Nlri.Bounds.{copy_into-Ends}
use sonic_bmp.Bgp.Types.{copy_into}
use sonic_bmp.Bgp.LinkState.Descriptors.{
  Filler, sub_tlv, descriptor_loop, four_bytes, raw_bytes, fill_node, read_mt_id, fill_link,
  read_reach_info, fill_prefix,
}

-- A switch over sub-TLVs that comes to an end.
abbrev pub EndsAlways : {I : Type 0} → Filler I → Type 0
EndsAlways {I = I} fill =
    (type len : ℕ) (d : Bytes) (info : I) → Ends (λ r. Unit) (fill type len d info)

module _ {I : Type 0} where
  four_bytes-Ends :
      (len : ℕ) (d : Bytes) (set : ℕ → I) (info : I) → Ends (λ r. Unit) (four_bytes len d set info)
  unfolding four_bytes
  four_bytes-Ends len d set info = elim (Bool-cases (len == 4)) [
    | inl four ↦ rw four (Post-bind AnyFault _ _ (read_uint 4 d) _ (read_uint-Ends 4 d) (λ p e. tt))
    | inr other ↦ rw other tt
  ]

  raw_bytes-Ends :
      (size len : ℕ) (d : Bytes) (set : Bytes → I) (info : I)
      → Ends (λ r. Unit) (raw_bytes size len d set info)
  unfolding raw_bytes
  raw_bytes-Ends size len d set info = elim (Bool-cases (len == size)) [
    | inl exact ↦
        rw exact (Post-bind AnyFault _ _ (read_bytes size d) _ (read_bytes-Ends size d) (λ p e. tt))
    | inr other ↦ rw other tt
  ]

  -- A sub-TLV takes a byte at least off what is left.
  sub_tlv-Ends :
      (fill : Filler I) (data_len : ℕ) (d : Bytes) (info : I)
      → EndsAlways fill
      → 0 < data_len
      → Ends (λ r. 0 < r.0) (sub_tlv fill data_len d info)
  unfolding sub_tlv
  sub_tlv-Ends fill data_len d info ends pos = elim (Bool-cases (ltb data_len 4)) [
    | inl short ↦ rw short pos
    | inr room ↦ rw room (
        Post-bind AnyFault _ _ (read_uint 2 d) _ (read_uint-Ends 2 d) λ p e.
          Post-bind AnyFault _ _ (read_uint 2 p.1) _ (read_uint-Ends 2 p.1) λ q e.
            elim (Bool-cases (ltb (data_len - 4) q.0)) [
              | inl long ↦ rw long pos
              | inr fits ↦ rw fits (
                  Post-bind AnyFault _ _ (fill p.0 q.0 q.1 info) _ (ends p.0 q.0 q.1 info)
                    (λ r e. omega arith))
            ])
  ]

  pub descriptor_loop-Ends :
      (f : ℕ) (fill : Filler I) (len read : ℕ) (d : Bytes) (info : I)
      → EndsAlways fill
      → len < f
      → Ends (λ r. Unit) (descriptor_loop fill f len read d info)
  unfolding descriptor_loop
  descriptor_loop-Ends zero fill len read d info ends fuel = absurd (omega arith)
  descriptor_loop-Ends (suc f) fill len read d info ends fuel = elim (Bool-cases (ltb 0 len)) [
    | inl more ↦ rw more (
        Post-bind AnyFault _ _ (sub_tlv fill len d info) _
          (sub_tlv-Ends fill len d info ends (ltb→lt 0 len more))
          λ p e.
            descriptor_loop-Ends f fill (len - p.0) (read + p.0) (drop p.0 d) p.1 ends
              (omega (arith, e, fuel, ltb→lt 0 len more)))
    | inr done ↦ rw done tt
  ]

pub fill_node-Ends : EndsAlways fill_node
unfolding fill_node
fill_node-Ends type len d info = elim (Bool-cases (type == 512)) [
  | inl e ↦ rw e (four_bytes-Ends len d _ info)
  | inr e ↦ rw e (elim (Bool-cases (type == 513)) [
    | inl e ↦ rw e (four_bytes-Ends len d _ info)
    | inr e ↦ rw e (elim (Bool-cases (type == 514)) [
      | inl e ↦ rw e (raw_bytes-Ends 4 len d _ info)
      | inr e ↦ rw e (elim (Bool-cases (type == 515)) [
        | inl e ↦ rw e (elim (Bool-cases (ltb 8 len)) [
          | inl long ↦ rw long tt
          | inr fits ↦ rw fits (
              Post-bind AnyFault _ _ (read_bytes len d) _ (read_bytes-Ends len d) λ p h.
                Post-bind AnyFault _ _ (copy_into 8 p.0) _ (copy_into-Ends 8 p.0) (λ r h. tt))
        ])
        | inr e ↦ rw e (elim (Bool-cases (type == 516)) [
          | inl e ↦ rw e (raw_bytes-Ends 4 len d _ info)
          | inr e ↦ rw e tt
        ])
      ])
    ])
  ])
]

read_mt_id-Ends : (len : ℕ) (d : Bytes) (old : ℕ) → Ends (λ r. Unit) (read_mt_id len d old)
unfolding read_mt_id
read_mt_id-Ends len d old = elim (Bool-cases (ltb len 2)) [
  | inl short ↦ rw short tt
  | inr room ↦ rw room (elim (Bool-cases (ltb 4 len)) [
    | inl long ↦ rw long tt
    | inr fits ↦
        rw fits (Post-bind AnyFault _ _ (read_bytes len d) _ (read_bytes-Ends len d) (λ p h. tt))
  ])
]

pub fill_link-Ends : EndsAlways fill_link
unfolding fill_link
fill_link-Ends type len d info = elim (Bool-cases (type == 258)) [
  | inl e ↦ rw e (elim (Bool-cases (len == 8)) [
    | inl eight ↦ rw eight (
        Post-bind AnyFault _ _ (read_uint 4 d) _ (read_uint-Ends 4 d)
          λ p h. Post-bind AnyFault _ _ (read_uint 4 p.1) _ (read_uint-Ends 4 p.1) (λ q h. tt))
    | inr other ↦ rw other tt
  ])
  | inr e ↦ rw e (elim (Bool-cases (type == 263)) [
    | inl e ↦ rw e (
        Post-bind AnyFault _ _ (read_mt_id len d info.mt_id) _ (read_mt_id-Ends len d info.mt_id)
          (λ p h. tt))
    | inr e ↦ rw e (elim (Bool-cases (type == 259)) [
      | inl e ↦ rw e (raw_bytes-Ends 4 len d _ _)
      | inr e ↦ rw e (elim (Bool-cases (type == 261)) [
        | inl e ↦ rw e (raw_bytes-Ends 16 len d _ _)
        | inr e ↦ rw e (elim (Bool-cases (type == 260)) [
          | inl e ↦ rw e (raw_bytes-Ends 4 len d _ _)
          | inr e ↦ rw e (elim (Bool-cases (type == 262)) [
            | inl e ↦ rw e (raw_bytes-Ends 16 len d _ _)
            | inr e ↦ rw e tt
          ])
        ])
      ])
    ])
  ])
]

pub fill_prefix-Ends : (ipv4 : Bool) → EndsAlways (fill_prefix ipv4)
unfolding fill_prefix read_reach_info
fill_prefix-Ends ipv4 type len d info = elim (Bool-cases (type == 265)) [
  | inl e ↦ rw e (elim (Bool-cases (ltb len 1)) [
    | inl short ↦ rw short tt
    | inr room ↦ rw room (
        Post-bind AnyFault _ _ (read_u8 d) _ (read_u8-Ends d) λ p h.
          Post-bind AnyFault _ _ (read_bytes (len - 1) p.1) _ (read_bytes-Ends (len - 1) p.1)
            λ q h. Post-bind AnyFault _ _ (copy_into 16 q.0) _ (copy_into-Ends 16 q.0) (λ r h. tt))
  ])
  | inr e ↦ rw e (elim (Bool-cases (type == 263)) [
    | inl e ↦ rw e (
        Post-bind AnyFault _ _ (read_mt_id len d info.mt_id) _ (read_mt_id-Ends len d info.mt_id)
          (λ p h. tt))
    | inr e ↦ rw e (elim (Bool-cases (type == 264)) [
      | inl e ↦ rw e (Post-bind AnyFault _ _ (read_u8 d) _ (read_u8-Ends d) (λ p h. tt))
      | inr e ↦ rw e tt
    ])
  ])
]
