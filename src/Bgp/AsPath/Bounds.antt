-- ===== src/Bgp/AsPath/Bounds.antt =====
-- The decoder of AS paths ends, and how far past the attribute it reads.
use sonic_bmp.Common.{
  ℕ, zero, suc, ◌+◌, ◌*◌, ◌≤◌, ◌<◌, ◌≡◌, true, inl, inr, ltb, if◌then◌else◌, Bool-cases, Option,
  none, some, Bytes, length, arith, Safe, NoFault, Post-bind, Post-imp, read_u8, read_uint,
  read_uint-Safe, read_u8-Safe, ltb→lt, ltb→le,
}
use sonic_bmp.Bgp.Attrs.{Attrs}
use sonic_bmp.Bgp.Types.{PeerInfo}
use sonic_bmp.Bgp.AsPath.{
  PathState, no_path, read_segment, as_path_round, as_path_loop, parse_as_path, parse_attr_as_path,
}

read_segment-Safe :
    (size n : ℕ) (d : Bytes) (s : PathState)
    → n * size ≤ length d
    → Safe (λ p. length p.1 + n * size ≡ length d) (read_segment size n d s)
unfolding read_segment
read_segment-Safe size zero d s room = omega arith
read_segment-Safe size (suc n) d s room =
    Post-bind NoFault _ _ (read_uint size d) _ (read_uint-Safe size d (omega arith)) λ p ep.
      Post-imp NoFault _ _ (read_segment size n p.1 _)
        (read_segment-Safe size n p.1 _ (omega arith)) λ q eq. omega arith

-- Behind a round that goes on: fewer bytes are left, and the buffer still holds one byte more.
abbrev LeftFits : ℕ → Option (PathState × ℕ × Bytes) → Type 0
LeftFits left none = Unit
LeftFits left (some (s, left', d')) = (left' < left) × (left' + 1 ≤ length d')

as_path_round-Safe :
    (size left : ℕ) (d : Bytes) (s : PathState)
    → 0 < left
    → left + 1 ≤ length d
    → Safe (LeftFits left) (as_path_round size left d s)
unfolding as_path_round
as_path_round-Safe size left d s more room =
    Post-bind NoFault _ _ (read_u8 d) _ (read_u8-Safe d (omega arith)) λ p ep.
      Post-bind NoFault _ _ (read_u8 p.1) _ (read_u8-Safe p.1 (omega arith)) λ q eq.
        elim (Bool-cases (ltb left (q.0 * size + 2))) [
          | inl short ↦ rw short tt
          | inr fits ↦ rw fits (
              Post-bind NoFault _ _ (read_segment size q.0 q.1 _) _
                (read_segment-Safe size q.0 q.1 _ (omega (arith, ltb→le left _ fits)))
                λ r er. (omega (arith, ltb→le left _ fits), omega (arith, ltb→le left _ fits)))
        ]

as_path_loop-Safe :
    (f size left : ℕ) (d : Bytes) (s : PathState)
    → left < f
    → left + 1 ≤ length d
    → Safe (λ r. Unit) (as_path_loop f size left d s)
unfolding as_path_loop
as_path_loop-Safe zero size left d s fuel room = absurd (omega arith)
as_path_loop-Safe (suc f) size left d s fuel room = elim (Bool-cases (ltb 0 left)) [
  | inl more ↦ rw more (
      Post-bind NoFault _ _ (as_path_round size left d s) _
        (as_path_round-Safe size left d s (ltb→lt _ _ more) room)
        (elim [
          | none ↦ λ e. tt
          | some (s', left', d') ↦
              λ e. as_path_loop-Safe f size left' d' s' (omega (arith, e)) (omega (arith, e))
        ]))
  | inr done ↦ rw done tt
]

parse_as_path-Safe :
    (f : ℕ) (info : PeerInfo) (len : ℕ) (d : Bytes) (attrs : Attrs)
    → (if info.using_2_octet_asn then 1 else 2) ≤ f
    → len + 1 ≤ length d
    → Safe (λ r. Unit) (parse_as_path f info len d attrs)
unfolding parse_as_path
parse_as_path-Safe zero info len d attrs fuel room = absurd (ground arith)
parse_as_path-Safe (suc f) info len d attrs fuel room =
    elim (Bool-cases (ltb len (if info.using_2_octet_asn then 2 else 4))) [
      | inl short ↦ rw short tt
      | inr long ↦ rw long (
          Post-bind NoFault _ _
            (as_path_loop (suc len) (if info.using_2_octet_asn then 2 else 4) len d no_path) _
            (as_path_loop-Safe (suc len) _ len d no_path (omega arith) room)
            (elim [
              | some s ↦ λ e. tt
              | none ↦ λ e. elim (Bool-cases info.using_2_octet_asn) [
                | inl two ↦ rw two tt
                | inr four ↦ rw four (
                    parse_as_path-Safe f (record info { using_2_octet_asn = true }) len d attrs
                      (ground arith) room)
              ]
            ]))
    ]

-- parseAttr_AsPath on a buffer that holds one byte more than the attribute ends without a fault, the
-- switch to two octets included: it reads at most one byte past the attribute.
pub parse_attr_as_path-Safe :
    (info : PeerInfo) (len : ℕ) (d : Bytes) (attrs : Attrs)
    → len + 1 ≤ length d
    → Safe (λ r. Unit) (parse_attr_as_path info len d attrs)
unfolding parse_attr_as_path
parse_attr_as_path-Safe info len d attrs room =
    parse_as_path-Safe 2 info len d attrs (ground arith) room
