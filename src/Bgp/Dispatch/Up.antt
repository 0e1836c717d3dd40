-- ===== src/Bgp/Dispatch/Up.antt =====
-- A peer up event of two open messages is handled as the messages say.
use sonic_bmp.Common.{
  ℕ, ◌+◌, ◌^◌, ◌≤◌, ◌<◌, ◌≡◌, refl, sym, ap, ◌∙◌, Bool, true, false, List, [], All, ◌∷◌, ◌++◌, ◌==◌,
  ◌↔◌, Result, Bytes, length, take, drop, drop-append-length, append_assoc, append-nil, arith, ok,
  network, length-network, length-append, codes, Text,
}
use sonic_bmp.Bgp.Dispatch.Search.{listed, join_from-listed, WithinOne, any_contains_iff}
use sonic_bmp.Bgp.Dispatch.{
  OpenSide, UpEvent, Parser, sub32, open_side, read_open, handle_up_event, any_contains,
}
use sonic_bmp.Bgp.Dispatch.RoundTrip.{frame, header_drop, parse_bgp_header-frame}
use sonic_bmp.Bgp.Open.{OpenState}
use sonic_bmp.Bgp.Open.Format.{
  Param, IsParam, encode_params, apply_params, Header, IsHeader, encode_open,
}
use sonic_bmp.Bgp.Open.RoundTrip.{parse_open_msg-encode_open}
use sonic_bmp.Bgp.Types.{Host, PeerInfo}
use sonic_bmp.Bgp.AddPath.{Container}

-- An open message: its header and its parameters.
pub record Open : Type 0 where
  pub header : Header
  pub params : List Param
  pub marker : Bytes

abbrev pub open_size : Open → ℕ
open_size o = 10 + length (encode_params o.params)

pub record IsOpen (o : Open) : Type 0 where
  pub is_header : IsHeader o.header
  pub are_params : All IsParam o.params
  pub sixteen : length o.marker ≡ 16
  pub small : 19 + open_size o < 256 ^ 2

abbrev pub encode_framed : Open → Bytes → Bytes
encode_framed o d = frame o.marker (open_size o) 1 (encode_open o.header o.params d)

encode_open-append :
    (x : Header) (ps : List Param) (d : Bytes) → encode_open x ps d ≡ encode_open x ps [] ++ d
encode_open-append x ps d = simp (append_assoc, append-nil)

length-encode_open :
    (x : Header) (ps : List Param)
    → IsHeader x
    → length (encode_open x ps []) ≡ 10 + length (encode_params ps)
length-encode_open x ps v =
    let p = length (encode_params ps) ∷ (encode_params ps ++ []) in
    omega (
      arith,
      length-append (network 2 x.asn) (network 2 x.hold_time ++ (x.bgp_id ++ p)),
      length-append (network 2 x.hold_time) (x.bgp_id ++ p),
      length-append x.bgp_id p,
      length-append (encode_params ps) [],
      length-network 2 x.asn,
      length-network 2 x.hold_time,
      v.id_length,
    )

open_drop :
    (x : Header) (ps : List Param) (d : Bytes)
    → IsHeader x
    → drop (10 + length (encode_params ps)) (encode_open x ps d) ≡ d
open_drop x ps d v =
    ap (λ (k : ℕ). drop k (encode_open x ps d)) (sym (length-encode_open x ps v))
    ∙ ap (λ (t : Bytes). drop (length (encode_open x ps [])) t) (encode_open-append x ps d)
    ∙ drop-append-length (encode_open x ps []) d

-- What one open message makes of the state.
abbrev pub open_result : Host → Bool → Open → OpenState → OpenState
open_result h sent o s = apply_params h sent o.params (record s {
  asn = o.header.asn;
  hold_time = o.header.hold_time;
  bgp_id = h.inet_ntop true o.header.bgp_id;
  capabilities = [];
})

read_open-frame :
    (h : Host) (sent : Bool) (wrong : Text) (o : Open) (d : Bytes) (size : ℕ) (s : OpenState)
    (p : Parser)
    → IsOpen o
    → 19 ≤ size
    → read_open h sent wrong (encode_framed o d) size s p
      ≡ ok (
        open_result h sent o s,
        19 + open_size o,
        d,
        record { len = 19 + open_size o; type = 1; remaining = 0 },
      )
unfolding read_open
read_open-frame h sent wrong o d size s p v room =
    let n = open_size o in
    let body = encode_open o.header o.params d in
    let none_left : sub32 n n ≡ 0 = let small = v.small in omega (arith, small) in
    let read_some : (n == 0) ≡ false = ground arith in
    rw
      (
        parse_bgp_header-frame o.marker n 1 size body p v.sixteen v.small room,
        read_open,
        header_drop o.marker n 1 body v.sixteen,
        parse_open_msg-encode_open h sent o.header o.params d s v.is_header v.are_params,
        read_some,
        open_drop o.header o.params d v.is_header,
        none_left,
      )
      refl

-- What handleUpEvent starts from for one side.
abbrev pub side_start : ℕ × ℕ → Container → OpenState
side_start old paths = record {
  asn = old.0;
  hold_time = old.1;
  bgp_id = [];
  capabilities = [];
  add_path_capability = paths;
}

-- One side of the event: the AS number and the hold time, the identifier's text and the texts of the
-- capabilities with commas between them, cut to their arrays.
abbrev pub side_of : OpenState → OpenSide
side_of s = record {
  asn = s.asn;
  hold_time = s.hold_time;
  bgp_id = take 16 s.bgp_id;
  caps = take 4096 (listed s.capabilities);
}

open_side-side_of : (s : OpenState) → open_side s ≡ side_of s
unfolding open_side
open_side-side_of s =
    ap (λ (t : Text). record (side_of s) { caps = take 4096 t }) (join_from-listed s.capabilities)

-- The event of two open messages with the states `s1` and `s2`, and of `n` bytes.
abbrev pub ComesUp : OpenState → OpenState → ℕ → PeerInfo → Result UpEvent → Type 0
ComesUp s1 s2 n info r =
    (sent_four : Bool) × (recv_four : Bool) × ((sent_four ≡ true)
      ↔ WithinOne (codes "4 Octet ASN") s1.capabilities)
    × ((recv_four ≡ true) ↔ WithinOne (codes "4 Octet ASN") s2.capabilities)
    × (r
        ≡ ok (record {
          total = n;
          info = record info {
            sent_four_octet_asn = sent_four;
            recv_four_octet_asn = recv_four;
            using_2_octet_asn = false;
            add_path_capability = s2.add_path_capability;
          };
          sent = side_of s1;
          received = side_of s2;
        }))

-- The same, with the event as it is computed.
handle_up_event-computed :
    (h : Host) (o1 o2 : Open) (d : Bytes) (size : ℕ) (local remote : ℕ × ℕ) (info : PeerInfo)
    (p : Parser)
    → IsOpen o1
    → IsOpen o2
    → 19 ≤ size
    → (let s1 = open_result h true o1 (side_start local info.add_path_capability) in
        let s2 = open_result h false o2 (side_start remote s1.add_path_capability) in
        handle_up_event h (encode_framed o1 (encode_framed o2 d)) size local remote info p
        ≡ ok (record {
          total = 19 + open_size o1 + (19 + open_size o2);
          info = record info {
            sent_four_octet_asn = any_contains (codes "4 Octet ASN") s1.capabilities;
            recv_four_octet_asn = any_contains (codes "4 Octet ASN") s2.capabilities;
            using_2_octet_asn = false;
            add_path_capability = s2.add_path_capability;
          };
          sent = open_side s1;
          received = open_side s2;
        }))
unfolding handle_up_event
handle_up_event-computed h o1 o2 d size local remote info p v1 v2 room =
    let s1 = open_result h true o1 (side_start local info.add_path_capability) in
    rw
      (
        read_open-frame h true _ o1 (encode_framed o2 d) size
            (side_start local info.add_path_capability) p v1 room,
        handle_up_event,
        read_open-frame h false _ o2 d size (side_start remote s1.add_path_capability) _ v2 room,
      )
      refl

-- The two open messages of a peer up event, framed and one behind the other, are read by handleUpEvent,
-- whatever stands behind them: both are consumed, each side of the event is what its message says, with the
-- texts of its capabilities in their order and cut to their array, the peer is noted as sending and receiving
-- four-octet AS numbers exactly if "4 Octet ASN" is part of the text of a capability of that side, its AS
-- paths are taken to have four octets again, and its ADD-PATH container has the sent entries and then the
-- received ones.
pub handle_up_event-encode_framed :
    (h : Host) (o1 o2 : Open) (d : Bytes) (size : ℕ) (local remote : ℕ × ℕ) (info : PeerInfo)
    (p : Parser)
    → IsOpen o1
    → IsOpen o2
    → 19 ≤ size
    → (let s1 = open_result h true o1 (side_start local info.add_path_capability) in
        let s2 = open_result h false o2 (side_start remote s1.add_path_capability) in
        ComesUp s1 s2
          (19 + open_size o1 + (19 + open_size o2))
          info
          (handle_up_event h (encode_framed o1 (encode_framed o2 d)) size local remote info p))
handle_up_event-encode_framed h o1 o2 d size local remote info p v1 v2 room =
    let s1 = open_result h true o1 (side_start local info.add_path_capability) in
    let s2 = open_result h false o2 (side_start remote s1.add_path_capability) in
    (
      any_contains (codes "4 Octet ASN") s1.capabilities,
      any_contains (codes "4 Octet ASN") s2.capabilities,
      any_contains_iff (codes "4 Octet ASN") s1.capabilities,
      any_contains_iff (codes "4 Octet ASN") s2.capabilities,
      rw (sym (open_side-side_of s1), sym (open_side-side_of s2))
          (handle_up_event-computed h o1 o2 d size local remote info p v1 v2 room),
    )
