-- ===== src/Bmp/Version2/Reads.antt =====
-- What is made of the messages of BMP versions 1 and 2.
use sonic_bmp.Common.{
  ℕ, ◌^◌, ◌<◌, ◌≡◌, refl, ◌⊎◌, inl, inr, false, not, ◌∷◌, ◌++◌, ◌==◌, ltb, le→ltb, subst,
  if◌then◌else◌, codes, Bytes, length, length-append, take, drop, length-drop, [],
  take-append-length, drop-append-length, ok, throw, ◌>>=◌, read_u8, network, length-network,
  read_uint-network, read_bytes-length, arith,
}
use sonic_bmp.Bgp.Types.{Host}
use sonic_bmp.Bmp.PeerHeader.Printed.{
  bit_set, separated, printed_old_rd, rd_text_v2-printed, ipv4_text-separated, has_flag-bit,
}
use sonic_bmp.Bmp.PeerHeader.{Peer, has_flag, dotted, ipv4_text}
use sonic_bmp.Bmp.Version2.{
  rd_text_v2, bgp_length, v2_length, v2_peer, parse_bmp_v2, handle_message,
}

-- The header of a peer, behind the version and the type.
pub record Old : Type 0 where
  pub type : ℕ
  pub flags : ℕ
  pub rd : Bytes
  pub addr : Bytes
  pub asn : ℕ
  pub i0 : ℕ
  pub i1 : ℕ
  pub i2 : ℕ
  pub i3 : ℕ
  pub secs : ℕ
  pub usecs : ℕ

pub record IsOld (x : Old) : Type 0 where
  pub rd_length : length x.rd ≡ 8
  pub addr_length : length x.addr ≡ 16
  pub asn_small : x.asn < 256 ^ 4
  pub secs_small : x.secs < 256 ^ 4

abbrev pub encode_old : Old → Bytes
encode_old x =
    x.type
    ∷ x.flags
    ∷ (x.rd
        ++ (x.addr
            ++ (network 4 x.asn
                ++ (x.i0 ∷ x.i1 ∷ x.i2 ∷ x.i3 ∷ (network 4 x.secs ++ network 4 x.usecs)))))

-- What handleMessage takes from the header of a route monitoring message.
abbrev pub read_old : Host → ℕ → Old → Peer → Peer
read_old h now x e = record e {
  is_ipv4 = not (bit_set 7 x.flags);
  peer_addr = if bit_set 7 x.flags then h.inet_ntop false x.addr else separated (drop 12 x.addr);
  peer_as = x.asn;
  peer_bgp_id = separated (x.i0 ∷ x.i1 ∷ x.i2 ∷ x.i3 ∷ []);
  peer_rd = printed_old_rd x.rd;
  timestamp_secs = if x.secs == 0 then now else x.secs;
  is_l3vpn = false;
}

-- The fields as parseBMPv2 computes them.
abbrev computed_old : Host → ℕ → ℕ → Old → Peer → Peer
computed_old h now type x e = record e {
  is_ipv4 = not (has_flag x.flags 0x80);
  peer_addr =
      if has_flag x.flags 0x80 then h.inet_ntop false x.addr else ipv4_text (drop 12 x.addr);
  peer_as = x.asn;
  peer_bgp_id = dotted x.i0 x.i1 x.i2 x.i3;
  peer_rd = rd_text_v2 x.rd;
  timestamp_secs = if x.secs == 0 then now else x.secs;
  is_l3vpn = type == 1;
}

length-encode_old : (x : Old) → IsOld x → length (encode_old x) ≡ 42
length-encode_old x v =
    let a = v.rd_length in
    let b = v.addr_length in
    let t4 = network 4 x.secs ++ network 4 x.usecs in
    let t3 : Bytes = x.i0 ∷ x.i1 ∷ x.i2 ∷ x.i3 ∷ t4 in
    let t2 = network 4 x.asn ++ t3 in
    omega (
      arith,
      a,
      b,
      length-append x.rd (x.addr ++ t2),
      length-append x.addr t2,
      length-append (network 4 x.asn) t3,
      length-append (network 4 x.secs) (network 4 x.usecs),
      length-network 4 x.asn,
      length-network 4 x.secs,
      length-network 4 x.usecs,
    )

v2_peer-encode_old :
    (h : Host) (now type : ℕ) (x : Old) (e : Peer)
    → IsOld x
    → v2_peer h now type (encode_old x) e ≡ ok (computed_old h now type x e)
unfolding v2_peer read_u8
v2_peer-encode_old h now type x e v =
    let a = v.asn_small in
    let s = v.secs_small in
    let t4 = network 4 x.secs ++ network 4 x.usecs in
    let t3 : Bytes = x.i0 ∷ x.i1 ∷ x.i2 ∷ x.i3 ∷ t4 in
    let t2 = network 4 x.asn ++ t3 in
    rw
      (
        read_bytes-length 8 x.rd (x.addr ++ t2) v.rd_length,
        read_bytes-length 16 x.addr t2 v.addr_length,
        read_uint-network 4 x.asn t3 a,
        read_uint-network 4 x.secs (network 4 x.usecs) s,
      )
      refl

computed_old-read :
    (h : Host) (now : ℕ) (x : Old) (e : Peer)
    → IsOld x
    → computed_old h now 0 x e ≡ read_old h now x e
unfolding dotted
computed_old-read h now x e v =
    let l : length (drop 12 x.addr) ≡ 4 = omega (arith, length-drop 12 x.addr, v.addr_length) in
    rw
      (
        has_flag-bit 7 x.flags,
        rd_text_v2-printed x.rd v.rd_length,
        ipv4_text-separated (drop 12 x.addr) l,
      )
      refl

-- A message of version 1 or 2 with a whole header goes to parseBMPv2, and there to the length and the peer.
handle_message-old :
    (h : Host) (now : ℕ × ℕ) (ver type : ℕ) (hdr d : Bytes) (e : Peer)
    → (ver ≡ 1) ⊎ (ver ≡ 2)
    → length hdr ≡ 42
    → handle_message h now (ver ∷ type ∷ (hdr ++ d)) e ≡ (do
      len ← v2_length type d
      peer ← v2_peer h now.0 type hdr e
      ok (record { type = type; len = len; peer = peer; sock = d }))
unfolding handle_message parse_bmp_v2 read_u8
handle_message-old h now ver type hdr d e known l =
    let n = length-append hdr d in
    let whole : ltb (length (type ∷ (hdr ++ d))) 43 ≡ false =
      le→ltb (length (type ∷ (hdr ++ d))) 43 (omega (arith, n, l)) in
    let front : take 42 (hdr ++ d) ≡ hdr =
      subst (λ (k : ℕ). take k (hdr ++ d) ≡ hdr) l (take-append-length hdr d) in
    let behind : drop 42 (hdr ++ d) ≡ d =
      subst (λ (k : ℕ). drop k (hdr ++ d) ≡ d) l (drop-append-length hdr d) in
    elim known [
      | inl one ↦ rw (one, whole, front, behind) refl
      | inr two ↦ rw (two, whole, front, behind) refl
    ]

-- A route monitoring message of BMP version 1 or 2 is read by handleMessage up to its BGP message: the
-- length is the one that the BGP message has behind its marker, and the stream still stands in front of the
-- BGP message. The peer has the address, AS number, identifier, time and family of the header. It is never
-- taken for one of a VPN, whatever its type, since the type of the message is asked, and a distinguisher of
-- another type than 1 and 2 is printed from one byte too early on, with its last two bytes joined by an or.
pub handle_message-encode_old :
    (h : Host) (now : ℕ × ℕ) (ver : ℕ) (x : Old) (marker : Bytes) (len : ℕ) (d : Bytes) (e : Peer)
    → (ver ≡ 1) ⊎ (ver ≡ 2)
    → IsOld x
    → length marker ≡ 16
    → len < 65536
    → handle_message h now (ver ∷ 0 ∷ (encode_old x ++ (marker ++ (network 2 len ++ d)))) e
      ≡ ok (record {
        type = 0;
        len = len;
        peer = read_old h now.0 x e;
        sock = marker ++ (network 2 len ++ d);
      })
unfolding v2_length bgp_length
handle_message-encode_old h now ver x marker len d e known v m small =
    let bgp = marker ++ (network 2 len ++ d) in
    let long : ltb (length bgp) 18 ≡ false = le→ltb (length bgp) 18 (
      omega (
        arith,
        m,
        length-append marker (network 2 len ++ d),
        length-append (network 2 len) d,
        length-network 2 len,
      )) in
    let behind : drop 16 bgp ≡ network 2 len ++ d =
      subst (λ (k : ℕ). drop k bgp ≡ network 2 len ++ d) m
        (drop-append-length marker (network 2 len ++ d)) in
    rw
      (
        handle_message-old h now ver 0 (encode_old x) bgp e known (length-encode_old x v),
        long,
        behind,
        read_uint-network 2 len d (omega (arith, small)),
        v2_peer-encode_old h now.0 0 x e v,
        computed_old-read h now.0 x e v,
      )
      refl

-- A peer down message of BMP version 1 or 2 that has its reason is refused by handleMessage, whatever the
-- reason is: the test whether the reason could be read is the wrong way round.
pub handle_message-old_peer_down :
    (h : Host) (now : ℕ × ℕ) (ver : ℕ) (hdr : Bytes) (reason : ℕ) (d : Bytes) (e : Peer)
    → (ver ≡ 1) ⊎ (ver ≡ 2)
    → length hdr ≡ 42
    → handle_message h now (ver ∷ 2 ∷ (hdr ++ (reason ∷ d))) e
      ≡ throw (codes "Failed to read BMP peer down reason")
unfolding v2_length
handle_message-old_peer_down h now ver hdr reason d e known l =
    rw
      (
        handle_message-old h now ver 2 hdr (reason ∷ d) e known l,
        le→ltb (length (reason ∷ d)) 1 (omega arith),
      )
      refl
