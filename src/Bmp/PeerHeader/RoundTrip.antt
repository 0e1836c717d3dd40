-- ===== src/Bmp/PeerHeader/RoundTrip.antt =====
-- A peer header that is written as RFC 7854 (section 4.2) says is read back.
use sonic_bmp.Common.{
  ℕ, ◌+◌, ◌-◌, ◌%◌, ◌^◌, ◌<◌, ◌≡◌, refl, sym, ap, ◌∙◌, Bool, true, false, not, ◌&&◌, ◌||◌,
  length-drop, Bool-cases, inl, inr, [], ◌∷◌, ◌++◌, ◌==◌, if◌then◌else◌, Bytes, length, take, drop,
  take-append-length, drop-append-length, append-nil, length-append, arith, ok, read_u8, read_uint,
  network, length-network, read_uint-network, read_bytes-length, lt→ltb,
}
use sonic_bmp.Bgp.Types.{Host}
use sonic_bmp.Bmp.PeerHeader.Printed.{
  bit_set, separated, printed_rd, rd_text-printed, ipv4_text-separated, has_flag-bit,
}
use sonic_bmp.Bmp.PeerHeader.{Peer, parse_peer_flags, rd_text, ipv4_text, recv_into, parse_peer_hdr}

-- A header to be written.
pub record Header : Type 0 where
  pub type : ℕ
  pub flags : ℕ
  pub rd : Bytes
  pub addr : Bytes
  pub asn : ℕ
  pub bgp_id : Bytes
  pub secs : ℕ
  pub usecs : ℕ

-- The time is one that the sender has set.
pub record IsHeader (x : Header) : Type 0 where
  pub rd_length : length x.rd ≡ 8
  pub addr_length : length x.addr ≡ 16
  pub asn_small : x.asn < 256 ^ 4
  pub id_length : length x.bgp_id ≡ 4
  pub secs_small : x.secs < 256 ^ 4
  pub secs_set : (x.secs == 0) ≡ false
  pub usecs_small : x.usecs < 1000000

abbrev pub encode_peer : Header → Bytes
encode_peer x =
    x.type
    ∷ x.flags
    ∷ (x.rd
        ++ (x.addr ++ (network 4 x.asn ++ (x.bgp_id ++ (network 4 x.secs ++ network 4 x.usecs)))))

pub length-encode_peer : (x : Header) → IsHeader x → length (encode_peer x) ≡ 42
length-encode_peer x v =
    let t5 = network 4 x.secs ++ network 4 x.usecs in
    let t4 = x.bgp_id ++ t5 in
    let t3 = network 4 x.asn ++ t4 in
    let t2 = x.addr ++ t3 in
    omega (
      arith,
      length-append x.rd t2,
      length-append x.addr t3,
      length-append (network 4 x.asn) t4,
      length-append x.bgp_id t5,
      length-append (network 4 x.secs) (network 4 x.usecs),
      length-network 4 x.asn,
      length-network 4 x.secs,
      length-network 4 x.usecs,
      v.rd_length,
      v.addr_length,
      v.id_length,
    )

-- A structure that the stream has in full is received as it is.
recv_into-whole : (n : ℕ) (bs d : Bytes) → length bs ≡ n → recv_into n (bs ++ d) ≡ (bs, d)
unfolding recv_into
recv_into-whole n bs d e =
    let t : take n (bs ++ d) ≡ bs =
      ap (λ (k : ℕ). take k (bs ++ d)) (sym e) ∙ take-append-length bs d in
    let r : drop n (bs ++ d) ≡ d =
      ap (λ (k : ℕ). drop k (bs ++ d)) (sym e) ∙ drop-append-length bs d in
    let none : n - length bs ≡ 0 = omega (arith, e) in rw (t, r, none, append-nil bs) refl

-- The family: the header of a Loc-RIB peer leaves it as it was.
abbrev pub is_v4 : Header → Peer → Bool
is_v4 x e = if x.type == 3 then e.is_ipv4 else not (bit_set 7 x.flags)

-- What the header means for a peer: RFC 7854 (section 4.2), RFC 8671 (section 4) and RFC 9069 (section 4.2)
-- give the flags V, L, A and O the weights 128, 64, 32 and 16, and F 128 in the header of a Loc-RIB peer.
abbrev pub read_peer : Host → Header → Peer → Peer
read_peer h x e =
    let loc_rib = x.type == 3 in
    record e {
      is_loc_rib = loc_rib;
      is_loc_rib_filtered = (loc_rib && bit_set 7 x.flags) || e.is_loc_rib_filtered;
      is_ipv4 = is_v4 x e;
      is_adj_in =
          if loc_rib
          then e.is_adj_in
          else not (bit_set 6 x.flags) || (not (bit_set 4 x.flags) && e.is_adj_in);
      is_two_octet = (not loc_rib && bit_set 5 x.flags) || e.is_two_octet;
      is_pre_policy = if loc_rib then e.is_pre_policy else not (bit_set 6 x.flags);
      is_l3vpn = if loc_rib then e.is_l3vpn else x.type == 1;
      peer_addr = if is_v4 x e then separated (drop 12 x.addr) else h.inet_ntop false x.addr;
      peer_as = x.asn;
      peer_bgp_id = h.inet_ntop true x.bgp_id;
      peer_rd = printed_rd x.rd;
      timestamp_secs = x.secs;
      timestamp_us = x.usecs;
    }

or_lem : (b c : Bool) → (if b then true else c) ≡ (b || c)
or_lem true c = refl
or_lem false c = refl

adj_in_lem :
    (l o a : Bool) → (if l then (if o then false else a) else true) ≡ (not l || (not o && a))
adj_in_lem true true a = refl
adj_in_lem true false a = refl
adj_in_lem false o a = refl

-- The flags as parsePeerFlags takes them.
parse_peer_flags-bits :
    (x : Header) (e : Peer)
    → parse_peer_flags x.type x.flags e ≡ record e {
      is_loc_rib = x.type == 3;
      is_loc_rib_filtered = ((x.type == 3) && bit_set 7 x.flags) || e.is_loc_rib_filtered;
      is_ipv4 = is_v4 x e;
      is_adj_in =
          if x.type == 3
          then e.is_adj_in
          else not (bit_set 6 x.flags) || (not (bit_set 4 x.flags) && e.is_adj_in);
      is_two_octet = (not (x.type == 3) && bit_set 5 x.flags) || e.is_two_octet;
      is_pre_policy = if x.type == 3 then e.is_pre_policy else not (bit_set 6 x.flags);
      is_l3vpn = if x.type == 3 then e.is_l3vpn else x.type == 1;
    }
unfolding parse_peer_flags
parse_peer_flags-bits x e =
    rw
      (
        has_flag-bit 7 x.flags,
        has_flag-bit 6 x.flags,
        has_flag-bit 5 x.flags,
        has_flag-bit 4 x.flags,
      )
      (elim (Bool-cases (x.type == 3)) [
        | inl loc_rib ↦ rw loc_rib (
            ap (λ (b : Bool). record e { is_loc_rib = true; is_loc_rib_filtered = b })
              (or_lem (bit_set 7 x.flags) e.is_loc_rib_filtered))
        | inr other ↦ rw other (
            ap
              (λ (p : Bool × Bool). record e {
                is_loc_rib = false;
                is_ipv4 = not (bit_set 7 x.flags);
                is_adj_in = p.0;
                is_two_octet = p.1;
                is_pre_policy = not (bit_set 6 x.flags);
                is_l3vpn = x.type == 1;
              })
              (λ i. (
                adj_in_lem (bit_set 6 x.flags) (bit_set 4 x.flags) e.is_adj_in i,
                or_lem (bit_set 5 x.flags) e.is_two_octet i,
              )))
      ])

-- The fields as parsePeerHdr computes them.
abbrev computed_peer : Host → Header → Peer → Peer
computed_peer h x e =
    let e' = parse_peer_flags x.type x.flags e in
    record e' {
      peer_addr = if e'.is_ipv4 then ipv4_text (drop 12 x.addr) else h.inet_ntop false x.addr;
      peer_as = x.asn;
      peer_bgp_id = h.inet_ntop true x.bgp_id;
      peer_rd = rd_text x.rd;
      timestamp_secs = x.secs;
      timestamp_us = x.usecs;
    }

parse_peer_hdr-computed :
    (h : Host) (now : ℕ × ℕ) (x : Header) (d : Bytes) (bmp_len : ℕ) (e : Peer)
    → IsHeader x
    → parse_peer_hdr h now (encode_peer x ++ d) bmp_len e
      ≡ ok (computed_peer h x e, (bmp_len + 2 ^ 32 - 42) % 2 ^ 32, d)
unfolding parse_peer_hdr read_u8
parse_peer_hdr-computed h now x d bmp_len e v =
    let t5 = network 4 x.secs ++ network 4 x.usecs in
    let t4 = x.bgp_id ++ t5 in
    let t3 = network 4 x.asn ++ t4 in
    let t2 = x.addr ++ t3 in
    let last : read_uint 4 (network 4 x.usecs) ≡ ok (x.usecs, []) =
      ap (read_uint 4) (sym (append-nil (network 4 x.usecs)))
      ∙ read_uint-network 4 x.usecs [] (let s = v.usecs_small in omega (arith, s)) in
    rw
      (
        recv_into-whole 42 (encode_peer x) d (length-encode_peer x v),
        parse_peer_hdr,
        read_bytes-length 8 x.rd t2 v.rd_length,
        read_bytes-length 16 x.addr t3 v.addr_length,
        read_uint-network 4 x.asn t4 v.asn_small,
        read_bytes-length 4 x.bgp_id t5 v.id_length,
        read_uint-network 4 x.secs (network 4 x.usecs) v.secs_small,
        last,
        v.secs_set,
        lt→ltb x.usecs 1000000 v.usecs_small,
      )
      refl

computed_peer-read :
    (h : Host) (x : Header) (e : Peer) → IsHeader x → computed_peer h x e ≡ read_peer h x e
computed_peer-read h x e v =
    let l : length (drop 12 x.addr) ≡ 4 = omega (arith, length-drop 12 x.addr, v.addr_length) in
    rw
      (
        parse_peer_flags-bits x e,
        rd_text-printed x.rd v.rd_length,
        ipv4_text-separated (drop 12 x.addr) l,
      )
      refl

-- A peer header that is written with a time that is set is read back by parsePeerHdr, whatever follows
-- it on the stream: the flags are the bits that RFC 7854, RFC 8671 and RFC 9069 assign, but that the O flag
-- without the L flag leaves isAdjIn set and that flags which are kept from message to message (A, F and,
-- with both O and L, isAdjIn) are not taken back; the address is printed for the family, the distinguisher
-- by its second byte, with its numbers of 31 bits and more extended by their sign, the other fields are the
-- header's, bmp_len is less by the 42 bytes, and the stream stands behind them.
pub parse_peer_hdr-encode_peer :
    (h : Host) (now : ℕ × ℕ) (x : Header) (d : Bytes) (bmp_len : ℕ) (e : Peer)
    → IsHeader x
    → parse_peer_hdr h now (encode_peer x ++ d) bmp_len e
      ≡ ok (read_peer h x e, (bmp_len + 2 ^ 32 - 42) % 2 ^ 32, d)
parse_peer_hdr-encode_peer h now x d bmp_len e v =
    parse_peer_hdr-computed h now x d bmp_len e v
    ∙ ap (λ (p : Peer). ok (p, (bmp_len + 2 ^ 32 - 42) % 2 ^ 32, d)) (computed_peer-read h x e v)
