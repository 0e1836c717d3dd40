-- ===== src/Bmp/Reader/Monitoring.antt =====
-- A route monitoring message goes from the stream to the parsed update.
use sonic_bmp.Common.{
  ℕ, ◌+◌, ◌-◌, ◌<◌, ◌≡◌, refl, ap, ◌∙◌, Bool, true, false, not, ◌&&◌, ◌||◌, if◌then◌else◌,
  Bool-cases, inl, inr, Result, [], ◌∷◌, ◌++◌, append_assoc, append-nil, Text, Bytes, length,
  length-append, replicate, some, ok, network, length-network, arith,
}
use sonic_bmp.Bgp.AddPath.{text_eq, text_eq_iff, is_add_path_enabled}
use sonic_bmp.Bgp.Dispatch.{no_data}
use sonic_bmp.Bgp.Dispatch.RoundTrip.{frame, handle_update-encode_update}
use sonic_bmp.Bgp.Types.{Host, PeerInfo, Session, Callees, afi_ipv4, safi_unicast}
use sonic_bmp.Bgp.Attributes.Format.{encode_attrs}
use sonic_bmp.Bgp.Nlri.RoundTrip.{encode_all}
use sonic_bmp.Bgp.Update.RoundTrip.{Update, IsUpdate, encode_update, update_size, update_result}
use sonic_bmp.Bmp.CommonHeader.{buffer_size}
use sonic_bmp.Bmp.CommonHeader.Reads.{
  encode_message, parse_bmp_v3-encode_message, buffer_bmp_message-whole,
}
use sonic_bmp.Bmp.Init.{Router}
use sonic_bmp.Bmp.PeerHeader.{Peer}
use sonic_bmp.Bmp.PeerHeader.RoundTrip.{Header, IsHeader, read_peer}
use sonic_bmp.Bmp.Version2.{handle_message}
use sonic_bmp.Bmp.Reader.{
  Incoming, PeerInfoMap, peer_info_of, set_peer_info, peer_info_key, note_two_octet, new_parser,
  monitored, read_body, read_monitoring, read_incoming_msg,
}

length-encode_update :
    (enabled two : Bool) (u : Update)
    → length (encode_update enabled two u []) ≡ update_size enabled two u
length-encode_update enabled two u =
    let gone = encode_all enabled u.gone in
    let attrs = encode_attrs two u.attrs in
    let routes = encode_all enabled u.routes in
    let t3 = attrs ++ (routes ++ []) in
    let t2 = network 2 (length attrs) ++ t3 in
    omega (
      arith,
      length-append (network 2 (length gone)) (gone ++ t2),
      length-append gone t2,
      length-append (network 2 (length attrs)) t3,
      length-append attrs (routes ++ []),
      length-append routes [],
      length-network 2 (length gone),
      length-network 2 (length attrs),
    )

encode_update-append :
    (enabled two : Bool) (u : Update) (d : Bytes)
    → encode_update enabled two u [] ++ d ≡ encode_update enabled two u d
encode_update-append enabled two u d =
    let gone = encode_all enabled u.gone in
    let attrs = encode_attrs two u.attrs in
    let routes = encode_all enabled u.routes in simp (append_assoc, append-nil)

-- The message with anything behind it.
frame-append :
    (marker : Bytes) (n type : ℕ) (body d : Bytes)
    → frame marker n type body ++ d ≡ frame marker n type (body ++ d)
frame-append marker n type body d =
    append_assoc marker (network 2 (19 + n) ++ (type ∷ body)) d
    ∙ ap (λ (t : Bytes). marker ++ t) (append_assoc (network 2 (19 + n)) (type ∷ body) d)

length-frame :
    (marker : Bytes) (n type : ℕ) (body : Bytes)
    → length marker ≡ 16
    → length (frame marker n type body) ≡ 19 + length body
length-frame marker n type body e = omega (
  arith,
  e,
  length-append marker (network 2 (19 + n) ++ (type ∷ body)),
  length-append (network 2 (19 + n)) (type ∷ body),
  length-network 2 (19 + n),
)

-- An entry that was assigned is read back.
peer_info_of-same :
    (key : Text) (info : PeerInfo) (m : PeerInfoMap)
    → peer_info_of key (set_peer_info key info m) ≡ info
unfolding peer_info_of set_peer_info
peer_info_of-same key info [] = rw ((text_eq_iff key key).1 refl) refl
peer_info_of-same key info ((k, i) ∷ m) = elim (Bool-cases (text_eq k key)) [
  | inl here ↦ rw (here, here) refl
  | inr there ↦ rw (there, there, peer_info_of-same key info m) refl
]

-- The peer's state that a message is read with: its entry, and the two-octet flag if the header has it.
abbrev pub state_for : Peer → PeerInfoMap → PeerInfo
state_for p peers =
    let i = peer_info_of (peer_info_key p) peers in
    record i { using_2_octet_asn = i.using_2_octet_asn || p.is_two_octet }

either_lem : (t b : Bool) → (if not t && b then true else t) ≡ (t || b)
either_lem true b = refl
either_lem false true = refl
either_lem false false = refl

flag_lem :
    (i : PeerInfo) (c : Bool)
    → (if c then record i { using_2_octet_asn = true } else i)
      ≡ record i { using_2_octet_asn = if c then true else i.using_2_octet_asn }
flag_lem i true = refl
flag_lem i false = refl

note_two_octet-state :
    (p : Peer) (peers : PeerInfoMap)
    → peer_info_of (peer_info_key p) (note_two_octet p peers) ≡ state_for p peers
unfolding note_two_octet
note_two_octet-state p peers =
    let i = peer_info_of (peer_info_key p) peers in
    peer_info_of-same (peer_info_key p) _ peers
    ∙ flag_lem i (not i.using_2_octet_asn && p.is_two_octet)
    ∙ ap (λ (t : Bool). record i { using_2_octet_asn = t })
        (either_lem i.using_2_octet_asn p.is_two_octet)

module _ {X : Type 0} where
  -- An update message of `n` bytes behind its header has been read from a peer: what it means is passed on,
  -- the peer's entry is the state that it leaves, and the stream stands in front of `d`.
  abbrev pub Delivers :
      Peer → ℕ → Session X → Bytes → Result (Incoming X × PeerInfoMap × Bytes) → Type 0
  Delivers p n s d r =
      (after : PeerInfoMap) × (r
        ≡ ok (
          monitored p (record {
            error = false;
            info = s.info;
            parser = record { len = 19 + n; type = 2; remaining = 0 };
            stored = some s.parsed;
          }),
          after,
          d,
        ))
      × (peer_info_of (peer_info_key p) after ≡ s.info)

module _ {X : Type 0} (h : Host) (c : Callees X) (empty : X) where
  -- The same with the map as it is computed.
  read_incoming_msg-noted :
      (ip : Text) (now : ℕ × ℕ) (x : Header) (marker : Bytes) (enabled : Bool) (u : Update)
      (d : Bytes) (peers : PeerInfoMap) (info : PeerInfo) (e : Peer) (router : Router)
      → IsHeader x
      → length marker ≡ 16
      → peer_info_of (peer_info_key (read_peer h x e)) (note_two_octet (read_peer h x e) peers)
        ≡ info
      → is_add_path_enabled afi_ipv4 safi_unicast info.add_path_capability ≡ enabled
      → IsUpdate enabled info.using_2_octet_asn u
      → 61 + update_size enabled info.using_2_octet_asn u < 65536
      → (let p = read_peer h x e in
          let n = update_size enabled info.using_2_octet_asn u in
          let s = update_result h u (record { info = info; parsed = no_data empty }) in
          read_incoming_msg h c empty ip now
            (3
              ∷ encode_message 0 x
                  (frame marker n 2 (encode_update enabled info.using_2_octet_asn u []))
                  d)
            peers
            e
            router
          ≡ ok (
            monitored p (record {
              error = false;
              info = s.info;
              parser = record { len = 19 + n; type = 2; remaining = 0 };
              stored = some s.parsed;
            }),
            set_peer_info (peer_info_key p) s.info (note_two_octet p peers),
            d,
          ))
  unfolding read_incoming_msg read_body read_monitoring handle_message
  read_incoming_msg-noted ip now x marker enabled u d peers info e router v m there en w small =
      let two = info.using_2_octet_asn in
      let n = update_size enabled two u in
      let update = encode_update enabled two u [] in
      let body = frame marker n 2 update in
      let size : length body ≡ 19 + n =
        length-frame marker n 2 update m
        ∙ ap (λ (k : ℕ). 19 + k) (length-encode_update enabled two u) in
      let zeros : Bytes = replicate (buffer_size - length body) 0 in
      rw
        (
          parse_bmp_v3-encode_message h now 0 x body d e (omega arith) v
              (omega (arith, size, small)),
          buffer_bmp_message-whole body d (omega (arith, size, small)),
          there,
          frame-append marker n 2 update zeros,
          encode_update-append enabled two u zeros,
          size,
          handle_update-encode_update h c empty enabled u marker
              (replicate (buffer_size - (19 + n)) 0) info new_parser en w m (omega (arith, small)),
        )
        refl

  -- A route monitoring message of BMP version 3 whose body is a framed update message of known parts
  -- goes through ReadIncomingMsg as a whole: the peer is what the peer header says, the update's
  -- meaning is passed to UpdateDB, the peer's state in the map is the one that the update leaves, and
  -- the stream stands behind the message. The update is written as the peer's state in the map says,
  -- with two octets for an AS number also if the header has the two-octet flag.
  pub read_incoming_msg-route_monitoring :
      (ip : Text) (now : ℕ × ℕ) (x : Header) (marker : Bytes) (enabled : Bool) (u : Update)
      (d : Bytes) (peers : PeerInfoMap) (info : PeerInfo) (e : Peer) (router : Router)
      → IsHeader x
      → length marker ≡ 16
      → state_for (read_peer h x e) peers ≡ info
      → is_add_path_enabled afi_ipv4 safi_unicast info.add_path_capability ≡ enabled
      → IsUpdate enabled info.using_2_octet_asn u
      → 61 + update_size enabled info.using_2_octet_asn u < 65536
      → Delivers
          (read_peer h x e)
          (update_size enabled info.using_2_octet_asn u)
          (update_result h u (record { info = info; parsed = no_data empty }))
          d
          (read_incoming_msg h c empty ip now
            (3
              ∷ encode_message 0 x
                  (frame marker
                    (update_size enabled info.using_2_octet_asn u)
                    2
                    (encode_update enabled info.using_2_octet_asn u []))
                  d)
            peers
            e
            router)
  read_incoming_msg-route_monitoring ip now x marker enabled u d peers info e router v m there en w
        small =
      let p = read_peer h x e in
      let s = update_result h u (record { info = info; parsed = no_data empty }) in
      (
        set_peer_info (peer_info_key p) s.info (note_two_octet p peers),
        read_incoming_msg-noted ip now x marker enabled u d peers info e router v m
            (note_two_octet-state p peers ∙ there) en w small,
        peer_info_of-same (peer_info_key p) s.info (note_two_octet p peers),
      )
