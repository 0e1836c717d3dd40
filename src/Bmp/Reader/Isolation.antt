-- ===== src/Bmp/Reader/Isolation.antt =====
-- The messages of one peer leave the state of the other peers alone.
use sonic_bmp.Common.{
  ℕ, ◌≡◌, refl, subst, true, false, [], ◌∷◌, ◌||◌, ◌==◌, ltb, leb, inl, inr, Bool-cases, Text,
  Bytes, length, replicate, ok, IfOk, IfOk-bind,
}
use sonic_bmp.Bgp.AddPath.{text_eq, text_eq_iff}
use sonic_bmp.Bgp.Dispatch.{handle_update, handle_up_event}
use sonic_bmp.Bgp.Types.{Host, PeerInfo, Callees}
use sonic_bmp.Bmp.CommonHeader.{Message, buffer_size, buffer_bmp_message}
use sonic_bmp.Bmp.Info.{zero_filled}
use sonic_bmp.Bmp.Init.{Router, handle_init_msg}
use sonic_bmp.Bmp.PeerHeader.{Peer}
use sonic_bmp.Bmp.PeerUp.{UpHeader, parse_peer_up_event_hdr}
use sonic_bmp.Bmp.Stats.{stats_size, handle_stats_report}
use sonic_bmp.Bmp.Term.{handle_term_msg}
use sonic_bmp.Bmp.Version2.{handle_message}
use sonic_bmp.Bmp.Reader.{
  PeerInfoMap, peer_info_of, set_peer_info, peer_info_key, note_two_octet, Incoming, read_down,
  read_up, read_monitoring, read_table, read_quiet, new_parser, read_body, read_incoming_msg,
}

-- The keys are as different as the texts are.
text_eq-false : (a b c : Text) → text_eq a b ≡ true → text_eq b c ≡ false → text_eq a c ≡ false
text_eq-false a b c e n = rw ((text_eq_iff a b).0 e) n

pub peer_info_of-other :
    (key k : Text) (info : PeerInfo) (m : PeerInfoMap)
    → text_eq key k ≡ false
    → peer_info_of k (set_peer_info key info m) ≡ peer_info_of k m
unfolding peer_info_of set_peer_info
peer_info_of-other key k info [] n = rw n refl
peer_info_of-other key k info ((j, i) ∷ m) n = elim (Bool-cases (text_eq j key)) [
  | inl here ↦ rw (here, text_eq-false j key k here n) refl
  | inr there ↦ rw (there, peer_info_of-other key k info m n) refl
]

module _ {X : Type 0} where
  -- What a peer's message may do to the map.
  abbrev pub Spares : Text → PeerInfoMap → Incoming X × PeerInfoMap × Bytes → Type 0
  Spares k peers r = peer_info_of k r.1 ≡ peer_info_of k peers

  module _ (h : Host) (c : Callees X) (empty : X) (ip : Text) (k : Text) where
    -- Statistics and the router's own messages touch no peer.
    quiet-Spares :
        (m : Message) (peers : PeerInfoMap) (router : Router)
        → IfOk (Spares k peers) (read_quiet h c empty ip m peers router)
    unfolding read_quiet
    quiet-Spares m peers router = elim (Bool-cases (m.type == 1)) [
      | inl stats ↦ rw stats (
          IfOk-bind (Spares k peers) (handle_stats_report m.sock m.len (replicate stats_size 0)) _
            (λ r. refl))
      | inr t1 ↦ elim (Bool-cases (m.type == 4)) [
        | inl begins ↦
            rw (t1, begins)
              (IfOk-bind (Spares k peers) (handle_init_msg h m.sock m.len router) _ (λ r. refl))
        | inr t4 ↦ elim (Bool-cases (m.type == 5)) [
          | inl ends ↦
              rw (t1, t4, ends)
                (IfOk-bind (Spares k peers) (handle_term_msg m.sock m.len router) _ (λ r. refl))
          | inr t5 ↦ rw (t1, t4, t5) refl
        ]
      ]
    ]

    up-Spares :
        (m : Message) (peers : PeerInfoMap)
        → text_eq (peer_info_key m.peer) k ≡ false
        → IfOk (Spares k peers) (read_up h c empty ip m peers)
    unfolding read_up
    up-Spares m peers n =
        let none_yet : UpHeader = record { local_ip = []; local_port = 0; remote_port = 0 } in
        IfOk-bind (Spares k peers) (parse_peer_up_event_hdr h m.peer.is_ipv4 m.sock m.len none_yet)
          _
          (λ r. elim (Bool-cases r.0) [
            | inl good ↦ rw good (
                IfOk-bind (Spares k peers)
                  (handle_up_event h (zero_filled buffer_size r.2) (length r.2) (0, 0) (0, 0)
                    (peer_info_of (peer_info_key m.peer) peers) new_parser)
                  _
                  (λ event.
                    IfOk-bind (Spares k peers) (read_table h c empty ip r.2 event.total) _
                      (λ table. peer_info_of-other (peer_info_key m.peer) k event.info peers n)))
            | inr bad ↦ rw bad refl
          ])

    monitoring-Spares :
        (m : Message) (peers : PeerInfoMap)
        → text_eq (peer_info_key m.peer) k ≡ false
        → IfOk (Spares k peers) (read_monitoring h c empty ip m peers)
    unfolding read_monitoring
    monitoring-Spares m peers n =
        IfOk-bind (Spares k peers) (buffer_bmp_message [] m.len m.sock) _ (λ b.
          IfOk-bind (Spares k peers)
            (handle_update h c empty (zero_filled buffer_size b.0) (length b.0)
              (peer_info_of (peer_info_key m.peer) peers) new_parser)
            _ (λ u. peer_info_of-other (peer_info_key m.peer) k u.info peers n))

    read_body-Spares :
        (m : Message) (peers : PeerInfoMap) (router : Router)
        → text_eq (peer_info_key m.peer) k ≡ false
        → IfOk (Spares k peers) (read_body h c empty ip m peers router)
    unfolding read_body
    read_body-Spares m peers router n = elim (Bool-cases (m.type == 2)) [
      | inl down ↦ rw down (IfOk-bind (Spares k peers) (read_down h c empty ip m) _ (λ r. refl))
      | inr t2 ↦ elim (Bool-cases (m.type == 3)) [
        | inl up ↦ rw (t2, up) (up-Spares m peers n)
        | inr t3 ↦ elim (Bool-cases (m.type == 0)) [
          | inl monitoring ↦ rw (t2, t3, monitoring) (monitoring-Spares m peers n)
          | inr t0 ↦ rw (t2, t3, t0) (quiet-Spares m peers router)
        ]
      ]
    ]

  -- Whatever stands on the stream, a message that ReadIncomingMsg reads changes the state of the peer
  -- that its header names and of no other: under every other key the map gives what it gave before.
  pub read_incoming_msg-Spares :
      (h : Host) (c : Callees X) (empty : X) (ip : Text) (now : ℕ × ℕ) (sock : Bytes)
      (peers : PeerInfoMap) (e : Peer) (router : Router) (m : Message) (k : Text)
      → handle_message h now sock e ≡ ok m
      → text_eq (peer_info_key m.peer) k ≡ false
      → IfOk (Spares k peers) (read_incoming_msg h c empty ip now sock peers e router)
  unfolding read_incoming_msg note_two_octet
  read_incoming_msg-Spares h c empty ip now sock peers e router m k read n =
      rw read (elim (Bool-cases (ltb m.type 4 || leb 128 m.type)) [
        | inl peer ↦ rw peer (
            subst
              (λ (i : PeerInfo).
                IfOk (λ r. peer_info_of k r.1 ≡ i)
                  (read_body h c empty ip m (note_two_octet m.peer peers) router))
              (peer_info_of-other (peer_info_key m.peer) k _ peers n)
              (read_body-Spares h c empty ip k m (note_two_octet m.peer peers) router n))
        | inr no_peer ↦ rw no_peer (read_body-Spares h c empty ip k m peers router n)
      ])
