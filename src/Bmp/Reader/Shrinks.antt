-- ===== src/Bmp/Reader/Shrinks.antt =====
-- Every message that ReadIncomingMsg reads leaves a shorter stream.
use sonic_bmp.Common.{
  ℕ, ◌+◌, ◌-◌, ◌%◌, ◌^◌, ◌<◌, ◌≤◌, ◌≡◌, refl, [], ◌∷◌, ◌||◌, ◌==◌, ltb, leb, if◌then◌else◌, inl,
  inr, Bool-cases, Text, Bytes, length, replicate, arith, IfOk, IfOk-bind, IfOk-then, IfOk-imp,
}
use sonic_bmp.Bgp.Dispatch.{handle_update, handle_up_event}
use sonic_bmp.Bgp.Types.{Host, Callees}
use sonic_bmp.Bmp.CommonHeader.{Message, buffer_size, buffer_bmp_message}
use sonic_bmp.Bmp.Info.{zero_filled}
use sonic_bmp.Bmp.Init.{Router, handle_init_msg}
use sonic_bmp.Bmp.PeerHeader.{Peer}
use sonic_bmp.Bmp.PeerUp.{UpHeader, parse_peer_up_event_hdr, parse_peer_down_event_hdr}
use sonic_bmp.Bmp.Stats.{stats_size, handle_stats_report}
use sonic_bmp.Bmp.Term.{handle_term_msg}
use sonic_bmp.Bmp.Version2.{handle_message}
use sonic_bmp.Bmp.Reader.{
  PeerInfoMap, peer_info_of, peer_info_key, note_two_octet, new_parser, Incoming, peer_down,
  read_down, read_up, read_monitoring, read_quiet, read_table, read_body, read_incoming_msg,
}
use sonic_bmp.Bmp.Reader.Bodies.{up-hdr-shorter, stats-shorter, init-shorter, term-shorter}
use sonic_bmp.Bmp.Reader.Shorter.{buffer-shorter, handle_message-shorter}

module _ {X : Type 0} (h : Host) (c : Callees X) (empty : X) (ip : Text) where
  -- What is left is no longer than what there was.
  abbrev Shrinks : Bytes → Incoming X × PeerInfoMap × Bytes → Type 0
  Shrinks sock r = length r.2 ≤ length sock

  down-Shrinks : (m : Message) → IfOk (λ r. length r.2 ≤ length m.sock) (read_down h c empty ip m)
  unfolding read_down parse_peer_down_event_hdr
  down-Shrinks m = cases m.sock refl
    where
      cases :
          (sock : Bytes)
          → m.sock ≡ sock
          → IfOk (λ r. length r.2 ≤ length m.sock) (read_down h c empty ip m)
      cases [] e = rw e tt
      cases (b ∷ sock) e = rw e (
          IfOk-then (λ r. length r.2 ≤ length sock) _
            (buffer_bmp_message [] ((m.len + 2 ^ 32 - 1) % 2 ^ 32) sock) _
            (buffer-shorter [] ((m.len + 2 ^ 32 - 1) % 2 ^ 32) sock)
            (λ r l.
              IfOk-bind _
                (peer_down h c empty ip m.peer b (zero_filled buffer_size r.0) (length r.0)) _
                (λ event. omega (arith, l))))

  up-Shrinks :
      (m : Message) (peers : PeerInfoMap) → IfOk (Shrinks m.sock) (read_up h c empty ip m peers)
  unfolding read_up
  up-Shrinks m peers =
      let none_yet : UpHeader = record { local_ip = []; local_port = 0; remote_port = 0 } in
      IfOk-then (λ r. length r.3 ≤ length m.sock) (Shrinks m.sock)
        (parse_peer_up_event_hdr h m.peer.is_ipv4 m.sock m.len none_yet) _
        (up-hdr-shorter h m.peer.is_ipv4 m.sock m.len none_yet)
        (λ r l. elim (Bool-cases r.0) [
          | inl good ↦ rw good (
              IfOk-bind (Shrinks m.sock)
                (handle_up_event h (zero_filled buffer_size r.2) (length r.2) (0, 0) (0, 0)
                  (peer_info_of (peer_info_key m.peer) peers) new_parser)
                _
                (λ event.
                  IfOk-bind (Shrinks m.sock) (read_table h c empty ip r.2 event.total) _
                    (λ table. l)))
          | inr bad ↦ rw bad l
        ])

  monitoring-Shrinks :
      (m : Message) (peers : PeerInfoMap)
      → IfOk (Shrinks m.sock) (read_monitoring h c empty ip m peers)
  unfolding read_monitoring
  monitoring-Shrinks m peers =
      IfOk-then (λ r. length r.2 ≤ length m.sock) (Shrinks m.sock)
        (buffer_bmp_message [] m.len m.sock) _ (buffer-shorter [] m.len m.sock)
        (λ b l.
          IfOk-bind (Shrinks m.sock)
            (handle_update h c empty (zero_filled buffer_size b.0) (length b.0)
              (peer_info_of (peer_info_key m.peer) peers) new_parser)
            _ (λ u. l))

  quiet-Shrinks :
      (m : Message) (peers : PeerInfoMap) (router : Router)
      → IfOk (Shrinks m.sock) (read_quiet h c empty ip m peers router)
  unfolding read_quiet
  quiet-Shrinks m peers router = elim (Bool-cases (m.type == 1)) [
    | inl stats ↦ rw stats (
        IfOk-then (λ r. length r.2 ≤ length m.sock) (Shrinks m.sock)
          (handle_stats_report m.sock m.len (replicate stats_size 0)) _
          (stats-shorter m.sock m.len (replicate stats_size 0)) (λ r l. l))
    | inr t1 ↦ elim (Bool-cases (m.type == 4)) [
      | inl begins ↦
          rw (t1, begins)
            (IfOk-then (λ r. length r.1 ≤ length m.sock) (Shrinks m.sock)
              (handle_init_msg h m.sock m.len router) _ (init-shorter h m.sock m.len router)
              (λ r l. l))
      | inr t4 ↦ elim (Bool-cases (m.type == 5)) [
        | inl ends ↦
            rw (t1, t4, ends)
              (IfOk-then (λ r. length r.1 ≤ length m.sock) (Shrinks m.sock)
                (handle_term_msg m.sock m.len router) _ (term-shorter m.sock m.len router)
                (λ r l. l))
        | inr t5 ↦ rw (t1, t4, t5) (omega arith)
      ]
    ]
  ]

  body-Shrinks :
      (m : Message) (peers : PeerInfoMap) (router : Router)
      → IfOk (Shrinks m.sock) (read_body h c empty ip m peers router)
  unfolding read_body
  body-Shrinks m peers router = elim (Bool-cases (m.type == 2)) [
    | inl down ↦ rw down (
        IfOk-then (λ r. length r.2 ≤ length m.sock) (Shrinks m.sock) (read_down h c empty ip m) _
          (down-Shrinks m) (λ r l. l))
    | inr t2 ↦ elim (Bool-cases (m.type == 3)) [
      | inl up ↦ rw (t2, up) (up-Shrinks m peers)
      | inr t3 ↦ elim (Bool-cases (m.type == 0)) [
        | inl monitoring ↦ rw (t2, t3, monitoring) (monitoring-Shrinks m peers)
        | inr t0 ↦ rw (t2, t3, t0) (quiet-Shrinks m peers router)
      ]
    ]
  ]

  pub incoming-shorter :
      (now : ℕ × ℕ) (sock : Bytes) (peers : PeerInfoMap) (e : Peer) (router : Router)
      → IfOk
          (λ r. length r.2 < length sock)
          (read_incoming_msg h c empty ip now sock peers e router)
  unfolding read_incoming_msg
  incoming-shorter now sock peers e router =
      IfOk-then (λ m. length m.sock < length sock) _ (handle_message h now sock e) _
        (handle_message-shorter h now sock e)
        (λ m l.
          let peers' =
            if ltb m.type 4 || leb 128 m.type then note_two_octet m.peer peers else peers in
          IfOk-imp (Shrinks m.sock) _ (read_body h c empty ip m peers' router)
            (body-Shrinks m peers' router) (λ r k. omega (arith, l, k)))
