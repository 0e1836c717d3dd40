-- ===== src/Examples/Readers.antt =====
-- A route monitoring message on the stream, read by Server/src/bmp/BMPReader.cpp.
use sonic_bmp.Common.{
  false, Bytes, length, ◌++◌, IfOk, [], ◌∷◌, ◌≡◌, refl, replicate, ok, arith, to_dec,
}
use sonic_bmp.Bgp.AddPath.{text_eq}
use sonic_bmp.Bgp.Dispatch.{no_data}
use sonic_bmp.Bgp.Dispatch.RoundTrip.{frame}
use sonic_bmp.Bgp.Update.RoundTrip.{encode_update, update_result}
use sonic_bmp.Bmp.CommonHeader.{Message}
use sonic_bmp.Bmp.CommonHeader.Reads.{encode_message, parse_bmp_v3-encode_message}
use sonic_bmp.Bmp.Version2.{handle_message}
use sonic_bmp.Bmp.Reader.Isolation.{Spares, read_incoming_msg-Spares}
use sonic_bmp.Bmp.PeerHeader.RoundTrip.{read_peer}
use sonic_bmp.Bmp.Reader.{new_peer_info, peer_info_of, peer_info_key, read_incoming_msg}
use sonic_bmp.Bgp.ExtCommunity.{uint_of}
use sonic_bmp.Bmp.Reader.Monitoring.{Delivers, state_for, read_incoming_msg-route_monitoring}
use sonic_bmp.Examples.Data.{host, callees, update, update-IsUpdate, no_families}
use sonic_bmp.Examples.Routers.{router}
use sonic_bmp.Examples.Streams.{no_peer, peer_header, peer_header-IsHeader}

-- The header's peer is new.
first_of_peer : state_for (read_peer host peer_header no_peer) [] ≡ new_peer_info
unfolding peer_info_of
first_of_peer = refl

read_incoming_msg-route_monitoring_example :
    Delivers
      (read_peer host peer_header no_peer)
      53
      (update_result host update (record { info = new_peer_info; parsed = no_data tt }))
      (9 ∷ [])
      (read_incoming_msg host callees tt []
        (1, 2)
        (3
          ∷ encode_message 0 peer_header
              (frame (replicate 16 255) 53 2 (encode_update false false update []))
              (9 ∷ []))
        []
        no_peer
        router)
read_incoming_msg-route_monitoring_example =
    read_incoming_msg-route_monitoring host callees tt [] (1, 2) peer_header (replicate 16 255)
      false update (9 ∷ []) [] new_peer_info no_peer router peer_header-IsHeader refl first_of_peer
      (no_families 1 1) update-IsUpdate (omega arith)

abbrev stream : Bytes
stream =
    encode_message 0 peer_header
      (frame (replicate 16 255) 53 2 (encode_update false false update [])) (9 ∷ [])

abbrev body : Bytes
body = frame (replicate 16 255) 53 2 (encode_update false false update [])

abbrev received : Message
received = record {
  type = 0;
  len = length body;
  peer = read_peer host peer_header no_peer;
  sock = body ++ (9 ∷ []);
}

stream-received : handle_message host (1, 2) (3 ∷ stream) no_peer ≡ ok received
unfolding handle_message
stream-received =
    parse_bmp_v3-encode_message host (1, 2) 0 peer_header body (9 ∷ []) no_peer (omega arith)
      peer_header-IsHeader (omega arith)

named : text_eq (peer_info_key (read_peer host peer_header no_peer)) [] ≡ false
unfolding text_eq to_dec uint_of
named = refl

read_incoming_msg-Spares_example :
    IfOk (Spares [] []) (read_incoming_msg host callees tt [] (1, 2) (3 ∷ stream) [] no_peer router)
read_incoming_msg-Spares_example =
    read_incoming_msg-Spares host callees tt [] (1, 2) (3 ∷ stream) [] no_peer router received []
      stream-received named
