-- ===== src/Examples/Streams.antt =====
-- BMP messages on a stream.
use sonic_bmp.Common.{false, [], ◌∷◌, ◌++◌, ◌≡◌, refl, replicate, ok, arith}
use sonic_bmp.Bmp.CommonHeader.Reads.{encode_message, read_message, read_message-encode_message}
use sonic_bmp.Bmp.PeerHeader.{Peer, parse_peer_hdr}
use sonic_bmp.Bmp.PeerHeader.RoundTrip.{
  Header, IsHeader, encode_peer, read_peer, parse_peer_hdr-encode_peer,
}
use sonic_bmp.Examples.Data.{host}

abbrev pub no_peer : Peer
no_peer = record {
  is_loc_rib = false;
  is_loc_rib_filtered = false;
  is_ipv4 = false;
  is_adj_in = false;
  is_two_octet = false;
  is_pre_policy = false;
  is_l3vpn = false;
  peer_addr = [];
  peer_as = 0;
  peer_bgp_id = [];
  peer_rd = [];
  timestamp_secs = 0;
  timestamp_us = 0;
}

abbrev pub peer_header : Header
peer_header = record {
  type = 1;
  flags = 64;
  rd = 0 ∷ 1 ∷ 10 ∷ 0 ∷ 0 ∷ 1 ∷ 0 ∷ 100 ∷ [];
  addr = replicate 12 0 ++ (192 ∷ 0 ∷ 2 ∷ 7 ∷ []);
  asn = 65010;
  bgp_id = 10 ∷ 0 ∷ 0 ∷ 1 ∷ [];
  secs = 1700000000;
  usecs = 250000;
}

pub peer_header-IsHeader : IsHeader peer_header
peer_header-IsHeader = record {
  rd_length = refl;
  addr_length = refl;
  asn_small = omega arith;
  id_length = refl;
  secs_small = omega arith;
  secs_set = refl;
  usecs_small = omega arith;
}

parse_peer_hdr-encode_peer_example :
    parse_peer_hdr host (1, 2) (encode_peer peer_header ++ (9 ∷ [])) 43 no_peer
    ≡ ok (read_peer host peer_header no_peer, 1, 9 ∷ [])
parse_peer_hdr-encode_peer_example =
    parse_peer_hdr-encode_peer host (1, 2) peer_header (9 ∷ []) 43 no_peer peer_header-IsHeader

read_message-encode_message_example :
    read_message host (1, 2) (encode_message 0 peer_header (5 ∷ 6 ∷ []) (3 ∷ [])) no_peer
    ≡ ok (read_peer host peer_header no_peer, 5 ∷ 6 ∷ [], 3 ∷ [])
read_message-encode_message_example =
    read_message-encode_message host (1, 2) 0 peer_header (5 ∷ 6 ∷ []) (3 ∷ []) no_peer
      (omega arith) peer_header-IsHeader (omega arith)
