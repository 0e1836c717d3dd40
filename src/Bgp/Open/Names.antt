-- ===== src/Bgp/Open/Names.antt =====
-- GET_AFI_STRING_BY_CODE and GET_SAFI_STRING_BY_CODE of Server/src/bgp/bgp_common.h.
use sonic_bmp.Common.{ℕ, ◌==◌, if◌then◌else◌, Text, codes, []}

unfoldable pub afi_string : ℕ → Text
afi_string code =
    if code == 1
    then codes "IPv4"
    else if code == 2
    then codes "IPv6"
    else if code == 16388
    then codes "BGP-LS"
    else codes "unknown"

unfoldable pub safi_string : ℕ → Text
safi_string code =
    if code == 1
    then codes "Unicast"
    else if code == 2
    then codes "Multicast"
    else if code == 4
    then codes "Labeled Unicast"
    else if code == 5
    then codes "MCAST VPN"
    else if code == 65
    then codes "VPLS"
    else if code == 66
    then codes "BGP MDT"
    else if code == 67
    then codes "BGP 4over6"
    else if code == 68
    then codes "BGP 6over4"
    else if code == 70
    then codes "BGP EVPNs"
    else if code == 71
    then codes "BGP-LS"
    else if code == 128
    then codes "MPLS-Labeled VPN"
    else if code == 129
    then codes "Multicast BGP/MPLS VPN"
    else if code == 132
    then codes "RT constrains"
    else []
