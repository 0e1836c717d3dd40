-- ===== src/Bgp/AttrType.antt =====
-- UPDATE_ATTR_TYPES of Server/src/bgp/UpdateMsg.h: the types that the code handles. The last two are
-- derived from the AS path.
use sonic_bmp.Common.{ℕ}

abbrev pub origin : ℕ
origin = 1

abbrev pub as_path : ℕ
as_path = 2

abbrev pub next_hop : ℕ
next_hop = 3

abbrev pub med : ℕ
med = 4

abbrev pub local_pref : ℕ
local_pref = 5

abbrev pub atomic_aggregate : ℕ
atomic_aggregate = 6

abbrev pub aggregator : ℕ
aggregator = 7

abbrev pub communities : ℕ
communities = 8

abbrev pub originator_id : ℕ
originator_id = 9

abbrev pub cluster_list : ℕ
cluster_list = 10

abbrev pub mp_reach_nlri : ℕ
mp_reach_nlri = 14

abbrev pub mp_unreach_nlri : ℕ
mp_unreach_nlri = 15

abbrev pub ext_community : ℕ
ext_community = 16

abbrev pub as4_path : ℕ
as4_path = 17

abbrev pub as4_aggregator : ℕ
as4_aggregator = 18

abbrev pub as_pathlimit : ℕ
as_pathlimit = 21

abbrev pub ipv6_ext_community : ℕ
ipv6_ext_community = 25

abbrev pub bgp_ls : ℕ
bgp_ls = 29

abbrev pub large_community : ℕ
large_community = 32

abbrev pub internal_as_count : ℕ
internal_as_count = 9000

abbrev pub internal_as_origin : ℕ
internal_as_origin = 9001
