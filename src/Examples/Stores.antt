-- ===== src/Examples/Stores.antt =====
-- Update messages on their way to the message bus, through UpdateDB of Server/src/bgp/parseBGP.cpp.
use sonic_bmp.Common.{
  ◌≡◌, refl, true, false, not, List, [], ◌∷◌, none, some, Bytes, take, ok, arith, to_dec, dec_onto,
  codes, replicate, ◌>>=◌, IfOk, Ends, All2, last_of, ◌-◌,
}
use sonic_bmp.Bgp.Attributes.{put}
use sonic_bmp.Bgp.Attrs.{Attrs, get_attr, set_attr}
use sonic_bmp.Bgp.AsPath.{set_as_path}
use sonic_bmp.Bgp.Dispatch.{handle_update}
use sonic_bmp.Bgp.Dispatch.RoundTrip.{frame}
use sonic_bmp.Bgp.Evpn.{Others, parse_evpn_nlri}
use sonic_bmp.Bgp.ExtCommunity.{uint_of, parse_ext_communities}
use sonic_bmp.Bgp.LastAddress.{last_address}
use sonic_bmp.Bgp.LastAddress.Range.{IsBytes, address, bits, last_address-range}
use sonic_bmp.Bgp.LinkState.{parse_reach_link_state, parse_unreach_link_state}
use sonic_bmp.Bgp.LinkState.Rows.{LinkStateData}
use sonic_bmp.Bgp.LinkStateAttr.{parse_attr_link_state}
use sonic_bmp.Bgp.LinkStateAttr.Ends.{parse_attr_link_state-Ends}
use sonic_bmp.Bgp.LinkStateAttr.RoundTrip.{
  Item, local_ipv4, igp_metric, remote_ipv6, encode_items, size_of, store_items,
  parse_attr_link_state-encode_items,
}
use sonic_bmp.Bgp.LinkStateAttr.Whole.{AreArrays}
use sonic_bmp.Bgp.Types.{ParsedData, PrefixTuple, unicast_v4, unicast_v6, Callees}
use sonic_bmp.Bgp.Update.{clear}
use sonic_bmp.Bgp.Update.RoundTrip.{encode_update}
use sonic_bmp.Bgp.UpdateDb.{Store, store_update, update_db, adv_rows}
use sonic_bmp.Bgp.UpdateDb.PathAttr.{BaseAttr, base_attr_of, holds, is_one}
use sonic_bmp.Bgp.UpdateDb.Hashes.{Sent, update_db-Sent}
use sonic_bmp.Bgp.UpdateDb.Numbers.{Numeric, base_attr_of-Numeric}
use sonic_bmp.Bgp.UpdateDb.Rows.{IsRow, adv_rows-IsRow}
use sonic_bmp.Bgp.UpdateDb.Stored.{Stores, nothing_else, parsed_of, attrs_sent, handle_update-sent}
use sonic_bmp.Examples.Data.{host, peer, update, update-IsUpdate, no_families}
use sonic_bmp.Examples.Events.{marker, fresh}

-- The parsers of the development; that of IPv6 extended communities writes nothing here.
abbrev parsers : Callees (Others LinkStateData)
parsers = record {
  parse_ext_communities = λ n d p. parse_ext_communities (λ f. []) host n d p;
  parse_v6_ext_communities = λ n d p. ok p;
  parse_attr_link_state = parse_attr_link_state host (λ n. n);
  parse_reach_link_state = parse_reach_link_state host (λ bs. bs);
  parse_unreach_link_state = parse_unreach_link_state (λ bs. bs);
  parse_evpn_nlri = parse_evpn_nlri host;
}

abbrev no_attr : BaseAttr
no_attr = record {
  origin = [];
  as_path = [];
  as_path_count = 0;
  origin_as = 0;
  nexthop_is_ipv4 = true;
  next_hop = [];
  aggregator = [];
  atomic_agg = false;
  med = 0;
  local_pref = 0;
  community_list = [];
  ext_community_list = [];
  large_community_list = [];
  cluster_list = [];
  originator_id = [];
}

abbrev store : Store
store = record { base_attr = no_attr; path_hash_id = []; peer_hash_id = 1 ∷ 2 ∷ [] }

-- A stand-in for the hash of the bus.
abbrev hash : BaseAttr → Bytes
hash a = a.next_hop

abbrev attrs : Attrs
attrs = (parsed_of host peer update).attrs

attrs-Numeric : Numeric attrs none none (some 2) (some 4200000000)
unfolding get_attr set_attr put set_as_path clear to_dec dec_onto
attrs-Numeric = record {
  local_pref_text = refl;
  med_text = refl;
  count_text = refl;
  origin_text = refl;
  fits = (omega arith, omega arith, omega arith, omega arith);
}

abbrev attr : BaseAttr
attr = record {
  origin = take 16 (get_attr 1 attrs);
  as_path = get_attr 2 attrs;
  as_path_count = 2;
  origin_as = 4200000000;
  nexthop_is_ipv4 = not (holds 58 (get_attr 3 attrs));
  next_hop = take 40 (get_attr 3 attrs);
  aggregator = take 40 (get_attr 7 attrs);
  atomic_agg = is_one (get_attr 6 attrs);
  med = 0;
  local_pref = 0;
  community_list = get_attr 8 attrs;
  ext_community_list = get_attr 16 attrs;
  large_community_list = get_attr 32 attrs;
  cluster_list = get_attr 10 attrs;
  originator_id = take 16 (get_attr 9 attrs);
}

base_attr_of-Numeric_example : base_attr_of attrs ≡ ok attr
base_attr_of-Numeric_example =
    base_attr_of-Numeric attrs none none (some 2) (some 4200000000) attrs-Numeric

attrs_read : base_attr_of attrs ≡ ok attr
attrs_read = base_attr_of-Numeric attrs none none (some 2) (some 4200000000) attrs-Numeric

handle_update-sent_example :
    Stores host update attr (attrs_sent hash (parsed_of host peer update) attr store) (
      handle_update host parsers nothing_else
        (frame marker 53 2 (encode_update false false update []))
        72
        peer
        fresh
      >>= λ v. store_update host hash false v.stored store)
handle_update-sent_example =
    handle_update-sent host parsers hash false update marker [] peer fresh attr store
      (no_families 1 1) update-IsUpdate refl (omega arith) attrs_read

update_db-Sent_example :
    IfOk (Sent hash attrs store) (update_db host hash false (parsed_of host peer update) store)
update_db-Sent_example = update_db-Sent host hash (parsed_of host peer update) store

-- 10.0.0.0 and 2001:db8::
abbrev net_10 : Bytes
net_10 = 10 ∷ replicate 15 0

abbrev net_2001 : Bytes
net_2001 = 32 ∷ 1 ∷ 13 ∷ 184 ∷ replicate 12 0

net_10-IsBytes : IsBytes net_10
net_10-IsBytes = (
  omega arith,
  (
    omega arith,
    (
      omega arith,
      (
        omega arith,
        (
          omega arith,
          (
            omega arith,
            (
              omega arith,
              (
                omega arith,
                (
                  omega arith,
                  (
                    omega arith,
                    (
                      omega arith,
                      (omega arith, (omega arith, (omega arith, (omega arith, (omega arith, tt))))),
                    ),
                  ),
                ),
              ),
            ),
          ),
        ),
      ),
    ),
  ),
)

net_2001-IsBytes : IsBytes net_2001
net_2001-IsBytes = (
  omega arith,
  (
    omega arith,
    (
      omega arith,
      (
        omega arith,
        (
          omega arith,
          (
            omega arith,
            (
              omega arith,
              (
                omega arith,
                (
                  omega arith,
                  (
                    omega arith,
                    (
                      omega arith,
                      (omega arith, (omega arith, (omega arith, (omega arith, (omega arith, tt))))),
                    ),
                  ),
                ),
              ),
            ),
          ),
        ),
      ),
    ),
  ),
)

last_address-range_example :
    uint_of (address false (last_address false 33 net_2001 []))
    ≡ last_of (uint_of (address false net_2001)) (bits false - 33)
last_address-range_example = last_address-range false 33 net_2001 [] refl net_2001-IsBytes

-- 10.0.0.0/8 and 2001:db8::/33
abbrev announced : List PrefixTuple
announced =
    record {
      kind = unicast_v4;
      len = 8;
      prefix = codes "10.0.0.0";
      prefix_bin = net_10;
      path_id = 0;
      is_ipv4 = true;
      labels = [];
    }
    ∷ record {
      kind = unicast_v6;
      len = 33;
      prefix = codes "2001:db8::";
      prefix_bin = net_2001;
      path_id = 0;
      is_ipv4 = false;
      labels = [];
    }
    ∷ []

adv_rows-IsRow_example : All2 (IsRow store) announced (adv_rows store [] announced)
adv_rows-IsRow_example =
    adv_rows-IsRow store announced [] ((refl, net_10-IsBytes), ((refl, net_2001-IsBytes), tt))

-- The attribute of a link: the router ids of its ends, and its IGP metric
abbrev items : List Item
items = local_ipv4 (10 ∷ 0 ∷ 0 ∷ 1 ∷ []) ∷ igp_metric 100 ∷ remote_ipv6 net_2001 ∷ []

abbrev parsed : ParsedData (Others LinkStateData)
parsed = parsed_of host peer update

parse_attr_link_state-encode_items_example :
    parse_attr_link_state host (λ n. n) 36 (encode_items items []) parsed
    ≡ ok (record parsed {
      other = record parsed.other {
        link_state = record parsed.other.link_state { ls_attrs = store_items items [] };
      };
    })
unfolding size_of put clear
parse_attr_link_state-encode_items_example =
    parse_attr_link_state-encode_items host (λ n. n) items [] parsed
      (refl, (omega arith, (refl, tt)))

-- A node name that is cut short
parse_attr_link_state-Ends_example :
    Ends
      (λ q. AreArrays q.other.link_state.ls_attrs)
      (parse_attr_link_state host (λ n. n) 8 (4 ∷ 2 ∷ 0 ∷ 4 ∷ 97 ∷ []) parsed)
unfolding put clear
parse_attr_link_state-Ends_example =
    parse_attr_link_state-Ends host (λ n. n) 8 (4 ∷ 2 ∷ 0 ∷ 4 ∷ 97 ∷ []) parsed tt
