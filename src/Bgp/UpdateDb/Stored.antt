-- ===== src/Bgp/UpdateDb/Stored.antt =====
-- An update message on its way through handleUpdate and UpdateDB of Server/src/bgp/parseBGP.cpp.
use sonic_bmp.Common.{
  ◌+◌, ◌^◌, ◌<◌, ◌≡◌, refl, ap, ◌∙◌, Bool, true, false, All2, some, none, take, replicate, Result,
  List, [], ◌∷◌, ◌++◌, map, ltb, if◌then◌else◌, Bytes, length, ok, ◌>>=◌, Bool-cases, inl, inr,
}
use sonic_bmp.Bgp.AddPath.{is_add_path_enabled}
use sonic_bmp.Bgp.Attributes.Format.{
  Attr, Value, origin, as_path, next_hop, med, local_pref, atomic_aggregate, aggregator,
  communities, originator_id, cluster_list, large_community, apply_value, apply_attrs,
}
use sonic_bmp.Bgp.Attributes.{put}
use sonic_bmp.Bgp.Attrs.{get_attr}
use sonic_bmp.Bgp.AttrType
use sonic_bmp.Bgp.Dispatch.{Parser, no_data, handle_update}
use sonic_bmp.Bgp.Dispatch.RoundTrip.{frame, handle_update-encode_update}
use sonic_bmp.Bgp.Evpn.{Others}
use sonic_bmp.Bgp.LinkState.Rows.{LinkStateData}
use sonic_bmp.Bgp.Nlri.{tuple_v4}
use sonic_bmp.Bgp.Nlri.RoundTrip.{Route, stored_v4, padded}
use sonic_bmp.Bgp.Types.{
  Host, PeerInfo, PrefixTuple, ParsedData, Session, Callees, afi_ipv4, safi_unicast,
}
use sonic_bmp.Bgp.Update.{clear}
use sonic_bmp.Bgp.Update.RoundTrip.{Update, IsUpdate, encode_update, update_size, update_result}
use sonic_bmp.Bgp.UpdateDb.{
  RibRow, Store, Event, base_attribute, unicast_prefix, add, del, unless_empty, adv_rows,
  withdrawn_rows, update_db_attrs, update_db_evpn, evpn_rows, update_db_adv_prefixes,
  update_db_l3vpn, vpn_rows, update_db_withdrawn, update_db_bgp_ls, update_db, store_update,
}
use sonic_bmp.Bgp.UpdateDb.Hashes.{hash_for}
use sonic_bmp.Bgp.UpdateDb.Merge.{merge_nodes}
use sonic_bmp.Bgp.UpdateDb.PathAttr.{BaseAttr, base_attr_of}

-- parsed_update_data as it is declared.
abbrev pub nothing_else : Others LinkStateData
nothing_else = record {
  link_state = record {
    ls_attrs = [];
    ls = record { nodes = []; links = []; prefixes = [] };
    ls_withdrawn = record { nodes = []; links = []; prefixes = [] };
  };
  evpn = [];
  evpn_withdrawn = [];
}

module _ {X : Type 0} where
  apply_value-parsed :
      (h : Host) (x : Value) (s : Session X)
      → (apply_value h x s).parsed ≡ record s.parsed { attrs = (apply_value h x s).parsed.attrs }
  unfolding put
  apply_value-parsed h (origin n) s = refl
  apply_value-parsed h (as_path gs) s = refl
  apply_value-parsed h (next_hop ip) s = refl
  apply_value-parsed h (med n) s = refl
  apply_value-parsed h (local_pref n) s = refl
  apply_value-parsed h atomic_aggregate s = refl
  apply_value-parsed h (aggregator asn ip) s = refl
  apply_value-parsed h (communities cs) s = refl
  apply_value-parsed h (originator_id ip) s = refl
  apply_value-parsed h (cluster_list ips) s = refl
  apply_value-parsed h (large_community cs) s = refl

  -- Known attributes write to the map of attributes alone.
  apply_attrs-parsed :
      (h : Host) (xs : List Attr) (s : Session X)
      → (apply_attrs h xs s).parsed ≡ record s.parsed { attrs = (apply_attrs h xs s).parsed.attrs }
  apply_attrs-parsed h [] s = refl
  apply_attrs-parsed h (x ∷ xs) s =
      let t = apply_value h x.value s in
      apply_attrs-parsed h xs t
      ∙ ap (λ (p : ParsedData X). record p { attrs = (apply_attrs h xs t).parsed.attrs })
          (apply_value-parsed h x.value s)

-- What is parsed of an update message of known parts.
abbrev pub parsed_of : Host → PeerInfo → Update → ParsedData (Others LinkStateData)
parsed_of h info u =
    (update_result h u (record { info = info; parsed = no_data nothing_else })).parsed

-- The members behind UpdateDBAttrs, and what it sends.
abbrev pub attrs_sent :
    (BaseAttr → Bytes) → ParsedData (Others LinkStateData) → BaseAttr → Store → Store × List Event
attrs_sent attr_hash p a s = (
  record s { base_attr = a; path_hash_id = hash_for attr_hash p.attrs a },
  if ltb 0 (length (get_attr AttrType.next_hop p.attrs)) then base_attribute a ∷ [] else [],
)

update_db_attrs-sent :
    (attr_hash : BaseAttr → Bytes) (p : ParsedData (Others LinkStateData)) (a : BaseAttr)
    (s : Store)
    → base_attr_of p.attrs ≡ ok a
    → update_db_attrs attr_hash p.attrs s ≡ ok (attrs_sent attr_hash p a s)
unfolding update_db_attrs
update_db_attrs-sent attr_hash p a s e =
    elim (Bool-cases (ltb 0 (length (get_attr AttrType.next_hop p.attrs)))) [
      | inl hop ↦ rw (e, hop) refl
      | inr missing ↦ rw (e, missing) refl
    ]

abbrev prefixes_only :
    ParsedData (Others LinkStateData)
    → List PrefixTuple
    → List PrefixTuple
    → ParsedData (Others LinkStateData)
prefixes_only p adv gone = record (no_data nothing_else) {
  attrs = p.attrs;
  advertised = adv;
  withdrawn = gone;
}

update_db-prefixes_only :
    (h : Host) (attr_hash : BaseAttr → Bytes) (p : ParsedData (Others LinkStateData))
    (adv gone : List PrefixTuple) (a : BaseAttr) (s : Store)
    → base_attr_of p.attrs ≡ ok a
    → (let r = attrs_sent attr_hash p a s in
        update_db h attr_hash false (prefixes_only p adv gone) s
        ≡ ok (r.0, r.1 ++ (update_db_adv_prefixes h r.0 adv ++ update_db_withdrawn h r.0 gone)))
unfolding update_db update_db_bgp_ls update_db_evpn evpn_rows merge_nodes update_db_l3vpn vpn_rows
update_db-prefixes_only h attr_hash p adv gone a s e =
    rw (update_db_attrs-sent attr_hash (prefixes_only p adv gone) a s e) refl

cleared : Host → PeerInfo → List Route → Session (Others LinkStateData)
cleared h info gone = record {
  info = info;
  parsed = record (no_data nothing_else) { withdrawn = map (stored_v4 h) gone };
}

abbrev with_routes :
    Host → List Route → ParsedData (Others LinkStateData) → ParsedData (Others LinkStateData)
with_routes h routes p = record p { advertised = map (stored_v4 h) routes }

parsed_of-prefixes :
    (h : Host) (info : PeerInfo) (gone routes : List Route) (xs : List Attr)
    → (let p = parsed_of h info (record { gone = gone; attrs = xs; routes = routes }) in
        p ≡ prefixes_only p (map (stored_v4 h) routes) (map (stored_v4 h) gone))
unfolding clear cleared
parsed_of-prefixes h info [] [] [] = refl
parsed_of-prefixes h info [] [] (x ∷ xs) =
    ap (with_routes h []) (apply_attrs-parsed h (x ∷ xs) (cleared h info []))
parsed_of-prefixes h info [] (r ∷ rs) xs =
    ap (with_routes h (r ∷ rs)) (apply_attrs-parsed h xs (cleared h info []))
parsed_of-prefixes h info (g ∷ gs) rs xs =
    ap (with_routes h rs) (apply_attrs-parsed h xs (cleared h info (g ∷ gs)))

-- The row of a route: what the update message says of it, the family, and the hash ids; the place for the
-- last address has any bytes.
abbrev pub IsRouteRow : Host → Store → Route → RibRow → Type 0
IsRouteRow h s r row = row ≡ record {
  path_attr_hash_id = s.path_hash_id;
  peer_hash_id = s.peer_hash_id;
  is_ipv4 = true;
  prefix = take 46 (h.inet_ntop true (padded 4 r.addr));
  prefix_len = r.bits;
  prefix_bin = take 16 (padded 4 r.addr ++ replicate 12 0);
  prefix_bcast_bin = row.prefix_bcast_bin;
  path_id = r.path_id;
  labels = [];
}

adv_rows-routes :
    (h : Host) (s : Store) (rs : List Route) (bcast : Bytes)
    → All2 (IsRouteRow h s) rs (adv_rows s bcast (map (stored_v4 h) rs))
unfolding adv_rows tuple_v4
adv_rows-routes h s [] bcast = tt
adv_rows-routes h s (r ∷ rs) bcast = (refl, adv_rows-routes h s rs _)

withdrawn_rows-routes :
    (h : Host) (s : Store) (rs : List Route) (bcast : Bytes)
    → All2 (IsRouteRow h s) rs (withdrawn_rows s bcast (map (stored_v4 h) rs))
unfolding withdrawn_rows tuple_v4
withdrawn_rows-routes h s [] bcast = tt
withdrawn_rows-routes h s (r ∷ rs) bcast = (refl, withdrawn_rows-routes h s rs bcast)

-- One event for the rows, if there are any.
abbrev pub event_if_any : List RibRow → (List RibRow → Event) → List Event
event_if_any [] e = []
event_if_any (r ∷ rs) e = e (r ∷ rs) ∷ []

unless_empty-event :
    (rows : List RibRow) (e : List RibRow → Event)
    → unless_empty rows (e rows) ≡ event_if_any rows e
unless_empty-event [] e = refl
unless_empty-event (r ∷ rs) e = refl

-- The members become `t`, and what is sent is `first`, then the advertised routes with the attributes `a`,
-- then the withdrawn ones: one row for each, in order.
abbrev pub Stores :
    Host → Update → BaseAttr → Store × List Event → Result (Store × List Event) → Type 0
Stores h u a sent m =
    (adv : List RibRow) × (gone : List RibRow) × All2 (IsRouteRow h sent.0) u.routes adv
    × All2 (IsRouteRow h sent.0) u.gone gone
    × (m
        ≡ ok (
          sent.0,
          sent.1
              ++ (event_if_any adv (λ rows. unicast_prefix add rows (some a))
                  ++ event_if_any gone (λ rows. unicast_prefix del rows none)),
        ))

-- The same, with the rows as they are computed.
handle_update-stored :
    (h : Host) (c : Callees (Others LinkStateData)) (attr_hash : BaseAttr → Bytes) (enabled : Bool)
    (u : Update) (marker d : Bytes) (info : PeerInfo) (p0 : Parser) (a : BaseAttr) (s : Store)
    → is_add_path_enabled afi_ipv4 safi_unicast info.add_path_capability ≡ enabled
    → IsUpdate enabled info.using_2_octet_asn u
    → length marker ≡ 16
    → 19 + update_size enabled info.using_2_octet_asn u < 256 ^ 2
    → base_attr_of (parsed_of h info u).attrs ≡ ok a
    → (let n = update_size enabled info.using_2_octet_asn u in
        let r = attrs_sent attr_hash (parsed_of h info u) a s in
        (handle_update h c nothing_else
            (frame marker n 2 (encode_update enabled info.using_2_octet_asn u d))
            (19 + n)
            info
            p0
          >>= λ v. store_update h attr_hash false v.stored s)
        ≡ ok (
          r.0,
          r.1
              ++ (update_db_adv_prefixes h r.0 (map (stored_v4 h) u.routes)
                  ++ update_db_withdrawn h r.0 (map (stored_v4 h) u.gone)),
        ))
unfolding store_update
handle_update-stored h c attr_hash enabled u marker d info p0 a s e v sixteen small reads =
    rw (handle_update-encode_update h c nothing_else enabled u marker d info p0 e v sixteen small) (
      rw (parsed_of-prefixes h info u.gone u.routes u.attrs) (
        update_db-prefixes_only h attr_hash (parsed_of h info u) (map (stored_v4 h) u.routes)
          (map (stored_v4 h) u.gone) a s reads))

-- A framed update message of known parts that arrives at handleUpdate goes through parseUpdateMsg and
-- UpdateDB, built for another bus than Redis, to the message bus: if its attributes have a next hop they are
-- sent first, then one event with a row for each advertised prefix, if there are any, to be added with these
-- attributes, and one with a row for each withdrawn prefix, if there are any, to be deleted; the rows are in
-- the order of the message, each with the prefix's bits, length, text and path id and with the hash ids of
-- the attributes and the peer, and nothing else is sent. The numbers among the attributes must be readable.
pub handle_update-sent :
    (h : Host) (c : Callees (Others LinkStateData)) (attr_hash : BaseAttr → Bytes) (enabled : Bool)
    (u : Update) (marker d : Bytes) (info : PeerInfo) (p0 : Parser) (a : BaseAttr) (s : Store)
    → is_add_path_enabled afi_ipv4 safi_unicast info.add_path_capability ≡ enabled
    → IsUpdate enabled info.using_2_octet_asn u
    → length marker ≡ 16
    → 19 + update_size enabled info.using_2_octet_asn u < 256 ^ 2
    → base_attr_of (parsed_of h info u).attrs ≡ ok a
    → Stores h u a (attrs_sent attr_hash (parsed_of h info u) a s) (
        handle_update h c nothing_else
          (frame marker
            (update_size enabled info.using_2_octet_asn u)
            2
            (encode_update enabled info.using_2_octet_asn u d))
          (19 + update_size enabled info.using_2_octet_asn u)
          info
          p0
        >>= λ v. store_update h attr_hash false v.stored s)
unfolding update_db_adv_prefixes update_db_withdrawn
handle_update-sent h c attr_hash enabled u marker d info p0 a s e v sixteen small reads =
    let t = (attrs_sent attr_hash (parsed_of h info u) a s).0 in
    let adv = adv_rows t h.junk_bin (map (stored_v4 h) u.routes) in
    let gone = withdrawn_rows t h.junk_bin (map (stored_v4 h) u.gone) in
    let first = (attrs_sent attr_hash (parsed_of h info u) a s).1 in
    (
      adv,
      gone,
      adv_rows-routes h t u.routes h.junk_bin,
      withdrawn_rows-routes h t u.gone h.junk_bin,
      handle_update-stored h c attr_hash enabled u marker d info p0 a s e v sixteen small reads
          ∙ ap
              (λ (es : List Event).
                ok (t, first ++ (es ++ update_db_withdrawn h t (map (stored_v4 h) u.gone))))
              (unless_empty-event adv (λ rows. unicast_prefix add rows (some a)))
          ∙ ap
              (λ (es : List Event).
                ok
                  (t, first ++ (event_if_any adv (λ rows. unicast_prefix add rows (some a)) ++ es)))
              (unless_empty-event gone (λ rows. unicast_prefix del rows none)),
    )
