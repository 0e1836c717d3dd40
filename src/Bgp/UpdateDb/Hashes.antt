-- ===== src/Bgp/UpdateDb/Hashes.antt =====
-- The rows that UpdateDB of Server/src/bgp/parseBGP.cpp sends carry the hash id of the path attributes of
-- the same message.
use sonic_bmp.Common.{
  ◌≡◌, refl, Bool, true, false, List, All, All-append, [], ◌∷◌, none, some, inl, inr, Bool-cases,
  ltb, if◌then◌else◌, Bytes, length, take, map, replicate, IfOk, IfOk-then, Result, ok, throw,
  fault, stuck, ◌>>=◌, IfOk-bind,
}
use sonic_bmp.Bgp.Attrs.{Attrs, get_attr}
use sonic_bmp.Bgp.AttrType
use sonic_bmp.Bgp.Evpn.{EvpnTuple, Others}
use sonic_bmp.Bgp.LinkState.Rows.{LinkStateData, LsData, LsAttrs}
use sonic_bmp.Bgp.Types.{Host, PrefixTuple, VpnTuple, ParsedData}
use sonic_bmp.Bgp.UpdateDb.PathAttr.{BaseAttr, base_attr_of}
use sonic_bmp.Bgp.UpdateDb.Merge.{merge_nodes, merge_link, merge_prefix}
use sonic_bmp.Bgp.UpdateDb.{
  action_of, Event, base_attribute, unicast_prefix, l3vpn, evpn, ls_nodes, ls_links, ls_prefixes,
  EvpnRow, Store, update_db_attrs, adv_rows, vpn_rows, withdrawn_rows, strcpy, evpn_row, evpn_rows,
  unless_empty, update_db_adv_prefixes, update_db_l3vpn, update_db_evpn, update_db_withdrawn,
  update_db_bgp_ls, update_db,
}

-- What an event carries: the attributes that are sent with rows are those of the message, as are the hash
-- ids of their path and peer in every row.
abbrev pub Carries : Store → Event → Type 0
Carries s (base_attribute a) = a ≡ s.base_attr
Carries s (unicast_prefix action rows none) =
    All (λ r. (r.path_attr_hash_id ≡ s.path_hash_id) × (r.peer_hash_id ≡ s.peer_hash_id)) rows
Carries s (unicast_prefix action rows (some a)) =
    (a ≡ s.base_attr)
    × All (λ r. (r.path_attr_hash_id ≡ s.path_hash_id) × (r.peer_hash_id ≡ s.peer_hash_id)) rows
Carries s (l3vpn action rows a) =
    (a ≡ s.base_attr)
    × All (λ r. (r.rib.path_attr_hash_id ≡ s.path_hash_id) × (r.rib.peer_hash_id ≡ s.peer_hash_id))
        rows
Carries s (evpn action rows a) =
    (a ≡ s.base_attr)
    × All (λ r. (r.path_attr_hash_id ≡ s.path_hash_id) × (r.peer_hash_id ≡ s.peer_hash_id)) rows
Carries s (ls_nodes action rows a) = a ≡ s.base_attr
Carries s (ls_links action rows a) = a ≡ s.base_attr
Carries s (ls_prefixes action rows a) = a ≡ s.base_attr

unless_empty-Carries :
    {A : Type 0} (s : Store) (xs : List A) (e : Event)
    → Carries s e
    → All (Carries s) (unless_empty xs e)
unless_empty-Carries s [] e h = tt
unless_empty-Carries s (x ∷ xs) e h = (h, tt)

module _ (h : Host) (s : Store) where
  adv_rows-hashes :
      (ts : List PrefixTuple) (bcast : Bytes)
      → All
          (λ r. (r.path_attr_hash_id ≡ s.path_hash_id) × (r.peer_hash_id ≡ s.peer_hash_id))
          (adv_rows s bcast ts)
  unfolding adv_rows
  adv_rows-hashes [] bcast = tt
  adv_rows-hashes (t ∷ ts) bcast = ((refl, refl), adv_rows-hashes ts _)

  vpn_rows-hashes :
      (ts : List VpnTuple) (bcast : Bytes)
      → All
          (λ r. (r.rib.path_attr_hash_id ≡ s.path_hash_id) × (r.rib.peer_hash_id ≡ s.peer_hash_id))
          (vpn_rows s bcast ts)
  unfolding vpn_rows
  vpn_rows-hashes [] bcast = tt
  vpn_rows-hashes (t ∷ ts) bcast = ((refl, refl), vpn_rows-hashes ts _)

  withdrawn_rows-hashes :
      (bcast : Bytes) (ts : List PrefixTuple)
      → All
          (λ r. (r.path_attr_hash_id ≡ s.path_hash_id) × (r.peer_hash_id ≡ s.peer_hash_id))
          (withdrawn_rows s bcast ts)
  unfolding withdrawn_rows
  withdrawn_rows-hashes bcast [] = tt
  withdrawn_rows-hashes bcast (t ∷ ts) = ((refl, refl), withdrawn_rows-hashes bcast ts)

  evpn_row-hashes :
      (t : EvpnTuple)
      → IfOk
          (λ (r : EvpnRow).
            (r.path_attr_hash_id ≡ s.path_hash_id) × (r.peer_hash_id ≡ s.peer_hash_id))
          (evpn_row s t)
  unfolding evpn_row
  evpn_row-hashes t = IfOk-bind _ (strcpy 16 t.ethernet_tag_id_hex) _ λ a.
      IfOk-bind _ (strcpy 255 t.mac) _ λ b. IfOk-bind _ (strcpy 46 t.ip) _ λ c.
        IfOk-bind _ (strcpy 46 t.originating_router_ip) _
          λ d. IfOk-bind _ (strcpy 255 t.ethernet_segment_identifier) _ λ e. (refl, refl)

  evpn_rows-hashes :
      (ts : List EvpnTuple)
      → IfOk
          (All (λ (r : EvpnRow).
            (r.path_attr_hash_id ≡ s.path_hash_id) × (r.peer_hash_id ≡ s.peer_hash_id)))
          (evpn_rows s ts)
  unfolding evpn_rows
  evpn_rows-hashes [] = tt
  evpn_rows-hashes (t ∷ ts) =
      IfOk-then _ _ (evpn_row s t) _ (evpn_row-hashes t)
        λ r hr. IfOk-then _ _ (evpn_rows s ts) _ (evpn_rows-hashes ts) λ rs hs. (hr, hs)

  adv-Carries : (ts : List PrefixTuple) → All (Carries s) (update_db_adv_prefixes h s ts)
  unfolding update_db_adv_prefixes
  adv-Carries ts =
      unless_empty-Carries s (adv_rows s h.junk_bin ts) _ (refl, adv_rows-hashes ts h.junk_bin)

  withdrawn-Carries : (ts : List PrefixTuple) → All (Carries s) (update_db_withdrawn h s ts)
  unfolding update_db_withdrawn
  withdrawn-Carries ts =
      unless_empty-Carries s (withdrawn_rows s h.junk_bin ts) _
        (withdrawn_rows-hashes h.junk_bin ts)

  l3vpn-Carries :
      (remove : Bool) (ts : List VpnTuple) → All (Carries s) (update_db_l3vpn h remove s ts)
  unfolding update_db_l3vpn
  l3vpn-Carries remove ts =
      unless_empty-Carries s (vpn_rows s h.junk_bin ts) _ (refl, vpn_rows-hashes ts h.junk_bin)

  evpn-Carries :
      (remove : Bool) (ts : List EvpnTuple) → IfOk (All (Carries s)) (update_db_evpn remove s ts)
  unfolding update_db_evpn
  evpn-Carries remove ts =
      IfOk-then _ _ (evpn_rows s ts) _ (evpn_rows-hashes ts)
        λ rs hs. unless_empty-Carries s rs _ (refl, hs)

  bgp_ls-Carries :
      (remove : Bool) (d : LsData) (m : LsAttrs)
      → IfOk (All (Carries s)) (update_db_bgp_ls remove s d m)
  unfolding update_db_bgp_ls
  bgp_ls-Carries remove d m = IfOk-bind _ (merge_nodes m d.nodes) _ λ ns.
      let action = action_of remove in
      let links = map (merge_link m) d.links in
      let prefixes = map (merge_prefix m) d.prefixes in
      let node_event = ls_nodes action ns s.base_attr in
      let link_event = ls_links action links s.base_attr in
      let prefix_event = ls_prefixes action prefixes s.base_attr in
      All-append (Carries s) (unless_empty ns node_event) _
        (unless_empty-Carries s ns node_event refl)
        (All-append (Carries s) (unless_empty links link_event) (unless_empty prefixes prefix_event)
          (unless_empty-Carries s links link_event refl)
          (unless_empty-Carries s prefixes prefix_event refl))

-- The hash id by which rows name the attributes.
abbrev pub hash_for : (BaseAttr → Bytes) → Attrs → BaseAttr → Bytes
hash_for attr_hash m a =
    if ltb 0 (length (get_attr AttrType.next_hop m)) then take 16 (attr_hash a) else replicate 16 0

-- What is sent is consistent with the members as they are left.
abbrev pub Sent : (BaseAttr → Bytes) → Attrs → Store → Store × List Event → Type 0
Sent attr_hash m s r =
    (base_attr_of m ≡ ok r.0.base_attr)
    × (r.0.path_hash_id ≡ hash_for attr_hash m r.0.base_attr)
    × (r.0.peer_hash_id ≡ s.peer_hash_id)
    × All (Carries r.0) r.1

-- The rest of a block, with what its first line gave.
IfOk-read :
    {A : Type 0} {B : Type 0} (P : B → Type 0) (m : Result A) (f : A → Result B)
    → ((a : A) → m ≡ ok a → IfOk P (f a))
    → IfOk P (m >>= f)
IfOk-read P (ok a) f k = k a refl
IfOk-read P (throw e) f k = tt
IfOk-read P (fault e) f k = tt
IfOk-read P stuck f k = tt

update_db_attrs-Sent :
    (attr_hash : BaseAttr → Bytes) (m : Attrs) (s : Store)
    → IfOk (Sent attr_hash m s) (update_db_attrs attr_hash m s)
unfolding update_db_attrs
update_db_attrs-Sent attr_hash m s = IfOk-read _ (base_attr_of m) _ λ a e.
    elim (Bool-cases (ltb 0 (length (get_attr AttrType.next_hop m)))) [
      | inl hop ↦ rw hop (e, rw hop refl, refl, (refl, tt))
      | inr missing ↦ rw missing (e, rw missing refl, refl, tt)
    ]

-- Whatever an update message holds, UpdateDB, built for another bus than Redis, unless it throws or copies a
-- text that does not fit, leaves the attributes that are read from the message's own and their hash id, or
-- zeros for it if they have no next hop; every row of prefixes and routes that it sends names that hash id
-- and the peer's, and the attributes that it sends are those read from the message.
pub update_db-Sent :
    (h : Host) (attr_hash : BaseAttr → Bytes) (p : ParsedData (Others LinkStateData)) (s : Store)
    → IfOk (Sent attr_hash p.attrs s) (update_db h attr_hash false p s)
unfolding update_db
update_db-Sent h attr_hash p s =
    let ls = p.other.link_state in
    IfOk-then _ _ (update_db_attrs attr_hash p.attrs s) _ (update_db_attrs-Sent attr_hash p.attrs s)
      λ r hr.
        let t = r.0 in
        IfOk-then _ _ (update_db_bgp_ls false t ls.ls ls.ls_attrs) _
          (bgp_ls-Carries h t false ls.ls ls.ls_attrs)
          λ a ha.
            IfOk-then _ _ (update_db_bgp_ls true t ls.ls_withdrawn []) _
              (bgp_ls-Carries h t true ls.ls_withdrawn [])
              λ b hb.
                IfOk-then _ _ (update_db_evpn false t p.other.evpn) _
                  (evpn-Carries h t false p.other.evpn)
                  λ c hc.
                    IfOk-then _ _ (update_db_evpn true t p.other.evpn_withdrawn) _
                      (evpn-Carries h t true p.other.evpn_withdrawn)
                      λ d hd. (
                        hr.0,
                        hr.1,
                        hr.2,
                        All-append (Carries t) r.1 _ hr.3 (
                            All-append (Carries t) a _ ha (
                              All-append (Carries t) b _ hb (
                                All-append (Carries t) (update_db_adv_prefixes h t p.advertised) _
                                  (adv-Carries h t p.advertised)
                                  (All-append (Carries t) (update_db_l3vpn h false t p.vpn) _
                                    (l3vpn-Carries h t false p.vpn)
                                    (All-append (Carries t)
                                      (update_db_l3vpn h true t p.vpn_withdrawn) _
                                      (l3vpn-Carries h t true p.vpn_withdrawn)
                                      (All-append (Carries t) c _ hc (
                                        All-append (Carries t) d
                                          (update_db_withdrawn h t p.withdrawn) hd
                                          (withdrawn-Carries h t p.withdrawn)))))))),
                      )
