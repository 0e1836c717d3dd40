-- ===== src/Examples/Routers.antt =====
-- What BMP messages say of routers, peers and counters, read by Server/src/bmp/parseBMP.cpp.
use sonic_bmp.Common.{
  ◌+◌, ◌%◌, ◌-◌, ◌^◌, ◌≡◌, refl, inl, List, [], ◌∷◌, ◌++◌, length, replicate, ok, fault, overwrite,
  network, arith,
}
use sonic_bmp.Bmp.Info.Fold.{Item, encode_items}
use sonic_bmp.Bmp.Init.{Router, handle_init_msg}
use sonic_bmp.Bmp.Init.Faults.{handle_init_msg-one_more}
use sonic_bmp.Bmp.Init.Items.{IsInitItem, init_items, handle_init_msg-encode_items}
use sonic_bmp.Bmp.Stats.{save_counter, handle_stats_report, write_at}
use sonic_bmp.Bmp.Stats.Counters.{
  Counter, encode_counters, count, counted_all, taken_off_all, handle_stats_report-encode_counters,
}
use sonic_bmp.Bmp.Version2.{handle_message}
use sonic_bmp.Bmp.Version2.Reads.{Old, IsOld, encode_old, read_old, handle_message-encode_old}
use sonic_bmp.Examples.Data.{host}
use sonic_bmp.Examples.Streams.{no_peer}

abbrev pub router : Router
router = record {
  hash_type = 0;
  name = replicate 255 0;
  descr = replicate 255 0;
  bgp_id = [];
  term_reason_code = 0;
  term_reason_text = [];
  term_data = replicate 4096 0;
  initiate_data = replicate 4096 0;
}

-- "edge", and 10.0.0.1
abbrev router_items : List Item
router_items =
    record { type = 2; value = 101 ∷ 100 ∷ 103 ∷ 101 ∷ [] }
    ∷ record { type = 65531; value = 10 ∷ 0 ∷ 0 ∷ 1 ∷ [] }
    ∷ []

name-IsInitItem : IsInitItem (record { type = 2; value = 101 ∷ 100 ∷ 103 ∷ 101 ∷ [] })
name-IsInitItem = record {
  item = record { type_small = omega arith; value_small = omega arith; fits = omega arith };
  not_256 = λ e. omega (arith, e);
}

id-IsInitItem : IsInitItem (record { type = 65531; value = 10 ∷ 0 ∷ 0 ∷ 1 ∷ [] })
id-IsInitItem = record {
  item = record { type_small = omega arith; value_small = omega arith; fits = omega arith };
  not_256 = λ e. omega (arith, e);
}

handle_init_msg-encode_items_example :
    handle_init_msg host
      (encode_items router_items ++ (9 ∷ []))
      (length (encode_items router_items))
      router
    ≡ ok (init_items host router_items (record router { hash_type = 0 }), 9 ∷ [])
handle_init_msg-encode_items_example =
    handle_init_msg-encode_items host router_items (9 ∷ []) router
      (name-IsInitItem, (id-IsInitItem, tt)) (omega arith)

-- A name of 256 bytes
abbrev long_name : Item
long_name = record { type = 2; value = replicate 256 101 }

handle_init_msg-one_more_example :
    handle_init_msg host
      (encode_items (long_name ∷ router_items) ++ (9 ∷ []))
      (length (encode_items (long_name ∷ router_items)))
      router
    ≡ fault overwrite
handle_init_msg-one_more_example =
    handle_init_msg-one_more host long_name router_items (9 ∷ []) router
      (record { which = inl refl; size = refl })
      (
        record { type_small = omega arith; value_small = omega arith; fits = omega arith },
        (name-IsInitItem.item, (id-IsInitItem.item, tt)),
      )
      (omega arith)

abbrev counters : List Counter
counters =
    record { type = 1; value = 0 ∷ 0 ∷ 1 ∷ 2 ∷ [] }
    ∷ record { type = 7; value = 0 ∷ 0 ∷ 0 ∷ 0 ∷ 0 ∷ 0 ∷ 3 ∷ 4 ∷ [] }
    ∷ record { type = 9; value = 5 ∷ [] }
    ∷ []

handle_stats_report-encode_counters_example :
    handle_stats_report
      (network 4 (count counters) ++ (encode_counters counters ++ (6 ∷ [])))
      33
      (replicate 48 0)
    ≡ ok (
      counted_all counters (replicate 48 0),
      taken_off_all counters ((33 + 2 ^ 32 - 4) % 2 ^ 32),
      6 ∷ [],
    )
handle_stats_report-encode_counters_example =
    handle_stats_report-encode_counters counters (6 ∷ []) 33 (replicate 48 0)
      (
        record { type_small = omega arith; value_small = omega arith },
        (
          record { type_small = omega arith; value_small = omega arith },
          (record { type_small = omega arith; value_small = omega arith }, tt),
        ),
      )
      (omega arith)

-- A counter of eight bytes for the first type goes on into the second type's.
two_counters :
    save_counter 0 (1 ∷ 2 ∷ 3 ∷ 4 ∷ 5 ∷ 6 ∷ 7 ∷ 8 ∷ []) (replicate 9 0)
    ≡ 1 ∷ 2 ∷ 3 ∷ 4 ∷ 5 ∷ 6 ∷ 7 ∷ 8 ∷ 0 ∷ []
unfolding save_counter write_at
two_counters = refl

abbrev old : Old
old = record {
  type = 0;
  flags = 0;
  rd = replicate 8 0;
  addr = replicate 12 0 ++ (192 ∷ 0 ∷ 2 ∷ 7 ∷ []);
  asn = 65010;
  i0 = 10;
  i1 = 0;
  i2 = 0;
  i3 = 1;
  secs = 1700000000;
  usecs = 0;
}

old-IsOld : IsOld old
old-IsOld = record {
  rd_length = refl;
  addr_length = refl;
  asn_small = omega arith;
  secs_small = omega arith;
}

handle_message-encode_old_example :
    handle_message host
      (1, 2)
      (1 ∷ 0 ∷ (encode_old old ++ (replicate 16 255 ++ (network 2 19 ++ (4 ∷ [])))))
      no_peer
    ≡ ok (record {
      type = 0;
      len = 19;
      peer = read_old host 1 old no_peer;
      sock = replicate 16 255 ++ (network 2 19 ++ (4 ∷ []));
    })
handle_message-encode_old_example =
    handle_message-encode_old host (1, 2) 1 old (replicate 16 255) 19 (4 ∷ []) no_peer (inl refl)
      old-IsOld refl (omega arith)
