-- ===== src/Bmp/Init/Items.antt =====
-- An initiation message is taken item by item.
use sonic_bmp.Common.{
  zero, suc, ◌+◌, ◌-◌, ◌≤◌, ◌<◌, ◌≡◌, ◌≢◌, refl, ◌∙◌, List, [], ◌∷◌, ◌++◌, true, inl, inr, ◌==◌,
  ltb, leb, if◌then◌else◌, Bool-cases, not-==, ◌⊎◌, length-take-le, leb→lt, leb→le, le→ltb, Bytes,
  All, length, take, drop, replicate, take-append-le, take-append-length, take-whole, ok, arith,
}
use sonic_bmp.Bgp.Types.{Host}
use sonic_bmp.Bmp.CommonHeader.{buffer_size}
use sonic_bmp.Bmp.CommonHeader.Reads.{buffer_bmp_message-whole}
use sonic_bmp.Bmp.Info.{clip, copy_string, until_nul}
use sonic_bmp.Bmp.Info.Copies.{clip-small, clip-large, copy_info-item}
use sonic_bmp.Bmp.Info.Fold.{Item, IsItem, encode_items, tlv_of, fold_items, tlv_loop-encode_items}
use sonic_bmp.Bmp.Init.{
  Router, type_free_form, type_sysdescr, type_sysname, type_router_bgp_id, data_size, name_size,
  init_save, handle_init_msg,
}

-- What an array of 255 bytes keeps of a string: all of it, or the first 254 bytes.
abbrev pub kept : Bytes → Bytes
kept v = if leb (length v) name_size then v else take 254 v

-- The bytes `v` as a C string in the place of the first bytes of an array, filled up with zeros.
abbrev pub put_string : Bytes → Bytes → Bytes
put_string v array =
    until_nul v ++ (replicate (length v - length (until_nul v)) 0 ++ drop (length v) array)

-- What one item says of the router.
abbrev pub init_item : Host → Item → Router → Router
init_item h x r =
    if length x.value == 0
    then r
    else if x.type == type_free_form
    then record r { initiate_data = x.value ++ drop (length x.value) r.initiate_data }
    else if x.type == type_sysname
    then record r {
      name = put_string (kept x.value) r.name;
      hash_type = if ltb r.hash_type 2 then 1 else r.hash_type;
    }
    else if x.type == type_sysdescr
    then record r { descr = put_string (kept x.value) r.descr }
    else if x.type == type_router_bgp_id
    then (if length x.value == 4
        then record r { bgp_id = h.inet_ntop true x.value; hash_type = 2 }
        else r)
    else r

abbrev pub init_items : Host → List Item → Router → Router
init_items h [] r = r
init_items h (x ∷ xs) r = init_items h xs (init_item h x r)

-- No value is longer than infoBuf, and no name or description has exactly 256 bytes.
pub record IsInitItem (x : Item) : Type 0 where
  pub item : IsItem data_size x
  pub not_256 : length x.value ≢ 256

-- Either all of the string is kept, or 254 bytes of it.
Short : Bytes → Type 0
Short v = (length v ≤ name_size) × (kept v ≡ v)

Long : Bytes → Type 0
Long v = (name_size + 1 < length v) × (kept v ≡ take 254 v)

kept-cases : (v : Bytes) → length v ≢ 256 → Short v ⊎ Long v
unfolding Short Long
kept-cases v h = elim (Bool-cases (leb (length v) name_size)) [
  | inl fits ↦ rw fits (inl (leb→le (length v) name_size fits, refl))
  | inr long ↦ rw long (inr (omega (arith, leb→lt (length v) name_size long), refl))
]

-- What strncpy is told to take of the value, and what it finds there.
record IsTaken (v z : Bytes) : Type 0 where
  count : clip name_size (length v) ≡ length (kept v)
  found : take (length (kept v)) (v ++ z) ≡ kept v
  small : length (kept v) ≤ name_size

kept-IsTaken : (v z : Bytes) → length v ≢ 256 → length v ≢ 0 → IsTaken v z
unfolding Short Long
kept-IsTaken v z h k = elim (kept-cases v h) [
  | inl (fits, e) ↦ record {
    count = rw e (clip-small name_size (length v) k (omega arith));
    found = rw e (take-append-length v z);
    small = rw e fits;
  }
  | inr (long, e) ↦
      let n : length (take 254 v) ≡ 254 = length-take-le 254 v (omega arith) in
      record {
        count = rw (e, n) (clip-large name_size (length v) long);
        found = rw (e, n) (take-append-le 254 v z (omega arith));
        small = rw (e, n) (omega arith);
      }
]

copy_string-item :
    (x : Item) (dst : Bytes)
    → length x.value ≢ 256
    → length x.value ≢ 0
    → copy_string name_size (tlv_of data_size x) (clip name_size (length x.value)) dst
      ≡ ok (put_string (kept x.value) dst)
unfolding copy_string
copy_string-item x dst h k =
    let v = x.value in
    let c = kept-IsTaken v (replicate (data_size - length v) 0) h k in
    rw (c.count, c.found, le→ltb name_size (length (kept v)) c.small) refl

init_save-item :
    (h : Host) (x : Item) (r : Router)
    → IsInitItem x
    → init_save h (tlv_of data_size x) r ≡ ok (init_item h x r)
unfolding init_save
init_save-item h x r v = elim (Bool-cases (length x.value == 0)) [
  | inl none ↦ rw none refl
  | inr some ↦ elim (Bool-cases (x.type == type_free_form)) [
    | inl free ↦
        let s = v.item.fits in
        rw
          (
            some,
            free,
            clip-small data_size (length x.value) (not-== (length x.value) 0 some)
                (omega (arith, s)),
            copy_info-item data_size x r.initiate_data s (not-== (length x.value) 0 some),
          )
          refl
    | inr t0 ↦ elim (Bool-cases (x.type == type_sysname)) [
      | inl name ↦
          rw (some, t0, name, copy_string-item x r.name v.not_256 (not-== (length x.value) 0 some))
            refl
      | inr t2 ↦ elim (Bool-cases (x.type == type_sysdescr)) [
        | inl descr ↦
            rw
              (
                some,
                t0,
                t2,
                descr,
                copy_string-item x r.descr v.not_256 (not-== (length x.value) 0 some),
              )
              refl
        | inr t1 ↦ elim (Bool-cases (length x.value == 4)) [
          | inl four ↦
              let n : length x.value ≡ 4 = ground arith in
              let whole : take 4 (x.value ++ replicate (data_size - length x.value) 0) ≡ x.value =
                take-append-le 4 x.value (replicate (data_size - length x.value) 0) (omega arith)
                ∙ take-whole 4 x.value (omega arith) in
              rw (some, t0, t2, t1, four, whole) (ground arith)
          | inr other ↦ rw (some, t0, t2, t1, other) (ground arith)
        ]
      ]
    ]
  ]
]

fold_items-init :
    (h : Host) (xs : List Item) (r : Router)
    → All IsInitItem xs
    → fold_items data_size (init_save h) xs r ≡ ok (init_items h xs r)
fold_items-init h [] r vs = refl
fold_items-init h (x ∷ xs) r (v, vs) =
    rw (init_save-item h x r v, fold_items-init h xs (init_item h x r) vs) refl

All-IsItem : (xs : List Item) → All IsInitItem xs → All (IsItem data_size) xs
All-IsItem [] vs = tt
All-IsItem (x ∷ xs) (v, vs) = (v.item, All-IsItem xs vs)

-- An initiation message of any items, none longer than infoBuf and none of exactly 256 bytes, is read by
-- handleInitMsg up to its end, and the router is what the items say, one after another: a free-form
-- string and the strings of sysName and sysDescr replace the first bytes of their arrays, of a string
-- that is too long for its array 254 bytes, a BGP identifier is printed, and the hash is by the
-- identifier if there was one, or else by the name if there was one.
pub handle_init_msg-encode_items :
    (h : Host) (xs : List Item) (d : Bytes) (r : Router)
    → All IsInitItem xs
    → length (encode_items xs) < 65536
    → handle_init_msg h (encode_items xs ++ d) (length (encode_items xs)) r
      ≡ ok (init_items h xs (record r { hash_type = 0 }), d)
unfolding handle_init_msg
handle_init_msg-encode_items h xs d r vs small =
    let body = encode_items xs in
    rw
      (
        buffer_bmp_message-whole body d (omega (arith, small)),
        tlv_loop-encode_items data_size (init_save h) xs (suc (length body)) zero (length body)
            (replicate (buffer_size - length body) 0) (record r { hash_type = 0 })
            (All-IsItem xs vs) (omega arith) (omega arith),
        fold_items-init h xs (record r { hash_type = 0 }) vs,
      )
      refl
