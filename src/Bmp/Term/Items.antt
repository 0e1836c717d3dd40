-- ===== src/Bmp/Term/Items.antt =====
-- A termination message is taken item by item.
use sonic_bmp.Common.{
  ℕ, zero, suc, ◌-◌, ◌<◌, ◌≡◌, ◌≢◌, refl, List, [], ◌∷◌, ◌++◌, ≢→==, Bytes, All, length, drop,
  replicate, ok, arith, append_assoc, network, read_uint-network,
}
use sonic_bmp.Bmp.CommonHeader.{buffer_size}
use sonic_bmp.Bmp.CommonHeader.Reads.{buffer_bmp_message-whole}
use sonic_bmp.Bmp.Info.Copies.{copy_info-item}
use sonic_bmp.Bmp.Info.Fold.{Item, IsItem, encode_items, tlv_of, fold_items, tlv_loop-encode_items}
use sonic_bmp.Bmp.Init.{Router, data_size}
use sonic_bmp.Bmp.Term.{term_free_form, term_reason, reason_text, term_save, handle_term_msg}

-- What a termination message says: a string, or a reason code, with any bytes behind it.
pub data Cause : Type 0 where
  message : (text : Bytes) → Cause
  reason : (code : ℕ) (more : Bytes) → Cause

abbrev pub item_of : Cause → Item
item_of (message text) = record { type = term_free_form; value = text }
item_of (reason code more) = record { type = term_reason; value = network 2 code ++ more }

abbrev pub items_of : List Cause → List Item
items_of [] = []
items_of (c ∷ cs) = item_of c ∷ items_of cs

-- A string is not empty, and a code is a uint16_t.
abbrev pub IsCause : Cause → Type 0
IsCause (message text) = IsItem data_size (item_of (message text)) × (length text ≢ 0)
IsCause (reason code more) = IsItem data_size (item_of (reason code more)) × (code < 65536)

-- What it says of the router.
abbrev pub term_cause : Cause → Router → Router
term_cause (message text) r = record r { term_data = text ++ drop (length text) r.term_data }
term_cause (reason code more) r = record r {
  term_reason_code = code;
  term_reason_text = reason_text code;
}

abbrev pub term_causes : List Cause → Router → Router
term_causes [] r = r
term_causes (c ∷ cs) r = term_causes cs (term_cause c r)

term_save-item :
    (c : Cause) (r : Router)
    → IsCause c
    → term_save (tlv_of data_size (item_of c)) r ≡ ok (term_cause c r)
unfolding term_save
term_save-item (message text) r (v, some) =
    let s = v.fits in rw (copy_info-item data_size (item_of (message text)) r.term_data s some) refl
term_save-item (reason code more) r (v, small) =
    let z : Bytes = replicate (data_size - length (network 2 code ++ more)) 0 in
    rw
      (
        ≢→== (suc (suc (length more))) 0 (omega arith),
        append_assoc (network 2 code) more z,
        read_uint-network 2 code (more ++ z) (omega (arith, small)),
      )
      refl

fold_items-term :
    (cs : List Cause) (r : Router)
    → All IsCause cs
    → fold_items data_size term_save (items_of cs) r ≡ ok (term_causes cs r)
fold_items-term [] r vs = refl
fold_items-term (c ∷ cs) r (v, vs) =
    rw (term_save-item c r v, fold_items-term cs (term_cause c r) vs) refl

IsCause-IsItem : (c : Cause) → IsCause c → IsItem data_size (item_of c)
IsCause-IsItem (message text) v = v.0
IsCause-IsItem (reason code more) v = v.0

All-IsItem : (cs : List Cause) → All IsCause cs → All (IsItem data_size) (items_of cs)
All-IsItem [] vs = tt
All-IsItem (c ∷ cs) (v, vs) = (IsCause-IsItem c v, All-IsItem cs vs)

-- A termination message of any strings that fit and any reason codes is read by handleTermMsg up to its
-- end: the last string stands at the front of the router's array, and its code and the text of its code
-- are those of the last reason; the rest of the router stays what it was.
pub handle_term_msg-encode_causes :
    (cs : List Cause) (d : Bytes) (r : Router)
    → All IsCause cs
    → length (encode_items (items_of cs)) < 65536
    → handle_term_msg (encode_items (items_of cs) ++ d) (length (encode_items (items_of cs))) r
      ≡ ok (term_causes cs r, d)
unfolding handle_term_msg
handle_term_msg-encode_causes cs d r vs small =
    let body = encode_items (items_of cs) in
    rw
      (
        buffer_bmp_message-whole body d (omega (arith, small)),
        tlv_loop-encode_items data_size term_save (items_of cs) (suc (length body)) zero
            (length body) (replicate (buffer_size - length body) 0) r (All-IsItem cs vs)
            (omega arith) (omega arith),
        fold_items-term cs r vs,
      )
      refl
