-- ===== src/Bmp/Init/Faults.antt =====
-- What handleInitMsg does on input that does not fit.
use sonic_bmp.Common.{
  zero, suc, ◌-◌, ◌<◌, ◌≡◌, refl, List, ◌∷◌, ◌++◌, ◌⊎◌, inl, inr, Bytes, All, length, replicate,
  arith, fault, overwrite,
}
use sonic_bmp.Bgp.Types.{Host}
use sonic_bmp.Bmp.CommonHeader.{buffer_size}
use sonic_bmp.Bmp.CommonHeader.Reads.{buffer_bmp_message-whole}
use sonic_bmp.Bmp.Info.{Tlv}
use sonic_bmp.Bmp.Info.Copies.{copy_string-one_more}
use sonic_bmp.Bmp.Info.Fold.{Item, IsItem, encode_items, tlv_of, tlv_loop-encode_items}
use sonic_bmp.Bmp.Init.{
  Router, type_sysname, type_sysdescr, data_size, name_size, init_save, handle_init_msg,
}

-- A name or a description of exactly 256 bytes.
pub record IsOneMore (x : Item) : Type 0 where
  pub which : (x.type ≡ type_sysname) ⊎ (x.type ≡ type_sysdescr)
  pub size : length x.value ≡ 256

init_save-name :
    (h : Host) (info : Bytes) (r : Router)
    → init_save h (record { type = type_sysname; len = 256; info = info }) r ≡ fault overwrite
unfolding init_save
init_save-name h info r =
    rw
      (copy_string-one_more name_size (record { type = type_sysname; len = 256; info = info })
        r.name)
      refl

init_save-descr :
    (h : Host) (info : Bytes) (r : Router)
    → init_save h (record { type = type_sysdescr; len = 256; info = info }) r ≡ fault overwrite
unfolding init_save
init_save-descr h info r =
    rw
      (copy_string-one_more name_size (record { type = type_sysdescr; len = 256; info = info })
        r.descr)
      refl

init_save-one_more :
    (h : Host) (t : Tlv) (r : Router)
    → (t.type ≡ type_sysname) ⊎ (t.type ≡ type_sysdescr)
    → t.len ≡ 256
    → init_save h t r ≡ fault overwrite
init_save-one_more h t r (inl name) n = rw (n, name) (init_save-name h t.info r)
init_save-one_more h t r (inr descr) n = rw (n, descr) (init_save-descr h t.info r)

-- An initiation message whose first item is a sysName or sysDescr of exactly 256 bytes makes
-- handleInitMsg write behind the end of the 255 bytes of the array, whatever the bytes and the other
-- items are: the test lets the length pass that is one above the size.
pub handle_init_msg-one_more :
    (h : Host) (x : Item) (xs : List Item) (d : Bytes) (r : Router)
    → IsOneMore x
    → All (IsItem data_size) (x ∷ xs)
    → length (encode_items (x ∷ xs)) < 65536
    → handle_init_msg h (encode_items (x ∷ xs) ++ d) (length (encode_items (x ∷ xs))) r
      ≡ fault overwrite
unfolding handle_init_msg
handle_init_msg-one_more h x xs d r v vs small =
    let body = encode_items (x ∷ xs) in
    rw
      (
        buffer_bmp_message-whole body d (omega (arith, small)),
        tlv_loop-encode_items data_size (init_save h) (x ∷ xs) (suc (length body)) zero
            (length body) (replicate (buffer_size - length body) 0) (record r { hash_type = 0 }) vs
            (omega arith) (omega arith),
        init_save-one_more h (tlv_of data_size x) (record r { hash_type = 0 }) v.which v.size,
      )
      refl
