-- ===== src/Bmp/PeerUp/Info.antt =====
-- The information items behind the open messages of a peer up event.
use sonic_bmp.Common.{
  zero, suc, ◌≡◌, ◌≢◌, refl, List, [], ◌∷◌, ◌++◌, inl, inr, ◌==◌, if◌then◌else◌, Bool-cases, Bytes,
  All, length, drop, ok, arith, ==_iff,
}
use sonic_bmp.Bmp.Info.Copies.{clip-small, copy_info-item}
use sonic_bmp.Bmp.Info.Fold.{Item, IsItem, encode_items, tlv_of, fold_items, tlv_loop-encode_items}
use sonic_bmp.Bmp.PeerUp.{table_size, vrf_table, info_save, parse_peer_up_info}

-- A name of a table is not empty; every value fits infoBuf.
pub record IsInfo (x : Item) : Type 0 where
  pub item : IsItem table_size x
  pub named : x.type ≡ vrf_table → length x.value ≢ 0

-- What the items say of the table's name.
abbrev pub table_of : List Item → Bytes → Bytes
table_of [] table = table
table_of (x ∷ xs) table =
    table_of xs (if x.type == vrf_table then x.value ++ drop (length x.value) table else table)

info_save-item :
    (x : Item) (table : Bytes)
    → IsInfo x
    → info_save (tlv_of table_size x) table
      ≡ ok (if x.type == vrf_table then x.value ++ drop (length x.value) table else table)
unfolding info_save
info_save-item x table v = elim (Bool-cases (x.type == vrf_table)) [
  | inl name ↦
      let some = v.named ((==_iff x.type vrf_table).0 name) in
      let s = v.item.fits in
      rw
        (
          name,
          clip-small table_size (length x.value) some (omega (arith, s)),
          copy_info-item table_size x table s some,
        )
        refl
  | inr other ↦ rw other refl
]

fold_items-info :
    (xs : List Item) (table : Bytes)
    → All IsInfo xs
    → fold_items table_size info_save xs table ≡ ok (table_of xs table)
fold_items-info [] table vs = refl
fold_items-info (x ∷ xs) table (v, vs) = rw (info_save-item x table v, fold_items-info xs _ vs) refl

All-IsItem : (xs : List Item) → All IsInfo xs → All (IsItem table_size) xs
All-IsItem [] vs = tt
All-IsItem (x ∷ xs) (v, vs) = (v.item, All-IsItem xs vs)

-- Information items of at most 255 bytes each are taken by parsePeerUpInfo one after another, whatever
-- stands behind them in the buffer: the last name of a table stands at the front of the peer's array.
pub parse_peer_up_info-encode_items :
    (xs : List Item) (d table : Bytes)
    → All IsInfo xs
    → parse_peer_up_info (encode_items xs ++ d) (length (encode_items xs)) table
      ≡ ok (table_of xs table)
unfolding parse_peer_up_info
parse_peer_up_info-encode_items xs d table vs =
    let n = length (encode_items xs) in
    rw
      (tlv_loop-encode_items table_size info_save xs (suc n) zero n d table (All-IsItem xs vs)
        (omega arith) (omega arith))
      (fold_items-info xs table vs)
