-- ===== src/Bmp/Info/Copies.antt =====
-- What is copied out of infoBuf.
use sonic_bmp.Common.{
  ℕ, ◌+◌, ◌-◌, ◌≤◌, ◌<◌, ◌≡◌, ◌≢◌, refl, le→ltb, lt→ltb, ≢→==, ◌++◌, Bytes, length, drop, replicate,
  take-append-length, ok, fault, overwrite, arith,
}
use sonic_bmp.Bmp.Info.{clip, copy_info, copy_string, Tlv}
use sonic_bmp.Bmp.Info.Fold.{Item, tlv_of}

-- A length of at most one more than the size is taken as it is.
pub clip-small : (size n : ℕ) → n ≢ 0 → n ≤ size + 1 → clip size n ≡ n
unfolding clip
clip-small size n h l = rw (≢→== n 0 h, le→ltb size (n - 1) (omega arith)) refl

pub clip-large : (size n : ℕ) → size + 1 < n → clip size n ≡ size - 1
unfolding clip
clip-large size n l = rw (≢→== n 0 (omega arith), lt→ltb size (n - 1) (omega arith)) refl

-- A value that fits is copied whole.
pub copy_info-item :
    (size : ℕ) (x : Item) (dst : Bytes)
    → length x.value ≤ size
    → length x.value ≢ 0
    → copy_info size size (tlv_of size x) (length x.value) dst
      ≡ ok (x.value ++ drop (length x.value) dst)
unfolding copy_info
copy_info-item size x dst h k =
    rw
      (
        ≢→== (length x.value) 0 k,
        le→ltb size (length x.value) h,
        take-append-length x.value (replicate (size - length x.value) 0),
      )
      refl

-- A string of a byte more than the array has is written behind its end.
pub copy_string-one_more :
    (size : ℕ) (t : Tlv) (dst : Bytes)
    → copy_string size t (clip size (size + 1)) dst ≡ fault overwrite
unfolding copy_string
copy_string-one_more size t dst =
    rw
      (clip-small size (size + 1) (omega arith) (omega arith), lt→ltb size (size + 1) (omega arith))
      refl
