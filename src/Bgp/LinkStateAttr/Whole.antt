-- ===== src/Bgp/LinkStateAttr/Whole.antt =====
-- The arrays of parsed_ls_attrs_map keep their size when
-- Server/src/bgp/linkstate/MPLinkStateAttr.cpp writes to them.
use sonic_bmp.Common.{
  ℕ, ◌≡◌, refl, inl, inr, ◌==◌, leb, Bool-cases, [], ◌∷◌, All, Bytes, length, drop, arith, Ends,
  leb→le, length-drop, length-append,
}
use sonic_bmp.Bgp.LinkState.Descriptors.{overlay}
use sonic_bmp.Bgp.LinkState.Rows.{LsAttrs}
use sonic_bmp.Bgp.LinkStateAttr.Arrays.{ls_at, ls_put, ls_copy_onto, ls_copy}

-- Every array of the map has its 255 bytes.
abbrev pub AreArrays : LsAttrs → Type 0
AreArrays m = All (λ e. length e.1 ≡ 255) m

pub length-ls_at : (k : ℕ) (m : LsAttrs) → AreArrays m → length (ls_at k m) ≡ 255
unfolding ls_at
length-ls_at k [] v = refl
length-ls_at k ((j, w) ∷ m) (l, v) = elim (Bool-cases (j == k)) [
  | inl e ↦ rw e l
  | inr e ↦ rw e (length-ls_at k m v)
]

pub ls_put-AreArrays :
    (k : ℕ) (a : Bytes) (m : LsAttrs) → length a ≡ 255 → AreArrays m → AreArrays (ls_put k a m)
unfolding ls_put
ls_put-AreArrays k a [] full v = (full, tt)
ls_put-AreArrays k a ((j, w) ∷ m) full (l, v) = elim (Bool-cases (j == k)) [
  | inl e ↦ rw e (full, v)
  | inr e ↦ rw e (l, ls_put-AreArrays k a m full v)
]

pub ls_copy_onto-Ends :
    (k : ℕ) (old bs : Bytes) (m : LsAttrs)
    → length old ≡ 255
    → AreArrays m
    → Ends AreArrays (ls_copy_onto k old bs m)
unfolding ls_copy_onto
ls_copy_onto-Ends k old bs m full v = elim (Bool-cases (leb (length bs) 255)) [
  | inl fits ↦ rw fits (
      ls_put-AreArrays k (overlay bs old) m
        (omega (
          arith,
          full,
          leb→le (length bs) 255 fits,
          length-append bs (drop (length bs) old),
          length-drop (length bs) old,
        ))
        v)
  | inr long ↦ rw long tt
]

pub ls_copy-Ends :
    (k : ℕ) (bs : Bytes) (m : LsAttrs) → AreArrays m → Ends AreArrays (ls_copy k bs m)
ls_copy-Ends k bs m v = ls_copy_onto-Ends k (ls_at k m) bs m (length-ls_at k m v) v
