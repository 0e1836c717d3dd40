-- ===== src/Bgp/LinkStateAttr/Arrays.antt =====
-- The arrays of parsed_ls_attrs_map of Server/src/bgp/UpdateMsg.h, as
-- Server/src/bgp/linkstate/MPLinkStateAttr.cpp writes them.
use sonic_bmp.Common.{
  ℕ, suc, zero, ◌-◌, [], ◌∷◌, ◌++◌, ◌==◌, leb, if◌then◌else◌, Text, Bytes, length, take, Result, ok,
  fault, overread, overwrite, ◌>>=◌,
}
use sonic_bmp.Bgp.LinkState.Descriptors.{overlay}
use sonic_bmp.Bgp.LinkState.Rows.{LsAttrs, zeros}

-- `ls_attrs[k]`, an array of zeros if there is none
unfoldable pub ls_at : ℕ → LsAttrs → Bytes
ls_at k [] = zeros 255
ls_at k ((j, v) ∷ m) = let rest = ls_at k m in if j == k then v else rest

unfoldable pub ls_put : ℕ → Bytes → LsAttrs → LsAttrs
ls_put k v [] = (k, v) ∷ []
ls_put k v ((j, w) ∷ m) = let rest = ls_put k v m in if j == k then (j, v) ∷ m else (j, w) ∷ rest

-- memcpy to the start of an array `old` that then is the one of the map
unfoldable pub ls_copy_onto : ℕ → Bytes → Bytes → LsAttrs → Result LsAttrs
ls_copy_onto k old bs m =
    if leb (length bs) 255 then ok (ls_put k (overlay bs old) m) else fault overwrite

abbrev pub ls_copy : ℕ → Bytes → LsAttrs → Result LsAttrs
ls_copy k bs m = ls_copy_onto k (ls_at k m) bs m

-- `fill(0)`, and memcpy
abbrev pub ls_fill : ℕ → Bytes → LsAttrs → Result LsAttrs
ls_fill k bs m = ls_copy_onto k (zeros 255) bs m

-- The text that lies in an array; without a NUL strlen runs past its end.
unfoldable pub c_text : Bytes → Result Text
c_text [] = fault overread
c_text (b ∷ bs) =
    let rest : Result Text = (do t ← c_text bs; ok (b ∷ t)) in if b == 0 then ok [] else rest

-- `strncat(array, t, size - strlen(array))` behind the text `old` that lies there: the NUL is not counted.
abbrev pub ls_append : ℕ → Text → Text → LsAttrs → Result LsAttrs
ls_append k old t m = ls_copy k (old ++ (take (255 - length old) t ++ (0 ∷ []))) m

-- The bytes that strncpy of at most n bytes writes.
unfoldable pub strncpy : ℕ → Bytes → Result Bytes
strncpy zero d = ok []
strncpy (suc n) [] = fault overread
strncpy (suc n) (b ∷ d) =
    let rest : Result Bytes = (do t ← strncpy n d; ok (b ∷ t)) in
    if b == 0 then ok (zeros (suc n)) else rest
