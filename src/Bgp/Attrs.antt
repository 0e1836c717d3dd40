-- ===== src/Bgp/Attrs.antt =====
-- parsed_attrs_map of Server/src/bgp/UpdateMsg.h: the decoded path attributes by their type. The map
-- is an association list with one entry for each key; a key that is missing reads as the empty text,
-- as `attrs[key]` does.
use sonic_bmp.Common.{ℕ, ◌≡◌, List, [], ◌∷◌, ◌==◌, if◌then◌else◌, Text, arith}

abbrev pub Attrs : Type 0
Attrs = List (ℕ × Text)

-- `attrs[key] = value`
unfoldable pub set_attr : ℕ → Text → Attrs → Attrs
set_attr k v [] = (k, v) ∷ []
set_attr k v ((j, w) ∷ m) = if j == k then (j, v) ∷ m else (j, w) ∷ set_attr k v m

-- `attrs[key]`
unfoldable pub get_attr : ℕ → Attrs → Text
get_attr k [] = []
get_attr k ((j, w) ∷ m) = if j == k then w else get_attr k m

-- An assignment changes the entry of its key and no other.
pub get_attr-set_attr :
    (k j : ℕ) (v : Text) (m : Attrs)
    → get_attr j (set_attr k v m) ≡ (if k == j then v else get_attr j m)
unfolding get_attr set_attr
get_attr-set_attr k j v [] = ground arith
get_attr-set_attr k j v ((i, w) ∷ m) = ground (arith, get_attr-set_attr k j v m)
