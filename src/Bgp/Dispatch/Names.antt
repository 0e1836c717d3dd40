-- ===== src/Bgp/Dispatch/Names.antt =====
-- The list of capabilities as one text, and the search in it, of parseBGP::handleUpEvent.
use sonic_bmp.Common.{
  Bool, true, false, ◌&&◌, ◌||◌, List, [], ◌∷◌, ◌++◌, ◌==◌, if◌then◌else◌, Text, codes,
}

unfoldable pub starts_with : Text → Text → Bool
starts_with [] t = true
starts_with (c ∷ p) [] = false
starts_with (c ∷ p) (b ∷ t) = c == b && starts_with p t

-- `find(p) != npos`
unfoldable pub contains : Text → Text → Bool
unfolding starts_with
contains p [] = starts_with p []
contains p (c ∷ t) = starts_with p (c ∷ t) || contains p t

unfoldable pub any_contains : Text → List Text → Bool
unfolding contains
any_contains p [] = false
any_contains p (t ∷ ts) = contains p t || any_contains p ts

-- The capabilities with `, ` between them; `first` is `it == cap_list.begin()`.
unfoldable pub join_from : Bool → List Text → Text
join_from first [] = []
join_from first (t ∷ ts) = ((if first then [] else codes ", ") ++ t) ++ join_from false ts
