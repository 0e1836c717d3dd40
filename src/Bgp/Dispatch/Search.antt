-- ===== src/Bgp/Dispatch/Search.antt =====
-- What the search in the list of capabilities finds, and the list as one text, of parseBGP::handleUpEvent in
-- Server/src/bgp/parseBGP.cpp.
use sonic_bmp.Common.{
  ◌≡◌, refl, ap, ◌∙◌, ◌⊎◌, inl, inr, ◌↔◌, true, false, Bool-cases, List, [], ◌∷◌, ◌++◌, append-nil,
  Text, codes, arith,
}
use sonic_bmp.Bgp.Dispatch.Names.{starts_with, contains, any_contains, join_from}

-- A text is part of another one.
abbrev pub Within : Text → Text → Type 0
Within p t = (x : Text) × (y : Text) × (t ≡ x ++ (p ++ y))

-- It is part of one of them.
abbrev pub WithinOne : Text → List Text → Type 0
WithinOne p [] = ⊥
WithinOne p (t ∷ ts) = Within p t ⊎ WithinOne p ts

-- The texts with ", " between them
abbrev pub listed : List Text → Text
listed [] = []
listed (t ∷ []) = t
listed (t ∷ u ∷ ts) = t ++ (codes ", " ++ listed (u ∷ ts))

listed_from : (t : Text) (ts : List Text) → t ++ join_from false ts ≡ listed (t ∷ ts)
unfolding join_from
listed_from t [] = append-nil t
listed_from t (u ∷ ts) = ap (λ (s : Text). t ++ (codes ", " ++ s)) (listed_from u ts)

pub join_from-listed : (ts : List Text) → join_from true ts ≡ listed ts
unfolding join_from
join_from-listed [] = refl
join_from-listed (t ∷ ts) = listed_from t ts

starts_with-Begins : (p t : Text) → starts_with p t ≡ true → (y : Text) × (t ≡ p ++ y)
unfolding starts_with
starts_with-Begins [] t h = (t, refl)
starts_with-Begins (c ∷ p) [] h = absurd (ground arith)
starts_with-Begins (c ∷ p) (b ∷ t) h =
    let (y, e) = starts_with-Begins p t (ground (arith, h)) in
    let same : c ≡ b = ground (arith, h) in (y, rw (same, e) refl)

starts_with-append : (p y : Text) → starts_with p (p ++ y) ≡ true
unfolding starts_with
starts_with-append [] y = refl
starts_with-append (c ∷ p) y = ground (arith, starts_with-append p y)

contains-starts_with : (p t : Text) → starts_with p t ≡ true → contains p t ≡ true
unfolding contains
contains-starts_with p [] h = h
contains-starts_with p (c ∷ t) h = rw h refl

contains-append : (p x y : Text) → contains p (x ++ (p ++ y)) ≡ true
unfolding contains
contains-append p [] y = contains-starts_with p (p ++ y) (starts_with-append p y)
contains-append p (c ∷ x) y = ground (arith, contains-append p x y)

contains-Within : (p t : Text) → contains p t ≡ true → Within p t
unfolding contains
contains-Within p [] h = let (y, e) = starts_with-Begins p [] h in ([], y, e)
contains-Within p (c ∷ t) h = elim (Bool-cases (starts_with p (c ∷ t))) [
  | inl here ↦ let (y, e) = starts_with-Begins p (c ∷ t) here in ([], y, e)
  | inr behind ↦
      let (x, y, e) = contains-Within p t (ground (arith, h, behind)) in
      (c ∷ x, y, ap (λ (s : Text). c ∷ s) e)
]

any_contains-WithinOne : (p : Text) (ts : List Text) → any_contains p ts ≡ true → WithinOne p ts
unfolding any_contains
any_contains-WithinOne p [] h = absurd (ground arith)
any_contains-WithinOne p (t ∷ ts) h = elim (Bool-cases (contains p t)) [
  | inl here ↦ inl (contains-Within p t here)
  | inr behind ↦ inr (any_contains-WithinOne p ts (ground (arith, h, behind)))
]

WithinOne-any_contains : (p : Text) (ts : List Text) → WithinOne p ts → any_contains p ts ≡ true
unfolding any_contains
WithinOne-any_contains p [] h = absurd h
WithinOne-any_contains p (t ∷ ts) (inl (x, y, e)) =
    let found : contains p t ≡ true = ap (contains p) e ∙ contains-append p x y in rw found refl
WithinOne-any_contains p (t ∷ ts) (inr h) = ground (arith, WithinOne-any_contains p ts h)

-- The search says yes exactly if the text is part of one of them.
pub any_contains_iff : (p : Text) (ts : List Text) → (any_contains p ts ≡ true) ↔ WithinOne p ts
any_contains_iff p ts = (any_contains-WithinOne p ts, WithinOne-any_contains p ts)
