-- ===== src/Bgp/UpdateDb/Numbers.antt =====
-- The numbers that UpdateDBAttrs of Server/src/bgp/parseBGP.cpp reads back from the attributes' texts.
use sonic_bmp.Common.{
  leb, ◌&&◌, ◌||◌, ◌==◌, ℕ, zero, suc, ◌+◌, ◌-◌, ◌*◌, ◌/◌, ◌%◌, ◌^◌, ◌≤◌, ◌<◌, ◌≡◌, refl, ap, ◌∙◌,
  Bool, true, false, inl, inr, Bool-cases, [], ◌∷◌, Option, none, some, ltb, Text, to_dec, dec_onto,
  arith, ok, lt→ltb, length, pos, ltb→lt, take, not,
}
use native.Mathlib.Nat.{pow-suc}
use sonic_bmp.Bgp.Attrs.{Attrs, get_attr}
use sonic_bmp.Bgp.AttrType
use sonic_bmp.Bgp.UpdateDb.PathAttr.{
  is_digit, digits_from, skip_spaces, signed, stoul, stoi, u32_of, count_of, holds, is_one,
  base_attr_of,
}

-- A text that starts with a digit
abbrev StartsWithDigit : Text → Type 0
StartsWithDigit [] = ⊥
StartsWithDigit (c ∷ cs) = (48 ≤ c) × (c ≤ 57)

dec_onto-digit : (f n d : ℕ) (t : Text) → d < 10 → StartsWithDigit (dec_onto f n ((48 + d) ∷ t))
unfolding dec_onto
dec_onto-digit zero n d t h = (omega arith, omega arith)
dec_onto-digit (suc f) n d t h = elim (Bool-cases (ltb n 10)) [
  | inl small ↦ rw small (omega arith, omega (arith, ltb→lt n 10 small))
  | inr large ↦ rw large (dec_onto-digit f (n / 10) (n % 10) ((48 + d) ∷ t) (omega arith))
]

to_dec-digit : (n : ℕ) → StartsWithDigit (to_dec n)
unfolding to_dec dec_onto
to_dec-digit n = elim (Bool-cases (ltb n 10)) [
  | inl small ↦ rw small (omega arith, omega (arith, ltb→lt n 10 small))
  | inr large ↦ rw large (dec_onto-digit 19 (n / 10) (n % 10) [] (omega arith))
]

signed-digits :
    (t : Text) → StartsWithDigit t → signed (skip_spaces t) ≡ (false, digits_from false 0 t)
unfolding skip_spaces
signed-digits [] h = absurd h
signed-digits (c ∷ cs) (low, high) =
    let space : (c == 32 || leb 9 c && leb c 13) ≡ false = ground arith in
    let minus : (c == 45) ≡ false = ground arith in
    let plus : (c == 43) ≡ false = ground arith in rw (space, minus, plus) refl

digits_from-digit :
    (seen : Bool) (d n m : ℕ) (t : Text)
    → d < 10
    → n * 10 + d ≡ m
    → digits_from seen n ((48 + d) ∷ t) ≡ digits_from true m t
unfolding digits_from
digits_from-digit seen d n m t h e =
    let digit : is_digit (48 + d) ≡ true = ground arith in
    let value : n * 10 + (48 + d - 48) ≡ m = omega (arith, e) in rw (digit, value) refl

digits_from-dec_onto :
    (f n : ℕ) (seen : Bool) (t : Text)
    → n < 10 ^ suc f
    → digits_from seen 0 (dec_onto (suc f) n t) ≡ digits_from true n t
unfolding dec_onto
digits_from-dec_onto zero n seen t h =
    rw (lt→ltb n 10 (omega (arith, h)))
      (digits_from-digit seen n 0 n t (omega (arith, h)) (omega arith))
digits_from-dec_onto (suc f) n seen t h = elim (Bool-cases (ltb n 10)) [
  | inl small ↦ rw small (digits_from-digit seen n 0 n t (ltb→lt n 10 small) (omega arith))
  | inr large ↦ rw large (
      digits_from-dec_onto f (n / 10) seen ((48 + n % 10) ∷ t)
        (omega (arith, h, pow-suc 10 (suc f)))
      ∙ digits_from-digit true (n % 10) (n / 10) n t (omega arith) (omega arith))
]

digits_from-to_dec : (n : ℕ) → n < 2 ^ 64 → digits_from false 0 (to_dec n) ≡ some n
unfolding to_dec digits_from
digits_from-to_dec n h = digits_from-dec_onto 19 n false [] (omega (arith, h))

signed-to_dec : (n : ℕ) → n < 2 ^ 64 → signed (skip_spaces (to_dec n)) ≡ (false, some n)
signed-to_dec n h =
    signed-digits (to_dec n) (to_dec-digit n)
    ∙ ap (λ (r : Option ℕ). (false, r)) (digits_from-to_dec n h)

stoul-to_dec : (n : ℕ) → n < 2 ^ 64 → stoul (to_dec n) ≡ ok n
unfolding stoul
stoul-to_dec n h = rw (signed-to_dec n h, lt→ltb n (2 ^ 64) h) refl

stoi-to_dec : (n : ℕ) → n < 2 ^ 31 → stoi (to_dec n) ≡ ok (pos n)
unfolding stoi
stoi-to_dec n h = rw (signed-to_dec n (omega (arith, h)), lt→ltb n (2 ^ 31) h) refl

digit_length : (t : Text) → StartsWithDigit t → ltb 0 (length t) ≡ true
digit_length [] h = absurd h
digit_length (c ∷ cs) h = lt→ltb 0 (length (c ∷ cs)) (omega arith)

-- The text of a number that may be missing, and the number.
abbrev pub text_of : Option ℕ → Text
text_of none = []
text_of (some n) = to_dec n

abbrev pub number_of : Option ℕ → ℕ
number_of none = 0
number_of (some n) = n

u32_of-text_of : (o : Option ℕ) → number_of o < 2 ^ 32 → u32_of (text_of o) ≡ ok (number_of o)
unfolding u32_of
u32_of-text_of none h = refl
u32_of-text_of (some n) h =
    let fits : n % 2 ^ 32 ≡ n = omega (arith, h) in
    rw (digit_length (to_dec n) (to_dec-digit n), stoul-to_dec n (omega (arith, h)), fits) refl

count_of-text_of : (o : Option ℕ) → number_of o < 2 ^ 16 → count_of (text_of o) ≡ ok (number_of o)
unfolding count_of
count_of-text_of none h = refl
count_of-text_of (some n) h =
    let fits : n % 2 ^ 16 ≡ n = omega (arith, h) in
    rw (digit_length (to_dec n) (to_dec-digit n), stoi-to_dec n (omega (arith, h)), fits) refl

-- The numeric attributes of a path as the parsers print them, each of them if it is there.
pub record Numeric (m : Attrs) (pref med count origin : Option ℕ) : Type 0 where
  pub local_pref_text : get_attr AttrType.local_pref m ≡ text_of pref
  pub med_text : get_attr AttrType.med m ≡ text_of med
  pub count_text : get_attr AttrType.internal_as_count m ≡ text_of count
  pub origin_text : get_attr AttrType.internal_as_origin m ≡ text_of origin
  pub fits :
      (number_of pref < 2 ^ 32)
      × (number_of med < 2 ^ 32)
      × (number_of count < 2 ^ 16)
      × (number_of origin < 2 ^ 32)

-- The numeric attributes that were printed into the map are read back by UpdateDBAttrs: the local
-- preference, the MED, the count and the origin of the AS path are the numbers, 0 where an attribute is
-- missing; no exception is thrown, and the texts are taken over, cut to the sizes of their arrays.
pub base_attr_of-Numeric :
    (m : Attrs) (pref med count origin : Option ℕ)
    → Numeric m pref med count origin
    → base_attr_of m
      ≡ ok (record {
        origin = take 16 (get_attr AttrType.origin m);
        as_path = get_attr AttrType.as_path m;
        as_path_count = number_of count;
        origin_as = number_of origin;
        nexthop_is_ipv4 = not (holds 58 (get_attr AttrType.next_hop m));
        next_hop = take 40 (get_attr AttrType.next_hop m);
        aggregator = take 40 (get_attr AttrType.aggregator m);
        atomic_agg = is_one (get_attr AttrType.atomic_aggregate m);
        med = number_of med;
        local_pref = number_of pref;
        community_list = get_attr AttrType.communities m;
        ext_community_list = get_attr AttrType.ext_community m;
        large_community_list = get_attr AttrType.large_community m;
        cluster_list = get_attr AttrType.cluster_list m;
        originator_id = take 16 (get_attr AttrType.originator_id m);
      })
unfolding base_attr_of
base_attr_of-Numeric m pref med count origin r =
    rw
      (
        r.local_pref_text,
        r.med_text,
        r.count_text,
        r.origin_text,
        u32_of-text_of pref r.fits.0,
        u32_of-text_of med r.fits.1,
        count_of-text_of count r.fits.2,
        u32_of-text_of origin r.fits.3,
      )
      refl
