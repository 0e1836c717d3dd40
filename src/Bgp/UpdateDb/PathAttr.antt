-- ===== src/Bgp/UpdateDb/PathAttr.antt =====
-- What UpdateDBAttrs of Server/src/bgp/parseBGP.cpp makes of the attributes, with the numbers that it
-- reads from their texts.
use sonic_bmp.Common.{
  ℕ, ◌+◌, ◌-◌, ◌*◌, ◌%◌, ◌^◌, Bool, true, false, not, ◌&&◌, ◌||◌, [], ◌∷◌, Option, none, some, ◌==◌,
  ltb, leb, if◌then◌else◌, Text, codes, length, take, Result, ok, throw, ◌>>=◌, ℤ, pos, negsuc,
}
use sonic_bmp.Bgp.Attrs.{Attrs, get_attr}
use sonic_bmp.Bgp.AttrType

-- obj_path_attr, without its hash id.
pub record BaseAttr : Type 0 where
  pub origin : Text
  pub as_path : Text
  pub as_path_count : ℕ
  pub origin_as : ℕ
  pub nexthop_is_ipv4 : Bool
  pub next_hop : Text
  pub aggregator : Text
  pub atomic_agg : Bool
  pub med : ℕ
  pub local_pref : ℕ
  pub community_list : Text
  pub ext_community_list : Text
  pub large_community_list : Text
  pub cluster_list : Text
  pub originator_id : Text

abbrev pub is_digit : ℕ → Bool
is_digit c = leb 48 c && leb c 57

-- The digits at the start of a text, if there are any.
unfoldable pub digits_from : Bool → ℕ → Text → Option ℕ
digits_from seen n [] = if seen then some n else none
digits_from seen n (c ∷ cs) =
    let more = digits_from true (n * 10 + (c - 48)) cs in
    if is_digit c then more else if seen then some n else none

unfoldable pub skip_spaces : Text → Text
skip_spaces [] = []
skip_spaces (c ∷ cs) =
    let rest = skip_spaces cs in if c == 32 || leb 9 c && leb c 13 then rest else c ∷ cs

-- A sign, true for minus, and the digits.
abbrev pub signed : Text → Bool × Option ℕ
signed [] = (false, none)
signed (c ∷ cs) =
    if c == 45
    then (true, digits_from false 0 cs)
    else if c == 43
    then (false, digits_from false 0 cs)
    else (false, digits_from false 0 (c ∷ cs))

-- std::stoul of a sign and digits. An exception of the library is thrown with its `what()`.
abbrev pub stoul_of : Bool × Option ℕ → Result ℕ
stoul_of (minus, none) = throw (codes "stoul")
stoul_of (minus, some n) =
    if ltb n (2 ^ 64)
    then ok (if minus then (2 ^ 64 - n) % 2 ^ 64 else n)
    else throw (codes "stoul")

unfoldable pub stoul : Text → Result ℕ
stoul t = stoul_of (signed (skip_spaces t))

-- std::stoi
abbrev pub stoi_of : Bool × Option ℕ → Result ℤ
stoi_of (minus, none) = throw (codes "stoi")
stoi_of (minus, some n) =
    if minus && ltb 0 n
    then (if leb n (2 ^ 31) then ok (negsuc (n - 1)) else throw (codes "stoi"))
    else if ltb n (2 ^ 31)
    then ok (pos n)
    else throw (codes "stoi")

unfoldable pub stoi : Text → Result ℤ
stoi t = stoi_of (signed (skip_spaces t))

-- Assignment to a uint16_t
abbrev pub to_u16 : ℤ → ℕ
to_u16 (pos n) = n % 2 ^ 16
to_u16 (negsuc n) = 2 ^ 16 - 1 - n % 2 ^ 16

-- A uint32_t: 0 for an empty text.
unfoldable pub u32_of : Text → Result ℕ
u32_of t =
    let number : Result ℕ = (do n ← stoul t; ok (n % 2 ^ 32)) in
    if ltb 0 (length t) then number else ok 0

-- as_path_count, a uint16_t
unfoldable pub count_of : Text → Result ℕ
count_of t =
    let number : Result ℕ = (do n ← stoi t; ok (to_u16 n)) in
    if ltb 0 (length t) then number else ok 0

-- `find_first_of(c) != npos`
abbrev pub holds : ℕ → Text → Bool
holds c [] = false
holds c (d ∷ ds) = d == c || holds c ds

-- `compare("1") == 0`
abbrev pub is_one : Text → Bool
is_one (c ∷ []) = c == 49
is_one _ = false

-- base_attr as UpdateDBAttrs sets it up; strncpy stops at the size of an array.
unfoldable pub base_attr_of : Attrs → Result BaseAttr
base_attr_of m = do
  local_pref ← u32_of (get_attr AttrType.local_pref m)
  med ← u32_of (get_attr AttrType.med m)
  as_path_count ← count_of (get_attr AttrType.internal_as_count m)
  origin_as ← u32_of (get_attr AttrType.internal_as_origin m)
  ok (record {
    origin = take 16 (get_attr AttrType.origin m);
    as_path = get_attr AttrType.as_path m;
    as_path_count = as_path_count;
    origin_as = origin_as;
    nexthop_is_ipv4 = not (holds 58 (get_attr AttrType.next_hop m));
    next_hop = take 40 (get_attr AttrType.next_hop m);
    aggregator = take 40 (get_attr AttrType.aggregator m);
    atomic_agg = is_one (get_attr AttrType.atomic_aggregate m);
    med = med;
    local_pref = local_pref;
    community_list = get_attr AttrType.communities m;
    ext_community_list = get_attr AttrType.ext_community m;
    large_community_list = get_attr AttrType.large_community m;
    cluster_list = get_attr AttrType.cluster_list m;
    originator_id = take 16 (get_attr AttrType.originator_id m);
  })
