-- ===== src/Bgp/AddPath/Negotiated.antt =====
-- What the container answers after any sequence of addAddPath calls.
use sonic_bmp.Common.{
  ℕ, ◌^◌, ◌<◌, ◌≡◌, refl, ap, ◌∙◌, Bool, true, false, ◌&&◌, ◌||◌, not, List, [], ◌∷◌, Option, none,
  some, arith, ◌==◌, if◌then◌else◌, Text, All,
}
use sonic_bmp.Bgp.AddPath.{
  Codes, Container, text_eq, text_eq_iff, key_string, key_string_injective, find, set_code, update,
  add_add_path, entry_enabled, is_add_path_enabled, cap_receive, cap_send, cap_send_receive,
}

-- One call of addAddPath.
pub record Capability : Type 0 where
  pub afi : ℕ
  pub safi : ℕ
  pub send_receive : ℕ
  pub sent : Bool

-- Calls with the newest first.
unfoldable pub replay : Codes → List Capability → Container
unfolding add_add_path
replay junk [] = []
replay junk (c ∷ cs) = add_add_path junk c.afi c.safi c.send_receive c.sent (replay junk cs)

abbrev same_family : ℕ → ℕ → Capability → Bool
same_family afi safi c = c.afi == afi && c.safi == safi

abbrev bool_eq : Bool → Bool → Bool
bool_eq true b = b
bool_eq false b = not b

-- The code that the newest capability for the family in that OPEN message gave, if there is one.
abbrev pub last_code : Bool → ℕ → ℕ → List Capability → Option ℕ
last_code sent afi safi [] = none
last_code sent afi safi (c ∷ cs) =
    if same_family afi safi c && bool_eq c.sent sent
    then some c.send_receive
    else last_code sent afi safi cs

abbrev or_else : Option ℕ → ℕ → ℕ
or_else none d = d
or_else (some v) d = v

-- The entry of a family with these codes; a code that no message gave is `junk`.
abbrev pub entry : Codes → Option ℕ → Option ℕ → Option Codes
entry junk none none = none
entry junk s r =
    some (record {
      sent_open = or_else s junk.sent_open;
      received_open = or_else r junk.received_open;
    })

abbrev pub IsSmall : Capability → Type 0
IsSmall c = (c.afi < 10 ^ 20) × (c.safi < 10 ^ 20)

abbrev entry_or : Option Codes → Codes → Codes
entry_or none d = d
entry_or (some c) d = c

find-update :
    (k j : Text) (f : Codes → Codes) (new : Codes) (m : Container)
    → find j (update k f new m)
      ≡ (if text_eq k j then some (f (entry_or (find k m) new)) else find j m)
unfolding find update
find-update k j f new [] = refl
find-update k j f new ((i, c) ∷ m) =
    ground (arith, text_eq_iff k j, text_eq_iff i k, text_eq_iff i j, find-update k j f new m)

-- Two families have one key exactly when they are one family.
key-same_family :
    (afi safi : ℕ) (c : Capability)
    → afi < 10 ^ 20
    → safi < 10 ^ 20
    → IsSmall c
    → text_eq (key_string c.afi c.safi) (key_string afi safi) ≡ same_family afi safi c
key-same_family afi safi c ha hs (ca, cs) = ground (
  arith,
  text_eq_iff (key_string c.afi c.safi) (key_string afi safi),
  key_string_injective c.afi c.safi afi safi ca cs ha hs,
)

-- One more call changes the entry of its family as the newest capability says, and no other.
entry_step :
    (junk : Codes) (b sent : Bool) (v : ℕ) (s r : Option ℕ)
    → (if b then some (set_code v sent (entry_or (entry junk s r) junk)) else entry junk s r)
      ≡ entry junk
          (if b && bool_eq sent true then some v else s)
          (if b && bool_eq sent false then some v else r)
unfolding set_code
entry_step junk false sent v s r = refl
entry_step junk true true v none none = refl
entry_step junk true true v none (some y) = refl
entry_step junk true true v (some x) none = refl
entry_step junk true true v (some x) (some y) = refl
entry_step junk true false v none none = refl
entry_step junk true false v none (some y) = refl
entry_step junk true false v (some x) none = refl
entry_step junk true false v (some x) (some y) = refl

-- `update` starts from the entry that `find` sees at the same key.
same_entry :
    (b : Bool) (f : Codes → Codes) (junk : Codes) (x y : Option Codes)
    → (b ≡ true → x ≡ y)
    → (if b then some (f (entry_or x junk)) else y) ≡ (if b then some (f (entry_or y junk)) else y)
same_entry true f junk x y h = rw (h refl)
same_entry false f junk x y h = refl

find-replay :
    (junk : Codes) (afi safi : ℕ) (cs : List Capability)
    → afi < 10 ^ 20
    → safi < 10 ^ 20
    → All IsSmall cs
    → find (key_string afi safi) (replay junk cs)
      ≡ entry junk (last_code true afi safi cs) (last_code false afi safi cs)
unfolding replay find
find-replay junk afi safi [] ha hs all = refl
find-replay junk afi safi (c ∷ cs) ha hs (small, all) =
    let k = key_string c.afi c.safi in
    let j = key_string afi safi in
    let m = replay junk cs in
    let f = set_code c.send_receive c.sent in
    find-update k j f junk m
    ∙ same_entry (text_eq k j) f junk (find k m) (find j m)
        (λ e. ap (λ (t : Text). find t m) ((text_eq_iff k j).0 e))
    ∙ rw (find-replay junk afi safi cs ha hs all, key-same_family afi safi c ha hs small)
        (entry_step junk (same_family afi safi c) c.sent c.send_receive (last_code true afi safi cs)
          (last_code false afi safi cs))

abbrev pub may_receive : ℕ → Bool
may_receive v = v == cap_receive || v == cap_send_receive

abbrev pub may_send : ℕ → Bool
may_send v = v == cap_send || v == cap_send_receive

-- What the newest codes of the two OPEN messages say.
abbrev pub negotiated : Codes → Option ℕ → Option ℕ → Bool
negotiated junk none none = false
negotiated junk s r =
    may_receive (or_else s junk.sent_open) && may_send (or_else r junk.received_open)

entry-negotiated :
    (junk : Codes) (s r : Option ℕ) → entry_enabled (entry junk s r) ≡ negotiated junk s r
unfolding entry_enabled
entry-negotiated junk none none = refl
entry-negotiated junk none (some y) = refl
entry-negotiated junk (some x) none = refl
entry-negotiated junk (some x) (some y) = refl

-- After any sequence of addAddPath calls for families below 10 ^ 20, isAddPathEnabled answers for a
-- family what the newest code of its sent OPEN and the newest code of its received OPEN say: true
-- exactly when the sent one is 1 or 3 and the received one is 2 or 3. Where only one of the two codes
-- was added, what the other, uninitialised member holds is read in its place; where neither was, the
-- answer is false.
pub is_add_path_enabled-replay :
    (junk : Codes) (afi safi : ℕ) (cs : List Capability)
    → afi < 10 ^ 20
    → safi < 10 ^ 20
    → All IsSmall cs
    → is_add_path_enabled afi safi (replay junk cs)
      ≡ negotiated junk (last_code true afi safi cs) (last_code false afi safi cs)
unfolding is_add_path_enabled
is_add_path_enabled-replay junk afi safi cs ha hs all =
    ap entry_enabled (find-replay junk afi safi cs ha hs all)
    ∙ entry-negotiated junk (last_code true afi safi cs) (last_code false afi safi cs)
