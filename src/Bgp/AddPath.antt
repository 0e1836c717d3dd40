-- ===== src/Bgp/AddPath.antt =====
-- Server/src/bgp/AddPathDataContainer.cpp: which address families exchange path ids. The map is an
-- association list with one entry for each key. `code` and the keys' parts are C++ ints that the
-- callers read from the wire, so they are never negative.
mod Keys
pub mod Negotiated
use sonic_bmp.Common.{
  ℕ, Bool, true, false, ◌&&◌, ◌||◌, List, [], ◌∷◌, ◌++◌, Option, none, some, ◌==◌, if◌then◌else◌,
  Text, codes, to_dec,
}
unfoldable pub use Keys.{text_eq, key_string}
pub use Keys.{text_eq_iff, key_string_injective}

-- sendReceiveCodesForSentAndReceivedOpenMessageStructure
pub record Codes : Type 0 where
  pub sent_open : ℕ
  pub received_open : ℕ

abbrev pub Container : Type 0
Container = List (Text × Codes)

-- OpenMsg::BGP_CAP_ADD_PATH_SEND_RECEIVE_CODES
abbrev pub cap_receive : ℕ
cap_receive = 1

abbrev pub cap_send : ℕ
cap_send = 2

abbrev pub cap_send_receive : ℕ
cap_send_receive = 3

-- addPathMap.find
unfoldable pub find : Text → Container → Option Codes
unfolding text_eq
find k [] = none
find k ((j, c) ∷ m) = if text_eq j k then some c else find k m

-- The assignment to one member of the structure.
unfoldable pub set_code : ℕ → Bool → Codes → Codes
set_code code sent c =
    if sent then record c { sent_open = code } else record c { received_open = code }

-- addPathMap.insert of a missing key, and the assignment through the iterator to one that is there.
unfoldable pub update : Text → (Codes → Codes) → Codes → Container → Container
unfolding text_eq
update k f new [] = (k, f new) ∷ []
update k f new ((j, c) ∷ m) = if text_eq j k then (j, f c) ∷ m else (j, c) ∷ update k f new m

-- addAddPath. A new structure is not initialised: `junk` is what its members happen to hold.
unfoldable pub add_add_path : Codes → ℕ → ℕ → ℕ → Bool → Container → Container
unfolding update set_code
add_add_path junk afi safi code sent m = update (key_string afi safi) (set_code code sent) junk m

-- The two branches on what `find` returns.
unfoldable pub entry_enabled : Option Codes → Bool
entry_enabled none = false
entry_enabled (some c) =
    (c.sent_open == cap_receive || c.sent_open == cap_send_receive)
    && (c.received_open == cap_send || c.received_open == cap_send_receive)

unfoldable pub is_add_path_enabled : ℕ → ℕ → Container → Bool
unfolding find entry_enabled
is_add_path_enabled afi safi m = entry_enabled (find (key_string afi safi) m)
