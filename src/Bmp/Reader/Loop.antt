-- ===== src/Bmp/Reader/Loop.antt =====
-- BMPReader::readerThreadLoop of Server/src/bmp/BMPReader.cpp: message after message, until the router
-- ends the session or an exception does. Nobody takes `run` away from outside.
use sonic_bmp.Common.{
  ℕ, zero, suc, ◌<◌, ◌≡◌, refl, Bool, true, false, List, [], ◌∷◌, if◌then◌else◌, inl, inr,
  Bool-cases, Text, Bytes, length, arith, Result, ok, throw, fault, stuck, Fault, IfOk,
}
use sonic_bmp.Bgp.Types.{Host, Callees}
use sonic_bmp.Bmp.Init.{Router}
use sonic_bmp.Bmp.PeerHeader.{Peer}
use sonic_bmp.Bmp.Reader.{PeerInfoMap, Incoming, terminated, read_incoming_msg}
use sonic_bmp.Bmp.Reader.Shrinks.{incoming-shorter}

-- Why the loop ended: a termination message, an exception, undefined behaviour, a loop inside a message
-- that ran out of fuel, or the fuel of this loop.
pub data Ending : Type 0 where
  closed : Ending
  caught : Text → Ending
  undefined : Fault → Ending
  stuck_inside : Ending
  out_of_fuel : Ending

-- What the thread has read, the peers it leaves, and why it ended.
pub record Run (X : Type 0) : Type 0 where
  pub messages : List (Incoming X)
  pub peers : PeerInfoMap
  pub ending : Ending

-- ReadIncomingMsg returns false.
abbrev pub ends_session : {X : Type 0} → Incoming X → Bool
ends_session (terminated r) = true
ends_session _ = false

-- What follows a call of ReadIncomingMsg; `next` is the rest of the loop.
unfoldable pub continue_with :
    {X : Type 0}
    → (Bytes → PeerInfoMap → Run X)
    → PeerInfoMap
    → Result (Incoming X × PeerInfoMap × Bytes)
    → Run X
continue_with next peers (ok (i, peers', sock')) =
    let rest = next sock' peers' in
    if ends_session i
    then record { messages = i ∷ []; peers = peers'; ending = closed }
    else record { messages = i ∷ rest.messages; peers = rest.peers; ending = rest.ending }
continue_with next peers (throw e) = record { messages = []; peers = peers; ending = caught e }
continue_with next peers (fault e) = record { messages = []; peers = peers; ending = undefined e }
continue_with next peers stuck = record { messages = []; peers = peers; ending = stuck_inside }

module _ {X : Type 0} (h : Host) (c : Callees X) (empty : X) (ip : Text)
    (clock : Bytes → ℕ × ℕ) where
  -- readerThreadLoop. Every message starts with the entries `e` and `router`, which are zeroed.
  unfoldable pub reader_thread_loop : ℕ → Bytes → PeerInfoMap → Peer → Router → Run X
  unfolding continue_with
  reader_thread_loop zero sock peers e router = record {
    messages = [];
    peers = peers;
    ending = out_of_fuel;
  }
  reader_thread_loop (suc f) sock peers e router =
      continue_with (λ sock' peers'. reader_thread_loop f sock' peers' e router) peers
        (read_incoming_msg h c empty ip (clock sock) sock peers e router)

abbrev pub runs_out : Ending → Bool
runs_out out_of_fuel = true
runs_out _ = false

continue_with-ends :
    {X : Type 0} (next : Bytes → PeerInfoMap → Run X) (peers : PeerInfoMap) (n : ℕ)
    (r : Result (Incoming X × PeerInfoMap × Bytes))
    → IfOk (λ p. length p.2 < n) r
    → ((sock : Bytes) (m : PeerInfoMap) → length sock < n → runs_out (next sock m).ending ≡ false)
    → runs_out (continue_with next peers r).ending ≡ false
unfolding continue_with
continue_with-ends next peers n (ok (i, peers', sock')) l k = elim (Bool-cases (ends_session i)) [
  | inl last ↦ rw last refl
  | inr more ↦ rw more (k sock' peers' l)
]
continue_with-ends next peers n (throw e) l k = refl
continue_with-ends next peers n (fault e) l k = refl
continue_with-ends next peers n stuck l k = refl

-- With fuel for one round more than the stream has bytes the loop of readerThreadLoop makes no round too
-- many: it does not run out of its own fuel. A loop inside a message may run out of its fuel, which
-- `stuck_inside` tells apart.
pub reader_thread_loop-ends :
    {X : Type 0} (h : Host) (c : Callees X) (empty : X) (ip : Text) (clock : Bytes → ℕ × ℕ) (f : ℕ)
    (sock : Bytes) (peers : PeerInfoMap) (e : Peer) (router : Router)
    → length sock < f
    → runs_out (reader_thread_loop h c empty ip clock f sock peers e router).ending ≡ false
unfolding reader_thread_loop
reader_thread_loop-ends h c empty ip clock zero sock peers e router l = absurd (omega arith)
reader_thread_loop-ends h c empty ip clock (suc f) sock peers e router l =
    continue_with-ends
      (λ sock' peers'. reader_thread_loop h c empty ip clock f sock' peers' e router) peers
      (length sock) (read_incoming_msg h c empty ip (clock sock) sock peers e router)
      (incoming-shorter h c empty ip (clock sock) sock peers e router)
      (λ sock' m k.
        reader_thread_loop-ends h c empty ip clock f sock' m e router (omega (arith, k, l)))
