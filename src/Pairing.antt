-- ===== src/Pairing.antt =====
-- src/pairing.rs: the relay two devices pair through. `sha256` and the random bytes are not the
-- program's: the one is a parameter, the others an argument. A session counts how often the
-- devices that wait on it were woken. Texts are lists of characters, messages lists of bytes.
pub mod Bounds
pub mod Messages
pub mod Claims
pub mod Requests
use uw_ussh_server.Prelude.{
  ℕ, ◌+◌, ◌-◌, ◌≡◌, Bool, true, false, not, ◌&&◌, ◌||◌, List, [], ◌∷◌, ◌++◌, Option, none, some,
  String, ◌==◌, nat_eq, string_eq, if◌then◌else◌, retain, length, ltb, leb, map, drop, is_empty,
}
use uw_ussh_server.Prelude.HashMap.{HashMap, lookup, contains_key, insert, remove}
use uw_ussh_server.Prelude.Text.{text_eq, trim, as_bytes}
use uw_ussh_server.Secrets.{code_char, constant_time_eq}
use uw_ussh_server.Error.{
  Result, ok, err, ok_or, rate_limited, invalid, not_found, unauthorized, too_large,
}

abbrev pub ttl_ms : ℕ
ttl_ms = 600000

abbrev pub max_messages : ℕ
max_messages = 4

abbrev pub max_message_bytes : ℕ
max_message_bytes = 8192

abbrev pub open_per_account : ℕ
open_per_account = 3

abbrev pub open_at_most : ℕ
open_at_most = 1000

abbrev pub max_claim_bytes : ℕ
max_claim_bytes = 128

pub data Side : Type 0 where
  a b : Side

unfoldable pub parse : String → Option Side
parse value =
    if value == "a" || value == "A"
    then some a
    else if value == "b" || value == "B"
    then some b
    else none

abbrev pub other : Side → Side
other a = b
other b = a

pub record Session : Type 0 where
  pub account : ℕ
  pub opener : ℕ
  pub claim : Option (List ℕ)
  pub from_a : List (List ℕ)
  pub from_b : List (List ℕ)
  pub expires_ms : ℕ
  pub arrived : ℕ

-- `Session::slot` and `Session::read`
abbrev pub slot : Side → Session → List (List ℕ)
slot a s = s.from_a
slot b s = s.from_b

-- `slot(side).push(message)`
abbrev pub push : Side → List ℕ → Session → Session
push a message s = record s { from_a = s.from_a ++ message ∷ [] }
push b message s = record s { from_b = s.from_b ++ message ∷ [] }

abbrev pub Pairings : Type 0
Pairings = HashMap (List ℕ) Session

abbrev pub is_live : ℕ → List ℕ × Session → Bool
is_live now e = ltb now e.1.expires_ms

abbrev pub is_account : ℕ → List ℕ × Session → Bool
is_account account e = e.1.account == account

-- Five characters, drawn again until no session has them; none when the draws have run out.
unfoldable pub pick : List (List ℕ) → Pairings → Option (List ℕ)
pick [] inner = none
pick (bytes ∷ draws) inner =
    let again = pick draws inner in
    let id = map code_char bytes in if contains_key id inner then again else some id

abbrev pub new_session : ℕ → ℕ → ℕ → Session
new_session now account opener = record {
  account = account;
  opener = opener;
  claim = none;
  from_a = [];
  from_b = [];
  expires_ms = now + ttl_ms;
  arrived = 0;
}

-- The end of `open`: a session under the id that was found, or still looking for one.
abbrev pub open_as : ℕ → ℕ → ℕ → Option (List ℕ) → Pairings → Option (Result (List ℕ)) × Pairings
open_as now account opener none inner = (none, inner)
open_as now account opener (some id) inner =
    (some (ok id), insert id (new_session now account opener) inner)

-- `Pairings::open`
unfoldable pub open_session :
    ℕ → List (List ℕ) → ℕ → ℕ → Pairings → Option (Result (List ℕ)) × Pairings
unfolding pick
open_session now draws account opener inner =
    let inner' = retain (is_live now) inner in
    if leb open_at_most (length inner')
    then (some (err rate_limited), inner')
    else if leb open_per_account (length (retain (is_account account) inner'))
    then (
      some (
          err
            (invalid "this account is pairing three devices already; finish or cancel one first")),
      inner',
    )
    else open_as now account opener (pick draws inner') inner'

-- A session that is there and has not run out; one that has run out goes.
unfoldable pub live : ℕ → List ℕ → Pairings → Result Session × Pairings
live now id inner = elim (lookup id inner) [
  | none ↦ (err not_found, inner)
  | some s ↦ if ltb now s.expires_ms then (ok s, inner) else (err not_found, remove id inner)
]

-- What an operation on a live session does, and what it leaves.
abbrev pub with_live {ℓ} :
    {A : Type ℓ}
    → (Session → Result A × Session)
    → List ℕ
    → Result Session × Pairings
    → Result A × Pairings
with_live f id (err e, inner) = (err e, inner)
with_live f id (ok s, inner) = let (r, s') = f s in (r, insert id s' inner)

abbrev pub usable_claim : Option (List ℕ) → Option (List ℕ)
usable_claim none = none
usable_claim (some claim) =
    if not (is_empty (trim claim)) && leb (length (as_bytes (trim claim))) max_claim_bytes
    then some (trim claim)
    else none

module _ (sha256 : List ℕ → List ℕ) where
  -- Side `b`, with the hash of what it claims to hold.
  abbrev pub hold : List ℕ → Option (List ℕ) → Session → Result (Unit {0}) × Session
  hold hash none s = (ok tt, record s { claim = some hash })
  hold hash (some held) s = (if constant_time_eq held hash then ok tt else err unauthorized, s)

  abbrev pub claim_side : Option (List ℕ) → Session → Result (Unit {0}) × Session
  claim_side none s = (err unauthorized, s)
  claim_side (some claim) s = hold (sha256 (as_bytes claim)) s.claim s

  abbrev pub admit_live : Side → Option ℕ → Option (List ℕ) → Session → Result (Unit {0}) × Session
  admit_live a none claim s = (err unauthorized, s)
  admit_live a (some device) claim s = (if device == s.opener then ok tt else err unauthorized, s)
  admit_live b device claim s = claim_side (usable_claim claim) s

  unfoldable pub admit :
      ℕ → List ℕ → Side → Option ℕ → Option (List ℕ) → Pairings → Result (Unit {0}) × Pairings
  unfolding live
  admit now id side device claim inner =
      with_live (admit_live side device claim) id (live now id inner)

abbrev pub post_live : Side → List ℕ → Session → Result (Unit {0}) × Session
post_live side message s =
    if leb max_messages (length (slot side s))
    then (err (invalid "that is more messages than a handshake takes"), s)
    else (ok tt, record (push side message s) { arrived = s.arrived + 1 })

unfoldable pub post : ℕ → List ℕ → Side → List ℕ → Pairings → Result (Unit {0}) × Pairings
unfolding live
post now id side message inner =
    if ltb max_message_bytes (length message)
    then (err (too_large "a pairing message"), inner)
    else if is_empty message
    then (err (invalid "an empty pairing message"), inner)
    else with_live (post_live side message) id (live now id inner)

-- `Pairings::read`
unfoldable pub read : ℕ → List ℕ → Side → ℕ → Pairings → Result (List (List ℕ)) × Pairings
unfolding live
read now id side after inner =
    with_live (λ s. (ok (drop after (slot (other side) s)), s)) id (live now id inner)

unfoldable pub waiter : ℕ → List ℕ → Pairings → Result ℕ × Pairings
unfolding live
waiter now id inner = with_live (λ s. (ok s.arrived, s)) id (live now id inner)

unfoldable pub account_of : ℕ → List ℕ → Pairings → Result ℕ × Pairings
unfolding live
account_of now id inner = with_live (λ s. (ok s.account, s)) id (live now id inner)

unfoldable pub close : List ℕ → Pairings → Bool × Pairings
close id inner = (contains_key id inner, remove id inner)

abbrev pub is_opened_by : ℕ → List ℕ × Session → Bool
is_opened_by device e = e.1.opener == device

unfoldable pub close_opened_by : ℕ → Pairings → ℕ × Pairings
close_opened_by device inner =
    let inner' = retain (λ e. not (is_opened_by device e)) inner in
    (length inner - length inner', inner')
