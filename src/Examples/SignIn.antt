-- ===== src/Examples/SignIn.antt =====
-- src/auth.rs at two devices.
use uw_ussh_server.Prelude.{
  ℕ, ◌+◌, ◌≡◌, ◌≢◌, refl, List, [], ◌∷◌, none, some, arith, nat_eq, string_eq, if◌then◌else◌, ltb,
  retain, find,
}
use uw_ussh_server.Prelude.HashMap.{lookup, insert, remove}
use uw_ussh_server.Auth.{Outstanding, Session, Tokens, issue_token, get_session, sweep, drop_device}
use uw_ussh_server.Auth.Challenges.{AreFew}
use uw_ussh_server.Auth.Sessions.{
  IsLinked, Call, signs_in, sweeps, run, run-IsLinked, empty-IsLinked, drop_device-get_session,
  issue_token-get_session,
}
use uw_ussh_server.Error.{err, unauthorized}
use uw_ussh_server.Db.Tables.{DeviceRow, Db}
use uw_ussh_server.Db.Devices.{row_to_device}
use uw_ussh_server.Db.Devices as Devices
use uw_ussh_server.Auth.Access.{
  authenticate, check_session, check_device, Admits, authenticate-Admits, authenticate-get_session,
}
use uw_ussh_server.Examples.Mail.{before}

abbrev pub given : Outstanding
given = (3, (7 ∷ [], 100) ∷ (8 ∷ [], 200) ∷ []) ∷ []

given-AreFew : AreFew given
unfolding lookup
given-AreFew = ((refl, tt), ((omega arith, omega arith), tt))

abbrev pub no_tokens : Tokens
no_tokens = record { by_token = []; by_device = [] }

abbrev pub calls : List Call
calls =
    signs_in 1 "one" 1 3 1000
    ∷ signs_in 2 "two" 1 4 1000
    ∷ signs_in 3 "three" 1 3 1000
    ∷ sweeps 500
    ∷ []

run-IsLinked_example : IsLinked (run calls no_tokens)
run-IsLinked_example = run-IsLinked calls no_tokens empty-IsLinked

abbrev second : Session
second = record { account_id = 1; device_id = 4; expires_ms = 1002 }

still_in : get_session 600 "two" (drop_device 3 (run calls no_tokens)) ≡ some second
unfolding get_session lookup drop_device run sweep issue_token insert retain remove
still_in = refl

drop_device-get_session_example : second.device_id ≢ 3
drop_device-get_session_example =
    drop_device-get_session 3 600 "two" (run calls no_tokens) second
      (run-IsLinked calls no_tokens empty-IsLinked) still_in

issue_token-get_session_example :
    get_session 500 "one" (issue_token 1 "one" 1 3 1000 no_tokens).1 ≡ (
      if ltb 500 (1 + 1000)
      then some (record { account_id = 1; device_id = 3; expires_ms = 1 + 1000 })
      else none)
issue_token-get_session_example = issue_token-get_session 1 500 "one" 1 3 1000 no_tokens

abbrev pub key : List ℕ
key =
    0 ∷ 1 ∷ 2 ∷ 3 ∷ 4 ∷ 5 ∷ 6 ∷ 7 ∷ 8 ∷ 9 ∷ 10 ∷ 11 ∷ 12 ∷ 13 ∷ 14 ∷ 15 ∷ 16 ∷ 17 ∷ 18 ∷ 19 ∷ 20
    ∷ 21 ∷ 22 ∷ 23 ∷ 24 ∷ 25 ∷ 26 ∷ 27 ∷ 28 ∷ 29 ∷ 30 ∷ 31 ∷ []

abbrev pub laptop : DeviceRow
laptop = record {
  id = 3;
  account_id = 1;
  name = 76 ∷ [];
  public_key = key;
  created_ms = 0;
  last_seen_ms = none;
  cursor = 0;
  revoked_ms = some 5;
}

abbrev db : Db
db = record before { devices = laptop ∷ [] }

abbrev first : Session
first = record { account_id = 1; device_id = 3; expires_ms = 1001 }

first_in : get_session 600 "one" (run calls no_tokens) ≡ some first
unfolding get_session lookup run sweep issue_token insert retain remove
first_in = refl

laptop_there : Devices.get 3 db.devices ≡ some (row_to_device laptop)
unfolding Devices.get find
laptop_there = refl

second_left :
    get_session 700 "two" (authenticate 600 (some "one") (run calls no_tokens) db).1 ≡ some second
unfolding get_session lookup run sweep issue_token insert retain remove authenticate check_session
    check_device Devices.get find drop_device
second_left = refl

authenticate-Admits_example :
    Admits 600
      (some "one")
      (run calls no_tokens)
      db
      (authenticate 600 (some "one") (run calls no_tokens) db)
authenticate-Admits_example = authenticate-Admits 600 (some "one") (run calls no_tokens) db

authenticate-get_session_example :
    ((authenticate 600 (some "one") (run calls no_tokens) db).0 ≡ err unauthorized)
    × (second.device_id ≢ first.device_id)
authenticate-get_session_example =
    authenticate-get_session 600 700 "one" "two" first second (row_to_device laptop)
      (run calls no_tokens) db (run-IsLinked calls no_tokens empty-IsLinked) first_in laptop_there
      refl second_left
