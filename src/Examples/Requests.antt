-- ===== src/Examples/Requests.antt =====
-- src/api at a server with one account and two devices.
use uw_ussh_server.Prelude.{◌+◌, ◌≡◌, true, [], ◌∷◌, ◌++◌, none, some, arith, nat_eq, string_eq}
use uw_ussh_server.Prelude.Text.{text, text_eq}
use uw_ussh_server.Prelude.Numerals.{display}
use uw_ussh_server.Error.{Result, ok}
use uw_ussh_server.Address.{v4}
use uw_ussh_server.Config.{default}
use uw_ussh_server.Db.Tables.{DeviceRow, EnrolmentRow}
use uw_ussh_server.Auth.Sessions.{IsLinked, run, run-IsLinked, empty-IsLinked}
use uw_ussh_server.Auth.Access.{Authenticated}
use uw_ussh_server.Limits.Concurrent.{going}
use uw_ussh_server.Service.{Server, Crates, Caller, Clock, new_server}
use uw_ussh_server.Service.Proofs.{Ends}
use uw_ussh_server.Service.SignIn.{LoginRequest, login}
use uw_ussh_server.Service.SignedIn.{IsSignedIn, login-IsSignedIn}
use uw_ussh_server.Service.Joins.{EnrolRequest, enrol, revoke}
use uw_ussh_server.Service.Joined.{IsJoined, enrol-IsJoined}
use uw_ussh_server.Service.Revoked.{IsShutOut, Shown, revoke-IsShutOut}
use uw_ussh_server.Service.Mail.{PushRequest, push}
use uw_ussh_server.Service.Pushed.{push-going}
use uw_ussh_server.Service.Taken.{IsTaken, push-Taken}
use uw_ussh_server.Service.Serve.{logs_in, serve}
use uw_ussh_server.Service.Sound.{IsSound}
use uw_ussh_server.Service.Sound.Reachable.{here, answers, started-IsSound}
use uw_ussh_server.Examples.Mail.{Kind, proto, row, before, before-IsCounted, batch, lawful}
use uw_ussh_server.Examples.SignIn.{key, laptop, calls, no_tokens, given}

abbrev crates : Crates
crates = record {
  encode = λ bytes. bytes;
  decode = λ t. some t;
  show_uuid = display;
  parse_ip = λ t. none;
  sha256 = λ bytes. bytes;
  session_material = λ account device challenge. challenge;
  verify_strict = λ public_key material signature. true;
  is_key = λ public_key. true;
}

abbrev caller : Caller
caller = record { forwarded = []; peer = some (v4 10 0 0 7); bearer = some "one"; claim = none }

abbrev clock : Clock
clock = record { ms = λ n. 50 + n; instant = λ n. n }

abbrev desk : DeviceRow
desk = record laptop { revoked_ms = none }

abbrev phone : DeviceRow
phone = record desk { id = 4 }

abbrev enrolment : EnrolmentRow
enrolment = record {
  token_hash = 97 ∷ 98 ∷ [];
  account_id = 1;
  created_ms = 0;
  expires_ms = 600;
  used_ms = none;
  device_id = 3;
  failures = 0;
}

abbrev home : Server
home = record (new_server 0 before) {
  db = record before {
    accounts = record row { auth_verifier = key } ∷ [];
    devices = desk ∷ phone ∷ [];
    enrolments = enrolment ∷ [];
  };
  tokens = run calls no_tokens;
  challenges = given;
}

abbrev signed : LoginRequest
signed = record { device_id = 3; signature = key ++ key }

abbrev login_body : Result LoginRequest
login_body = ok signed

login-IsSignedIn_example :
    Ends
      (λ response t.
        (request : LoginRequest) × (login_body ≡ ok request)
        × IsSignedIn crates default clock request home response t)
      (λ e t. (t.db ≡ home.db) × (t.tokens ≡ home.tokens))
      (login crates default clock "new" caller login_body home)
login-IsSignedIn_example = login-IsSignedIn crates default clock "new" caller login_body home

abbrev joining : EnrolRequest
joining = record {
  enrolment = 97 ∷ 98 ∷ [];
  auth_key = key;
  device = record { name = text "tablet"; public_key = key };
}

abbrev enrol_body : Result EnrolRequest
enrol_body = ok joining

enrol-IsJoined_example :
    Ends
      (λ admitted t.
        (request : EnrolRequest) × (enrol_body ≡ ok request)
        × IsJoined crates default clock 5 request home admitted t)
      (λ e t.
        (t.db.devices ≡ home.db.devices)
        × (t.db.accounts ≡ home.db.accounts)
        × (t.tokens ≡ home.tokens))
      (enrol crates default clock 5 "new" caller enrol_body home)
enrol-IsJoined_example = enrol-IsJoined crates default clock 5 "new" caller enrol_body home

home-IsLinked : IsLinked home.tokens
home-IsLinked = run-IsLinked calls no_tokens empty-IsLinked

revoke-IsShutOut_example :
    Ends
      (λ _ t.
        (auth : Authenticated) × Shown crates clock caller 4 (ok (some key)) home auth
        × IsShutOut auth.account.id 4 t)
      (λ e t. t.db ≡ home.db)
      (revoke crates proto clock caller 4 (ok (some key)) home)
revoke-IsShutOut_example =
    revoke-IsShutOut crates proto clock caller 4 (ok (some key)) home home-IsLinked

abbrev offered : PushRequest Kind
offered = record { schema = 1; envelopes = batch }

push-going_example :
    going (1, "pushes") (push proto crates default clock caller (ok offered) home).1.going
    ≡ going (1, "pushes") home.going
push-going_example = push-going proto crates default clock caller (ok offered) home (1, "pushes")

push-Taken_example :
    Ends
      (IsTaken proto crates default clock caller (ok offered) home)
      (λ e t. t.db ≡ home.db)
      (push proto crates default clock caller (ok offered) home)
push-Taken_example = push-Taken proto crates default lawful clock caller (ok offered) home

abbrev requested : Server
requested =
    serve proto crates default (logs_in clock "new" caller (ok signed)) (new_server 0 before)

started-IsSound_example : IsSound default requested
started-IsSound_example =
    started-IsSound proto crates default 0 before requested before-IsCounted (omega arith)
      (answers (logs_in clock "new" caller (ok signed)) here tt)
