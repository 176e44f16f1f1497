-- ===== src/Service.antt =====
-- src/state.rs and src/api/mod.rs: the state behind the handlers, and the steps they share. A handler
-- runs from its first step to its last: what another one does in between is not part of it. Each of
-- its readings of a clock has a time of its own. What the framework does around a handler (routes,
-- deadlines, the size of a body) is its own; a body is read or refused by it.
pub mod Proofs
pub mod Vault
pub mod Joins
pub mod Mail
pub mod SignIn
pub mod Pair
pub mod Serve
pub mod Sound
pub mod Revoked
pub mod SignedIn
pub mod Pushed
pub mod Taken
pub mod Joined
use uw_ussh_server.Prelude.{
  ℕ, Bool, true, false, not, ◌&&◌, List, [], ◌∷◌, ◌++◌, Option, none, some, String, if◌then◌else◌,
  length, nat_beq, ltb, leb,
}
use uw_ussh_server.Prelude.Text.{Text, text}
use uw_ussh_server.Error.{Result, ok, err, ApiError, ok_or, invalid, wrong_password}
use uw_ussh_server.Address.{IpAddr, client_key, network}
use uw_ussh_server.Config.{Config}
use uw_ussh_server.Db.Tables.{Db}
use uw_ussh_server.Db.Accounts as Accounts
use uw_ussh_server.Limits.{Hits, Bucket, Going, AtOnce}
use uw_ussh_server.Limits as Limits
use uw_ussh_server.Auth.{Outstanding, Tokens}
use uw_ussh_server.Auth as Auth
use uw_ussh_server.Auth.Access.{Authenticated}
use uw_ussh_server.Auth.Access as Access
use uw_ussh_server.Pairing.{Pairings}
use uw_ussh_server.Events.{Channels, Streams}

-- `AppState`, without what does not change.
pub record Server : Type 0 where
  pub db : Db
  pub tokens : Tokens
  pub challenges : Outstanding
  pub hits : Hits
  pub going : Going
  pub pairings : Pairings
  pub channels : Channels
  pub streams : Streams

-- `AppState::new`: nobody has a token, and nothing is counted.
abbrev pub new_server : ℕ → Db → Server
new_server now db = record {
  db = db;
  tokens = record { by_token = []; by_device = [] };
  challenges = [];
  hits = record { addresses = []; members = Limits.empty_table; swept = now; said_full = none };
  going = [];
  pairings = [];
  channels = [];
  streams = [];
}

-- What is called of the crates and of the standard library: base64, the text of a UUID, the reading
-- of an address, SHA-256, and signatures.
pub record Crates : Type 0 where
  pub encode : List ℕ → Text
  pub decode : Text → Option (List ℕ)
  pub show_uuid : ℕ → Text
  pub parse_ip : Text → Option IpAddr
  pub sha256 : List ℕ → List ℕ
  pub session_material : ℕ → ℕ → List ℕ → List ℕ
  pub verify_strict : List ℕ → List ℕ → List ℕ → Bool
  pub is_key : List ℕ → Bool

-- What a request comes with: the lines of `x-forwarded-for`, the socket's address, the bearer token
-- and the claim of a joining device.
pub record Caller : Type 0 where
  pub forwarded : List Text
  pub peer : Option IpAddr
  pub bearer : Option String
  pub claim : Option Text

-- What each reading of a clock says, in order: `now_ms` and `Instant::now`.
pub record Clock : Type 0 where
  pub ms : ℕ → ℕ
  pub instant : ℕ → ℕ

-- `NewDevice`
pub record NewDevice : Type 0 where
  pub name : Text
  pub public_key : Text

pub record Admitted : Type 0 where
  pub account_id : ℕ
  pub device_id : ℕ
  pub token : String
  pub expires_ms : ℕ

abbrev pub Action {ℓ} : Type ℓ → Type ℓ
Action A = Server → Result A × Server

abbrev pub give {ℓ} : {A : Type ℓ} → A → Action A
give a s = (ok a, s)

abbrev pub raise {ℓ} : {A : Type ℓ} → ApiError → Action A
raise e s = (err e, s)

infixl 5 ◌>>=◌ ◌>>◌
unfoldable pub ◌>>=◌ {ℓ κ} : {A : Type ℓ} {B : Type κ} → Action A → (A → Action B) → Action B
(m >>= f) s = let (r, s') = m s in elim r [ err e ↦ (err e, s') | ok a ↦ f a s' ]

abbrev pub ◌>>◌ {ℓ κ} : {A : Type ℓ} {B : Type κ} → Action A → Action B → Action B
m >> k = m >>= λ _. k

abbrev pub gets {ℓ} : {A : Type ℓ} → (Server → A) → Action A
gets f s = (ok (f s), s)

abbrev pub modify : (Server → Server) → Action (Unit {0})
modify f s = (ok tt, f s)

-- The `?` on a result that is there.
abbrev pub of_result {ℓ} : {A : Type ℓ} → Result A → Action A
of_result r s = (r, s)

abbrev pub or_raise {ℓ} : {A : Type ℓ} → Option A → ApiError → Action A
or_raise o e s = (ok_or o e, s)

abbrev pub raise_if : Bool → ApiError → Action (Unit {0})
raise_if c e s = (if c then err e else ok tt, s)

-- `RateLimiter::check`, `check_account` and `check_device`.
unfoldable pub check : ℕ → Text → Bucket → Action (Unit {0})
check now who bucket s =
    let (r, hits) = Limits.count network now who bucket true s.hits in (r, record s { hits = hits })

unfoldable pub check_member : ℕ → Text → Bucket → Action (Unit {0})
check_member now who bucket s =
    let (r, hits) = Limits.count network now who bucket false s.hits in
    (r, record s { hits = hits })

unfoldable pub forgive : Text → Bucket → Action (Unit {0})
forgive who bucket = modify (λ s. record s { hits = Limits.forgive who bucket s.hits })

unfoldable pub start : ℕ → AtOnce → Action (ℕ × String)
start account kind s =
    let (r, going) = Limits.start account kind s.going in (r, record s { going = going })

unfoldable pub finish : ℕ × String → Action (Unit {0})
finish place = modify (λ s. record s { going = Limits.finish place s.going })

-- The extractor of `Authenticated`.
unfoldable pub authenticated : ℕ → Option String → Action Authenticated
authenticated now bearer s =
    let (r, tokens) = Access.authenticate now bearer s.tokens s.db in
    (r, record s { tokens = tokens })

unfoldable pub issue_token : ℕ → String → ℕ → ℕ → ℕ → Action (String × ℕ)
issue_token now token account device ttl_ms s =
    let (r, tokens) = Auth.issue_token now token account device ttl_ms s.tokens in
    (ok r, record s { tokens = tokens })

module _ (crates : Crates) where
  -- `check_account` and `check_device` count under these texts.
  abbrev pub account_text : ℕ → Text
  account_text account = text "account:" ++ crates.show_uuid account

  abbrev pub device_text : ℕ → Text
  device_text device = text "device:" ++ crates.show_uuid device

  unfoldable pub check_account : ℕ → ℕ → Bucket → Action (Unit {0})
  check_account now account bucket = check_member now (account_text account) bucket

  unfoldable pub check_device : ℕ → ℕ → Bucket → Action (Unit {0})
  check_device now device bucket = check_member now (device_text device) bucket

  unfoldable pub forgive_device : ℕ → Bucket → Action (Unit {0})
  forgive_device device bucket =
      modify (λ s. record s { hits = Limits.forgive_member (device_text device) bucket s.hits })

  unfoldable pub who : Config → Caller → Text
  who config caller = client_key crates.parse_ip config.trust_forwarded caller.forwarded caller.peer

  -- A key of 32 bytes, or why not.
  abbrev pub key_of_32 : Option (List ℕ) → Option (List ℕ)
  key_of_32 none = none
  key_of_32 (some bytes) = if nat_beq (length bytes) 32 then some bytes else none

  unfoldable pub device_key : NewDevice → Result (List ℕ)
  device_key device =
      ok_or (key_of_32 (crates.decode device.public_key)) (invalid "a device key must be 32 bytes")

  abbrev pub login_key : Option (List ℕ) → Result (List ℕ)
  login_key none = err (invalid "a login key")
  login_key (some key) =
      if nat_beq (length key) 32 then ok key else err (invalid "a login key must be 32 bytes")

  unfoldable pub auth_key : Text → Result (List ℕ)
  auth_key encoded = login_key (crates.decode encoded)

  unfoldable pub prove_password : ℕ → Authenticated → List ℕ → Action (Unit {0})
  unfolding check_device forgive_device
  prove_password now auth key = do
    check_device now auth.device.id Limits.proof
    right ← gets (λ s. Accounts.verify crates.sha256 auth.account.id key s.db.accounts)
    raise_if (not right) wrong_password
    forgive_device auth.device.id Limits.proof

  -- `verify_signature`: a key that is one, a signature of 64 bytes, and what the crate says.
  unfoldable pub verify_signature : List ℕ → List ℕ → List ℕ → Bool
  verify_signature public_key material signature =
      crates.is_key public_key
      && (nat_beq (length signature) 64 && crates.verify_strict public_key material signature)
