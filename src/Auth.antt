-- ===== src/Auth.antt =====
-- src/auth.rs: challenges and sessions. Random bytes are an argument, a token the text they become;
-- every call reads the clock once. `None` in `authenticate` is a request without a bearer token.
pub mod Challenges
mod Held
pub mod Sessions
pub mod Access
use uw_ussh_server.Prelude.{
  ℕ, ◌+◌, ◌-◌, ◌≡◌, Bool, true, false, not, ◌&&◌, ◌||◌, List, [], ◌∷◌, ◌++◌, Option, none, some,
  String, ◌==◌, nat_eq, string_eq, if◌then◌else◌, retain, length, ltb, leb, map, drop, is_empty,
}
use uw_ussh_server.Prelude.HashMap.{HashMap, lookup, contains_key, insert, remove}
use uw_ussh_server.Prelude.Text.{text_eq}
use uw_ussh_server.Error.{Result, ok, err, unauthorized}

abbrev pub challenge_ttl_ms : ℕ
challenge_ttl_ms = 60000

abbrev pub challenges_per_device : ℕ
challenges_per_device = 4

-- What a device was given to sign, and until when.
abbrev pub Outstanding : Type 0
Outstanding = HashMap ℕ (List (List ℕ × ℕ))

abbrev pub is_good : ℕ → List ℕ × ℕ → Bool
is_good now e = ltb now e.1

-- What has run out goes, and then the devices that have nothing left.
unfoldable pub retain_good : ℕ → Outstanding → Outstanding
retain_good now [] = []
retain_good now ((device, issued) ∷ m) =
    let rest = retain_good now m in
    let good = retain (is_good now) issued in if is_empty good then rest else (device, good) ∷ rest

abbrev pub or_none : Option (List (List ℕ × ℕ)) → List (List ℕ × ℕ)
or_none none = []
or_none (some issued) = issued

abbrev pub add_challenge : List ℕ → ℕ → List (List ℕ × ℕ) → List (List ℕ × ℕ)
add_challenge challenge expires issued =
    (if leb challenges_per_device (length issued) then drop 1 issued else issued)
    ++ (challenge, expires) ∷ []

-- `Challenges::issue`, of the challenge drawn.
unfoldable pub issue_challenge : ℕ → List ℕ → ℕ → Outstanding → List ℕ × Outstanding
unfolding retain_good
issue_challenge now challenge device inner =
    let inner' = retain_good now inner in
    (
      challenge,
      insert device
          (add_challenge challenge (now + challenge_ttl_ms) (or_none (lookup device inner')))
          inner',
    )

-- `Challenges::outstanding`
unfoldable pub outstanding : ℕ → ℕ → Outstanding → List (List ℕ)
outstanding now device inner = map (λ e. e.0) (retain (is_good now) (or_none (lookup device inner)))

abbrev pub is_other : List ℕ → List ℕ × ℕ → Bool
is_other challenge e = not (e.0 == challenge)

-- `Challenges::spend`
unfoldable pub spend : ℕ → List ℕ → Outstanding → Bool × Outstanding
spend device challenge inner = elim (lookup device inner) [
  | none ↦ (false, inner)
  | some issued ↦
      let left = retain (is_other challenge) issued in
      (
        ltb (length left) (length issued),
        if is_empty left then remove device inner else insert device left inner,
      )
]

pub record Session : Type 0 where
  pub account_id : ℕ
  pub device_id : ℕ
  pub expires_ms : ℕ

abbrev pub tokens_per_device : ℕ
tokens_per_device = 8

pub record Tokens : Type 0 where
  pub by_token : HashMap String Session
  pub by_device : HashMap ℕ (List String)

abbrev pub runs : ℕ → Option Session → Bool
runs now none = false
runs now (some s) = ltb now s.expires_ms

-- `held.retain`: what has run out goes from both tables.
unfoldable pub drop_expired :
    ℕ → List String → HashMap String Session → List String × HashMap String Session
drop_expired now [] by_token = ([], by_token)
drop_expired now (token ∷ held) by_token =
    let good = runs now (lookup token by_token) in
    let (kept, by_token') =
      drop_expired now held (if good then by_token else remove token by_token) in
    (if good then token ∷ kept else kept, by_token')

-- `while held.len() >= TOKENS_PER_DEVICE`: the oldest goes from both tables.
unfoldable pub make_room :
    List String → HashMap String Session → List String × HashMap String Session
make_room [] by_token = ([], by_token)
make_room (oldest ∷ held) by_token =
    let rest = make_room held (remove oldest by_token) in
    if leb tokens_per_device (length (oldest ∷ held)) then rest else (oldest ∷ held, by_token)

abbrev pub held_by : ℕ → HashMap ℕ (List String) → List String
held_by device by_device = elim (lookup device by_device) [ none ↦ [] | some held ↦ held ]

-- `Sessions::issue`, of the token drawn.
unfoldable pub issue_token : ℕ → String → ℕ → ℕ → ℕ → Tokens → (String × ℕ) × Tokens
unfolding drop_expired make_room
issue_token now token account_id device_id ttl_ms t =
    let (held, by_token) = drop_expired now (held_by device_id t.by_device) t.by_token in
    let (room, by_token') = make_room held by_token in
    (
      (token, now + ttl_ms),
      record {
        by_token =
            insert token
              (record { account_id = account_id; device_id = device_id; expires_ms = now + ttl_ms })
              by_token';
        by_device = insert device_id (room ++ token ∷ []) t.by_device;
      },
    )

-- `Sessions::get`
unfoldable pub get_session : ℕ → String → Tokens → Option Session
get_session now token t = elim (lookup token t.by_token) [
  | none ↦ none
  | some s ↦ if ltb now s.expires_ms then some s else none
]

unfoldable pub remove_all : List String → HashMap String Session → HashMap String Session
remove_all [] m = m
remove_all (token ∷ held) m = remove_all held (remove token m)

unfoldable pub drop_device : ℕ → Tokens → Tokens
unfolding remove_all
drop_device device t = elim (lookup device t.by_device) [
  | none ↦ t
  | some held ↦ record {
    by_token = remove_all held t.by_token;
    by_device = remove device t.by_device;
  }
]

abbrev pub is_running : ℕ → String × Session → Bool
is_running now e = ltb now e.1.expires_ms

unfoldable pub retain_known :
    HashMap String Session → HashMap ℕ (List String) → HashMap ℕ (List String)
retain_known by_token [] = []
retain_known by_token ((device, held) ∷ m) =
    let rest = retain_known by_token m in
    let known = retain (λ token. contains_key token by_token) held in
    if is_empty known then rest else (device, known) ∷ rest

-- `Sessions::sweep`
unfoldable pub sweep : ℕ → Tokens → ℕ × Tokens
unfolding retain_known
sweep now t =
    let by_token' = retain (is_running now) t.by_token in
    (
      length t.by_token - length by_token',
      record { by_token = by_token'; by_device = retain_known by_token' t.by_device },
    )
