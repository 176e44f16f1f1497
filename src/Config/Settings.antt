-- ===== src/Config/Settings.antt =====
-- src/config.rs: `Config::from_env`, a setting after the other, and what the configuration names.
use uw_ussh_server.Prelude.{
  ◌%◌, ◌^◌, Bool, true, false, not, ◌&&◌, ◌||◌, List, [], ◌∷◌, ◌++◌, Option, none, some, inl, inr,
  if◌then◌else◌, nat_beq,
}
use uw_ussh_server.Prelude.Text.{Text, text}
use uw_ussh_server.Prelude.Numerals.{parse_u64, strip_prefix}
use uw_ussh_server.Config.{
  TlsMode, auto, off, SocketAddr, Config, default, Env, Read, var, or_refuse, number, checked_mega,
  parse_tls, parse_registration, switch,
}

-- A setting that is not set leaves what there was.
abbrev pub with_var : Option Text → (Text → Config → Read Config) → Config → Read Config
with_var none f c = inr c
with_var (some value) f c = f value c

abbrev pub and_then : {A B : Type 0} → Read A → (A → Read B) → Read B
and_then (inl message) f = inl message
and_then (inr a) f = f a

abbrev pub set_data : Text → Config → Read Config
set_data dir c = inr (record c { data_dir = dir })

abbrev pub set_listen : (Text → Option SocketAddr) → Text → Config → Read Config
set_listen parse_address listen c =
    and_then
      (or_refuse (parse_address listen) (text "UWUSYNC_LISTEN is not an address: " ++ listen))
      (λ a. inr (record c { listen = a }))

abbrev pub set_registration : Text → Config → Read Config
set_registration value c =
    and_then
      (or_refuse (parse_registration value)
        (text "UWUSYNC_REGISTRATION must be open, invite or closed: " ++ value))
      (λ r. inr (record c { registration = r }))

abbrev pub set_tls : Text → Config → Read Config
set_tls value c =
    and_then (or_refuse (parse_tls value) (text "UWUSYNC_TLS must be auto or off: " ++ value))
      (λ t. inr (record c { tls = t }))

abbrev pub set_trust : Text → Config → Read Config
set_trust value c =
    and_then
      (or_refuse (switch value) (text "UWUSYNC_TRUST_FORWARDED must be on or off: " ++ value))
      (λ b. inr (record c { trust_forwarded = b }))

-- As it stands: this one is not trimmed.
abbrev pub set_session_secs : Text → Config → Read Config
set_session_secs value c =
    and_then (or_refuse (parse_u64 value) (text "UWUSYNC_SESSION_SECS is not a number: " ++ value))
      (λ n. inr (record c { session_secs = n }))

abbrev pub set_update_check : Text → Config → Read Config
set_update_check value c =
    and_then (or_refuse (switch value) (text "UWUSYNC_UPDATE_CHECK must be on or off: " ++ value))
      (λ b. inr (record c { update_check = b }))

abbrev pub set_max_accounts : Text → Config → Read Config
set_max_accounts value c =
    and_then (number (text "UWUSYNC_MAX_ACCOUNTS") value) (λ n. inr (record c { max_accounts = n }))

abbrev pub set_records : Text → Config → Read Config
set_records value c =
    and_then (number (text "UWUSYNC_ACCOUNT_MAX_RECORDS") value)
      (λ n. inr (record c { quota = record c.quota { records = n } }))

abbrev pub set_bytes : Text → Config → Read Config
set_bytes value c = and_then (number (text "UWUSYNC_ACCOUNT_MAX_MB") value) (λ n.
    and_then (or_refuse (checked_mega n) (text "UWUSYNC_ACCOUNT_MAX_MB is more than any disk"))
      (λ bytes. inr (record c { quota = record c.quota { bytes = bytes } })))

abbrev pub set_server_bytes : Text → Config → Read Config
set_server_bytes value c = and_then (number (text "UWUSYNC_SERVER_MAX_MB") value) (λ n.
    and_then (or_refuse (checked_mega n) (text "UWUSYNC_SERVER_MAX_MB is more than any disk"))
      (λ bytes. inr (record c { quota = record c.quota { server_bytes = bytes } })))

-- `as usize`, of 64 bits.
abbrev pub set_max_connections : Text → Config → Read Config
set_max_connections value c = and_then (number (text "UWUSYNC_MAX_CONNECTIONS") value) (λ n.
    if nat_beq (n % 2 ^ 64) 0
    then inl (text "UWUSYNC_MAX_CONNECTIONS of 0 would let nobody in")
    else inr (record c { max_connections = n % 2 ^ 64 }))

abbrev pub set_per_address : Text → Config → Read Config
set_per_address value c =
    and_then (number (text "UWUSYNC_MAX_CONNECTIONS_PER_IP") value)
      (λ n. inr (record c { max_connections_per_address = n % 2 ^ 64 }))

abbrev pub Step : Type 0
Step = Config → Read Config

abbrev pub steps : (Text → Option SocketAddr) → Env → List Step
steps parse_address env =
    with_var (var env (text "UWUSYNC_DATA")) set_data
    ∷ with_var (var env (text "UWUSYNC_LISTEN")) (set_listen parse_address)
    ∷ (λ c. inr (record c { public_address = var env (text "UWUSYNC_PUBLIC") }))
    ∷ with_var (var env (text "UWUSYNC_REGISTRATION")) set_registration
    ∷ with_var (var env (text "UWUSYNC_TLS")) set_tls
    ∷ with_var (var env (text "UWUSYNC_TRUST_FORWARDED")) set_trust
    ∷ with_var (var env (text "UWUSYNC_SESSION_SECS")) set_session_secs
    ∷ with_var (var env (text "UWUSYNC_UPDATE_CHECK")) set_update_check
    ∷ (λ c. inr (record c { channel = var env (text "UWUSYNC_CHANNEL") }))
    ∷ with_var (var env (text "UWUSYNC_MAX_ACCOUNTS")) set_max_accounts
    ∷ with_var (var env (text "UWUSYNC_ACCOUNT_MAX_RECORDS")) set_records
    ∷ with_var (var env (text "UWUSYNC_ACCOUNT_MAX_MB")) set_bytes
    ∷ with_var (var env (text "UWUSYNC_SERVER_MAX_MB")) set_server_bytes
    ∷ with_var (var env (text "UWUSYNC_MAX_CONNECTIONS")) set_max_connections
    ∷ with_var (var env (text "UWUSYNC_MAX_CONNECTIONS_PER_IP")) set_per_address
    ∷ []

-- One setting after the other, up to the first that is refused.
unfoldable pub run_steps : List Step → Config → Read Config
run_steps [] c = inr c
run_steps (step ∷ rest) c = elim (step c) [ inl message ↦ inl message | inr c' ↦ run_steps rest c' ]

unfoldable pub from_env : (Text → Option SocketAddr) → Env → Read Config
unfolding run_steps var number checked_mega parse_u64 switch parse_tls parse_registration
from_env parse_address env = run_steps (steps parse_address env) default

-- The newer name of the database, or the older where only that is there.
unfoldable pub database : (Text → Text → Text) → (Text → Bool) → Config → Text
database join exists c =
    if not (exists (join c.data_dir (text "uwusync.db")))
      && exists (join c.data_dir (text "uwussh.db"))
    then join c.data_dir (text "uwussh.db")
    else join c.data_dir (text "uwusync.db")

unfoldable pub backups : (Text → Text → Text) → Config → Text
backups join c = join c.data_dir (text "backups")

abbrev pub scheme : TlsMode → Text
scheme auto = text "https"
scheme off = text "http"

abbrev pub is_start : Option Text → Bool
is_start none = false
is_start (some _) = true

-- `str::contains`
abbrev pub contains : Text → Text → Bool
contains part [] = is_start (strip_prefix part [])
contains part (c ∷ cs) = is_start (strip_prefix part (c ∷ cs)) || contains part cs

-- `str::trim_end_matches` of a slash.
abbrev pub trim_slashes : Text → Text
trim_slashes [] = []
trim_slashes (c ∷ cs) = elim (trim_slashes cs) [
  | [] ↦ if nat_beq c 47 then [] else c ∷ []
  | (d ∷ ds) ↦ c ∷ d ∷ ds
]

abbrev pub url : (SocketAddr → Text) → Config → Option Text → Text
url show_address c none = scheme c.tls ++ text "://" ++ show_address c.listen
url show_address c (some address) =
    if contains (text "://") address
    then trim_slashes address
    else scheme c.tls ++ text "://" ++ address

unfoldable pub base_url : (SocketAddr → Text) → Config → Text
unfolding strip_prefix
base_url show_address c = url show_address c c.public_address
