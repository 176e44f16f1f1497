-- ===== src/Config/Reads.antt =====
-- src/config.rs: the configuration that an environment says.
use uw_ussh_server.Prelude.{
  ℕ, ◌*◌, ◌≤◌, ◌<◌, ◌≡◌, ◌⊎◌, Bool, true, false, List, [], ◌∷◌, ◌++◌, map, Option, none, some, inl,
  inr,
}
use uw_ussh_server.Prelude.Text.{Text, text, text_eq, trim, to_ascii_lowercase}
use uw_ussh_server.Prelude.Numerals.{parse_u64}
use uw_ussh_server.Address.{v4}
use uw_ussh_server.Config.{
  SocketAddr, Config, TlsMode, auto, off, Registration, anyone, invite, closed, Env, Read, read_var,
  or_else,
}

-- A setting under its name or, where that is not set or empty, under the name it had before.
abbrev pub setting : Env → Text → Option Text
setting env rest =
    or_else (read_var env (text "UWUSYNC_" ++ rest)) (read_var env (text "UWUSSH_" ++ rest))

-- A value that is a setting as it should be read, or what there is without one.
abbrev pub IsSetting : {A : Type 0} → Option Text → (Text → A → Type 0) → A → A → Type 0
IsSetting none good otherwise a = a ≡ otherwise
IsSetting (some value) good otherwise a = good value a

-- What a word means in a table, whatever the case of its letters and the space around it.
abbrev pub Means : {A : Type 0} → List (Text × A) → Text → A → Type 0
Means [] value a = ⊥
Means ((spelled, meant) ∷ rest) value a =
    ((map to_ascii_lowercase (trim value) ≡ spelled) × (a ≡ meant)) ⊎ Means rest value a

abbrev pub registrations : List (Text × Registration)
registrations = (text "open", anyone) ∷ (text "invite", invite) ∷ (text "closed", closed) ∷ []

abbrev pub tls_modes : List (Text × TlsMode)
tls_modes =
    (text "auto", auto)
    ∷ (text "on", auto)
    ∷ (text "1", auto)
    ∷ (text "true", auto)
    ∷ (text "off", off)
    ∷ (text "0", off)
    ∷ (text "false", off)
    ∷ (text "proxy", off)
    ∷ []

abbrev pub switches : List (Text × Bool)
switches =
    (text "on", true)
    ∷ (text "1", true)
    ∷ (text "true", true)
    ∷ (text "yes", true)
    ∷ (text "off", false)
    ∷ (text "0", false)
    ∷ (text "false", false)
    ∷ (text "no", false)
    ∷ []

abbrev pub IsNumber : Text → ℕ → Type 0
IsNumber value n = parse_u64 (trim value) ≡ some n

-- So many times 1024 * 1024, in 64 bits.
abbrev pub IsMega : Text → ℕ → Type 0
IsMega value bytes =
    (n : ℕ) × IsNumber value n × (bytes ≡ n * 1048576) × (bytes ≤ 18446744073709551615)

-- The configuration is what the environment says, setting by setting.
abbrev pub IsRead : (Text → Option SocketAddr) → Env → Config → Type 0
IsRead parse_address env c =
    IsSetting (setting env (text "DATA")) (λ value dir. dir ≡ value) (text "./data") c.data_dir
    × IsSetting (setting env (text "LISTEN")) (λ value a. parse_address value ≡ some a)
        (record { ip = v4 0 0 0 0; port = 8443 }) c.listen
    × (c.public_address ≡ setting env (text "PUBLIC"))
    × IsSetting (setting env (text "REGISTRATION")) (Means registrations) invite c.registration
    × IsSetting (setting env (text "TLS")) (Means tls_modes) auto c.tls
    × IsSetting (setting env (text "TRUST_FORWARDED")) (Means switches) false c.trust_forwarded
    × IsSetting (setting env (text "SESSION_SECS")) (λ value n. parse_u64 value ≡ some n) 3600
        c.session_secs
    × IsSetting (setting env (text "UPDATE_CHECK")) (Means switches) true c.update_check
    × (c.channel ≡ setting env (text "CHANNEL"))
    × IsSetting (setting env (text "MAX_ACCOUNTS")) IsNumber 100 c.max_accounts
    × IsSetting (setting env (text "ACCOUNT_MAX_RECORDS")) IsNumber 100000 c.quota.records
    × IsSetting (setting env (text "ACCOUNT_MAX_MB")) IsMega 268435456 c.quota.bytes
    × IsSetting (setting env (text "SERVER_MAX_MB")) IsMega 2147483648 c.quota.server_bytes
    × IsSetting (setting env (text "MAX_CONNECTIONS")) (λ value n. IsNumber value n × (0 < n)) 512
        c.max_connections
    × IsSetting (setting env (text "MAX_CONNECTIONS_PER_IP")) IsNumber 32
        c.max_connections_per_address

-- What is read is what the environment says, and is refused where nothing is.
abbrev pub Agrees : (Text → Option SocketAddr) → Env → Read Config → Type 0
Agrees parse_address env (inl message) = (c : Config) → ¬ (IsRead parse_address env c)
Agrees parse_address env (inr c) =
    IsRead parse_address env c × (c.kdf_floor.memory_kib ≡ 19456) × (c.kdf_floor.time_cost ≡ 2)
