-- ===== src/Config.antt =====
-- src/config.rs: what the server reads from its environment. The environment is the variables that are
-- set to a text. How a socket's address is read and shown, and how a path is put together and
-- looked up, is the standard library's: parameters.
pub mod Settings
pub mod Names
pub mod Reads
pub mod Decided
pub mod Agrees
use uw_ussh_server.Prelude.{
  ℕ, ◌*◌, ◌%◌, ◌^◌, Bool, true, false, not, ◌&&◌, ◌||◌, List, [], ◌∷◌, ◌++◌, map, Option, none,
  some, ◌⊎◌, inl, inr, if◌then◌else◌, nat_beq, ltb, leb, is_empty, ◌==◌, retain,
}
use uw_ussh_server.Prelude.Text.{Text, text, text_eq, trim}
use uw_ussh_server.Prelude.Text as Text
use uw_ussh_server.Prelude.Numerals.{max_u64, parse_u64, strip_prefix}
use uw_ussh_server.Prelude.HashMap.{HashMap, lookup, contains_key}
use uw_ussh_server.Address.{IpAddr, v4}
use uw_ussh_server.Db.Records.{Quota, default_quota}
use uw_ussh_server.Db.Accounts.{KdfFloor, default_floor}

pub data TlsMode : Type 0 where
  auto off : TlsMode

-- Who may create an account.
pub data Registration : Type 0 where
  anyone invite closed : Registration

pub record SocketAddr : Type 0 where
  pub ip : IpAddr
  pub port : ℕ

pub record Config : Type 0 where
  pub data_dir : Text
  pub listen : SocketAddr
  pub public_address : Option Text
  pub registration : Registration
  pub tls : TlsMode
  pub trust_forwarded : Bool
  pub session_secs : ℕ
  pub update_check : Bool
  pub channel : Option Text
  pub max_accounts : ℕ
  pub quota : Quota
  pub max_connections : ℕ
  pub max_connections_per_address : ℕ
  pub kdf_floor : KdfFloor

abbrev pub default : Config
default = record {
  data_dir = text "./data";
  listen = record { ip = v4 0 0 0 0; port = 8443 };
  public_address = none;
  registration = invite;
  tls = auto;
  trust_forwarded = false;
  session_secs = 3600;
  update_check = true;
  channel = none;
  max_accounts = 100;
  quota = default_quota;
  max_connections = 512;
  max_connections_per_address = 32;
  kdf_floor = default_floor;
}

abbrev pub is_one_of : List Text → Text → Bool
is_one_of [] value = false
is_one_of (word ∷ words) value = (value == word) || is_one_of words value

-- What a word in the environment is compared as.
unfoldable pub word : Text → Text
unfolding trim
word value = map Text.to_ascii_lowercase (trim value)

unfoldable pub parse_tls : Text → Option TlsMode
unfolding word
parse_tls value =
    if is_one_of (text "auto" ∷ text "on" ∷ text "1" ∷ text "true" ∷ []) (word value)
    then some auto
    else if is_one_of (text "off" ∷ text "0" ∷ text "false" ∷ text "proxy" ∷ []) (word value)
    then some off
    else none

unfoldable pub parse_registration : Text → Option Registration
unfolding word
parse_registration value =
    if word value == text "open"
    then some anyone
    else if word value == text "invite"
    then some invite
    else if word value == text "closed"
    then some closed
    else none

unfoldable pub switch : Text → Option Bool
unfolding word
switch value =
    if is_one_of (text "on" ∷ text "1" ∷ text "true" ∷ text "yes" ∷ []) (word value)
    then some true
    else if is_one_of (text "off" ∷ text "0" ∷ text "false" ∷ text "no" ∷ []) (word value)
    then some false
    else none

abbrev pub Env : Type 0
Env = HashMap Text Text

abbrev pub current_prefix : Text
current_prefix = text "UWUSYNC_"

abbrev pub legacy_prefix : Text
legacy_prefix = text "UWUSSH_"

unfoldable pub legacy_name : Text → Option Text
unfolding strip_prefix
legacy_name name = elim (strip_prefix current_prefix name) [
  | none ↦ none
  | some rest ↦ some (legacy_prefix ++ rest)
]

abbrev pub non_empty : Option Text → Option Text
non_empty none = none
non_empty (some value) = if is_empty value then none else some value

abbrev pub read_var : Env → Text → Option Text
read_var env name = non_empty (lookup name env)

abbrev pub read_legacy : Env → Option Text → Option Text
read_legacy env none = none
read_legacy env (some name) = read_var env name

abbrev pub or_else : Option Text → Option Text → Option Text
or_else none other = other
or_else (some value) other = some value

unfoldable pub var : Env → Text → Option Text
unfolding legacy_name
var env name = or_else (read_var env name) (read_legacy env (legacy_name name))

-- The order of texts, which is that of their characters.
abbrev pub text_leb : Text → Text → Bool
text_leb [] ys = true
text_leb (x ∷ xs) [] = false
text_leb (x ∷ xs) (y ∷ ys) = ltb x y || (nat_beq x y && text_leb xs ys)

abbrev pub insert_name : Text → List Text → List Text
insert_name name [] = name ∷ []
insert_name name (other ∷ names) =
    let rest = insert_name name names in
    if text_leb name other then name ∷ other ∷ names else other ∷ rest

abbrev pub sort_names : List Text → List Text
sort_names [] = []
sort_names (name ∷ names) = insert_name name (sort_names names)

-- Set under its old name, and not under the new one.
abbrev pub is_legacy : Env → Text → Bool
is_legacy env name = elim (strip_prefix legacy_prefix name) [
  | none ↦ false
  | some rest ↦ not (contains_key (current_prefix ++ rest) env)
]

unfoldable pub legacy_variables : Env → List Text
unfolding strip_prefix
legacy_variables env = sort_names (retain (is_legacy env) (map (λ e. e.0) env))

-- A step of reading: the words of its refusal, or what was read.
abbrev pub Read : Type 0 → Type 0
Read A = Text ⊎ A

abbrev pub or_refuse : {A : Type 0} → Option A → Text → Read A
or_refuse none message = inl message
or_refuse (some a) message = inr a

unfoldable pub number : Text → Text → Read ℕ
unfolding parse_u64 trim
number name value = or_refuse (parse_u64 (trim value)) (name ++ text " is not a number: " ++ value)

-- `checked_mul(1024 * 1024)` of a number of 64 bits.
unfoldable pub checked_mega : ℕ → Option ℕ
checked_mega n = if leb (n * 1048576) max_u64 then some (n * 1048576) else none
