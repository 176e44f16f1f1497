-- ===== src/Db/Accounts.antt =====
-- src/db/accounts.rs: one vault, one login verifier, one sequence counter. `sha256` is a parameter,
-- a new id an argument. The header's fields that the server does not know are `extra`: names and what
-- stands under them.
pub mod Verifiers
use uw_ussh_server.Prelude.{
  ℕ, Bool, true, false, not, ◌&&◌, ◌||◌, List, [], ◌∷◌, ◌++◌, Option, none, some, String, ◌==◌,
  nat_eq, string_eq, if◌then◌else◌, find, length, leb, ltb,
}
use uw_ussh_server.Prelude.Int.{pos}
use uw_ussh_server.Secrets.{constant_time_eq}
use uw_ussh_server.Db.Records.{Account}
use uw_ussh_server.Db.Tables.{AccountRow, Db, update_where, account_row}

pub record VaultHeader : Type 0 where
  pub vault_id : ℕ
  pub kdf_memory_kib : ℕ
  pub kdf_time_cost : ℕ
  pub kdf_parallelism : ℕ
  pub salt : String
  pub wrapped_nonce : String
  pub wrapped_blob : String
  pub needs_account_key : Bool
  pub extra : List (String × String)

abbrev pub is_in : ℕ → ℕ → ℕ → Bool
is_in low high n = leb low n && leb n high

unfoldable pub plausible : VaultHeader → Bool
plausible h =
    is_in 1 1048576 h.kdf_memory_kib
    && (is_in 1 16 h.kdf_time_cost
        && (is_in 1 16 h.kdf_parallelism && (not (h.salt == "") && not (h.wrapped_blob == ""))))

pub record KdfFloor : Type 0 where
  pub memory_kib : ℕ
  pub time_cost : ℕ

abbrev pub default_floor : KdfFloor
default_floor = record { memory_kib = 19456; time_cost = 2 }

-- `KdfFloor::check`, without the words of its refusal.
unfoldable pub check : KdfFloor → VaultHeader → Bool
check floor h = not (ltb h.kdf_memory_kib floor.memory_kib || ltb h.kdf_time_cost floor.time_cost)

unfoldable pub count : List AccountRow → ℕ
count rows = length rows

abbrev pub to_account : AccountRow → Account
to_account r = record { id = r.id; vault_id = r.vault_id; seq = r.seq }

unfoldable pub get : ℕ → List AccountRow → Option Account
get id rows = elim (account_row id rows) [ none ↦ none | some r ↦ some (to_account r) ]

abbrev pub to_header : AccountRow → VaultHeader
to_header r = record {
  vault_id = r.vault_id;
  kdf_memory_kib = r.kdf_memory_kib;
  kdf_time_cost = r.kdf_time_cost;
  kdf_parallelism = r.kdf_parallelism;
  salt = r.salt;
  wrapped_nonce = r.wrapped_nonce;
  wrapped_blob = r.wrapped_blob;
  needs_account_key = r.needs_account_key;
  extra = [];
}

unfoldable pub header : ℕ → List AccountRow → Option VaultHeader
header id rows = elim (account_row id rows) [ none ↦ none | some r ↦ some (to_header r) ]

module _ (sha256 : List ℕ → List ℕ) where
  abbrev pub new_row : ℕ → ℕ → VaultHeader → List ℕ → AccountRow
  new_row now id h auth_key = record {
    id = id;
    created_ms = now;
    vault_id = h.vault_id;
    kdf_memory_kib = h.kdf_memory_kib;
    kdf_time_cost = h.kdf_time_cost;
    kdf_parallelism = h.kdf_parallelism;
    salt = h.salt;
    wrapped_nonce = h.wrapped_nonce;
    wrapped_blob = h.wrapped_blob;
    auth_verifier = sha256 auth_key;
    seq = 0;
    needs_account_key = h.needs_account_key;
    record_count = pos 0;
    record_bytes = pos 0;
  }

  unfoldable pub create : ℕ → ℕ → VaultHeader → List ℕ → List AccountRow → Account × List AccountRow
  create now id h auth_key rows =
      (record { id = id; vault_id = h.vault_id; seq = 0 }, rows ++ new_row now id h auth_key ∷ [])

  unfoldable pub verify : ℕ → List ℕ → List AccountRow → Bool
  verify id auth_key rows = elim (account_row id rows) [
    | none ↦ false
    | some r ↦ constant_time_eq r.auth_verifier (sha256 auth_key)
  ]

  -- The vault's id stays.
  abbrev pub rewrap : VaultHeader → List ℕ → AccountRow → AccountRow
  rewrap h auth_key r = record r {
    kdf_memory_kib = h.kdf_memory_kib;
    kdf_time_cost = h.kdf_time_cost;
    kdf_parallelism = h.kdf_parallelism;
    salt = h.salt;
    wrapped_nonce = h.wrapped_nonce;
    wrapped_blob = h.wrapped_blob;
    auth_verifier = sha256 auth_key;
    needs_account_key = h.needs_account_key;
  }

  unfoldable pub set_header : ℕ → VaultHeader → List ℕ → List AccountRow → List AccountRow
  set_header id h auth_key = update_where (λ r. r.id == id) (rewrap h auth_key)
