-- ===== src/Db/Tables.antt =====
-- src/db/mod.rs: the tables of schema 3 as lists of rows. An id is a number; a statement of SQL
-- is a function on the rows. Of a column declared `INTEGER` that never goes below zero the model
-- has a natural number; `record_bytes`, which is added to and taken from, is an integer.
pub mod Updates
use uw_ussh_server.Prelude.{
  ℕ, Bool, List, [], ◌∷◌, Option, String, ◌==◌, nat_eq, if◌then◌else◌, find,
}
use uw_ussh_server.Prelude.Int.{ℤ}

pub record AccountRow : Type 0 where
  pub id : ℕ
  pub created_ms : ℕ
  pub vault_id : ℕ
  pub kdf_memory_kib : ℕ
  pub kdf_time_cost : ℕ
  pub kdf_parallelism : ℕ
  pub salt : String
  pub wrapped_nonce : String
  pub wrapped_blob : String
  pub auth_verifier : List ℕ
  pub seq : ℕ
  pub needs_account_key : Bool
  pub record_count : ℤ
  pub record_bytes : ℤ

pub record DeviceRow : Type 0 where
  pub id : ℕ
  pub account_id : ℕ
  pub name : List ℕ
  pub public_key : List ℕ
  pub created_ms : ℕ
  pub last_seen_ms : Option ℕ
  pub cursor : ℕ
  pub revoked_ms : Option ℕ

pub record RecordRow : Type 0 where
  pub account_id : ℕ
  pub id : ℕ
  pub kind : String
  pub seq : ℕ
  pub hlc_wall_ms : ℕ
  pub hlc_counter : ℕ
  pub hlc_device : ℕ
  pub deleted : Bool
  pub nonce : List ℕ
  pub blob : List ℕ
  pub device_id : ℕ
  pub updated_ms : ℕ

pub record InviteRow : Type 0 where
  pub code_hash : List ℕ
  pub created_ms : ℕ
  pub expires_ms : ℕ
  pub used_ms : Option ℕ

pub record EnrolmentRow : Type 0 where
  pub token_hash : List ℕ
  pub account_id : ℕ
  pub created_ms : ℕ
  pub expires_ms : ℕ
  pub used_ms : Option ℕ
  pub device_id : ℕ
  pub failures : ℕ

pub record Db : Type 0 where
  pub accounts : List AccountRow
  pub devices : List DeviceRow
  pub records : List RecordRow
  pub invites : List InviteRow
  pub enrolments : List EnrolmentRow

-- `UPDATE … SET … WHERE …`
unfoldable pub update_where {ℓ} : {A : Type ℓ} → (A → Bool) → (A → A) → List A → List A
update_where p f [] = []
update_where p f (x ∷ xs) = (if p x then f x else x) ∷ update_where p f xs

-- The row of an account, by its primary key.
unfoldable pub account_row : ℕ → List AccountRow → Option AccountRow
account_row a = find (λ r. r.id == a)
