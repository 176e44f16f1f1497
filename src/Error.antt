-- ===== src/Error.antt =====
-- src/error.rs: what an operation may fail with, and the status and word that a client is told.
-- The sentences meant for the log are left out; an error keeps the data that its answer needs.
use uw_ussh_server.Prelude.{ℕ, String, Option, none, some}

pub data ApiError : Type 0 where
  invalid : String → ApiError
  unauthorized registration_closed wrong_password server_full not_found : ApiError
  too_large : String → ApiError
  rate_limited : ApiError
  schema : ℕ → ℕ → ApiError
  database : ApiError
  internal : String → ApiError
  -- The status is that of the framework's own rejection of the body.
  body : ℕ → ApiError

pub data Result {ℓ} (A : Type ℓ) : Type ℓ where
  err : ApiError → Result A
  ok : A → Result A

-- The `?` of the source.
infixl 5 ◌>>◌ ◌>>=◌
abbrev pub ◌>>=◌ {ℓ κ} : {B : Type ℓ} {C : Type κ} → Result B → (B → Result C) → Result C
err problem >>= next = err problem
ok value >>= next = next value

abbrev pub ◌>>◌ {κ} : {C : Type κ} → Result (Unit {0}) → Result C → Result C
first >> next = first >>= λ _. next

abbrev pub ok_or {ℓ} : {A : Type ℓ} → Option A → ApiError → Result A
ok_or none e = err e
ok_or (some a) e = ok a

abbrev pub IsOk {ℓ} : {A : Type ℓ} → Result A → Type 0
IsOk (ok a) = Unit
IsOk (err e) = ⊥

-- `ApiError::code`: the HTTP status and the machine-readable word.
pub code : ApiError → ℕ × String
code (invalid m) = (400, "invalid")
code unauthorized = (401, "unauthorized")
code registration_closed = (403, "registration-closed")
code wrong_password = (403, "wrong-password")
code server_full = (403, "server-full")
code not_found = (404, "not-found")
code (too_large m) = (413, "too-large")
code rate_limited = (429, "rate-limited")
code (schema found known) = (400, "schema")
code database = (500, "internal")
code (internal m) = (500, "internal")
code (body status) = (status, "invalid")
