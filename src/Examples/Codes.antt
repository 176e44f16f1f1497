-- ===== src/Examples/Codes.antt =====
-- src/db/: accounts, devices and codes at small tables.
use uw_ussh_server.Prelude.{
  ℕ, ◌≡◌, ◌↔◌, refl, true, false, List, [], ◌∷◌, Option, none, some, arith, nat_eq, retain, find,
}
use uw_ussh_server.Prelude.Text.{text_eq, as_bytes}
use uw_ussh_server.Secrets.{constant_time_eq}
use uw_ussh_server.Db.Tables.{AccountRow, DeviceRow, EnrolmentRow, account_row}
use uw_ussh_server.Db.Accounts.{VaultHeader, get, header, verify, set_header}
use uw_ussh_server.Db.Accounts.Verifiers.{set_header-header-verify}
use uw_ussh_server.Prelude.Text.{trim, trim_start, trim_end}
use uw_ussh_server.Db.Devices.{clean_name, a_device}
use uw_ussh_server.Db.Invites.{code, group, normalise}
use uw_ussh_server.Db.Invites.{redeem_invite, peek_enrolment}
use uw_ussh_server.Db.Invites.Codes.{redeem_invite-once}
use uw_ussh_server.Db.Invites.Tokens.{fail_all, fail_all-peek_enrolment}
use uw_ussh_server.Prelude.HashMap.{lookup, IsKeyed}
use uw_ussh_server.Db.Restore.{numbers, carry_numbers_forward, GoesOn, carry_numbers_forward-GoesOn}
use uw_ussh_server.Examples.Mail.{row}

abbrev same_hash : List ℕ → List ℕ
same_hash bytes = bytes

abbrev vault : VaultHeader
vault = record {
  vault_id = 9;
  kdf_memory_kib = 65536;
  kdf_time_cost = 3;
  kdf_parallelism = 1;
  salt = "s";
  wrapped_nonce = "n";
  wrapped_blob = "w";
  needs_account_key = false;
  extra = ("theme", "dark") ∷ [];
}

no_row : account_row 1 [] ≡ none
unfolding account_row find
no_row = refl

one_row : account_row 1 (row ∷ []) ≡ some row
unfolding account_row find
one_row = refl

set_header-header-verify_example :
    (header 1 (set_header same_hash 1 vault (1 ∷ []) (row ∷ []))
      ≡ some (record vault { vault_id = row.vault_id; extra = [] }))
    × (get 1 (set_header same_hash 1 vault (1 ∷ []) (row ∷ [])) ≡ get 1 (row ∷ []))
    × ((verify same_hash 1 (2 ∷ []) (set_header same_hash 1 vault (1 ∷ []) (row ∷ [])) ≡ true)
        ↔ (same_hash (1 ∷ []) ≡ same_hash (2 ∷ [])))
set_header-header-verify_example =
    set_header-header-verify same_hash 1 vault (1 ∷ []) (2 ∷ []) (row ∷ []) row one_row

abbrev key : List ℕ
key =
    0 ∷ 1 ∷ 2 ∷ 3 ∷ 4 ∷ 5 ∷ 6 ∷ 7 ∷ 8 ∷ 9 ∷ 10 ∷ 11 ∷ 12 ∷ 13 ∷ 14 ∷ 15 ∷ 16 ∷ 17 ∷ 18 ∷ 19 ∷ 20
    ∷ 21 ∷ 22 ∷ 23 ∷ 24 ∷ 25 ∷ 26 ∷ 27 ∷ 28 ∷ 29 ∷ 30 ∷ 31 ∷ []

abbrev device : ℕ → ℕ → Option ℕ → DeviceRow
device id cursor revoked = record {
  id = id;
  account_id = 1;
  name = 76 ∷ [];
  public_key = key;
  created_ms = 0;
  last_seen_ms = none;
  cursor = cursor;
  revoked_ms = revoked;
}

abbrev devices : List DeviceRow
devices = device 3 8 none ∷ device 4 5 (some 7) ∷ device 5 6 none ∷ []

abbrev bytes : List ℕ
bytes = 0 ∷ 1 ∷ 2 ∷ 3 ∷ 4 ∷ 5 ∷ 6 ∷ 7 ∷ 8 ∷ 9 ∷ 10 ∷ 11 ∷ 12 ∷ 13 ∷ 14 ∷ []

redeem_invite-once_example :
    (redeem_invite same_hash 20
      (65 ∷ 66 ∷ [])
      (redeem_invite same_hash 10 (65 ∷ 66 ∷ []) (
        record { code_hash = 65 ∷ 66 ∷ []; created_ms = 0; expires_ms = 30; used_ms = none }
        ∷ [])).1).0
    ≡ false
redeem_invite-once_example =
    redeem_invite-once same_hash 10 20 (65 ∷ 66 ∷ [])
      (record { code_hash = 65 ∷ 66 ∷ []; created_ms = 0; expires_ms = 30; used_ms = none } ∷ [])
      (omega arith)

abbrev token : List ℕ
token = 97 ∷ 98 ∷ []

abbrev enrolments : List EnrolmentRow
enrolments =
    record {
      token_hash = token;
      account_id = 1;
      created_ms = 0;
      expires_ms = 100;
      used_ms = none;
      device_id = 3;
      failures = 0;
    }
    ∷ []

joins_one : peek_enrolment same_hash 10 token enrolments ≡ some 1
unfolding peek_enrolment find as_bytes constant_time_eq
joins_one = refl

fail_all-peek_enrolment_example :
    peek_enrolment same_hash 20 token
      (fail_all same_hash token (10 ∷ 11 ∷ 12 ∷ 13 ∷ 14 ∷ []) enrolments)
    ≡ none
fail_all-peek_enrolment_example =
    fail_all-peek_enrolment same_hash token 10 (11 ∷ 12 ∷ 13 ∷ 14 ∷ []) 20 enrolments (omega arith)

numbers-IsKeyed : IsKeyed (numbers (row ∷ []))
unfolding lookup
numbers-IsKeyed = (refl, tt)

abbrev replaced : List AccountRow
replaced = record row { seq = 5 } ∷ []

replaced-IsKeyed : IsKeyed (numbers replaced)
unfolding lookup
replaced-IsKeyed = (refl, tt)

carry_numbers_forward-GoesOn_example :
    (n : ℕ) × (account_row 1 (carry_numbers_forward replaced (row ∷ []))
      ≡ some (record row { seq = n }))
    × GoesOn (account_row 1 replaced) row.seq n
carry_numbers_forward-GoesOn_example =
    carry_numbers_forward-GoesOn 1 replaced (row ∷ []) row replaced-IsKeyed numbers-IsKeyed one_row

-- A code is three groups of five, and how it is typed does not matter.
code_of_bytes :
    code bytes
    ≡ 65 ∷ 66 ∷ 67 ∷ 68 ∷ 69 ∷ 45 ∷ 70 ∷ 71 ∷ 72 ∷ 74 ∷ 75 ∷ 45 ∷ 77 ∷ 78 ∷ 80 ∷ 81 ∷ 82 ∷ []
unfolding code group
code_of_bytes = refl

normalise_typed : normalise (97 ∷ 45 ∷ 66 ∷ 32 ∷ 50 ∷ []) ≡ 65 ∷ 66 ∷ 50 ∷ []
unfolding normalise retain
normalise_typed = refl

-- A name is one line: trimmed, without control characters, and never empty.
clean_names :
    (clean_name (32 ∷ 76 ∷ 10 ∷ 77 ∷ 32 ∷ []) ≡ 76 ∷ 77 ∷ [])
    × (clean_name (32 ∷ 10 ∷ []) ≡ a_device)
unfolding clean_name trim trim_start trim_end retain
clean_names = (refl, refl)
