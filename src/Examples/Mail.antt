-- ===== src/Examples/Mail.antt =====
-- src/db/records.rs at a small vault: one account, two kinds of records, a push of two envelopes.
use uw_ussh_server.Prelude.{
  ℕ, All, ◌^◌, ◌≤◌, ◌<◌, ◌≡◌, ◌↔◌, ◌⊎◌, refl, Bool, true, false, not, ◌&&◌, List, [], ◌∷◌, ◌++◌,
  Option, none, some, String, arith, ◌==◌, nat_eq, string_eq, if◌then◌else◌, retain, find, length,
  sum_by, is_empty,
}
use uw_ussh_server.Prelude.Int.{pos, ◌+ℤ◌, ◌-ℤ◌}
use uw_ussh_server.Error.{ok}
use uw_ussh_server.Db.Tables.{AccountRow, RecordRow, Db, account_row, update_where}
use uw_ussh_server.Db.Records.{
  Proto, Envelope, PushResponse, Account, Quota, push_within, check_batch, check_all, check,
  push_one, upsert, new_row, everyone, kind_name, kind_from, rows_after, order_by_seq, pull,
  read_page, row_to_envelope, is_hidden, is_full, insert_by_seq, clamp_limit,
}
use uw_ussh_server.Db.Records.Counts.{IsCounted, push_within-IsCounted}
use uw_ussh_server.Db.Records.Numbers.{IsNumbered, push_within-IsNumbered}
use uw_ussh_server.Db.Records.Answers.{replies, push_within-replies}
use uw_ussh_server.Db.Records.Order.{rows_above}
use uw_ussh_server.Db.Records.Mailbox.{mailbox, offer_all, push_within_refines}
use uw_ussh_server.Db.Records.Room.{HasRoom, push_within-HasRoom}
use uw_ussh_server.Db.Records.Pages.{shown}
use uw_ussh_server.Db.Records.Pull.{
  page, unread, envelopes_of, pull-unread, pull_bounds, drain, drain-unread,
}

pub data Kind : Type 0 where
  manifest host : Kind

abbrev pub same_kind : Kind → Kind → Bool
same_kind manifest manifest = true
same_kind host host = true
same_kind _ _ = false

pub same_kind_iff : (k j : Kind) → (same_kind k j ≡ true) ↔ (k ≡ j)
same_kind_iff manifest manifest = ground arith
same_kind_iff manifest host = ground arith
same_kind_iff host manifest = ground arith
same_kind_iff host host = ground arith

abbrev pub to_name : Kind → Option String
to_name manifest = some "device_manifest"
to_name host = some "host"

abbrev pub from_name : String → Option Kind
from_name name =
    if name == "device_manifest" then some manifest else if name == "host" then some host else none

abbrev pub proto : Proto Kind
proto = record {
  kind_eq = record { same = same_kind; same_iff = same_kind_iff };
  manifest = manifest;
  host = host;
  to_json = to_name;
  from_json = from_name;
  max_batch = 2;
  max_batch_bytes = 100;
  max_blob_bytes = 10;
  schema_version = 1;
}

abbrev account : Account
account = record { id = 1; vault_id = 7; seq = 1 }

abbrev pub nonce : List ℕ
nonce =
    0 ∷ 1 ∷ 2 ∷ 3 ∷ 4 ∷ 5 ∷ 6 ∷ 7 ∷ 8 ∷ 9 ∷ 10 ∷ 11 ∷ 12 ∷ 13 ∷ 14 ∷ 15 ∷ 16 ∷ 17 ∷ 18 ∷ 19 ∷ 20
    ∷ 21 ∷ 22 ∷ 23 ∷ []

abbrev pub row : AccountRow
row = record {
  id = 1;
  created_ms = 0;
  vault_id = 7;
  kdf_memory_kib = 19456;
  kdf_time_cost = 2;
  kdf_parallelism = 1;
  salt = "salt";
  wrapped_nonce = "n";
  wrapped_blob = "b";
  auth_verifier = [];
  seq = 1;
  needs_account_key = true;
  record_count = pos 1;
  record_bytes = pos 2;
}

abbrev pub record_row : ℕ → ℕ → List ℕ → ℕ → RecordRow
record_row id seq blob updated_ms = record {
  account_id = 1;
  id = id;
  kind = "host";
  seq = seq;
  hlc_wall_ms = 5;
  hlc_counter = 0;
  hlc_device = 3;
  deleted = false;
  nonce = nonce;
  blob = blob;
  device_id = 3;
  updated_ms = updated_ms;
}

abbrev pub before : Db
before = record {
  accounts = row ∷ [];
  devices = [];
  records = record_row 10 1 (1 ∷ 2 ∷ []) 0 ∷ [];
  invites = [];
  enrolments = [];
}

abbrev envelope : ℕ → ℕ → List ℕ → Envelope Kind
envelope id base blob = record {
  id = id;
  vault_id = 7;
  kind = host;
  updated_at = record { wall_ms = 5; counter = 0; device = 3 };
  base_seq = base;
  deleted = false;
  nonce = nonce;
  blob = blob;
  seq = none;
}

-- A new version of the record that is held, and a new record.
abbrev pub batch : List (Envelope Kind)
batch = envelope 10 1 (3 ∷ 4 ∷ 5 ∷ []) ∷ envelope 11 0 (6 ∷ []) ∷ []

abbrev pub quota : Quota
quota = record { records = 2; bytes = 4; server_bytes = 4 }

abbrev response : PushResponse Kind
response = record {
  accepted = record { id = 10; seq = 2 } ∷ record { id = 11; seq = 3 } ∷ [];
  conflicts = [];
  cursor = 3;
}

abbrev after : Db
after = record {
  accounts = record row { seq = 3; record_count = pos 2; record_bytes = pos 4 } ∷ [];
  devices = [];
  records = record_row 10 2 (3 ∷ 4 ∷ 5 ∷ []) 9 ∷ record_row 11 3 (6 ∷ []) 9 ∷ [];
  invites = [];
  enrolments = [];
}

pushed : push_within proto account 3 9 batch quota before ≡ (ok response, after)
unfolding push_within check_batch sum_by check_all check account_row find push_one upsert new_row
    ◌+ℤ◌ ◌-ℤ◌ everyone update_where kind_name
pushed = refl

pub lawful : (k : Kind) → kind_from proto (kind_name proto k) ≡ some k
unfolding kind_from kind_name
lawful manifest = refl
lawful host = refl

pub before-IsCounted : IsCounted before
unfolding retain sum_by
before-IsCounted = ((refl, refl), tt)

before-IsNumbered : IsNumbered before
before-IsNumbered = record { distinct = (tt, tt); below = ((λ _. omega arith, tt), tt) }

after-IsNumbered : IsNumbered after
after-IsNumbered = record {
  distinct = ((λ _. ground arith, tt), (tt, tt));
  below = ((λ _. omega arith, (λ _. omega arith, tt)), tt);
}

push_within_refines_example :
    mailbox proto account after ≡ offer_all account batch (mailbox proto account before)
push_within_refines_example =
    push_within_refines proto account lawful 3 9 batch quota before after response pushed

push_within-IsCounted_example : IsCounted (push_within proto account 3 9 batch quota before).1
push_within-IsCounted_example =
    push_within-IsCounted proto account 3 9 batch quota before before-IsCounted

push_within-HasRoom_example : HasRoom 1 quota before after
push_within-HasRoom_example =
    push_within-HasRoom proto account 3 9 batch quota before after response before-IsCounted
      (tt, tt) pushed

push_within-IsNumbered_example : IsNumbered (push_within proto account 3 9 batch quota before).1
push_within-IsNumbered_example =
    push_within-IsNumbered proto account 3 9 batch quota before before-IsNumbered

found : account_row 1 before.accounts ≡ some row
unfolding account_row find
found = refl

push_within-replies_example : response ≡ replies account batch (mailbox proto account before)
push_within-replies_example =
    push_within-replies proto account lawful 3 9 batch quota before after response pushed

pull-unread_example :
    ((page proto account 1 1 true after).envelopes
        ++ unread proto account 1 1 true after (page proto account 1 1 true after).cursor
      ≡ unread proto account 1 1 true after 1)
    × (1 ≤ (page proto account 1 1 true after).cursor)
    × ((page proto account 1 1 true after).has_more
        ≡ not (is_empty (rows_above after 1 (page proto account 1 1 true after).cursor)))
pull-unread_example = pull-unread proto account 1 1 true after (omega arith) after-IsNumbered

pull_bounds_example :
    (length (page proto account 0 1 true after).envelopes ≤ clamp_limit proto 1)
    × ((sum_by (λ e. length e.blob) (page proto account 0 1 true after).envelopes
          ≤ proto.max_batch_bytes)
        ⊎ (length (page proto account 0 1 true after).envelopes ≤ 1))
    × (((page proto account 0 1 true after).has_more
          && is_empty (page proto account 0 1 true after).envelopes)
        ≡ false)
pull_bounds_example = pull_bounds proto account 0 1 true after (omega arith)

few_rows : length (rows_above after 1 0) < 3
unfolding rows_above order_by_seq retain insert_by_seq
few_rows = omega arith

small_numbers : All (λ (r : RecordRow). r.seq < 2 ^ 63) after.records
small_numbers = (omega arith, (omega arith, tt))

drain-unread_example :
    drain proto account 1 true after 3 0
    ≡ some (shown proto true (envelopes_of proto account (rows_above after account.id 0)))
drain-unread_example =
    drain-unread proto account 1 true after 3 0 (omega arith) small_numbers (omega arith)
      after-IsNumbered few_rows

-- A cursor of 2 ^ 63 is read as a number below every other: the rows are all handed out again.
comes_round :
    ((page proto account (2 ^ 63) 1 true after).has_more ≡ true)
    × ((page proto account (2 ^ 63) 1 true after).cursor ≡ 2 ^ 63)
unfolding pull rows_after order_by_seq insert_by_seq retain read_page row_to_envelope is_hidden
    is_full kind_from
comes_round = (refl, refl)
