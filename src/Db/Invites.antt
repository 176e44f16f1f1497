-- ===== src/Db/Invites.antt =====
-- src/db/invites.rs: codes that let someone in once. `sha256` is a parameter, random bytes and the
-- token they become are arguments; texts are lists of characters, hashes lists of bytes.
pub mod Codes
pub mod Tokens
use uw_ussh_server.Prelude.{
  ℕ, ◌+◌, ◌-◌, ◌%◌, Bool, true, false, not, ◌&&◌, List, [], ◌∷◌, ◌++◌, map, Option, none, some,
  ◌==◌, nat_eq, if◌then◌else◌, retain, find, length, ltb, leb,
}
use uw_ussh_server.Prelude.Text.{text_eq, is_ascii_alphanumeric, to_ascii_uppercase, as_bytes}
use uw_ussh_server.Secrets.{code_char, constant_time_eq}
use uw_ussh_server.Db.Tables.{InviteRow, EnrolmentRow, Db, update_where}

-- `code`: three groups of five, with a dash (45) before the sixth and the eleventh.
unfoldable pub group : ℕ → List ℕ → List ℕ
group index [] = []
group index (byte ∷ bytes) =
    let rest = code_char byte ∷ group (index + 1) bytes in
    if ltb 0 index && index % 5 == 0 then 45 ∷ rest else rest

unfoldable pub code : List ℕ → List ℕ
unfolding group
code bytes = group 0 bytes

unfoldable pub normalise : List ℕ → List ℕ
normalise code = map to_ascii_uppercase (retain is_ascii_alphanumeric code)

abbrev pub invite_ttl_ms : ℕ
invite_ttl_ms = 604800000

abbrev pub enrolment_ttl_ms : ℕ
enrolment_ttl_ms = 600000

abbrev pub enrolment_attempts : ℕ
enrolment_attempts = 5

abbrev pub is_none : Option ℕ → Bool
is_none none = true
is_none (some _) = false

-- An invite that nobody used, that has not run out.
abbrev pub is_open : ℕ → InviteRow → Bool
is_open now r = is_none r.used_ms && ltb now r.expires_ms

unfoldable pub count_open_invites : ℕ → List InviteRow → ℕ
count_open_invites now rows = length (retain (is_open now) rows)

abbrev pub is_unused : List ℕ → EnrolmentRow → Bool
is_unused hash r = (r.token_hash == hash) && is_none r.used_ms

module _ (sha256 : List ℕ → List ℕ) where
  unfoldable pub hash : List ℕ → List ℕ
  unfolding normalise
  hash code = sha256 (as_bytes (normalise code))

  unfoldable pub create_invite : ℕ → List ℕ → ℕ → List InviteRow → List ℕ × List InviteRow
  unfolding hash code
  create_invite now bytes ttl_ms rows = (
    code bytes,
    rows
        ++ record {
          code_hash = hash (code bytes);
          created_ms = now;
          expires_ms = now + ttl_ms;
          used_ms = none;
        }
          ∷ [],
  )

  abbrev pub is_invite : ℕ → List ℕ → InviteRow → Bool
  is_invite now code r = (r.code_hash == hash code) && is_open now r

  unfoldable pub redeem_invite : ℕ → List ℕ → List InviteRow → Bool × List InviteRow
  unfolding hash update_where
  redeem_invite now code rows = (
    ltb 0 (length (retain (is_invite now code) rows)),
    update_where (is_invite now code) (λ r. record r { used_ms = some now }) rows,
  )

  unfoldable pub create_enrolment :
      ℕ → List ℕ → ℕ → ℕ → List EnrolmentRow → List ℕ × List EnrolmentRow
  create_enrolment now token account_id device rows = (
    token,
    rows
        ++ record {
          token_hash = sha256 (as_bytes token);
          account_id = account_id;
          created_ms = now;
          expires_ms = now + enrolment_ttl_ms;
          used_ms = none;
          device_id = device;
          failures = 0;
        }
          ∷ [],
  )

  -- The second `UPDATE`, on the rows that the first one left.
  abbrev pub is_worn_out : List ℕ → EnrolmentRow → Bool
  is_worn_out token r = is_unused (sha256 (as_bytes token)) r && leb enrolment_attempts r.failures

  unfoldable pub enrolment_failed : ℕ → List ℕ → List EnrolmentRow → Bool × List EnrolmentRow
  unfolding update_where
  enrolment_failed now token rows =
      let failed =
        update_where (is_unused (sha256 (as_bytes token)))
          (λ r. record r { failures = r.failures + 1 }) rows in
      (
        ltb 0 (length (retain (is_worn_out token) failed)),
        update_where (is_worn_out token) (λ r. record r { used_ms = some now }) failed,
      )

  abbrev pub is_enrolment : ℕ → List ℕ → EnrolmentRow → Bool
  is_enrolment now token r = is_unused (sha256 (as_bytes token)) r && ltb now r.expires_ms

  -- The account of the row that was found, compared once more.
  abbrev pub account_if : List ℕ → Option EnrolmentRow → Option ℕ
  account_if token none = none
  account_if token (some r) =
      if constant_time_eq r.token_hash (sha256 (as_bytes token)) then some r.account_id else none

  unfoldable pub peek_enrolment : ℕ → List ℕ → List EnrolmentRow → Option ℕ
  peek_enrolment now token rows = account_if token (find (is_enrolment now token) rows)

  unfoldable pub redeem_enrolment : ℕ → List ℕ → List EnrolmentRow → Option ℕ × List EnrolmentRow
  unfolding peek_enrolment update_where
  redeem_enrolment now token rows = elim (peek_enrolment now token rows) [
    | none ↦ (none, rows)
    | some account ↦ (
      if ltb 0 (length (retain (is_unused (sha256 (as_bytes token))) rows))
          then some account
          else none,
      update_where (is_unused (sha256 (as_bytes token))) (λ r. record r { used_ms = some now })
          rows,
    )
  ]

abbrev pub is_made_by : ℕ → EnrolmentRow → Bool
is_made_by device r = (r.device_id == device) && is_none r.used_ms

unfoldable pub drop_enrolments_of : ℕ → List EnrolmentRow → ℕ × List EnrolmentRow
drop_enrolments_of device rows =
    (length (retain (is_made_by device) rows), retain (λ r. not (is_made_by device r)) rows)

unfoldable pub purge : ℕ → Db → Db
purge now db = record db {
  invites = retain (λ r. not (ltb r.expires_ms (now - 2592000000))) db.invites;
  enrolments = retain (λ r. not (ltb r.expires_ms (now - 2592000000))) db.enrolments;
}
