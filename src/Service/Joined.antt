-- ===== src/Service/Joined.antt =====
-- src/api/devices.rs: which device joins.
use uw_ussh_server.Prelude.{
  ℕ, ◌*◌, ◌≡◌, refl, inl, inr, Bool, true, false, List, Option, none, some, String, arith,
  if◌then◌else◌, ltb, Option-cases,
}
use uw_ussh_server.Prelude.Text.{Text}
use uw_ussh_server.Error.{Result, ok, ApiError, unauthorized}
use uw_ussh_server.Config.{Config}
use uw_ussh_server.Db.Tables.{EnrolmentRow}
use uw_ussh_server.Db.Accounts as Accounts
use uw_ussh_server.Db.Devices as Devices
use uw_ussh_server.Db.Invites.{peek_enrolment}
use uw_ussh_server.Db.Invites as Invites
use uw_ussh_server.Db.Invites.Tokens.{redeem_enrolment-once}
use uw_ussh_server.Limits as Limits
use uw_ussh_server.Auth.{Session, get_session}
use uw_ussh_server.Auth as Auth
use uw_ussh_server.Auth.Sessions.{issue_token-get_session}
use uw_ussh_server.Service.{
  Server, Crates, Caller, Clock, Admitted, Action, give, ◌>>=◌, ◌>>◌, forgive, issue_token, who,
  auth_key, device_key, or_raise,
}
use uw_ussh_server.Service.Proofs.{
  Ends, or_raise-Ends, of_result-Ends, gets-Ends, check-Ends, assoc-Ends,
}
use uw_ussh_server.Service.Vault.{new_device, admit_as}
use uw_ussh_server.Service.Joins.{
  EnrolRequest, enrolment_failed, redeem_enrolment, join_verified, join_account, enrol,
}

redeemed-peek :
    (sha256 : List ℕ → List ℕ) (now : ℕ) (token : Text) (rows : List EnrolmentRow) (a : ℕ)
    → (Invites.redeem_enrolment sha256 now token rows).0 ≡ some a
    → (b : ℕ) × (peek_enrolment sha256 now token rows ≡ some b)
unfolding Invites.redeem_enrolment
redeemed-peek sha256 now token rows a h =
    elim (Option-cases (peek_enrolment sha256 now token rows)) [
      | inl missing ↦ absurd (ground (arith, h, missing))
      | inr found ↦ found
    ]

module _ (crates : Crates) where
  -- No device joins with this token any more.
  abbrev pub IsUsedUp : Text → List EnrolmentRow → Type 0
  IsUsedUp token rows =
      (later : ℕ) → (Invites.redeem_enrolment crates.sha256 later token rows).0 ≡ none

  redeemed-IsUsedUp :
      (now : ℕ) (token : Text) (rows : List EnrolmentRow) (a : ℕ)
      → (Invites.redeem_enrolment crates.sha256 now token rows).0 ≡ some a
      → IsUsedUp token (Invites.redeem_enrolment crates.sha256 now token rows).1
  redeemed-IsUsedUp now token rows a h later =
      let (b, found) = redeemed-peek crates.sha256 now token rows a h in
      (redeem_enrolment-once crates.sha256 now later token rows b found).1

  -- The rest of a join, once the account is known and the login key was compared.
  verified-Ends :
      {B : Type 0} (R : B → Server → Type 0) (E : ApiError → Server → Type 0) (clock : Clock)
      (token : Text) (account : ℕ) (f : ℕ → Action B) (s : Server) (right : Bool)
      → ((rows : List EnrolmentRow)
          → E unauthorized (record s { db = record s.db { enrolments = rows } }))
      → ((rows : List EnrolmentRow)
          → right ≡ true
          → IsUsedUp token rows
          → Ends R E (f account (record s { db = record s.db { enrolments = rows } })))
      → Ends R E (
          ((join_verified crates clock token right
                >> (redeem_enrolment crates (clock.ms 2) token >>= λ o.
                    or_raise o unauthorized >> give account))
              >>= f)
            s)
  unfolding join_verified enrolment_failed redeem_enrolment ◌>>=◌
  verified-Ends R E clock token account f s false fails next =
      fails (Invites.enrolment_failed crates.sha256 (clock.ms 1) token s.db.enrolments).1
  verified-Ends R E clock token account f s true fails next =
      by_answer (Invites.redeem_enrolment crates.sha256 (clock.ms 2) token s.db.enrolments)
        (redeemed-IsUsedUp (clock.ms 2) token s.db.enrolments)
    where
      by_answer :
          (r : Option ℕ × List EnrolmentRow)
          → ((a : ℕ) → r.0 ≡ some a → IsUsedUp token r.1)
          → Ends R E (
              (((λ t. (ok r.0, record s { db = record s.db { enrolments = r.1 } })) >>= λ o.
              or_raise o unauthorized >> give account)
                  >>= f)
                s)
      by_answer (none, rows) used = fails rows
      by_answer (some a, rows) used = next rows refl (used a refl)

  join_account-Ends :
      {B : Type 0} (R : B → Server → Type 0) (E : ApiError → Server → Type 0) (clock : Clock)
      (token : Text) (key : List ℕ) (f : ℕ → Action B) (s : Server)
      → ((rows : List EnrolmentRow)
          → E unauthorized (record s { db = record s.db { enrolments = rows } }))
      → ((account : ℕ) (rows : List EnrolmentRow)
          → peek_enrolment crates.sha256 (clock.ms 0) token s.db.enrolments ≡ some account
          → Accounts.verify crates.sha256 account key s.db.accounts ≡ true
          → IsUsedUp token rows
          → Ends R E (f account (record s { db = record s.db { enrolments = rows } })))
      → Ends R E ((join_account crates clock token key >>= f) s)
  unfolding join_account
  join_account-Ends R E clock token key f s fails next = assoc-Ends _ _ _ _ _ s (
      gets-Ends _ _ _ _ s (
        assoc-Ends _ _ _ _ _ s (
          or_raise-Ends _ _ (peek_enrolment crates.sha256 (clock.ms 0) token s.db.enrolments)
            unauthorized _ s (fails s.db.enrolments)
            (λ account found. assoc-Ends _ _ _ _ _ s (
              gets-Ends _ _ _ _ s (
                verified-Ends R E clock token account f s
                  (Accounts.verify crates.sha256 account key s.db.accounts) fails
                  (λ rows right used. next account rows found right used)))))))

module _ (crates : Crates) (config : Config) where
  -- The token named the account, the login key was right, the token is used up, the device's row is the one
  -- that was added, and the new token opens a session of the device.
  abbrev pub IsJoined : Clock → ℕ → EnrolRequest → Server → Admitted → Server → Type 0
  IsJoined clock device request s admitted t =
      (key : List ℕ) × (public_key : List ℕ) × (auth_key crates request.auth_key ≡ ok key)
      × (device_key crates request.device ≡ ok public_key)
      × (peek_enrolment crates.sha256 (clock.ms 0) request.enrolment s.db.enrolments
          ≡ some admitted.account_id)
      × (Accounts.verify crates.sha256 admitted.account_id key s.db.accounts ≡ true)
      × IsUsedUp crates request.enrolment t.db.enrolments
      × (admitted.device_id ≡ device)
      × (t.db.devices
          ≡ (Devices.add (clock.ms 3) device admitted.account_id request.device.name public_key
              s.db.devices).1)
      × ((later : ℕ)
          → get_session later admitted.token t.tokens ≡ (
              if ltb later admitted.expires_ms
              then some (record {
                account_id = admitted.account_id;
                device_id = device;
                expires_ms = admitted.expires_ms;
              })
              else none))

  -- What is done once the account is known.
  added-IsJoined :
      (clock : Clock) (device : ℕ) (token : String) (caller : Caller) (request : EnrolRequest)
      (s : Server) (hits : Limits.Hits) (rows : List EnrolmentRow) (key public_key : List ℕ)
      (account : ℕ) (body : Result EnrolRequest)
      → body ≡ ok request
      → auth_key crates request.auth_key ≡ ok key
      → device_key crates request.device ≡ ok public_key
      → peek_enrolment crates.sha256 (clock.ms 0) request.enrolment s.db.enrolments ≡ some account
      → Accounts.verify crates.sha256 account key s.db.accounts ≡ true
      → IsUsedUp crates request.enrolment rows
      → Ends
          (λ admitted t.
            (request : EnrolRequest) × (body ≡ ok request)
            × IsJoined clock device request s admitted t)
          (λ e t.
            (t.db.devices ≡ s.db.devices) × (t.db.accounts ≡ s.db.accounts) × (t.tokens ≡ s.tokens))
          ((new_device crates config (clock.ms 3) device account request.device.name public_key
              >>= λ d.
                  forgive (who crates config caller) Limits.enrol
                  >> admit_as crates config (clock.ms 4) token account d.id)
            (record s { hits = hits; db = record s.db { enrolments = rows } }))
  unfolding new_device forgive admit_as issue_token Auth.issue_token Devices.add ◌>>=◌
  added-IsJoined clock device token caller request s hits rows key public_key account body given
        login known found right used =
      (
        request,
        given,
        (
          key,
          public_key,
          login,
          known,
          found,
          right,
          used,
          refl,
          refl,
          λ later.
              issue_token-get_session (clock.ms 4) later token account device
                (config.session_secs * 1000) s.tokens,
        ),
      )

  -- A device joins an account only with an enrolment token that names it and the login key of that
  -- account; the token is used up then, the row of the device is added to the devices, and the
  -- token of the answer opens a session of it until it runs out. Where it fails, the devices, the
  -- accounts and the tokens are as they were.
  pub enrol-IsJoined :
      (clock : Clock) (device : ℕ) (token : String) (caller : Caller) (body : Result EnrolRequest)
      (s : Server)
      → Ends
          (λ admitted t.
            (request : EnrolRequest) × (body ≡ ok request)
            × IsJoined clock device request s admitted t)
          (λ e t.
            (t.db.devices ≡ s.db.devices) × (t.db.accounts ≡ s.db.accounts) × (t.tokens ≡ s.tokens))
          (enrol crates config clock device token caller body s)
  unfolding enrol
  enrol-IsJoined clock device token caller body s =
      check-Ends _ _ _ _ _ _ s (λ e hits. (refl, refl, refl))
        (λ hits.
          of_result-Ends _ _ body _ _ (λ e. (refl, refl, refl))
            (λ request given.
              of_result-Ends _ _ (auth_key crates request.auth_key) _ _ (λ e. (refl, refl, refl))
                (λ key login.
                  of_result-Ends _ _ (device_key crates request.device) _ _
                    (λ e. (refl, refl, refl))
                    (λ public_key known.
                      join_account-Ends crates _ _ clock request.enrolment key _ _
                        (λ rows. (refl, refl, refl))
                        (λ account rows found right used.
                          added-IsJoined clock device token caller request s hits rows key
                            public_key account body given login known found right used)))))
