-- ===== src/Service/Sound.antt =====
-- src/api: what every request keeps, from the first step of its handler to the last.
pub mod Handlers
pub mod Routes
pub mod Requests
pub mod Reachable
use uw_ussh_server.Prelude.{
  ℕ, suc, ◌+◌, ◌≤◌, ◌<◌, ◌≡◌, refl, sym, subst, ap, inl, inr, Bool, true, false, not, ◌&&◌, List,
  [], ◌∷◌, ◌++◌, Option, none, some, String, arith, if◌then◌else◌, length, length-append, leb, ltb,
  retain, All, All-append, Bool-cases, Option-cases, ◌==◌, nat_eq,
}
use uw_ussh_server.Prelude.Int.{pos}
use uw_ussh_server.Prelude.Text.{Text}
use uw_ussh_server.Error.{Result, ok, err, ApiError, ok_or}
use uw_ussh_server.Address.{network}
use uw_ussh_server.Config.{Config}
use uw_ussh_server.Db.Tables.Updates.{update_where-All, length-update_where}
use uw_ussh_server.Db.Tables.{AccountRow, RecordRow, Db, update_where, account_row}
use uw_ussh_server.Db.Records.{
  Proto, Account, Envelope, Quota, delete_rows, commit_push, is_of, Pushing, is_manifest_of,
  drop_manifests_of,
}
use uw_ussh_server.Db.Records as Records
use uw_ussh_server.Db.Records.Cases.{push_within_cases}
use uw_ussh_server.Db.Records.Counts.{
  IsCounted, Agrees, push_within-IsCounted, drop_manifests_of-IsCounted,
}
use uw_ussh_server.Db.Accounts.{VaultHeader, rewrap}
use uw_ussh_server.Db.Accounts as Accounts
use uw_ussh_server.Db.Devices.{may_revoke}
use uw_ussh_server.Db.Devices as Devices
use uw_ussh_server.Limits.{Bucket, AtOnce}
use uw_ussh_server.Limits.Tables.{AreSmall, count-AreSmall, forgive-AreSmall}
use uw_ussh_server.Auth.Challenges.{AreFew, issue_challenge-AreFew, spend-AreFew}
use uw_ussh_server.Auth.Sessions.{IsLinked, issue_token-IsLinked, drop_device-IsLinked}
use uw_ussh_server.Auth.Access as Access
use uw_ussh_server.Pairing.Bounds.{IsBounded}
use uw_ussh_server.Service.{
  Server, Crates, Caller, Clock, Action, ◌>>=◌, check, check_member, authenticated, issue_token,
  forgive,
}
use uw_ussh_server.Service.SignIn.{issue_challenge, spend_answered}
use uw_ussh_server.Service.Pair.{relay}
use uw_ussh_server.Service.Vault.{set_header}
use uw_ussh_server.Service.Joins.{revoke_row}
use uw_ussh_server.Service.Mail.{push_within}
use uw_ussh_server.Pairing.{Pairings}
use uw_ussh_server.Auth.{get_session}
use uw_ussh_server.Service.Proofs.{Keeps, bind-Keeps}

module _ (config : Config) where
  -- What holds of a server between its requests: the counters of the accounts agree with their records,
  -- there are no more accounts than the server takes, the tables of tokens are in step, no device has
  -- more challenges than it may, the limiter's tables are small and the relay is.
  unfoldable pub IsSound : Server → Type 0
  IsSound s =
      IsCounted s.db
      × (length s.db.accounts ≤ config.max_accounts)
      × IsLinked s.tokens
      × AreFew s.challenges
      × AreSmall s.hits.addresses
      × IsBounded s.pairings

  pub check-Keeps : (now : ℕ) (who : Text) (bucket : Bucket) → Keeps IsSound (check now who bucket)
  unfolding IsSound check
  check-Keeps now who bucket s h =
      (h.0, h.1, h.2, h.3, count-AreSmall network now who bucket true s.hits h.4, h.5)

  pub check_member-Keeps :
      (now : ℕ) (who : Text) (bucket : Bucket) → Keeps IsSound (check_member now who bucket)
  unfolding IsSound check_member
  check_member-Keeps now who bucket s h =
      (h.0, h.1, h.2, h.3, count-AreSmall network now who bucket false s.hits h.4, h.5)

  pub authenticated-Keeps :
      (now : ℕ) (bearer : Option String) → Keeps IsSound (authenticated now bearer)
  unfolding IsSound authenticated Access.authenticate Access.check_session Access.check_device
  authenticated-Keeps now none s h = h
  authenticated-Keeps now (some token) s h = elim (Option-cases (get_session now token s.tokens)) [
    | inl missing ↦ rw (missing, Access.check_session) h
    | inr (t, good) ↦
        rw (good, Access.check_session)
          (elim (Option-cases (Devices.get t.device_id s.db.devices)) [
            | inl missing ↦ rw (missing, Access.check_device) h
            | inr (d, held) ↦
                rw (held, Access.check_device)
                  (elim (Bool-cases (Access.is_out t d)) [
                    | inl out ↦
                        rw out
                          (h.0, h.1, drop_device-IsLinked t.device_id s.tokens h.2, h.3, h.4, h.5)
                    | inr in_ ↦ rw in_ h
                  ])
          ])
  ]

  pub issue_token-Keeps :
      (now : ℕ) (token : String) (account device ttl_ms : ℕ)
      → Keeps IsSound (issue_token now token account device ttl_ms)
  unfolding IsSound issue_token
  issue_token-Keeps now token account device ttl_ms s h =
      (h.0, h.1, issue_token-IsLinked now token account device ttl_ms s.tokens h.2, h.3, h.4, h.5)

  pub forgive-Keeps : (who : Text) (bucket : Bucket) → Keeps IsSound (forgive who bucket)
  unfolding IsSound forgive
  forgive-Keeps who bucket s h = (h.0, h.1, h.2, h.3, forgive-AreSmall who bucket s.hits h.4, h.5)

  pub issue_challenge-Keeps :
      (now : ℕ) (drawn : List ℕ) (device : ℕ) → Keeps IsSound (issue_challenge now drawn device)
  unfolding IsSound issue_challenge
  issue_challenge-Keeps now drawn device s h =
      (h.0, h.1, h.2, issue_challenge-AreFew now drawn device s.challenges h.3, h.4, h.5)

  pub spend_answered-Keeps :
      (device : ℕ) (challenge : Option (List ℕ)) → Keeps IsSound (spend_answered device challenge)
  unfolding IsSound spend_answered
  spend_answered-Keeps device none s h = h
  spend_answered-Keeps device (some challenge) s h =
      (h.0, h.1, h.2, spend-AreFew device challenge s.challenges h.3, h.4, h.5)

  -- What a call on the relay leaves is what serving it leaves.
  pub relay-Keeps :
      {A : Type 0} (f : Pairings → Result A × Pairings)
      → ((inner : Pairings) → IsBounded inner → IsBounded (f inner).1)
      → Keeps IsSound (relay f)
  unfolding IsSound relay
  relay-Keeps f keep s h = (h.0, h.1, h.2, h.3, h.4, keep s.pairings h.5)

  length-commit_push :
      {Kind : Type 0} (account : Account) (p : Pushing Kind) (db : Db)
      → length (commit_push account p db).accounts ≡ length db.accounts
  unfolding commit_push
  length-commit_push account p db = length-update_where _ _ db.accounts

  pub set_header-Keeps :
      (crates : Crates) (account : ℕ) (v : VaultHeader) (key : List ℕ)
      → Keeps IsSound (set_header crates config account v key)
  unfolding IsSound set_header Accounts.set_header
  set_header-Keeps crates account v key s h = (
    update_where-All (Agrees s.db.records) (λ r. r.id == account) (rewrap crates.sha256 v key)
        s.db.accounts (λ r a. a) h.0,
    rw (length-update_where (λ r. r.id == account) (rewrap crates.sha256 v key) s.db.accounts) h.1,
    h.2,
    h.3,
    h.4,
    h.5,
  )

  length-delete_rows :
      (a : ℕ) (which : RecordRow → Bool) (db : Db)
      → length (delete_rows a which db).1.accounts ≡ length db.accounts
  unfolding delete_rows
  length-delete_rows a which db = length-update_where _ _ db.accounts

  module _ {Kind : Type 0} (proto : Proto Kind) (crates : Crates) where
    pub revoke_row-Keeps :
        (now account id : ℕ) → Keeps IsSound (revoke_row crates proto now account id)
    unfolding IsSound revoke_row Devices.revoke drop_manifests_of
    revoke_row-Keeps now account id s h =
        let changed = length (retain (may_revoke account id) s.db.devices) in
        let db' : Db = record s.db {
          devices =
              update_where (may_revoke account id) (λ r. record r { revoked_ms = some now })
                s.db.devices;
        } in
        elim (Bool-cases (ltb 0 changed)) [
          | inl some_ ↦ rw some_ (
            drop_manifests_of-IsCounted proto account id db' h.0,
            rw (length-delete_rows account (is_manifest_of proto account id) db') h.1,
            h.2,
            h.3,
            h.4,
            h.5,
          )
          | inr none_ ↦ rw none_ h
        ]

    pub push_within-Keeps :
        (now : ℕ) (account : Account) (device : ℕ) (es : List (Envelope Kind)) (quota : Quota)
        → Keeps IsSound (push_within proto crates now account device es quota)
    unfolding IsSound push_within
    push_within-Keeps now account device es quota s h = (
      push_within-IsCounted proto account device now es quota s.db h.0,
      push_within_cases proto account device now es quota s.db
          (λ r. length r.1.accounts ≤ config.max_accounts) (λ e. h.1)
          (λ r a. rw (length-commit_push account _ s.db) h.1),
      h.2,
      h.3,
      h.4,
      h.5,
    )
