-- ===== src/Service/Revoked.antt =====
-- src/api/devices.rs: what is left of a device that was shut out.
use uw_ussh_server.Prelude.{
  ℕ, ◌≡◌, ◌≢◌, refl, sym, subst, ap, ◌∙◌, ◌⊎◌, inl, inr, Bool, true, false, not, List, [], ◌∷◌,
  Option, some, String, arith, length, retain, leb, ltb, All, Bool-cases, ◌==◌, nat_eq, nat_beq_iff,
}
use uw_ussh_server.Prelude.Text.{Text}
use uw_ussh_server.Error.{Result, ok, wrong_password}
use uw_ussh_server.Db.Tables.{Db, DeviceRow, EnrolmentRow, update_where}
use uw_ussh_server.Db.Records.{Proto, drop_manifests_of}
use uw_ussh_server.Db.Records as Records
use uw_ussh_server.Db.Devices.{may_revoke}
use uw_ussh_server.Db.Devices as Devices
use uw_ussh_server.Db.Invites.{is_made_by}
use uw_ussh_server.Db.Invites as Invites
use uw_ussh_server.Auth.{Session, get_session}
use uw_ussh_server.Auth as Auth
use uw_ussh_server.Auth.Access.{Authenticated}
use uw_ussh_server.Auth.Access as Access
use uw_ussh_server.Auth.Sessions.{IsLinked, drop_device-get_session}
use uw_ussh_server.Pairing as Pairing
use uw_ussh_server.Service.{
  Server, Crates, Caller, Clock, ◌>>=◌, prove_password, raise_if, check_device, check_member,
  forgive_device, auth_key,
}
use uw_ussh_server.Limits.{Bucket}
use uw_ussh_server.Limits as Limits
use uw_ussh_server.Db.Accounts as Accounts
use uw_ussh_server.Service.Proofs.{
  Ends, bind-Ends, Ends-Keeps, or_raise-Ends, of_result-Ends, imp-Ends, authenticated-Ends,
}
use uw_ussh_server.Service.Joins.{
  prove_other, prove_key, revoke_row, drop_enrolments, drop_device, close_opened_by, shut_out,
  revoke,
}

-- No live row of the device in the account is left, no token opens a session of it, no enrolment token
-- it made is unused, and no pairing it opened goes on.
abbrev pub IsShutOut : ℕ → ℕ → Server → Type 0
IsShutOut account id s =
    All (λ (r : DeviceRow). may_revoke account id r ≡ false) s.db.devices
    × ((later : ℕ) (token : String) (t : Session)
        → get_session later token s.tokens ≡ some t
        → t.device_id ≢ id)
    × All (λ (r : EnrolmentRow). is_made_by id r ≡ false) s.db.enrolments
    × All (λ (e : Text × Pairing.Session). Pairing.is_opened_by id e ≡ false) s.pairings

All-retain-not :
    {A : Type 0} (p : A → Bool) (xs : List A)
    → All (λ (x : A). p x ≡ false) (retain (λ x. not (p x)) xs)
unfolding retain
All-retain-not p [] = tt
All-retain-not p (x ∷ xs) = ground (arith, All-retain-not p xs)

-- Once it has a time of revocation a row cannot be revoked.
revoked_rows :
    (now account id : ℕ) (rows : List DeviceRow)
    → All
        (λ (r : DeviceRow). may_revoke account id r ≡ false)
        (update_where (may_revoke account id) (λ r. record r { revoked_ms = some now }) rows)
unfolding update_where
revoked_rows now account id [] = tt
revoked_rows now account id (r ∷ rows) = ground (arith, revoked_rows now account id rows)

-- `UPDATE` of no row.
update_where-none :
    {A : Type 0} (p : A → Bool) (f : A → A) (rows : List A)
    → ltb 0 (length (retain p rows)) ≡ false
    → update_where p f rows ≡ rows
unfolding update_where retain
update_where-none p f [] h = refl
update_where-none p f (r ∷ rows) h = ground (arith, update_where-none p f rows, h)

-- The database is as it was.
abbrev SameDb : Server → Server → Type 0
SameDb s t = t.db ≡ s.db

module _ {Kind : Type 0} (proto : Proto Kind) (crates : Crates) where
  shut_out-IsShutOut :
      (now account id : ℕ) (s : Server)
      → IsLinked s.tokens
      → Ends (λ _. IsShutOut account id) (λ e. SameDb s) (shut_out crates proto now account id s)
  unfolding shut_out revoke_row drop_enrolments drop_device close_opened_by Devices.revoke
      drop_manifests_of Records.delete_rows Invites.drop_enrolments_of Pairing.close_opened_by ◌>>=◌
  shut_out-IsShutOut now account id s linked =
      elim (Bool-cases (leb (Devices.live_count account s.db.devices) 1)) [
        | inl last ↦ rw last refl
        | inr others ↦
            rw others
              (elim (Bool-cases (ltb 0 (length (retain (may_revoke account id) s.db.devices)))) [
                | inl found ↦ rw found (
                  revoked_rows now account id s.db.devices,
                  λ later token t good.
                      drop_device-get_session id later token s.tokens t linked good,
                  All-retain-not (is_made_by id) s.db.enrolments,
                  All-retain-not (Pairing.is_opened_by id) s.pairings,
                )
                | inr missing ↦ rw missing (
                    ap (λ rows. record s.db { devices = rows })
                      (update_where-none (may_revoke account id)
                        (λ r. record r { revoked_ms = some now }) s.db.devices missing))
              ])
      ]

-- The database and the tokens are as they were.
abbrev pub IsSame : Server → Server → Type 0
IsSame s t = (t.db ≡ s.db) × (t.tokens ≡ s.tokens)

module _ (crates : Crates) where
  abbrev pub Proves : Authenticated → List ℕ → Server → Type 0
  Proves auth key s = Accounts.verify crates.sha256 auth.account.id key s.db.accounts ≡ true

  check_device-IsSame :
      (now device : ℕ) (bucket : Bucket) (s : Server)
      → IsSame s (check_device crates now device bucket s).1
  unfolding check_device check_member
  check_device-IsSame now device bucket s = (refl, refl)

  -- Whoever is let on has shown the master password, and nothing of the database or the tokens changed.
  pub prove_password-Proves :
      (now : ℕ) (auth : Authenticated) (key : List ℕ) (s : Server)
      → Ends
          (λ _ t. IsSame s t × Proves auth key s)
          (λ e t. IsSame s t)
          (prove_password crates now auth key s)
  unfolding prove_password forgive_device
  prove_password-Proves now auth key s =
      bind-Ends (λ _ t. IsSame s t) (λ _ t. IsSame s t × Proves auth key s) (λ e t. IsSame s t) _ _
        s
        (Ends-Keeps (IsSame s) (check_device crates now auth.device.id Limits.proof) s
          (check_device-IsSame now auth.device.id Limits.proof s))
        (λ _ t same.
          bind-Ends
            (λ right u.
              IsSame s u
              × (right ≡ Accounts.verify crates.sha256 auth.account.id key s.db.accounts))
            (λ _ u. IsSame s u × Proves auth key s) (λ e u. IsSame s u) _ _ t
            (
              same,
              ap (λ (db : Db). Accounts.verify crates.sha256 auth.account.id key db.accounts)
                  same.0,
            )
            (λ right u q.
              bind-Ends (λ _ v. IsSame s v × Proves auth key s)
                (λ _ v. IsSame s v × Proves auth key s) (λ e v. IsSame s v) _ _ u
                (unless_wrong right u q) (λ _ v r. r)))
    where
      unless_wrong :
          (right : Bool) (u : Server)
          → IsSame s u × (right ≡ Accounts.verify crates.sha256 auth.account.id key s.db.accounts)
          → Ends
              (λ (_ : Unit {0}) v. IsSame s v × Proves auth key s)
              (λ e v. IsSame s v)
              (raise_if (not right) wrong_password u)
      unless_wrong true u q = (q.0, sym q.1)
      unless_wrong false u q = q.0

  -- The body names a key that proves, or the device is one's own.
  abbrev pub MayShutOut : Authenticated → ℕ → Result (Option Text) → Server → Type 0
  MayShutOut auth id body s =
      (id ≡ auth.device.id)
      ⊎ ((encoded : Text) × (key : List ℕ) × (body ≡ ok (some encoded))
          × (auth_key crates encoded ≡ ok key)
          × Proves auth key s)

  prove_other-MayShutOut :
      (now : ℕ) (auth : Authenticated) (id : ℕ) (body : Option Text) (s : Server)
      → Ends
          (λ _ t. IsSame s t × MayShutOut auth id (ok body) s)
          (λ e t. IsSame s t)
          (prove_other crates now auth id body s)
  unfolding prove_other prove_key
  prove_other-MayShutOut now auth id body s = elim (Bool-cases (id == auth.device.id)) [
    | inl own ↦ rw own ((refl, refl), inl ((nat_beq_iff id auth.device.id).0 own))
    | inr other ↦ rw other (
        or_raise-Ends _ _ body wrong_password _ s (refl, refl)
          (λ encoded given.
            of_result-Ends _ _ (auth_key crates encoded) _ s (λ e. (refl, refl))
              (λ key decoded.
                imp-Ends _ _ _ _ (prove_password crates now auth key s)
                  (λ _ t q. (q.0, inr (encoded, key, ap ok given, decoded, q.1))) (λ e t q. q)
                  (prove_password-Proves now auth key s))))
  ]

  -- The request came with a token of the device, and what was asked for was allowed to it.
  abbrev pub Shown : Clock → Caller → ℕ → Result (Option Text) → Server → Authenticated → Type 0
  Shown clock caller id body s auth =
      ((Access.authenticate (clock.ms 0) caller.bearer s.tokens s.db).0 ≡ ok auth)
      × MayShutOut auth id body s

  module _ {Kind : Type 0} (proto : Proto Kind) where
    -- Where the two tables of tokens are in step: a device is shut out only by a request with a
    -- token that is let in, for the device itself or with the login key of the account; then no
    -- row of it in the account is live, no token opens a session of it, no enrolment token it made
    -- is unused and no pairing it opened goes on. Where it fails, the database is as it was.
    pub revoke-IsShutOut :
        (clock : Clock) (caller : Caller) (id : ℕ) (body : Result (Option Text)) (s : Server)
        → IsLinked s.tokens
        → Ends
            (λ _ t.
              (auth : Authenticated) × Shown clock caller id body s auth
              × IsShutOut auth.account.id id t)
            (λ e t. t.db ≡ s.db)
            (revoke crates proto clock caller id body s)
    unfolding revoke
    revoke-IsShutOut clock caller id body s linked =
        authenticated-Ends _ _ (clock.ms 0) caller.bearer _ s (λ e t same. same)
          (λ auth known.
            of_result-Ends _ _ body _ s (λ e. refl)
              (λ current given.
                bind-Ends (λ _ t. IsSame s t × MayShutOut auth id (ok current) s) _
                  (λ e t. t.db ≡ s.db) _ _ s
                  (imp-Ends _ _ _ _ (prove_other crates (clock.instant 0) auth id current s)
                    (λ _ t q. q) (λ e t q. q.0)
                    (prove_other-MayShutOut (clock.instant 0) auth id current s))
                  (λ _ t q.
                    imp-Ends _ _ _ _ (shut_out crates proto (clock.ms 1) auth.account.id id t)
                      (λ _ u out. (
                        auth,
                        (
                          known,
                          subst (λ (r : Result (Option Text)). MayShutOut auth id r s) (sym given)
                              q.1,
                        ),
                        out,
                      ))
                      (λ e u same. same ∙ q.0.0)
                      (shut_out-IsShutOut proto crates (clock.ms 1) auth.account.id id t
                        (subst (λ (x : Auth.Tokens). IsLinked x) (sym q.0.1) linked)))))
