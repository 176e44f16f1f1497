-- ===== src/Service/Sound/Routes.antt =====
-- src/api: the handlers for a device keep a sound server sound, and so does every request.
use uw_ussh_server.Prelude.{
  ℕ, inl, inr, Bool, true, false, List, Option, String, if◌then◌else◌, Bool-cases, ◌==◌, nat_eq,
}
use uw_ussh_server.Prelude.Text.{Text}
use uw_ussh_server.Error.{Result}
use uw_ussh_server.Config.{Config}
use uw_ussh_server.Db.Records.{Proto}
use uw_ussh_server.Db.Devices.{Device}
use uw_ussh_server.Auth.Access.{Authenticated}
use uw_ussh_server.Pairing.{Side, a, b}
use uw_ussh_server.Pairing as Pairing
use uw_ussh_server.Pairing.Requests.{
  serve-IsBounded, opens, admits, posts, reads, waits, asks_account, closes, closes_all_of,
}
use uw_ussh_server.Service.{Server, Crates, Caller, Clock, give}
use uw_ussh_server.Service.Proofs.{Keeps, bind-Keeps}
use uw_ussh_server.Service.Sound.{
  IsSound, check-Keeps, authenticated-Keeps, issue_token-Keeps, forgive-Keeps,
  issue_challenge-Keeps, spend_answered-Keeps, revoke_row-Keeps,
}
use uw_ussh_server.Service.Sound.Handlers.{
  check_account-Keeps, prove_password-Keeps, admit_as-Keeps, new_device-Keeps,
}
use uw_ussh_server.Service.SignIn.{
  LoginRequest, challenge, login, issue_challenge, answer, spend_found, login_as, seen,
}
use uw_ussh_server.Service.Joins.{
  EnrolRequest, list, invite, create_enrolment, enrolment_failed, redeem_enrolment, join_verified,
  join_account, enrol, prove_other, prove_key, drop_enrolments, drop_device, close_opened_by,
  shut_out, revoke,
}
use uw_ussh_server.Auth.Sessions.{drop_device-IsLinked}

module _ (crates : Crates) (config : Config) where
  abbrev I : Server → Type 0
  I = IsSound config

  pub challenge-Keeps :
      (clock : Clock) (drawn : List ℕ) (caller : Caller) (body : Result ℕ)
      → Keeps I (challenge crates config clock drawn caller body)
  unfolding challenge
  challenge-Keeps clock drawn caller body = bind-Keeps I _ _ (check-Keeps config _ _ _) (λ _.
      bind-Keeps I _ _ (λ s k. k)
        (λ device. bind-Keeps I _ _ (check-Keeps config _ _ _) (λ _.
          bind-Keeps I _ _ (λ s k. k)
            (λ known. bind-Keeps I _ _ (maybe known device) (λ given s k. k)))))
    where
      maybe :
          (known : Bool) (device : ℕ)
          → Keeps I (if known then issue_challenge (clock.ms 0) drawn device else give drawn)
      maybe true device = issue_challenge-Keeps config _ drawn device
      maybe false device = λ s k. k

  pub answer-Keeps :
      (now : ℕ) (device : Device) (signature : List ℕ)
      → Keeps I (answer crates config now device signature)
  unfolding answer spend_found
  answer-Keeps now device signature =
      bind-Keeps I _ _ (λ s k. k)
        (λ given. bind-Keeps I _ _ (spend_answered-Keeps config device.id _) (λ spent s k. k))

  pub login_as-Keeps :
      (clock : Clock) (token : String) (caller : Caller) (device : Device)
      → Keeps I (login_as crates config clock token caller device)
  unfolding IsSound login_as seen
  login_as-Keeps clock token caller device = bind-Keeps I _ _ (forgive-Keeps config _ _) (λ _.
      bind-Keeps I _ _ (forgive-Keeps config _ _) (λ _.
        bind-Keeps I _ _ (issue_token-Keeps config _ _ _ _ _)
          (λ issued. bind-Keeps I _ _ (λ s k. k) (λ _ s k. k))))

  pub login-Keeps :
      (clock : Clock) (token : String) (caller : Caller) (body : Result LoginRequest)
      → Keeps I (login crates config clock token caller body)
  unfolding login
  login-Keeps clock token caller body = bind-Keeps I _ _ (check-Keeps config _ _ _) (λ _.
      bind-Keeps I _ _ (λ s k. k)
        (λ request. bind-Keeps I _ _ (check-Keeps config _ _ _) (λ _.
          bind-Keeps I _ _ (λ s k. k)
            (λ signature.
              bind-Keeps I _ _ (λ s k. k)
                (λ found.
                  bind-Keeps I _ _ (λ s k. k)
                    (λ device.
                      bind-Keeps I _ _ (answer-Keeps _ device signature)
                        (λ _. login_as-Keeps clock token caller device)))))))

  pub list-Keeps : (clock : Clock) (caller : Caller) → Keeps I (list clock caller)
  unfolding list
  list-Keeps clock caller = bind-Keeps I _ _ (authenticated-Keeps config _ _) (λ auth s k. k)

  pub invite-Keeps :
      (clock : Clock) (drawn : Text) (caller : Caller) → Keeps I (invite crates clock drawn caller)
  unfolding IsSound invite create_enrolment
  invite-Keeps clock drawn caller = bind-Keeps I _ _ (authenticated-Keeps config _ _) (λ auth.
      bind-Keeps I _ _ (check_account-Keeps crates config _ _ _)
        (λ _. bind-Keeps I _ _ (λ s k. k) (λ token s k. k)))

  pub join_verified-Keeps :
      (clock : Clock) (token : Text) (right : Bool)
      → Keeps I (join_verified crates clock token right)
  unfolding IsSound join_verified enrolment_failed
  join_verified-Keeps clock token true = λ s k. k
  join_verified-Keeps clock token false = bind-Keeps I _ _ (λ s k. k) (λ _ s k. k)

  pub join_account-Keeps :
      (clock : Clock) (token : Text) (key : List ℕ) → Keeps I (join_account crates clock token key)
  unfolding IsSound join_account redeem_enrolment
  join_account-Keeps clock token key =
      bind-Keeps I _ _ (λ s k. k)
        (λ found.
          bind-Keeps I _ _ (λ s k. k)
            (λ account.
              bind-Keeps I _ _ (λ s k. k)
                (λ right. bind-Keeps I _ _ (join_verified-Keeps clock token right) (λ _.
                  bind-Keeps I _ _ (λ s k. k)
                    (λ redeemed. bind-Keeps I _ _ (λ s k. k) (λ _ s k. k))))))

  pub enrol-Keeps :
      (clock : Clock) (device : ℕ) (token : String) (caller : Caller) (body : Result EnrolRequest)
      → Keeps I (enrol crates config clock device token caller body)
  unfolding enrol
  enrol-Keeps clock device token caller body = bind-Keeps I _ _ (check-Keeps config _ _ _) (λ _.
      bind-Keeps I _ _ (λ s k. k)
        (λ request.
          bind-Keeps I _ _ (λ s k. k)
            (λ key.
              bind-Keeps I _ _ (λ s k. k)
                (λ device_key.
                  bind-Keeps I _ _ (join_account-Keeps clock request.enrolment key) (λ account.
                    bind-Keeps I _ _ (new_device-Keeps crates config _ _ _ _ _) (λ device.
                      bind-Keeps I _ _ (forgive-Keeps config _ _)
                        (λ _. admit_as-Keeps crates config _ _ _ _)))))))

  pub prove_other-Keeps :
      (now : ℕ) (auth : Authenticated) (id : ℕ) (key : Option Text)
      → Keeps I (prove_other crates now auth id key)
  unfolding prove_other prove_key
  prove_other-Keeps now auth id key = elim (Bool-cases (id == auth.device.id)) [
    | inl own ↦ λ s k. rw own k
    | inr other ↦ rw other (
        bind-Keeps I _ _ (λ s k. k)
          (λ encoded.
            bind-Keeps I _ _ (λ s k. k)
              (λ proof. prove_password-Keeps crates config now auth proof)))
  ]

  pub drop_device-Keeps : (device : ℕ) → Keeps I (drop_device crates device)
  unfolding IsSound drop_device
  drop_device-Keeps device s h = (h.0, h.1, drop_device-IsLinked device s.tokens h.2, h.3, h.4, h.5)

  pub close_opened_by-Keeps : (device : ℕ) → Keeps I (close_opened_by crates device)
  unfolding IsSound close_opened_by Pairing.Requests.serve
  close_opened_by-Keeps device s h = (
    h.0,
    h.1,
    h.2,
    h.3,
    h.4,
    serve-IsBounded crates.sha256 0 (closes_all_of device) s.pairings h.5,
  )

  module _ {Kind : Type 0} (proto : Proto Kind) where
    shut_out-Keeps : (now account id : ℕ) → Keeps I (shut_out crates proto now account id)
    unfolding IsSound shut_out drop_enrolments
    shut_out-Keeps now account id =
        bind-Keeps I _ _ (λ s k. k)
          (λ live.
            bind-Keeps I _ _ (λ s k. k)
              (λ _.
                bind-Keeps I _ _ (revoke_row-Keeps config proto crates now account id) (λ changed.
                  bind-Keeps I _ _ (λ s k. k)
                    (λ _.
                      bind-Keeps I _ _ (λ s k. k)
                        (λ _.
                          bind-Keeps I _ _ (drop_device-Keeps id)
                            (λ _. bind-Keeps I _ _ (close_opened_by-Keeps id) (λ _ s k. k)))))))

    pub revoke-Keeps :
        (clock : Clock) (caller : Caller) (id : ℕ) (body : Result (Option Text))
        → Keeps I (revoke crates proto clock caller id body)
    unfolding revoke
    revoke-Keeps clock caller id body = bind-Keeps I _ _ (authenticated-Keeps config _ _) (λ auth.
        bind-Keeps I _ _ (λ s k. k)
          (λ key. bind-Keeps I _ _ (prove_other-Keeps _ auth id key) (λ _. shut_out-Keeps _ _ id)))
