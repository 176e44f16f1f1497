-- ===== src/Service/Sound/Handlers.antt =====
-- src/api: every handler keeps a sound server sound.
use uw_ussh_server.Prelude.{
  ℕ, ◌<◌, ◌≡◌, refl, inl, inr, List, [], ◌∷◌, String, arith, length, length-append, leb, retain,
  All-append, Bool-cases, nat_eq, sum_by,
}
use uw_ussh_server.Prelude.Text.{Text}
use uw_ussh_server.Error.{Result}
use uw_ussh_server.Config.{Config, anyone, invite, closed, Registration}
use uw_ussh_server.Db.Records.{is_of}
use uw_ussh_server.Db.Records.Counts.{Agrees}
use uw_ussh_server.Db.Accounts.{VaultHeader, new_row}
use uw_ussh_server.Db.Accounts as Accounts
use uw_ussh_server.Limits as Limits
use uw_ussh_server.Auth.Access.{Authenticated}
use uw_ussh_server.Service.{
  Server, Crates, Caller, Clock, ◌>>=◌, ◌>>◌, check, check_account, check_device, forgive_device,
  prove_password,
}
use uw_ussh_server.Service.Proofs.{Keeps, bind-Keeps, bind-Turns, bind-From}
use uw_ussh_server.Service.Sound.{
  IsSound, check-Keeps, check_member-Keeps, authenticated-Keeps, issue_token-Keeps,
  set_header-Keeps,
}
use uw_ussh_server.Service.Vault.{
  check_vault, spend_invite, let_in, new_device, admit_as, change_password, vault, vault_params,
  CreateAccount, ChangePassword, create, insert_account, new_account, make_account,
}

module _ (crates : Crates) (config : Config) where
  abbrev I : Server → Type 0
  I = IsSound config

  pub check_account-Keeps :
      (now account : ℕ) (bucket : Limits.Bucket) → Keeps I (check_account crates now account bucket)
  unfolding check_account
  check_account-Keeps now account bucket = check_member-Keeps config now _ bucket

  pub check_vault-Keeps : (h : VaultHeader) → Keeps I (check_vault config h)
  unfolding check_vault
  check_vault-Keeps h = bind-Keeps I _ _ (λ s k. k) (λ _ s k. k)

  pub prove_password-Keeps :
      (now : ℕ) (auth : Authenticated) (key : List ℕ) → Keeps I (prove_password crates now auth key)
  unfolding IsSound prove_password check_device forgive_device Limits.forgive_member
  prove_password-Keeps now auth key =
      bind-Keeps I _ _ (check_member-Keeps config now _ Limits.proof)
        (λ _. bind-Keeps I _ _ (λ s k. k) (λ right. bind-Keeps I _ _ (λ s k. k) (λ _ s k. k)))

  pub admit_as-Keeps :
      (now : ℕ) (token : String) (account device : ℕ)
      → Keeps I (admit_as crates config now token account device)
  unfolding admit_as
  admit_as-Keeps now token account device =
      bind-Keeps I _ _ (issue_token-Keeps config now token account device _) (λ issued s k. k)

  pub new_device-Keeps :
      (now id account : ℕ) (name : Text) (key : List ℕ)
      → Keeps I (new_device crates config now id account name key)
  unfolding IsSound new_device
  new_device-Keeps now id account name key s k = k

  pub vault-Keeps : (clock : Clock) (caller : Caller) → Keeps I (vault crates config clock caller)
  unfolding vault
  vault-Keeps clock caller =
      bind-Keeps I _ _ (authenticated-Keeps config _ _)
        (λ auth. bind-Keeps I _ _ (λ s k. k) (λ header s k. k))

  pub vault_params-Keeps :
      (clock : Clock) (caller : Caller) (body : Result Text)
      → Keeps I (vault_params crates config clock caller body)
  unfolding vault_params
  vault_params-Keeps clock caller body = bind-Keeps I _ _ (check-Keeps config _ _ _) (λ _.
      bind-Keeps I _ _ (λ s k. k)
        (λ enrolment.
          bind-Keeps I _ _ (λ s k. k)
            (λ found.
              bind-Keeps I _ _ (λ s k. k)
                (λ account.
                  bind-Keeps I _ _ (λ s k. k)
                    (λ header. bind-Keeps I _ _ (λ s k. k) (λ h s k. k))))))

  pub change_password-Keeps :
      (clock : Clock) (caller : Caller) (body : Result ChangePassword)
      → Keeps I (change_password crates config clock caller body)
  unfolding change_password
  change_password-Keeps clock caller body =
      bind-Keeps I _ _ (authenticated-Keeps config _ _) (λ auth.
        bind-Keeps I _ _ (λ s k. k)
          (λ request.
            bind-Keeps I _ _ (λ s k. k)
              (λ current.
                bind-Keeps I _ _ (λ s k. k)
                  (λ next. bind-Keeps I _ _ (check_vault-Keeps request.vault) (λ _.
                    bind-Keeps I _ _ (λ s k. k)
                      (λ _.
                        bind-Keeps I _ _ (prove_password-Keeps _ auth current)
                          (λ _. set_header-Keeps config crates _ _ _)))))))

  -- No record is of that account: what a new id is.
  abbrev pub IsNew : ℕ → Server → Type 0
  IsNew id s = retain (is_of id) s.db.records ≡ []

  -- A sound server, for which an id is new.
  abbrev K : ℕ → Server → Type 0
  K id s = I s × IsNew id s

  -- Such a server that takes one more account.
  abbrev HasRoom : ℕ → Server → Type 0
  HasRoom id s = K id s × (length s.db.accounts < config.max_accounts)

  pub let_in-Keeps :
      (id : ℕ) (registration : Registration) (now : ℕ) (code : Text)
      → Keeps (HasRoom id) (let_in crates config registration now code)
  unfolding IsSound let_in spend_invite
  let_in-Keeps id closed now code = λ s k. k
  let_in-Keeps id invite now code = bind-Keeps (HasRoom id) _ _ (λ s k. k) (λ spent s k. k)
  let_in-Keeps id anyone now code = λ s k. k

  pub insert_account-Sound :
      (clock : Clock) (id device : ℕ) (request : CreateAccount) (key device_key : List ℕ)
      (s : Server)
      → HasRoom id s
      → I (insert_account crates config clock id device request key device_key s).1
  unfolding IsSound insert_account new_account new_device Accounts.create ◌>>=◌ sum_by
  insert_account-Sound clock id device request key device_key s ((sound, new), room) =
      let row = new_row crates.sha256 (clock.ms 1) id request.vault key in
      (
        All-append (Agrees s.db.records) s.db.accounts (row ∷ []) sound.0
            (rw (new, new_row) (refl, refl), tt),
        omega (arith, room, length-append s.db.accounts (row ∷ [])),
        sound.2,
        sound.3,
        sound.4,
        sound.5,
      )

  check-K : (id now : ℕ) (who : Text) (bucket : Limits.Bucket) → Keeps (K id) (check now who bucket)
  unfolding IsSound check
  check-K id now who bucket s k = (check-Keeps config now who bucket s k.0, k.1)

  check_vault-K : (id : ℕ) (h : VaultHeader) → Keeps (K id) (check_vault config h)
  unfolding check_vault
  check_vault-K id h = bind-Keeps (K id) _ _ (λ s k. k) (λ _ s k. k)

  pub spend_and_insert-Sound :
      (clock : Clock) (id device : ℕ) (request : CreateAccount) (key device_key : List ℕ)
      (s : Server)
      → HasRoom id s
      → I
          ((let_in crates config config.registration (clock.ms 0) request.invite
              >> insert_account crates config clock id device request key device_key)
            s).1
  spend_and_insert-Sound clock id device request key device_key =
      bind-Turns (HasRoom id) I _ _ (λ s k. k.0.0) (let_in-Keeps id config.registration _ _)
        (λ _. insert_account-Sound clock id device request key device_key)

  pub make_account-Sound :
      (clock : Clock) (id device : ℕ) (request : CreateAccount) (key device_key : List ℕ)
      (s : Server)
      → K id s
      → I (make_account crates config clock id device request key device_key s).1
  unfolding IsSound make_account Accounts.count ◌>>=◌
  make_account-Sound clock id device request key device_key s k =
      elim (Bool-cases (leb config.max_accounts (length s.db.accounts))) [
        | inl full ↦ rw full k.0
        | inr more ↦ rw more (
            spend_and_insert-Sound clock id device request key device_key s
              (k, ground (arith, more)))
      ]

  pub create-Sound :
      (clock : Clock) (id device : ℕ) (token : String) (caller : Caller)
      (body : Result CreateAccount) (s : Server)
      → K id s
      → I (create crates config clock id device token caller body s).1
  unfolding create
  create-Sound clock id device token caller body =
      bind-Turns (K id) I _ _ (λ s k. k.0) (λ s k. k)
        (λ _.
          bind-Turns (K id) I _ _ (λ s k. k.0) (check-K id _ _ _)
            (λ _.
              bind-Turns (K id) I _ _ (λ s k. k.0) (λ s k. k)
                (λ request.
                  bind-Turns (K id) I _ _ (λ s k. k.0) (check_vault-K id request.vault)
                    (λ _.
                      bind-Turns (K id) I _ _ (λ s k. k.0) (λ s k. k)
                        (λ key.
                          bind-Turns (K id) I _ _ (λ s k. k.0) (λ s k. k)
                            (λ device_key s k.
                              bind-From I _ _ s
                                (make_account-Sound clock id device request key device_key s k)
                                (λ made. admit_as-Keeps _ token _ _)))))))
