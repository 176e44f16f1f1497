-- ===== src/Config/Agrees.antt =====
-- src/config.rs: the environment and the configuration that is read from it, the refusals included.
use uw_ussh_server.Prelude.{ℕ, ◌<◌, ◌≡◌, refl, Bool, true, false, List, [], ◌∷◌, Option, some, inr}
use uw_ussh_server.Prelude.Text.{Text, text}
use uw_ussh_server.Prelude.Numerals.{parse_u64, strip_prefix}
use uw_ussh_server.Address.{v4}
use uw_ussh_server.Config.{
  SocketAddr, Config, TlsMode, Registration, auto, invite, default, Env, Read, var, legacy_name,
  parse_registration, parse_tls, switch,
}
use uw_ussh_server.Config.Settings.{
  Step, steps, run_steps, from_env, with_var, set_data, set_listen, set_registration,
  set_session_secs, set_tls, set_trust, set_update_check, set_max_accounts, set_records, set_bytes,
  set_server_bytes, set_max_connections, set_per_address,
}
use uw_ussh_server.Config.Reads.{
  setting, IsSetting, Means, registrations, tls_modes, switches, IsNumber, IsMega, Agrees,
}
use uw_ussh_server.Config.Decided.{
  set-Ends, refuse-Decided, some-none, word-Decided, IsNumber-Decided, IsMega-Decided,
  connections-Decided, per_address-Decided, parse_registration-words, parse_tls-words, switch-words,
}

module _ (parse_address : Text → Option SocketAddr) (env : Env) where
  abbrev E : Read Config → Type 0
  E = Agrees parse_address env

  -- Where the steps end that are left, from a configuration.
  Goes : List Step → Config → Type 0
  Goes rest c = E (run_steps rest c)

  dir-Ends :
      (c : Config) (rest : List Step)
      → record c { data_dir = (text "./data") } ≡ c
      → ((a : Text)
          → IsSetting (setting env (text "DATA")) (λ value dir. dir ≡ value) (text "./data") a
          → Goes rest (record c { data_dir = a }))
      → Goes (with_var (setting env (text "DATA")) set_data ∷ rest) c
  unfolding Goes
  dir-Ends c rest same next =
      set-Ends E (setting env (text "DATA")) set_data c rest (λ value dir. dir ≡ value)
        (text "./data") (λ c dir. record c { data_dir = dir }) same (λ value. (value, refl, refl))
        (λ message bad x r. bad _ r.0) next

  listen-Ends :
      (c : Config) (rest : List Step)
      → record c { listen = (record { ip = v4 0 0 0 0; port = 8443 }) } ≡ c
      → ((a : SocketAddr)
          → IsSetting
              (setting env (text "LISTEN"))
              (λ value a. parse_address value ≡ some a)
              (record { ip = v4 0 0 0 0; port = 8443 })
              a
          → Goes rest (record c { listen = a }))
      → Goes (with_var (setting env (text "LISTEN")) (set_listen parse_address) ∷ rest) c
  unfolding Goes
  listen-Ends c rest same next =
      set-Ends E (setting env (text "LISTEN")) (set_listen parse_address) c rest
        (λ value a. parse_address value ≡ some a) (record { ip = v4 0 0 0 0; port = 8443 })
        (λ c a. record c { listen = a }) same
        (λ value.
          refuse-Decided (λ v a. parse_address v ≡ some a) (λ c a. record c { listen = a }) value c
            (parse_address value) _ (λ a h. h) (some-none (parse_address value)))
        (λ message bad x r. bad _ r.1) next

  registration-Ends :
      (c : Config) (rest : List Step)
      → record c { registration = invite } ≡ c
      → ((a : Registration)
          → IsSetting (setting env (text "REGISTRATION")) (Means registrations) invite a
          → Goes rest (record c { registration = a }))
      → Goes (with_var (setting env (text "REGISTRATION")) set_registration ∷ rest) c
  unfolding Goes
  registration-Ends c rest same next =
      set-Ends E (setting env (text "REGISTRATION")) set_registration c rest (Means registrations)
        invite (λ c r. record c { registration = r }) same
        (λ value.
          word-Decided registrations (λ c r. record c { registration = r }) value c
            (parse_registration value) _ (parse_registration-words value))
        (λ message bad x r. bad _ r.3) next

  tls-Ends :
      (c : Config) (rest : List Step)
      → record c { tls = auto } ≡ c
      → ((a : TlsMode)
          → IsSetting (setting env (text "TLS")) (Means tls_modes) auto a
          → Goes rest (record c { tls = a }))
      → Goes (with_var (setting env (text "TLS")) set_tls ∷ rest) c
  unfolding Goes
  tls-Ends c rest same next =
      set-Ends E (setting env (text "TLS")) set_tls c rest (Means tls_modes) auto
        (λ c t. record c { tls = t }) same
        (λ value.
          word-Decided tls_modes (λ c t. record c { tls = t }) value c (parse_tls value) _
            (parse_tls-words value))
        (λ message bad x r. bad _ r.4) next

  trust-Ends :
      (c : Config) (rest : List Step)
      → record c { trust_forwarded = false } ≡ c
      → ((a : Bool)
          → IsSetting (setting env (text "TRUST_FORWARDED")) (Means switches) false a
          → Goes rest (record c { trust_forwarded = a }))
      → Goes (with_var (setting env (text "TRUST_FORWARDED")) set_trust ∷ rest) c
  unfolding Goes
  trust-Ends c rest same next =
      set-Ends E (setting env (text "TRUST_FORWARDED")) set_trust c rest (Means switches) false
        (λ c b. record c { trust_forwarded = b }) same
        (λ value.
          word-Decided switches (λ c b. record c { trust_forwarded = b }) value c (switch value) _
            (switch-words value))
        (λ message bad x r. bad _ r.5) next

  secs-Ends :
      (c : Config) (rest : List Step)
      → record c { session_secs = 3600 } ≡ c
      → ((a : ℕ)
          → IsSetting
              (setting env (text "SESSION_SECS"))
              (λ value n. parse_u64 value ≡ some n)
              3600
              a
          → Goes rest (record c { session_secs = a }))
      → Goes (with_var (setting env (text "SESSION_SECS")) set_session_secs ∷ rest) c
  unfolding Goes
  secs-Ends c rest same next =
      set-Ends E (setting env (text "SESSION_SECS")) set_session_secs c rest
        (λ value n. parse_u64 value ≡ some n) 3600 (λ c n. record c { session_secs = n }) same
        (λ value.
          refuse-Decided (λ v n. parse_u64 v ≡ some n) (λ c n. record c { session_secs = n }) value
            c (parse_u64 value) _ (λ a h. h) (some-none (parse_u64 value)))
        (λ message bad x r. bad _ r.6) next

  check-Ends :
      (c : Config) (rest : List Step)
      → record c { update_check = true } ≡ c
      → ((a : Bool)
          → IsSetting (setting env (text "UPDATE_CHECK")) (Means switches) true a
          → Goes rest (record c { update_check = a }))
      → Goes (with_var (setting env (text "UPDATE_CHECK")) set_update_check ∷ rest) c
  unfolding Goes
  check-Ends c rest same next =
      set-Ends E (setting env (text "UPDATE_CHECK")) set_update_check c rest (Means switches) true
        (λ c b. record c { update_check = b }) same
        (λ value.
          word-Decided switches (λ c b. record c { update_check = b }) value c (switch value) _
            (switch-words value))
        (λ message bad x r. bad _ r.7) next

  accounts-Ends :
      (c : Config) (rest : List Step)
      → record c { max_accounts = 100 } ≡ c
      → ((a : ℕ)
          → IsSetting (setting env (text "MAX_ACCOUNTS")) IsNumber 100 a
          → Goes rest (record c { max_accounts = a }))
      → Goes (with_var (setting env (text "MAX_ACCOUNTS")) set_max_accounts ∷ rest) c
  unfolding Goes
  accounts-Ends c rest same next =
      set-Ends E (setting env (text "MAX_ACCOUNTS")) set_max_accounts c rest IsNumber 100
        (λ c n. record c { max_accounts = n }) same
        (λ value.
          IsNumber-Decided (λ c n. record c { max_accounts = n }) (text "UWUSYNC_MAX_ACCOUNTS")
            value c)
        (λ message bad x r. bad _ r.9) next

  records-Ends :
      (c : Config) (rest : List Step)
      → record c { quota = record c.quota { records = 100000 } } ≡ c
      → ((a : ℕ)
          → IsSetting (setting env (text "ACCOUNT_MAX_RECORDS")) IsNumber 100000 a
          → Goes rest (record c { quota = record c.quota { records = a } }))
      → Goes (with_var (setting env (text "ACCOUNT_MAX_RECORDS")) set_records ∷ rest) c
  unfolding Goes
  records-Ends c rest same next =
      set-Ends E (setting env (text "ACCOUNT_MAX_RECORDS")) set_records c rest IsNumber 100000
        (λ c n. record c { quota = record c.quota { records = n } }) same
        (λ value.
          IsNumber-Decided (λ c n. record c { quota = record c.quota { records = n } })
            (text "UWUSYNC_ACCOUNT_MAX_RECORDS") value c)
        (λ message bad x r. bad _ r.10) next

  bytes-Ends :
      (c : Config) (rest : List Step)
      → record c { quota = record c.quota { bytes = 268435456 } } ≡ c
      → ((a : ℕ)
          → IsSetting (setting env (text "ACCOUNT_MAX_MB")) IsMega 268435456 a
          → Goes rest (record c { quota = record c.quota { bytes = a } }))
      → Goes (with_var (setting env (text "ACCOUNT_MAX_MB")) set_bytes ∷ rest) c
  unfolding Goes
  bytes-Ends c rest same next =
      set-Ends E (setting env (text "ACCOUNT_MAX_MB")) set_bytes c rest IsMega 268435456
        (λ c n. record c { quota = record c.quota { bytes = n } }) same
        (λ value.
          IsMega-Decided (λ c n. record c { quota = record c.quota { bytes = n } })
            (text "UWUSYNC_ACCOUNT_MAX_MB") value _ c)
        (λ message bad x r. bad _ r.11) next

  server-Ends :
      (c : Config) (rest : List Step)
      → record c { quota = record c.quota { server_bytes = 2147483648 } } ≡ c
      → ((a : ℕ)
          → IsSetting (setting env (text "SERVER_MAX_MB")) IsMega 2147483648 a
          → Goes rest (record c { quota = record c.quota { server_bytes = a } }))
      → Goes (with_var (setting env (text "SERVER_MAX_MB")) set_server_bytes ∷ rest) c
  unfolding Goes
  server-Ends c rest same next =
      set-Ends E (setting env (text "SERVER_MAX_MB")) set_server_bytes c rest IsMega 2147483648
        (λ c n. record c { quota = record c.quota { server_bytes = n } }) same
        (λ value.
          IsMega-Decided (λ c n. record c { quota = record c.quota { server_bytes = n } })
            (text "UWUSYNC_SERVER_MAX_MB") value _ c)
        (λ message bad x r. bad _ r.12) next

  connections-Ends :
      (c : Config) (rest : List Step)
      → record c { max_connections = 512 } ≡ c
      → ((a : ℕ)
          → IsSetting
              (setting env (text "MAX_CONNECTIONS"))
              (λ value n. IsNumber value n × (0 < n))
              512
              a
          → Goes rest (record c { max_connections = a }))
      → Goes (with_var (setting env (text "MAX_CONNECTIONS")) set_max_connections ∷ rest) c
  unfolding Goes
  connections-Ends c rest same next =
      set-Ends E (setting env (text "MAX_CONNECTIONS")) set_max_connections c rest
        (λ value n. IsNumber value n × (0 < n)) 512 (λ c n. record c { max_connections = n }) same
        (λ value. connections-Decided value c) (λ message bad x r. bad _ r.13) next

  each-Ends :
      (c : Config) (rest : List Step)
      → record c { max_connections_per_address = 32 } ≡ c
      → ((a : ℕ)
          → IsSetting (setting env (text "MAX_CONNECTIONS_PER_IP")) IsNumber 32 a
          → Goes rest (record c { max_connections_per_address = a }))
      → Goes (with_var (setting env (text "MAX_CONNECTIONS_PER_IP")) set_per_address ∷ rest) c
  unfolding Goes
  each-Ends c rest same next =
      set-Ends E (setting env (text "MAX_CONNECTIONS_PER_IP")) set_per_address c rest IsNumber 32
        (λ c n. record c { max_connections_per_address = n }) same
        (λ value. per_address-Decided value c) (λ message bad x r. bad _ r.14) next

  always-Ends :
      (put : Config → Config) (c : Config) (rest : List Step)
      → Goes rest (put c)
      → Goes ((λ x. inr (put x)) ∷ rest) c
  unfolding run_steps Goes
  always-Ends put c rest next = next

  end-Ends : (c : Config) → Agrees parse_address env (inr c) → Goes [] c
  unfolding run_steps Goes
  end-Ends c h = h

  steps-Ends : Goes (steps parse_address env) default
  unfolding var legacy_name strip_prefix
  steps-Ends = dir-Ends _ _ refl (λ dir is_dir. listen-Ends _ _ refl (λ listen is_listen.
      always-Ends (λ c. record c { public_address = setting env (text "PUBLIC") }) _ _
        (registration-Ends _ _ refl (λ registration is_registration.
          tls-Ends _ _ refl (λ tls is_tls. trust-Ends _ _ refl (λ trust is_trust.
            secs-Ends _ _ refl (λ secs is_secs. check-Ends _ _ refl (λ check is_check.
              always-Ends (λ c. record c { channel = setting env (text "CHANNEL") }) _ _
                (accounts-Ends _ _ refl (λ accounts is_accounts.
                  records-Ends _ _ refl (λ records is_records.
                    bytes-Ends _ _ refl (λ bytes is_bytes. server-Ends _ _ refl (λ server is_server.
                      connections-Ends _ _ refl (λ connections is_connections.
                        each-Ends _ _ refl (λ each is_each.
                          (end-Ends _ (
                            (
                              is_dir, is_listen, refl, is_registration, is_tls, is_trust, is_secs,
                              is_check, refl, is_accounts, is_records, is_bytes, is_server,
                              is_connections, is_each,
                            ),
                            refl,
                            refl,
                          )))))))))))))))))

  -- A configuration that is read is, setting by setting, what the environment says under the name
  -- of the setting or the name it had before, and the default where it says nothing: words in any
  -- case, numbers of 64 bits, sizes times 1024 * 1024 that fit 64 bits, and more than no
  -- connections; the floor of the key derivation is the fixed one. The environment is refused only
  -- where no configuration is what it says.
  pub from_env-Agrees : Agrees parse_address env (from_env parse_address env)
  unfolding from_env Goes
  from_env-Agrees = steps-Ends
