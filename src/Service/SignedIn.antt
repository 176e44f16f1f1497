-- ===== src/Service/SignedIn.antt =====
-- src/api/session.rs: who is given a token.
use uw_ussh_server.Prelude.{
  ℕ, ◌*◌, ◌≡◌, refl, inl, inr, Bool, true, false, not, List, [], ◌∷◌, Option, none, some, String,
  arith, if◌then◌else◌, ltb, find, Bool-cases,
}
use uw_ussh_server.Error.{Result, ok, ApiError, unauthorized}
use uw_ussh_server.Config.{Config}
use uw_ussh_server.Db.Devices.{Device}
use uw_ussh_server.Db.Devices as Devices
use uw_ussh_server.Limits as Limits
use uw_ussh_server.Auth.{Session, get_session}
use uw_ussh_server.Auth as Auth
use uw_ussh_server.Auth.Challenges.{spend-once}
use uw_ussh_server.Auth.Sessions.{issue_token-get_session}
use uw_ussh_server.Service.{
  Server, Crates, Caller, Clock, Action, ◌>>=◌, forgive, issue_token, raise_if,
}
use uw_ussh_server.Service.Proofs.{
  Ends, or_raise-Ends, of_result-Ends, gets-Ends, imp-Ends, check-Ends,
}
use uw_ussh_server.Service.SignIn.{
  LoginRequest, LoginResponse, still_in, spend_answered, spend_found, seen, is_answer, answer,
  login_as, login,
}

find-holds : {A : Type 0} (p : A → Bool) (xs : List A) (a : A) → find p xs ≡ some a → p a ≡ true
unfolding find
find-holds p [] a h = absurd (ground (arith, h))
find-holds p (x ∷ xs) a h = elim (Bool-cases (p x)) [
  | inl found ↦ ground (arith, h, found)
  | inr other ↦ find-holds p xs a (ground (arith, h, other))
]

still_in-live :
    (o : Option Device) (d : Device) → still_in o ≡ some d → (o ≡ some d) × (d.revoked ≡ false)
still_in-live none d h = absurd (ground (arith, h))
still_in-live (some e) d h = ground (arith, h)

module _ (crates : Crates) (config : Config) where
  -- What is answered is spent, or nobody signs in.
  answer-Ends :
      {B : Type 0} (R : B → Server → Type 0) (E : ApiError → Server → Type 0) (now : ℕ) (d : Device)
      (signature : List ℕ) (f : Unit {0} → Action B) (s : Server)
      → ((challenges : Auth.Outstanding) → E unauthorized (record s { challenges = challenges }))
      → ((c : List ℕ)
          → find (is_answer crates config d signature) (Auth.outstanding now d.id s.challenges)
            ≡ some c
          → Ends R E (f tt (record s { challenges = (Auth.spend d.id c s.challenges).1 })))
      → Ends R E ((answer crates config now d signature >>= f) s)
  unfolding answer spend_found spend_answered ◌>>=◌
  answer-Ends R E now d signature f s fails next =
      by_found (find (is_answer crates config d signature) (Auth.outstanding now d.id s.challenges))
        (λ c found. next c found)
    where
      by_found :
          (o : Option (List ℕ))
          → ((c : List ℕ)
              → o ≡ some c
              → Ends R E (f tt (record s { challenges = (Auth.spend d.id c s.challenges).1 })))
          → Ends R E ((spend_found d.id o >>= f) s)
      by_found none go = fails s.challenges
      by_found (some c) go = by_spent (Auth.spend d.id c s.challenges) (go c refl)
        where
          by_spent :
              (r : Bool × Auth.Outstanding)
              → Ends R E (f tt (record s { challenges = r.1 }))
              → Ends R E (
                  (((λ t. (ok r.0, record s { challenges = r.1 })) >>= λ spent.
                  raise_if (not spent) unauthorized)
                      >>= f)
                    s)
          by_spent (true, challenges) next = next
          by_spent (false, challenges) next = fails challenges

  -- The device is there and not shut out, the signature is of a challenge it was given and that has not
  -- run out, the challenge was there to be spent and is spent, and the token opens a session.
  abbrev pub IsSignedIn : Clock → LoginRequest → Server → LoginResponse → Server → Type 0
  IsSignedIn clock request s response t =
      (d : Device) × (signature : List ℕ) × (c : List ℕ) × (Devices.get request.device_id
          s.db.devices
        ≡ some d)
      × (d.revoked ≡ false)
      × (crates.decode request.signature ≡ some signature)
      × (find (is_answer crates config d signature)
            (Auth.outstanding (clock.ms 0) d.id s.challenges)
          ≡ some c)
      × (is_answer crates config d signature c ≡ true)
      × ((Auth.spend d.id c t.challenges).0 ≡ false)
      × (response.account_id ≡ d.account_id)
      × ((later : ℕ)
          → get_session later response.token t.tokens ≡ (
              if ltb later response.expires_ms
              then some (record {
                account_id = d.account_id;
                device_id = d.id;
                expires_ms = response.expires_ms;
              })
              else none))

  login_as-IsSignedIn :
      (clock : Clock) (token : String) (caller : Caller) (request : LoginRequest) (s : Server)
      (hits : Limits.Hits) (d : Device) (signature c : List ℕ)
      → (Devices.get request.device_id s.db.devices ≡ some d) × (d.revoked ≡ false)
      → crates.decode request.signature ≡ some signature
      → find (is_answer crates config d signature) (Auth.outstanding (clock.ms 0) d.id s.challenges)
        ≡ some c
      → Ends
          (IsSignedIn clock request s)
          (λ e t. (t.db ≡ s.db) × (t.tokens ≡ s.tokens))
          (login_as crates config clock token caller d
            (record s { hits = hits; challenges = (Auth.spend d.id c s.challenges).1 }))
  unfolding login_as seen forgive issue_token ◌>>=◌ Auth.issue_token
  login_as-IsSignedIn clock token caller request s hits d signature c there decoded found = (
    d,
    signature,
    c,
    there.0,
    there.1,
    decoded,
    found,
    find-holds (is_answer crates config d signature)
        (Auth.outstanding (clock.ms 0) d.id s.challenges) c found,
    spend-once d.id c s.challenges,
    refl,
    λ later.
        issue_token-get_session (clock.ms 1) later token d.account_id d.id
          (config.session_secs * 1000) s.tokens,
  )

  -- A token is given only to a device that is there and was not shut out, for a signature of a
  -- challenge that it was given and that had not run out; that challenge is spent then, and the
  -- token opens a session of the device and its account until it runs out. Where it fails, the
  -- database and the tokens are as they were.
  pub login-IsSignedIn :
      (clock : Clock) (token : String) (caller : Caller) (body : Result LoginRequest) (s : Server)
      → Ends
          (λ response t.
            (request : LoginRequest) × (body ≡ ok request) × IsSignedIn clock request s response t)
          (λ e t. (t.db ≡ s.db) × (t.tokens ≡ s.tokens))
          (login crates config clock token caller body s)
  unfolding login
  login-IsSignedIn clock token caller body s =
      check-Ends _ _ _ _ _ _ s (λ e hits. (refl, refl))
        (λ hits.
          of_result-Ends _ _ body _ _ (λ e. (refl, refl))
            (λ r given.
              check-Ends _ _ _ _ _ _ _ (λ e hits. (refl, refl))
                (λ hits.
                  or_raise-Ends _ _ (crates.decode r.signature) unauthorized _ _ (refl, refl)
                    (λ signature decoded. gets-Ends _ _ _ _ _ (
                      or_raise-Ends _ _ (still_in (Devices.get r.device_id s.db.devices))
                        unauthorized _ _ (refl, refl)
                        (λ d there.
                          answer-Ends _ _ (clock.ms 0) d signature _ _ (λ challenges. (refl, refl))
                            (λ c found.
                              imp-Ends _ _ _ _
                                (login_as crates config clock token caller d (record s {
                                  hits = hits;
                                  challenges = (Auth.spend d.id c s.challenges).1;
                                }))
                                (λ response t q. (r, given, q)) (λ e t q. q)
                                (login_as-IsSignedIn clock token caller r s hits d signature c
                                  (still_in-live (Devices.get r.device_id s.db.devices) d there)
                                  decoded found))))))))
