-- ===== src/Service/Pushed.antt =====
-- src/api/records.rs: a push gives back the place it takes.
use uw_ussh_server.Prelude.{
  ℕ, ◌≡◌, refl, ◌∙◌, String, arith, nat_eq, pair_eq, string_eq, pair_beq_iff, is_empty, Bool-cases,
  inl, inr,
}
use uw_ussh_server.Error.{Result, ok, err}
use uw_ussh_server.Config.{Config}
use uw_ussh_server.Db.Records.{Proto, Account, PushResponse}
use uw_ussh_server.Limits.{AtOnce, Going}
use uw_ussh_server.Limits as Limits
use uw_ussh_server.Limits.Concurrent.{going, Started, start-Started, finish-going}
use uw_ussh_server.Service.{
  Server, Crates, Caller, Clock, Action, ◌>>=◌, authenticated, check_account, check_member, start,
  finish,
}
use uw_ussh_server.Service.Proofs.{Keeps, bind-Keeps}
use uw_ussh_server.Service.Mail.{PushRequest, push, take_in, push_within, tell, announce, finally}

-- What every account has going, of every kind.
abbrev HasGoing : (ℕ × String → ℕ) → Server → Type 0
HasGoing n t = (key : ℕ × String) → going key t.going ≡ n key

-- An action between taking a place and giving it back, that does not touch the places itself.
guarded-HasGoing :
    {A : Type 0} (n : ℕ × String → ℕ) (account : ℕ) (kind : AtOnce) (m : Action A)
    → ((g : Going) → Keeps (λ t. t.going ≡ g) m)
    → Keeps (HasGoing n) (start account kind >>= λ place. finally (finish place) m)
unfolding ◌>>=◌ start finally finish
guarded-HasGoing {A = A} n account kind m leaves s had key =
    by_answer (Limits.start account kind s.going) (start-Started account kind s.going key)
  where
    by_answer :
        (r : Result (ℕ × String) × Going)
        → Started (account, kind.name) kind s.going key r
        → going key
            (elim r.0 as (λ a. Result A × Server) [
              | err e ↦ (err e, record s { going = r.1 })
              | ok place ↦ finally (finish place) m (record s { going = r.1 })
            ]).1.going
          ≡ n key
    by_answer (err e, g) started = started.2 ∙ had key
    by_answer (ok place, g) started =
        let kept : (m (record s { going = g })).1.going ≡ g =
          leaves g (record s { going = g }) refl in
        rw kept (
          ground (
            arith,
            started.0,
            started.2,
            had key,
            finish-going place key g,
            pair_beq_iff place key,
            pair_beq_iff (account, kind.name) key,
          ))

module _ {Kind : Type 0} (proto : Proto Kind) (crates : Crates) (config : Config) where
  take_in-going :
      (now : ℕ) (account : Account) (device : ℕ) (body : Result (PushRequest Kind)) (g : Going)
      → Keeps (λ t. t.going ≡ g) (take_in proto crates config now account device body)
  unfolding take_in push_within tell announce
  take_in-going now account device body g =
      let I : Server → Type 0 = λ t. t.going ≡ g in
      bind-Keeps I _ _ (λ s k. k)
        (λ request.
          bind-Keeps I _ _ (λ s k. k)
            (λ _.
              bind-Keeps I _ _ (λ s k. k)
                (λ response. bind-Keeps I _ _ (told response) (λ _ s k. k))))
    where
      told :
          (response : PushResponse Kind)
          → Keeps (λ t. t.going ≡ g) (tell proto crates account.id response)
      told response = elim (Bool-cases (is_empty response.accepted)) [
        | inl nothing ↦ λ s k. rw nothing k
        | inr news ↦ λ s k. rw news k
      ]

  -- However a push ends, every account has as many requests of each kind going as before.
  pub push-going :
      (clock : Clock) (caller : Caller) (body : Result (PushRequest Kind)) (s : Server)
      (key : ℕ × String)
      → going key (push proto crates config clock caller body s).1.going ≡ going key s.going
  unfolding push authenticated check_account check_member
  push-going clock caller body s key =
      let I : Server → Type 0 = HasGoing (λ k. going k s.going) in
      bind-Keeps I _ _ (λ t k. k)
        (λ auth.
          bind-Keeps I _ _ (λ t k. k)
            (λ _.
              guarded-HasGoing (λ k. going k s.going) auth.account.id Limits.pushes
                (take_in proto crates config (clock.ms 1) auth.account auth.device.id body)
                (take_in-going (clock.ms 1) auth.account auth.device.id body)))
        s (λ k. refl) key
