-- ===== src/Service/Taken.antt =====
-- src/api/records.rs: what a push does to the records, from the request to its answer.
use uw_ussh_server.Prelude.{
  ℕ, ◌≡◌, refl, sym, ◌∙◌, subst, String, List, arith, nat_eq, nat_beq_iff, is_empty, some,
  Bool-cases, inl, inr,
}
use uw_ussh_server.Error.{Result, ok, err, ApiError}
use uw_ussh_server.Config.{Config}
use uw_ussh_server.Db.Tables.{Db}
use uw_ussh_server.Db.Records.{Proto, Account, Envelope, Quota, PushResponse, kind_from, kind_name}
use uw_ussh_server.Db.Records as Records
use uw_ussh_server.Db.Records.Cases.{push_within_cases}
use uw_ussh_server.Db.Records.Mailbox.{mailbox, offer_all, push_within_refines}
use uw_ussh_server.Db.Records.Answers.{replies, push_within-replies}
use uw_ussh_server.Auth.Access.{Authenticated, authenticate}
use uw_ussh_server.Limits as Limits
use uw_ussh_server.Service.{
  Server, Crates, Caller, Clock, Action, check_account, check_member, start, finish,
}
use uw_ussh_server.Service.Proofs.{
  Ends, bind-Ends, Ends-Keeps, of_result-Ends, raise_if-Ends, authenticated-Ends, imp-Ends,
}
use uw_ussh_server.Service.Mail.{PushRequest, push, take_in, push_within, tell, announce, finally}

finally-Ends :
    {A : Type 0} (R : A → Server → Type 0) (E : ApiError → Server → Type 0)
    (end : Action (Unit {0})) (m : Action A) (s : Server)
    → ((a : A) (t : Server) → R a t → R a (end t).1)
    → ((e : ApiError) (t : Server) → E e t → E e (end t).1)
    → Ends R E (m s)
    → Ends R E (finally end m s)
unfolding finally
finally-Ends {A = A} R E end m s good bad h = by_answer (m s) h
  where
    by_answer : (r : Result A × Server) → Ends R E r → Ends R E (r.0, (end r.1).1)
    by_answer (ok a, t) k = good a t k
    by_answer (err e, t) k = bad e t k

module _ {Kind : Type 0} (proto : Proto Kind) (crates : Crates) (config : Config) where
  -- A push that was taken in, for an account, of the envelopes of a request.
  abbrev IsOffered : Account → List (Envelope Kind) → Db → PushResponse Kind → Db → Type 0
  IsOffered account envelopes db response db' =
      (mailbox proto account db' ≡ offer_all account envelopes (mailbox proto account db))
      × (response ≡ replies account envelopes (mailbox proto account db))

  -- Who it was, what was sent, and what became of it.
  abbrev pub IsTaken :
      Clock → Caller → Result (PushRequest Kind) → Server → PushResponse Kind → Server → Type 0
  IsTaken clock caller body s response t =
      (auth : Authenticated) × (request : PushRequest Kind) × ((authenticate (clock.ms 0)
          caller.bearer s.tokens s.db).0
        ≡ ok auth)
      × (body ≡ ok request)
      × (request.schema ≡ proto.schema_version)
      × (mailbox proto auth.account t.db
          ≡ offer_all auth.account request.envelopes (mailbox proto auth.account s.db))
      × (response ≡ replies auth.account request.envelopes (mailbox proto auth.account s.db))

  module _ (lawful : (k : Kind) → kind_from proto (kind_name proto k) ≡ some k) where
    push_within-Ends :
        (now : ℕ) (account : Account) (device : ℕ) (envelopes : List (Envelope Kind))
        (quota : Quota) (s : Server)
        → Ends
            (λ response t. IsOffered account envelopes s.db response t.db)
            (λ e t. t.db ≡ s.db)
            (push_within proto crates now account device envelopes quota s)
    unfolding push_within
    push_within-Ends now account device envelopes quota s =
        by_answer (Records.push_within proto account device now envelopes quota s.db) refl
      where
        unchanged :
            (e : ApiError) (db : Db)
            → Records.push_within proto account device now envelopes quota s.db ≡ (err e, db)
            → db ≡ s.db
        unchanged e db =
            push_within_cases proto account device now envelopes quota s.db
              (λ x. x ≡ (err e, db) → db ≡ s.db) (λ _ k. cc) (λ _ _ k. cc)

        by_answer :
            (r : Result (PushResponse Kind) × Db)
            → Records.push_within proto account device now envelopes quota s.db ≡ r
            → Ends
                (λ response t. IsOffered account envelopes s.db response t.db)
                (λ e t. t.db ≡ s.db)
                (r.0, record s { db = r.1 })
        by_answer (ok response, db) k = (
          push_within_refines proto account lawful device now envelopes quota s.db db response k,
          push_within-replies proto account lawful device now envelopes quota s.db db response k,
        )
        by_answer (err e, db) k = unchanged e db k

    -- The news is passed on, whatever there is, and the records stay.
    tell-Ends :
        (E : ApiError → Server → Type 0) (account : ℕ) (response : PushResponse Kind) (s : Server)
        → Ends (λ _ t. t.db ≡ s.db) E (tell proto crates account response s)
    unfolding tell announce
    tell-Ends E account response s = elim (Bool-cases (is_empty response.accepted)) [
      | inl nothing ↦ rw nothing refl
      | inr news ↦ rw news refl
    ]

    take_in-Ends :
        (now : ℕ) (account : Account) (device : ℕ) (body : Result (PushRequest Kind)) (s : Server)
        → Ends
            (λ response t.
              (request : PushRequest Kind) × (body ≡ ok request)
              × (request.schema ≡ proto.schema_version)
              × IsOffered account request.envelopes s.db response t.db)
            (λ e t. t.db ≡ s.db)
            (take_in proto crates config now account device body s)
    unfolding take_in
    take_in-Ends now account device body s =
        of_result-Ends _ _ body _ s (λ e. refl)
          (λ request sent. raise_if-Ends _ _ _ _ _ s refl (λ same.
            bind-Ends (λ response t. IsOffered account request.envelopes s.db response t.db) _ _ _ _
              s (push_within-Ends now account device request.envelopes config.quota s)
              (λ response t offered.
                bind-Ends (λ _ u. u.db ≡ t.db) _ _ _ _ t (tell-Ends _ account.id response t)
                  (λ _ u kept. (
                    request,
                    sent,
                    (nat_beq_iff request.schema proto.schema_version).0 (ground (arith, same)),
                    subst (λ db. IsOffered account request.envelopes s.db response db) (sym kept)
                        offered,
                  )))))

    run_in :
        (clock : Clock) (caller : Caller) (body : Result (PushRequest Kind)) (s : Server)
        (auth : Authenticated)
        → (authenticate (clock.ms 0) caller.bearer s.tokens s.db).0 ≡ ok auth
        → (place : ℕ × String) (u : Server) → u.db ≡ s.db
        → Ends
            (IsTaken clock caller body s)
            (λ e t. t.db ≡ s.db)
            (finally
              (finish place)
              (take_in proto crates config (clock.ms 1) auth.account auth.device.id body)
              u)
    unfolding finish
    run_in clock caller body s auth let_in place u same =
        finally-Ends (IsTaken clock caller body s) (λ e t. t.db ≡ s.db) (finish place)
          (take_in proto crates config (clock.ms 1) auth.account auth.device.id body) u
          (λ response t taken. taken) (λ e t kept. kept)
          (imp-Ends _ _ _ _
            (take_in proto crates config (clock.ms 1) auth.account auth.device.id body u)
            (λ response t (request, sent, version, offered).
              let there : IsOffered auth.account request.envelopes s.db response t.db =
                subst (λ db. IsOffered auth.account request.envelopes db response t.db) same
                  offered in
              (auth, request, let_in, sent, version, there.0, there.1))
            (λ e t kept. kept ∙ same)
            (take_in-Ends (clock.ms 1) auth.account auth.device.id body u))

    -- Where the protocol reads each kind back from its own name: a request that pushes is answered
    -- with success only where it comes with a token that is let in, for an account, and a body of
    -- the schema of the server; then the abstract mailbox of that account was offered the
    -- envelopes of the body one by one, and the answer is what it replies. Where it fails, the
    -- database is as it was.
    pub push-Taken :
        (clock : Clock) (caller : Caller) (body : Result (PushRequest Kind)) (s : Server)
        → Ends
            (IsTaken clock caller body s)
            (λ e t. t.db ≡ s.db)
            (push proto crates config clock caller body s)
    unfolding push
    push-Taken clock caller body s =
        authenticated-Ends _ _ (clock.ms 0) caller.bearer _ s (λ e t same. same)
          (λ auth let_in.
            bind-Ends (λ _ t. t.db ≡ s.db) _ _ _ _ s
              (Ends-Keeps (λ t. t.db ≡ s.db)
                (check_account crates (clock.instant 0) auth.account.id Limits.push) s
                (counted auth))
              (λ _ t kept.
                bind-Ends (λ _ u. u.db ≡ s.db) _ _ _ _ t
                  (Ends-Keeps (λ u. u.db ≡ s.db) (start auth.account.id Limits.pushes) t
                    (started auth t kept))
                  (λ place u same. run_in clock caller body s auth let_in place u same)))
      where
        counted :
            (auth : Authenticated)
            → (check_account crates (clock.instant 0) auth.account.id Limits.push s).1.db ≡ s.db
        counted auth = unfold check_account in unfold check_member in refl

        started :
            (auth : Authenticated) (t : Server)
            → t.db ≡ s.db
            → (start auth.account.id Limits.pushes t).1.db ≡ s.db
        started auth t kept = unfold start in kept
