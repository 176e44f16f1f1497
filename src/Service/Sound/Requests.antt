-- ===== src/Service/Sound/Requests.antt =====
-- src/api: records, pairings and event streams keep a sound server sound, and so does every request.
use uw_ussh_server.Prelude.{
  ℕ, inl, inr, ◌&&◌, List, none, some, String, Bool-cases, nat_eq, is_empty,
}
use uw_ussh_server.Prelude.Text.{Text}
use uw_ussh_server.Error.{Result}
use uw_ussh_server.Config.{Config}
use uw_ussh_server.Db.Records.{Proto, Account, PushResponse}
use uw_ussh_server.Limits as Limits
use uw_ussh_server.Pairing.{Pairings, Side, a, b}
use uw_ussh_server.Pairing as Pairing
use uw_ussh_server.Pairing.Requests.{
  serve-IsBounded, opens, admits, posts, reads, waits, asks_account, closes,
}
use uw_ussh_server.Service.{Server, Crates, Caller, Clock, Action, start, finish}
use uw_ussh_server.Service.Proofs.{Keeps, bind-Keeps}
use uw_ussh_server.Service.Sound.{
  IsSound, check-Keeps, authenticated-Keeps, relay-Keeps, push_within-Keeps,
}
use uw_ussh_server.Service.Sound.Handlers.{check_account-Keeps}
use uw_ussh_server.Service.SignIn.{seen}
use uw_ussh_server.Service.Mail.{
  PullQuery, PushRequest, pull, push, read_page, take_in, tell, announce, finally, events,
  open_stream, subscribe,
}
use uw_ussh_server.Service.Pair.{
  ReadQuery, open_pairing, open_session, admit, post, close, read, relay, look_again,
}

finally-Keeps :
    {A : Type 0} (I : Server → Type 0) (end : Action (Unit {0})) (m : Action A)
    → Keeps I end
    → Keeps I m
    → Keeps I (finally end m)
unfolding finally
finally-Keeps I end m ends keep s h = ends (m s).1 (keep s h)

module _ (crates : Crates) (config : Config) where
  abbrev I : Server → Type 0
  I = IsSound config

  pub start-Keeps : (account : ℕ) (kind : Limits.AtOnce) → Keeps I (start account kind)
  unfolding IsSound start
  start-Keeps account kind s k = k

  module _ {Kind : Type 0} (proto : Proto Kind) where
    pub pull-Keeps :
        (clock : Clock) (caller : Caller) (query : PullQuery)
        → Keeps I (pull proto crates clock caller query)
    unfolding IsSound pull read_page seen
    pull-Keeps clock caller query = bind-Keeps I _ _ (authenticated-Keeps config _ _) (λ auth.
        bind-Keeps I _ _ (check_account-Keeps crates config _ _ _) (λ _.
          bind-Keeps I _ _ (start-Keeps _ _) (λ place.
            bind-Keeps I _ _
              (bind-Keeps I _ _ (λ s k. k) (λ page. bind-Keeps I _ _ (λ s k. k) (λ _ s k. k)))
              (λ page s k. k))))

    pub tell-Keeps :
        (account : ℕ) (response : PushResponse Kind) → Keeps I (tell proto crates account response)
    unfolding IsSound tell announce
    tell-Keeps account response = elim (Bool-cases (is_empty response.accepted)) [
      | inl nothing ↦ λ s k. rw nothing k
      | inr news ↦ λ s k. rw news k
    ]

    pub take_in-Keeps :
        (now : ℕ) (account : Account) (device : ℕ) (body : Result (PushRequest Kind))
        → Keeps I (take_in proto crates config now account device body)
    unfolding take_in
    take_in-Keeps now account device body =
        bind-Keeps I _ _ (λ s k. k)
          (λ request.
            bind-Keeps I _ _ (λ s k. k)
              (λ _.
                bind-Keeps I _ _
                  (push_within-Keeps config proto crates now account device request.envelopes
                    config.quota)
                  (λ response. bind-Keeps I _ _ (tell-Keeps account.id response) (λ _ s k. k))))

    pub finish-Keeps : (place : ℕ × String) → Keeps I (finish place)
    unfolding finish IsSound
    finish-Keeps place s k = k

    pub push-Keeps :
        (clock : Clock) (caller : Caller) (body : Result (PushRequest Kind))
        → Keeps I (push proto crates config clock caller body)
    unfolding push
    push-Keeps clock caller body = bind-Keeps I _ _ (authenticated-Keeps config _ _) (λ auth.
        bind-Keeps I _ _ (check_account-Keeps crates config _ _ _) (λ _.
          bind-Keeps I _ _ (start-Keeps _ _) (λ place.
            finally-Keeps I (finish place)
              (take_in proto crates config (clock.ms 1) auth.account auth.device.id body)
              (finish-Keeps place) (take_in-Keeps (clock.ms 1) auth.account auth.device.id body))))

  pub events-Keeps : (clock : Clock) (caller : Caller) → Keeps I (events clock caller)
  unfolding IsSound events open_stream subscribe
  events-Keeps clock caller = bind-Keeps I _ _ (authenticated-Keeps config _ _) (λ auth.
      bind-Keeps I _ _ (λ s k. k)
        (λ place. bind-Keeps I _ _ (λ s k. k) (λ device. bind-Keeps I _ _ (λ s k. k) (λ _ s k. k))))

  pub open_pairing-Keeps :
      (clock : Clock) (draws : List (List ℕ)) (caller : Caller)
      → Keeps I (open_pairing crates clock draws caller)
  unfolding IsSound open_pairing open_session Pairing.Requests.serve
  open_pairing-Keeps clock draws caller = bind-Keeps I _ _ (authenticated-Keeps config _ _) (λ auth.
      bind-Keeps I _ _ (check_account-Keeps crates config _ _ _) (λ _.
        bind-Keeps I _ _
          (λ s h. (
            h.0,
            h.1,
            h.2,
            h.3,
            h.4,
            serve-IsBounded crates.sha256 (clock.ms 1) (opens draws auth.account.id auth.device.id)
                s.pairings h.5,
          ))
          (λ id s k. k)))

  pub admit-Keeps :
      (clock : Clock) (caller : Caller) (id : Text) (side : Side)
      → Keeps I (admit crates clock caller id side)
  unfolding admit Pairing.Requests.serve
  admit-Keeps clock caller id a = bind-Keeps I _ _ (authenticated-Keeps config _ _) (λ auth.
      relay-Keeps config (Pairing.admit crates.sha256 (clock.ms 1) id a (some auth.device.id) none)
        (serve-IsBounded crates.sha256 (clock.ms 1) (admits id a (some auth.device.id) none)))
  admit-Keeps clock caller id b =
      relay-Keeps config (Pairing.admit crates.sha256 (clock.ms 1) id b none caller.claim)
        (serve-IsBounded crates.sha256 (clock.ms 1) (admits id b none caller.claim))

  pub post-Keeps :
      (clock : Clock) (caller : Caller) (id : Text) (body : Result (String × Text))
      → Keeps I (post crates config clock caller id body)
  unfolding post Pairing.Requests.serve
  post-Keeps clock caller id body = bind-Keeps I _ _ (check-Keeps config _ _ _) (λ _.
      bind-Keeps I _ _ (λ s k. k)
        (λ request.
          bind-Keeps I _ _ (λ s k. k)
            (λ side. bind-Keeps I _ _ (admit-Keeps clock caller id side) (λ _.
              bind-Keeps I _ _ (λ s k. k)
                (λ message.
                  relay-Keeps config (Pairing.post (clock.ms 2) id side message)
                    (serve-IsBounded crates.sha256 (clock.ms 2) (posts id side message)))))))

  pub close-Keeps : (clock : Clock) (caller : Caller) (id : Text) → Keeps I (close clock caller id)
  unfolding IsSound close Pairing.Requests.serve
  close-Keeps clock caller id = bind-Keeps I _ _ (authenticated-Keeps config _ _) (λ auth.
      bind-Keeps I _ _
        (relay-Keeps config (Pairing.account_of (clock.ms 1) id)
          (serve-IsBounded crates.sha256 (clock.ms 1) (asks_account id)))
        (λ account.
          bind-Keeps I _ _ (λ s k. k)
            (λ _ s h. (
              h.0,
              h.1,
              h.2,
              h.3,
              h.4,
              serve-IsBounded crates.sha256 0 (closes id) s.pairings h.5,
            ))))

  pub look-Keeps :
      (now : ℕ) (id : Text) (side : Side) (after : ℕ)
      → Keeps I (relay (Pairing.read now id side after))
  unfolding Pairing.Requests.serve
  look-Keeps now id side after =
      relay-Keeps config (Pairing.read now id side after)
        (serve-IsBounded crates.sha256 now (reads id side after))

  -- Whatever others do meanwhile, as long as they keep it sound.
  pub read-Keeps :
      (clock : Clock) (meanwhile : Server → Server) (caller : Caller) (id : Text)
      (query : ReadQuery)
      → ((s : Server) → I s → I (meanwhile s))
      → Keeps I (read crates config clock meanwhile caller id query)
  unfolding read look_again Pairing.Requests.serve
  read-Keeps clock meanwhile caller id query others =
      bind-Keeps I _ _ (check-Keeps config _ _ _) (λ _.
        bind-Keeps I _ _ (λ s k. k)
          (λ side. bind-Keeps I _ _ (admit-Keeps clock caller id side) (λ _.
            bind-Keeps I _ _
              (relay-Keeps config (Pairing.waiter (clock.ms 2) id)
                (serve-IsBounded crates.sha256 (clock.ms 2) (waits id)))
              (λ _.
                bind-Keeps I _ _ (look-Keeps _ id side _)
                  (λ first. bind-Keeps I _ _ (again side first) (λ messages s k. k))))))
    where
      again :
          (side : Side) (first : List (List ℕ))
          → Keeps I (look_again crates meanwhile (clock.ms 4) id side query first)
      again side first = elim (Bool-cases (is_empty first && query.wait)) [
        | inl waits_ ↦ rw waits_ (bind-Keeps I _ _ others (λ _. look-Keeps _ id side _))
        | inr done ↦ λ s k. rw done k
      ]
