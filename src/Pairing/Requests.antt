-- ===== src/Pairing/Requests.antt =====
-- src/pairing.rs: the relay after any requests, in any order.
use uw_ussh_server.Prelude.{
  ℕ, ◌≡◌, inl, inr, not, List, [], ◌∷◌, Option, none, some, arith, nat_eq, leb, ltb, length,
  length-append, retain, Bool-cases, Option-cases, refl, is_empty, drop,
}
use uw_ussh_server.Prelude.HashMap.{lookup, lookup-All}
use uw_ussh_server.Prelude.Text.{text_eq}
use uw_ussh_server.Error.{Result, ok}
use uw_ussh_server.Pairing.{
  Side, Session, Pairings, open_at_most, open_per_account, max_message_bytes, is_live, pick,
  open_as, open_session, live, with_live, hold, claim_side, usable_claim, admit_live, admit,
  post_live, post, read, waiter, account_of, close, is_opened_by, close_opened_by, slot, other,
  new_session,
}
use uw_ussh_server.Pairing.Bounds.{
  IsShort, IsBounded, per_account, retain-IsBounded, remove-IsBounded, insert-IsBounded,
  insert_new-IsBounded,
}

-- What the operations on a session leave of it: its account, and no side too long.
abbrev Keeps {ℓ} : {A : Type ℓ} → List ℕ → (Session → Result A × Session) → Type 0
Keeps id f = (s : Session) → IsShort (id, s) → ((f s).1.account ≡ s.account) × IsShort (id, (f s).1)

with_live-IsBounded {ℓ} :
    {A : Type ℓ} (f : Session → Result A × Session) (now : ℕ) (id : List ℕ) (inner : Pairings)
    → Keeps id f
    → IsBounded inner
    → IsBounded (with_live f id (live now id inner)).1
unfolding live
with_live-IsBounded f now id inner keeps h = elim (Option-cases (lookup id inner)) [
  | inl missing ↦ rw (missing, with_live, live) h
  | inr (s, held) ↦
      rw (held, with_live, live)
        (elim (Bool-cases (ltb now s.expires_ms)) [
          | inl good ↦
              rw (good, with_live)
                (let k = keeps s (lookup-All IsShort id inner h.short held) in
                  insert-IsBounded id s (f s).1 inner h held k.0 k.1)
          | inr over ↦ rw (over, with_live) (remove-IsBounded id inner h)
        ])
]

hold-Keeps :
    (sha256 : List ℕ → List ℕ) (id hash : List ℕ) (claim : Option (List ℕ))
    → Keeps id (hold sha256 hash claim)
hold-Keeps sha256 id hash none s h = (refl, h)
hold-Keeps sha256 id hash (some held) s h = (refl, h)

claim_side-Keeps :
    (sha256 : List ℕ → List ℕ) (id : List ℕ) (claim : Option (List ℕ))
    → Keeps id (claim_side sha256 claim)
claim_side-Keeps sha256 id none s h = (refl, h)
claim_side-Keeps sha256 id (some claim) s h = hold-Keeps sha256 id _ s.claim s h

admit_live-Keeps :
    (sha256 : List ℕ → List ℕ) (id : List ℕ) (side : Side) (device : Option ℕ)
    (claim : Option (List ℕ))
    → Keeps id (admit_live sha256 side device claim)
admit_live-Keeps sha256 id Side.a none claim s h = (refl, h)
admit_live-Keeps sha256 id Side.a (some device) claim s h = (refl, h)
admit_live-Keeps sha256 id Side.b device claim s h =
    claim_side-Keeps sha256 id (usable_claim claim) s h

post_live-Keeps : (id : List ℕ) (side : Side) (message : List ℕ) → Keeps id (post_live side message)
post_live-Keeps id Side.a message s h = ground (arith, length-append s.from_a (message ∷ []))
post_live-Keeps id Side.b message s h = ground (arith, length-append s.from_b (message ∷ []))

open_session-IsBounded :
    (now : ℕ) (draws : List (List ℕ)) (account opener : ℕ) (inner : Pairings)
    → IsBounded inner
    → IsBounded (open_session now draws account opener inner).1
unfolding open_session
open_session-IsBounded now draws account opener inner h =
    let inner' = retain (is_live now) inner in
    let h' = retain-IsBounded (is_live now) inner h in
    elim (Bool-cases (leb open_at_most (length inner'))) [
      | inl full ↦ rw full h'
      | inr room ↦ rw room (elim (Bool-cases (leb open_per_account (per_account account inner'))) [
        | inl many ↦ rw many h'
        | inr few ↦ rw few (elim (Option-cases (pick draws inner')) [
          | inl drawing ↦ rw (drawing, open_as) h'
          | inr (id, found) ↦
              rw (found, open_as)
                (insert_new-IsBounded id (new_session now account opener) inner' h' (ground arith)
                  (ground arith) (omega arith, omega arith))
        ])
      ])
    ]

post-IsBounded :
    (now : ℕ) (id : List ℕ) (side : Side) (message : List ℕ) (inner : Pairings)
    → IsBounded inner
    → IsBounded (with_live (post_live side message) id (live now id inner)).1
    → IsBounded (post now id side message inner).1
unfolding post
post-IsBounded now id side message inner h p =
    elim (Bool-cases (ltb max_message_bytes (length message))) [
      | inl large ↦ rw large h
      | inr small ↦ rw small (elim (Bool-cases (is_empty message)) [
        | inl nothing ↦ rw nothing h
        | inr something ↦ rw something p
      ])
    ]

-- What the handlers ask of the relay.
pub data Request : Type 0 where
  opens : List (List ℕ) → ℕ → ℕ → Request
  admits : List ℕ → Side → Option ℕ → Option (List ℕ) → Request
  posts : List ℕ → Side → List ℕ → Request
  reads : List ℕ → Side → ℕ → Request
  waits asks_account closes : List ℕ → Request
  closes_all_of : ℕ → Request

module _ (sha256 : List ℕ → List ℕ) where
  unfoldable pub serve : ℕ → Request → Pairings → Pairings
  serve now (opens draws account opener) inner = (open_session now draws account opener inner).1
  serve now (admits id side device claim) inner = (admit sha256 now id side device claim inner).1
  serve now (posts id side message) inner = (post now id side message inner).1
  serve now (reads id side after) inner = (read now id side after inner).1
  serve now (waits id) inner = (waiter now id inner).1
  serve now (asks_account id) inner = (account_of now id inner).1
  serve now (closes id) inner = (close id inner).1
  serve now (closes_all_of device) inner = (close_opened_by device inner).1

  unfoldable pub serve_all : List (ℕ × Request) → Pairings → Pairings
  unfolding serve
  serve_all [] inner = inner
  serve_all ((now, request) ∷ requests) inner = serve_all requests (serve now request inner)

  pub serve-IsBounded :
      (now : ℕ) (request : Request) (inner : Pairings)
      → IsBounded inner
      → IsBounded (serve now request inner)
  unfolding serve admit post read waiter account_of close close_opened_by
  serve-IsBounded now (opens draws account opener) inner h =
      open_session-IsBounded now draws account opener inner h
  serve-IsBounded now (admits id side device claim) inner h =
      with_live-IsBounded (admit_live sha256 side device claim) now id inner
        (admit_live-Keeps sha256 id side device claim) h
  serve-IsBounded now (posts id side message) inner h =
      let p =
        with_live-IsBounded (post_live side message) now id inner (post_live-Keeps id side message)
          h in
      post-IsBounded now id side message inner h p
  serve-IsBounded now (reads id side after) inner h =
      with_live-IsBounded (λ s. (ok (drop after (slot (other side) s)), s)) now id inner
        (λ s k. (refl, k)) h
  serve-IsBounded now (waits id) inner h =
      with_live-IsBounded (λ s. (ok s.arrived, s)) now id inner (λ s k. (refl, k)) h
  serve-IsBounded now (asks_account id) inner h =
      with_live-IsBounded (λ s. (ok s.account, s)) now id inner (λ s k. (refl, k)) h
  serve-IsBounded now (closes id) inner h = remove-IsBounded id inner h
  serve-IsBounded now (closes_all_of device) inner h =
      retain-IsBounded (λ e. not (is_opened_by device e)) inner h

  -- From a relay that is so, whatever it is asked, whenever and in whatever order: the ids of its
  -- sessions stay distinct, it keeps at most `open_at_most` sessions, of one account at most
  -- `open_per_account`, and of either side of a session at most `max_messages` messages.
  pub serve_all-IsBounded :
      (requests : List (ℕ × Request)) (inner : Pairings)
      → IsBounded inner
      → IsBounded (serve_all requests inner)
  unfolding serve_all
  serve_all-IsBounded [] inner h = h
  serve_all-IsBounded ((now, request) ∷ requests) inner h =
      serve_all-IsBounded requests (serve now request inner) (serve-IsBounded now request inner h)
