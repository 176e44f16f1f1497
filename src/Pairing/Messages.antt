-- ===== src/Pairing/Messages.antt =====
-- src/pairing.rs: what one side posts the other side reads, and a session that has run out is gone.
use uw_ussh_server.Prelude.{
  ℕ, ◌+◌, ◌≤◌, ◌<◌, ◌≡◌, false, List, [], ◌∷◌, ◌++◌, some, arith, nat_eq, leb, ltb, length, refl,
  sym, ap, subst, drop,
}
use uw_ussh_server.Prelude.HashMap.{lookup, remove, insert, lookup-insert_self}
use uw_ussh_server.Prelude.Text.{text_eq}
use uw_ussh_server.Error.{ok, err, not_found}
use uw_ussh_server.Pairing.{
  Side, Session, Pairings, max_messages, max_message_bytes, live, post, read, slot, other, push,
}

drop-length {ℓ} : {A : Type ℓ} (xs ys : List A) → drop (length xs) (xs ++ ys) ≡ ys
drop-length [] ys = refl
drop-length (x ∷ xs) ys = drop-length xs ys

slot-push :
    (side : Side) (message : List ℕ) (s : Session)
    → slot side (push side message s) ≡ slot side s ++ message ∷ []
slot-push Side.a message s = refl
slot-push Side.b message s = refl

-- A message that a side may post, to a session that is there.
pub record IsPostable (now : ℕ) (id : List ℕ) (side : Side) (message : List ℕ) (inner : Pairings)
    (s : Session) : Type 0 where
  pub held : lookup id inner ≡ some s
  pub good : now < s.expires_ms
  pub room : length (slot side s) < max_messages
  pub some_bytes : 0 < length message
  pub few_bytes : length message ≤ max_message_bytes

pub live_held :
    (now : ℕ) (id : List ℕ) (inner : Pairings) (s : Session)
    → lookup id inner ≡ some s
    → now < s.expires_ms
    → live now id inner ≡ (ok s, inner)
unfolding live
live_held now id inner s held good = rw (held, live) (ground arith)

pub live_over :
    (now : ℕ) (id : List ℕ) (inner : Pairings) (s : Session)
    → lookup id inner ≡ some s
    → s.expires_ms ≤ now
    → live now id inner ≡ (err not_found, remove id inner)
unfolding live
live_over now id inner s held over = rw (held, live) (ground arith)

-- The session with the message, as the other side finds it.
abbrev pub posted : Side → List ℕ → Session → Session
posted side message s = record (push side message s) { arrived = s.arrived + 1 }

pub post_held :
    (now : ℕ) (id : List ℕ) (side : Side) (message : List ℕ) (inner : Pairings) (s : Session)
    → IsPostable now id side message inner s
    → post now id side message inner ≡ (ok tt, insert id (posted side message s) inner)
unfolding post
post_held now id side [] inner s p = absurd (omega (arith, p.some_bytes))
post_held now id side (m ∷ ms) inner s p =
    let here = live_held now id inner s p.held p.good in
    let small : ltb max_message_bytes (length (m ∷ ms)) ≡ false = ground (arith, p.few_bytes) in
    let room : leb max_messages (length (slot side s)) ≡ false = ground (arith, p.room) in
    rw (small, here, room) refl

posted-expires_ms :
    (side : Side) (message : List ℕ) (s : Session)
    → (posted side message s).expires_ms ≡ s.expires_ms
posted-expires_ms Side.a message s = refl
posted-expires_ms Side.b message s = refl

read_posted :
    (side : Side) (message : List ℕ) (s : Session)
    → drop (length (slot side s)) (slot (other (other side)) (posted side message s)) ≡ message ∷ []
read_posted Side.a message s = drop-length s.from_a (message ∷ [])
read_posted Side.b message s = drop-length s.from_b (message ∷ [])

-- A message of a size the relay carries, posted for a side that has room in a session that has not
-- run out, is accepted; and the other side, asking from after the messages that were there, reads
-- exactly it, as long as the session has not run out.
pub post-read :
    (now later : ℕ) (id : List ℕ) (side : Side) (message : List ℕ) (inner : Pairings) (s : Session)
    → IsPostable now id side message inner s
    → later < s.expires_ms
    → ((post now id side message inner).0 ≡ ok tt)
      × ((read later id (other side) (length (slot side s)) (post now id side message inner).1).0
          ≡ ok (message ∷ []))
unfolding read
post-read now later id side message inner s p soon =
    let s' = posted side message s in
    let there =
      live_held later id (insert id s' inner) s' (lookup-insert_self id s' inner)
        (subst (λ x. later < x) (sym (posted-expires_ms side message s)) soon) in
    rw (post_held now id side message inner s p, there) (refl, ap ok (read_posted side message s))
