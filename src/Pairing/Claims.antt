-- ===== src/Pairing/Claims.antt =====
-- src/pairing.rs: who may speak for a side, and what closing takes away.
use uw_ussh_server.Prelude.{
  ℕ, ◌<◌, ◌≡◌, ◌↔◌, not, List, Option, none, some, arith, nat_eq, nat_beq_iff, refl,
}
use uw_ussh_server.Prelude.HashMap.{
  lookup, insert, lookup-insert_self, kept, lookup-retain, IsKeyed,
}
use uw_ussh_server.Prelude.Text.{text_eq, as_bytes}
use uw_ussh_server.Error.{ok}
use uw_ussh_server.Secrets.{constant_time_eq_iff}
use uw_ussh_server.Pairing.{
  Side, Session, Pairings, usable_claim, admit, is_opened_by, close_opened_by,
}
use uw_ussh_server.Pairing.Messages.{live_held}

module _ (sha256 : List ℕ → List ℕ) where
  -- In a session that has not run out, exactly the device that opened it is let in for side a.
  admit_opener :
      (now : ℕ) (id : List ℕ) (device : Option ℕ) (claim : Option (List ℕ)) (inner : Pairings)
      (s : Session)
      → lookup id inner ≡ some s
      → now < s.expires_ms
      → ((admit sha256 now id Side.a device claim inner).0 ≡ ok tt) ↔ (device ≡ some s.opener)
  unfolding admit
  admit_opener now id none claim inner s held good =
      rw (live_held now id inner s held good) (ground arith)
  admit_opener now id (some device) claim inner s held good =
      rw (live_held now id inner s held good) (ground (arith, nat_beq_iff device s.opener))

  -- In a session that does not run out meanwhile and that nobody has claimed: the first usable
  -- claim is let in for side b, and the next usable claim is let in exactly when it hashes to the
  -- same.
  pub admit_first :
      (now later : ℕ) (id first next : List ℕ) (inner : Pairings) (s : Session)
      (claim claim' : Option (List ℕ)) (d d' : Option ℕ)
      → lookup id inner ≡ some s
      → now < s.expires_ms
      → later < s.expires_ms
      → s.claim ≡ none
      → usable_claim claim ≡ some first
      → usable_claim claim' ≡ some next
      → ((admit sha256 now id Side.b d claim inner).0 ≡ ok tt)
        × (((admit sha256 later id Side.b d' claim' (admit sha256 now id Side.b d claim inner).1).0
              ≡ ok tt)
            ↔ (sha256 (as_bytes first) ≡ sha256 (as_bytes next)))
  unfolding admit
  admit_first now later id first next inner s claim claim' d d' held good soon fresh usable
        usable' =
      let hash = sha256 (as_bytes first) in
      let s' : Session = record s { claim = some hash } in
      let there =
        live_held later id (insert id s' inner) s' (lookup-insert_self id s' inner) soon in
      rw (live_held now id inner s held good, usable, fresh, there, usable')
        (refl, ground (arith, constant_time_eq_iff hash (sha256 (as_bytes next))))

-- Closing what a device opened leaves every session of another device as it was, and none of its
-- own.
pub close_opened_by-lookup :
    (device : ℕ) (id : List ℕ) (inner : Pairings)
    → IsKeyed inner
    → lookup id (close_opened_by device inner).1
      ≡ kept (λ e. not (is_opened_by device e)) id (lookup id inner)
unfolding close_opened_by
close_opened_by-lookup device id inner h =
    lookup-retain id (λ e. not (is_opened_by device e)) inner h
