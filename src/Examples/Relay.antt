-- ===== src/Examples/Relay.antt =====
-- src/pairing.rs at a session of two devices.
use uw_ussh_server.Prelude.{ℕ, ◌≡◌, ◌↔◌, refl, List, [], ◌∷◌, none, some, arith, nat_eq, retain}
use uw_ussh_server.Prelude.HashMap.{lookup}
use uw_ussh_server.Prelude.Text.{text_eq, as_bytes, trim, trim_start, trim_end}
use uw_ussh_server.Error.{ok}
use uw_ussh_server.Pairing.{Side, Session, Pairings, admit, post, read, usable_claim}
use uw_ussh_server.Pairing.Bounds.{IsBounded}
use uw_ussh_server.Pairing.Requests.{
  Request, opens, admits, posts, reads, closes, serve_all, serve_all-IsBounded,
}
use uw_ussh_server.Pairing.Messages.{IsPostable, post-read}
use uw_ussh_server.Pairing.Claims.{admit_first}

-- A hash for the examples.
abbrev sum_hash : List ℕ → List ℕ
sum_hash bytes = bytes

abbrev id : List ℕ
id = 65 ∷ 66 ∷ 67 ∷ 68 ∷ 69 ∷ []

abbrev session : Session
session = record {
  account = 1;
  opener = 3;
  claim = none;
  from_a = (9 ∷ []) ∷ [];
  from_b = [];
  expires_ms = 100;
  arrived = 1;
}

abbrev relay : Pairings
relay = (id, session) ∷ []

held : lookup id relay ≡ some session
unfolding lookup
held = refl

abbrev requests : List (ℕ × Request)
requests =
    (1, opens ((0 ∷ 1 ∷ 2 ∷ 3 ∷ 4 ∷ []) ∷ []) 1 3)
    ∷ (2, posts id Side.a (7 ∷ []))
    ∷ (3, admits id Side.b none (some (120 ∷ [])))
    ∷ (4, reads id Side.b 0)
    ∷ (5, closes id)
    ∷ []

empty-IsBounded : IsBounded []
unfolding retain
empty-IsBounded = record {
  keyed = tt;
  few = omega arith;
  fair = λ account. omega arith;
  short = tt;
}

serve_all-IsBounded_example : IsBounded (serve_all sum_hash requests [])
serve_all-IsBounded_example = serve_all-IsBounded sum_hash requests [] empty-IsBounded

postable : IsPostable 50 id Side.a (7 ∷ []) relay session
postable = record {
  held = held;
  good = omega arith;
  room = omega arith;
  some_bytes = omega arith;
  few_bytes = omega arith;
}

post-read_example :
    ((post 50 id Side.a (7 ∷ []) relay).0 ≡ ok tt)
    × ((read 60 id Side.b 1 (post 50 id Side.a (7 ∷ []) relay).1).0 ≡ ok ((7 ∷ []) ∷ []))
post-read_example = post-read 50 60 id Side.a (7 ∷ []) relay session postable (omega arith)

usable : usable_claim (some (32 ∷ 120 ∷ [])) ≡ some (120 ∷ [])
unfolding trim trim_start trim_end as_bytes
usable = refl

usable' : usable_claim (some (121 ∷ [])) ≡ some (121 ∷ [])
unfolding trim trim_start trim_end as_bytes
usable' = refl

admit_first_example :
    ((admit sum_hash 50 id Side.b none (some (32 ∷ 120 ∷ [])) relay).0 ≡ ok tt)
    × (((admit sum_hash 60 id Side.b none
            (some (121 ∷ []))
            (admit sum_hash 50 id Side.b none (some (32 ∷ 120 ∷ [])) relay).1).0
          ≡ ok tt)
        ↔ (sum_hash (as_bytes (120 ∷ [])) ≡ sum_hash (as_bytes (121 ∷ []))))
admit_first_example =
    admit_first sum_hash 50 60 id (120 ∷ []) (121 ∷ []) relay session (some (32 ∷ 120 ∷ []))
      (some (121 ∷ [])) none none held (omega arith) (omega arith) refl usable usable'
