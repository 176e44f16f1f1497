-- ===== src/Auth/Held.antt =====
-- src/auth.rs: what the loops over a device's tokens leave in the table of tokens.
use uw_ussh_server.Prelude.{
  ℕ, ◌≤◌, ◌<◌, ◌≡◌, Bool, true, false, ◌||◌, List, [], ◌∷◌, some, String, arith, ◌==◌, nat_eq,
  string_eq, length, length-retain_le, retain, All, refl,
}
use uw_ussh_server.Prelude.HashMap.{HashMap, contains_key, lookup, remove, lookup-remove}
use uw_ussh_server.Auth.{
  Session, tokens_per_device, drop_expired, make_room, held_by, remove_all, retain_known,
}

abbrev pub contains : String → List String → Bool
contains token [] = false
contains token (x ∷ xs) = (x == token) || contains token xs

pub lookup_removed :
    (token x : String) (m : HashMap String Session) (s : Session)
    → lookup token (remove x m) ≡ some s
    → lookup token m ≡ some s
lookup_removed token x m s h = ground (arith, lookup-remove x token m)

pub drop_expired_sub :
    (now : ℕ) (held : List String) (m : HashMap String Session) (token : String) (s : Session)
    → lookup token (drop_expired now held m).1 ≡ some s
    → lookup token m ≡ some s
unfolding drop_expired
drop_expired_sub now [] m token s h = h
drop_expired_sub now (x ∷ held) m token s h = ground (
  arith,
  drop_expired_sub now held m token s,
  drop_expired_sub now held (remove x m) token s,
  lookup_removed token x m s,
)

pub drop_expired_kept :
    (now : ℕ) (held : List String) (m : HashMap String Session) (token : String) (s : Session)
    → contains token held ≡ true
    → lookup token (drop_expired now held m).1 ≡ some s
    → contains token (drop_expired now held m).0 ≡ true
unfolding drop_expired
drop_expired_kept now [] m token s c h = c
drop_expired_kept now (x ∷ held) m token s c h = ground (
  arith,
  drop_expired_kept now held m token s,
  drop_expired_kept now held (remove x m) token s,
  drop_expired_sub now held (remove x m) token s,
  lookup-remove x token m,
)

pub make_room_sub :
    (held : List String) (m : HashMap String Session) (token : String) (s : Session)
    → lookup token (make_room held m).1 ≡ some s
    → lookup token m ≡ some s
unfolding make_room
make_room_sub [] m token s h = h
make_room_sub (x ∷ held) m token s h =
    ground (arith, make_room_sub held (remove x m) token s, lookup_removed token x m s)

pub make_room_kept :
    (held : List String) (m : HashMap String Session) (token : String) (s : Session)
    → contains token held ≡ true
    → lookup token (make_room held m).1 ≡ some s
    → contains token (make_room held m).0 ≡ true
unfolding make_room
make_room_kept [] m token s c h = c
make_room_kept (x ∷ held) m token s c h = ground (
  arith,
  make_room_kept held (remove x m) token s,
  make_room_sub held (remove x m) token s,
  lookup-remove x token m,
)

pub make_room-room :
    (held : List String) (m : HashMap String Session)
    → length (make_room held m).0 < tokens_per_device
unfolding make_room
make_room-room [] m = omega arith
make_room-room (x ∷ held) m = ground (arith, make_room-room held (remove x m))

pub remove_all_sub :
    (held : List String) (m : HashMap String Session) (token : String) (s : Session)
    → lookup token (remove_all held m) ≡ some s
    → (lookup token m ≡ some s) × (contains token held ≡ false)
unfolding remove_all
remove_all_sub [] m token s h = (h, refl)
remove_all_sub (x ∷ held) m token s h =
    let rest = remove_all_sub held (remove x m) token s h in
    ground (arith, rest, lookup-remove x token m)

pub contains-retain :
    (p : String → Bool) (held : List String) (token : String)
    → contains token held ≡ true
    → p token ≡ true
    → contains token (retain p held) ≡ true
unfolding retain
contains-retain p [] token c good = c
contains-retain p (x ∷ held) token c good =
    ground (arith, contains-retain p held token, string_eq.same_iff x token)

pub held_by-retain_known :
    (m : HashMap String Session) (by_device : HashMap ℕ (List String)) (device : ℕ) (token : String)
    → contains token (held_by device by_device) ≡ true
    → contains_key token m ≡ true
    → contains token (held_by device (retain_known m by_device)) ≡ true
unfolding retain_known lookup
held_by-retain_known m [] device token c known = c
held_by-retain_known m ((d, held) ∷ by_device) device token c known = ground (
  arith,
  held_by-retain_known m by_device device token,
  contains-retain (λ token. contains_key token m) held token,
)

abbrev pub AreShort : HashMap ℕ (List String) → Type 0
AreShort = All (λ (e : ℕ × List String). length e.1 ≤ tokens_per_device)

pub retain_known-AreShort :
    (m : HashMap String Session) (by_device : HashMap ℕ (List String))
    → AreShort by_device
    → AreShort (retain_known m by_device)
unfolding retain_known
retain_known-AreShort m [] h = tt
retain_known-AreShort m ((d, held) ∷ by_device) h = ground (
  arith,
  retain_known-AreShort m by_device h.1,
  length-retain_le (λ token. contains_key token m) held,
  h.0,
)
