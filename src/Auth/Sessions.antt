-- ===== src/Auth/Sessions.antt =====
-- src/auth.rs: the two tables of tokens agree, and a device that is shut out keeps no token.
use uw_ussh_server.Prelude.{
  ℕ, ◌+◌, ◌≤◌, ◌≡◌, ◌≢◌, inl, inr, true, false, ◌||◌, List, [], ◌∷◌, ◌++◌, none, some, String,
  arith, ◌==◌, nat_eq, nat_beq_iff, beq_refl, string_eq, ltb, length, length-append, retain,
  Bool-cases, Option-cases, if◌then◌else◌, refl, subst,
}
use uw_ussh_server.Prelude.HashMap.{
  HashMap, contains_key, lookup, insert, insert-All, insert-IsKeyed, remove, remove-All,
  remove-IsKeyed, IsKeyed, lookup-insert_self, lookup-insert, lookup-remove, lookup-retain,
  retain-IsKeyed,
}
use uw_ussh_server.Auth.{
  Session, Tokens, tokens_per_device, drop_expired, make_room, held_by, issue_token, get_session,
  remove_all, drop_device, is_running, retain_known, sweep,
}
use uw_ussh_server.Auth.Held.{
  drop_expired_sub, drop_expired_kept, make_room_sub, make_room_kept, make_room-room,
  remove_all_sub, held_by-retain_known, retain_known-AreShort, contains, AreShort,
}

-- A token that is known stands in the list of its device.
abbrev Links : HashMap String Session → HashMap ℕ (List String) → Type 0
Links by_token by_device =
    (token : String) (s : Session)
    → lookup token by_token ≡ some s
    → contains token (held_by s.device_id by_device) ≡ true

pub record IsLinked (t : Tokens) : Type 0 where
  pub keyed : IsKeyed t.by_token
  pub links : Links t.by_token t.by_device
  pub short : AreShort t.by_device

drop_expired-IsKeyed :
    (now : ℕ) (held : List String) (m : HashMap String Session)
    → IsKeyed m
    → IsKeyed (drop_expired now held m).1
unfolding drop_expired
drop_expired-IsKeyed now [] m h = h
drop_expired-IsKeyed now (x ∷ held) m h = ground (
  arith,
  drop_expired-IsKeyed now held m h,
  drop_expired-IsKeyed now held (remove x m) (remove-IsKeyed x m h),
)

make_room-IsKeyed :
    (held : List String) (m : HashMap String Session) → IsKeyed m → IsKeyed (make_room held m).1
unfolding make_room
make_room-IsKeyed [] m h = h
make_room-IsKeyed (x ∷ held) m h =
    ground (arith, h, make_room-IsKeyed held (remove x m) (remove-IsKeyed x m h))

remove_all-IsKeyed :
    (held : List String) (m : HashMap String Session) → IsKeyed m → IsKeyed (remove_all held m)
unfolding remove_all
remove_all-IsKeyed [] m h = h
remove_all-IsKeyed (x ∷ held) m h = remove_all-IsKeyed held (remove x m) (remove-IsKeyed x m h)

contains-append :
    (token : String) (xs : List String) (y : String)
    → contains token (xs ++ y ∷ []) ≡ (contains token xs || (y == token))
contains-append token [] y = ground (arith, string_eq.same_iff y token)
contains-append token (x ∷ xs) y = ground (arith, contains-append token xs y)

-- The list of a device, replaced.
held_by-insert :
    (d j : ℕ) (held : List String) (m : HashMap ℕ (List String))
    → held_by j (insert d held m) ≡ (if d == j then held else held_by j m)
held_by-insert d j held m = ground (arith, lookup-insert d j held m)

held_by-remove :
    (d j : ℕ) (m : HashMap ℕ (List String))
    → held_by j (remove d m) ≡ (if d == j then [] else held_by j m)
held_by-remove d j m = ground (arith, lookup-remove d j m)

issue-Links :
    (now : ℕ) (token : String) (new : Session) (m : HashMap String Session)
    (by_device : HashMap ℕ (List String))
    → Links m by_device
    → Links
        (insert token new
          (make_room
            (drop_expired now (held_by new.device_id by_device) m).0
            (drop_expired now (held_by new.device_id by_device) m).1).1)
        (insert new.device_id
          ((make_room
              (drop_expired now (held_by new.device_id by_device) m).0
              (drop_expired now (held_by new.device_id by_device) m).1).0
            ++ token ∷ [])
          by_device)
issue-Links now token new m by_device links other s h =
    let held = held_by new.device_id by_device in
    let d1 = drop_expired now held m in
    let d2 = make_room d1.0 d1.1 in
    elim (Bool-cases (token == other)) [
      | inl same ↦
          let now_it : new ≡ s = ground (arith, h, same, lookup-insert token other new d2.1) in
          subst
            (λ (x : Session).
              contains other
                (held_by x.device_id (insert new.device_id (d2.0 ++ token ∷ []) by_device))
              ≡ true)
            now_it
            (rw
              (
                held_by-insert new.device_id new.device_id (d2.0 ++ token ∷ []) by_device,
                beq_refl new.device_id,
                contains-append other d2.0 token,
              )
              (ground (arith, same)))
      | inr different ↦
          let h2 : lookup other d2.1 ≡ some s =
            ground (arith, h, different, lookup-insert token other new d2.1) in
          let h1 = make_room_sub d1.0 d1.1 other s h2 in
          let h0 = drop_expired_sub now held m other s h1 in
          let was = links other s h0 in
          rw (held_by-insert new.device_id s.device_id (d2.0 ++ token ∷ []) by_device)
            (elim (Bool-cases (new.device_id == s.device_id)) [
              | inl mine ↦
                  let mine' : s.device_id ≡ new.device_id =
                    ground (arith, mine, nat_beq_iff new.device_id s.device_id) in
                  let was' = subst (λ x. contains other (held_by x by_device) ≡ true) mine' was in
                  let kept =
                    make_room_kept d1.0 d1.1 other s (drop_expired_kept now held m other s was' h1)
                      h2 in
                  rw (mine, contains-append other d2.0 token) (ground (arith, kept))
              | inr theirs ↦ rw theirs was
            ])
    ]

pub issue_token-IsLinked :
    (now : ℕ) (token : String) (account_id device_id ttl_ms : ℕ) (t : Tokens)
    → IsLinked t
    → IsLinked (issue_token now token account_id device_id ttl_ms t).1
unfolding issue_token
issue_token-IsLinked now token account_id device_id ttl_ms t h =
    let new : Session = record {
      account_id = account_id;
      device_id = device_id;
      expires_ms = now + ttl_ms;
    } in
    let d1 = drop_expired now (held_by device_id t.by_device) t.by_token in
    let d2 = make_room d1.0 d1.1 in
    record {
      keyed = insert-IsKeyed token new d2.1 (
          make_room-IsKeyed d1.0 d1.1
            (drop_expired-IsKeyed now (held_by device_id t.by_device) t.by_token h.keyed));
      links = issue-Links now token new t.by_token t.by_device h.links;
      short =
          insert-All (λ (e : ℕ × List String). length e.1 ≤ tokens_per_device) device_id
            (d2.0 ++ token ∷ []) t.by_device
            (omega (arith, length-append d2.0 (token ∷ []), make_room-room d1.0 d1.1)) h.short;
    }

sweep-Links :
    (now : ℕ) (m : HashMap String Session) (by_device : HashMap ℕ (List String))
    → IsKeyed m
    → Links m by_device
    → Links (retain (is_running now) m) (retain_known (retain (is_running now) m) by_device)
sweep-Links now m by_device keyed links token s h =
    let was : lookup token m ≡ some s =
      ground (arith, h, lookup-retain token (is_running now) m keyed) in
    held_by-retain_known (retain (is_running now) m) by_device s.device_id token (links token s was)
      (rw (h, contains_key) refl)

pub sweep-IsLinked : (now : ℕ) (t : Tokens) → IsLinked t → IsLinked (sweep now t).1
unfolding sweep
sweep-IsLinked now t h = record {
  keyed = retain-IsKeyed (is_running now) t.by_token h.keyed;
  links = sweep-Links now t.by_token t.by_device h.keyed h.links;
  short = retain_known-AreShort (retain (is_running now) t.by_token) t.by_device h.short;
}

-- What is left of the tokens is of other devices.
remove_all-others :
    (device : ℕ) (held : List String) (m : HashMap String Session)
    (by_device : HashMap ℕ (List String))
    → Links m by_device
    → lookup device by_device ≡ some held
    → (token : String) (s : Session) → lookup token (remove_all held m) ≡ some s
    → (lookup token m ≡ some s) × (s.device_id ≢ device)
remove_all-others device held m by_device links there token s h =
    let before = remove_all_sub held m token s h in
    let listed = links token s before.0 in
    (
      before.0,
      λ same.
          let at_device = subst (λ x. contains token (held_by x by_device) ≡ true) same listed in
          ground (arith, at_device, there, before.1),
    )

drop_device-Links :
    (device : ℕ) (held : List String) (m : HashMap String Session)
    (by_device : HashMap ℕ (List String))
    → Links m by_device
    → lookup device by_device ≡ some held
    → Links (remove_all held m) (remove device by_device)
drop_device-Links device held m by_device links there token s h =
    let left = remove_all-others device held m by_device links there token s h in
    let different : (device == s.device_id) ≡ false =
      ground (arith, left.1, nat_beq_iff device s.device_id) in
    rw (held_by-remove device s.device_id by_device, different) (links token s left.0)

pub drop_device-IsLinked : (device : ℕ) (t : Tokens) → IsLinked t → IsLinked (drop_device device t)
unfolding drop_device
drop_device-IsLinked device t h = elim (Option-cases (lookup device t.by_device)) [
  | inl missing ↦ rw (missing, drop_device) h
  | inr (held, there) ↦
      rw (there, drop_device)
        (record {
          keyed = remove_all-IsKeyed held t.by_token h.keyed;
          links = drop_device-Links device held t.by_token t.by_device h.links there;
          short =
              remove-All (λ (e : ℕ × List String). length e.1 ≤ tokens_per_device) device
                t.by_device h.short;
        })
]

get_session-known :
    (now : ℕ) (token : String) (t : Tokens) (s : Session)
    → get_session now token t ≡ some s
    → lookup token t.by_token ≡ some s
unfolding get_session
get_session-known now token t s h = ground (arith, h)

drop_device_missing :
    (device : ℕ) (t : Tokens) → lookup device t.by_device ≡ none → drop_device device t ≡ t
unfolding drop_device
drop_device_missing device t missing = rw (missing, drop_device) refl

drop_device_held :
    (device : ℕ) (t : Tokens) (held : List String)
    → lookup device t.by_device ≡ some held
    → drop_device device t
      ≡ record { by_token = remove_all held t.by_token; by_device = remove device t.by_device }
unfolding drop_device
drop_device_held device t held there = rw (there, drop_device) refl

-- Where the two tables of tokens are in step: after a device was shut out, a token that opens a
-- session is of another device.
pub drop_device-get_session :
    (device now : ℕ) (token : String) (t : Tokens) (s : Session)
    → IsLinked t
    → get_session now token (drop_device device t) ≡ some s
    → s.device_id ≢ device
drop_device-get_session device now token t s h good =
    let known = get_session-known now token (drop_device device t) s good in
    elim (Option-cases (lookup device t.by_device)) [
      | inl missing ↦ λ same.
          let left : lookup token t.by_token ≡ some s =
            subst (λ (x : Tokens). lookup token x.by_token ≡ some s)
              (drop_device_missing device t missing) known in
          let listed =
            subst (λ x. contains token (held_by x t.by_device) ≡ true) same
              (h.links token s left) in
          ground (arith, listed, missing)
      | inr (held, there) ↦
          (remove_all-others device held t.by_token t.by_device h.links there token s (
            subst (λ (x : Tokens). lookup token x.by_token ≡ some s)
              (drop_device_held device t held there) known)).1
    ]

-- The token that a sign-in hands out opens a session of that account and device before it runs
-- out, and none from then on.
pub issue_token-get_session :
    (now later : ℕ) (token : String) (account_id device_id ttl_ms : ℕ) (t : Tokens)
    → get_session later token (issue_token now token account_id device_id ttl_ms t).1 ≡ (
        if ltb later (now + ttl_ms)
        then some
            (record { account_id = account_id; device_id = device_id; expires_ms = now + ttl_ms })
        else none)
unfolding get_session issue_token
issue_token-get_session now later token account_id device_id ttl_ms t =
    let d1 = drop_expired now (held_by device_id t.by_device) t.by_token in
    let d2 = make_room d1.0 d1.1 in
    rw
      (
        lookup-insert_self token
            (record { account_id = account_id; device_id = device_id; expires_ms = now + ttl_ms })
            d2.1,
        get_session,
      )
      refl

-- What the handlers ask of the sessions.
pub data Call : Type 0 where
  signs_in : (now : ℕ) (token : String) (account_id device_id ttl_ms : ℕ) → Call
  shuts_out : ℕ → Call
  sweeps : ℕ → Call

unfoldable pub run : List Call → Tokens → Tokens
run [] t = t
run (signs_in now token account_id device_id ttl_ms ∷ calls) t =
    run calls (issue_token now token account_id device_id ttl_ms t).1
run (shuts_out device ∷ calls) t = run calls (drop_device device t)
run (sweeps now ∷ calls) t = run calls (sweep now t).1

-- From tables that are so, devices that sign in, devices that are shut out and sweeps, in any
-- order, keep the two tables of tokens in step: the tokens are distinct, a token that is known
-- stands in the list of its device, and no list holds more than `tokens_per_device`.
pub run-IsLinked : (calls : List Call) (t : Tokens) → IsLinked t → IsLinked (run calls t)
unfolding run
run-IsLinked [] t h = h
run-IsLinked (signs_in now token account_id device_id ttl_ms ∷ calls) t h =
    run-IsLinked calls (issue_token now token account_id device_id ttl_ms t).1
      (issue_token-IsLinked now token account_id device_id ttl_ms t h)
run-IsLinked (shuts_out device ∷ calls) t h =
    run-IsLinked calls (drop_device device t) (drop_device-IsLinked device t h)
run-IsLinked (sweeps now ∷ calls) t h = run-IsLinked calls (sweep now t).1 (sweep-IsLinked now t h)

pub empty-IsLinked : IsLinked (record { by_token = []; by_device = [] })
unfolding lookup
empty-IsLinked = record { keyed = tt; links = λ token s h. absurd (ground (arith, h)); short = tt }
