-- ===== src/Service/Proofs.antt =====
-- src/api: what a handler leaves, from what its steps leave.
use uw_ussh_server.Prelude.{
  ℕ, String, ◌≡◌, refl, ap, sym, subst, Bool, true, false, Option, none, some,
}
use uw_ussh_server.Error.{Result, ok, err, ApiError}
use uw_ussh_server.Auth.{Tokens}
use uw_ussh_server.Auth.Access.{Authenticated, Admits, authenticate-Admits}
use uw_ussh_server.Auth.Access as Access
use uw_ussh_server.Prelude.Text.{Text}
use uw_ussh_server.Address.{network}
use uw_ussh_server.Limits.{Bucket, Hits}
use uw_ussh_server.Limits as Limits
use uw_ussh_server.Service.{
  check, authenticated, Server, Action, ◌>>=◌, gets, of_result, or_raise, raise_if,
}

-- Where it went well and what it answered, or where it failed.
abbrev pub Ends :
    {A : Type 0} → (A → Server → Type 0) → (ApiError → Server → Type 0) → Result A × Server → Type 0
Ends Q E (ok a, s) = Q a s
Ends Q E (err e, s) = E e s

pub bind-Ends :
    {A B : Type 0} (Q : A → Server → Type 0) (R : B → Server → Type 0)
    (E : ApiError → Server → Type 0) (m : Action A) (f : A → Action B) (s : Server)
    → Ends Q E (m s)
    → ((a : A) (s' : Server) → Q a s' → Ends R E (f a s'))
    → Ends R E ((m >>= f) s)
unfolding ◌>>=◌
bind-Ends {A = A} {B = B} Q R E m f s first next = bind_from (m s) first
  where
    bind_from :
        (r : Result A × Server)
        → Ends Q E r
        → Ends R E (let (r, s') = r in elim r [ err e ↦ (err e, s') | ok a ↦ f a s' ])
    bind_from (ok a, s') q = next a s' q
    bind_from (err e, s') q = q

-- However it ended.
abbrev pub Keeps : {A : Type 0} → (Server → Type 0) → Action A → Type 0
Keeps I m = (s : Server) → I s → I (m s).1

pub Keeps-Ends :
    {A : Type 0} (I : Server → Type 0) (m : Action A) (s : Server)
    → Ends (λ a. I) (λ e. I) (m s)
    → I (m s).1
Keeps-Ends {A = A} I m s h = ends_from (m s) h
  where
    ends_from : (r : Result A × Server) → Ends (λ a. I) (λ e. I) r → I r.1
    ends_from (ok a, s') q = q
    ends_from (err e, s') q = q

pub Ends-Keeps :
    {A : Type 0} (I : Server → Type 0) (m : Action A) (s : Server)
    → I (m s).1
    → Ends (λ a. I) (λ e. I) (m s)
Ends-Keeps {A = A} I m s h = ends_from (m s) h
  where
    ends_from : (r : Result A × Server) → I r.1 → Ends (λ a. I) (λ e. I) r
    ends_from (ok a, s') q = q
    ends_from (err e, s') q = q

-- The first step leaves it so, and the others keep it.
pub bind-From :
    {A B : Type 0} (I : Server → Type 0) (m : Action A) (f : A → Action B) (s : Server)
    → I (m s).1
    → ((a : A) → Keeps I (f a))
    → I ((m >>= f) s).1
bind-From I m f s h next = Keeps-Ends I (m >>= f) s (
    bind-Ends (λ a. I) (λ b. I) (λ e. I) m f s (Ends-Keeps I m s h)
      (λ a t q. Ends-Keeps I (f a) t (next a t q)))

pub bind-Keeps :
    {A B : Type 0} (I : Server → Type 0) (m : Action A) (f : A → Action B)
    → Keeps I m
    → ((a : A) → Keeps I (f a))
    → Keeps I (m >>= f)
bind-Keeps I m f first next s h = bind-From I m f s (first s h) next

-- A step that keeps one thing, and what comes after it makes another of it.
pub bind-Turns :
    {A B : Type 0} (J I : Server → Type 0) (m : Action A) (f : A → Action B)
    → ((s : Server) → J s → I s)
    → Keeps J m
    → ((a : A) (s : Server) → J s → I (f a s).1)
    → (s : Server) → J s
    → I ((m >>= f) s).1
bind-Turns J I m f weaker first next s h = Keeps-Ends I (m >>= f) s (
    bind-Ends (λ a. J) (λ b. I) (λ e. I) m f s (weaken (m s) (first s h))
      (λ a t q. Ends-Keeps I (f a) t (next a t q)))
  where
    weaken : {A : Type 0} (r : Result A × Server) → J r.1 → Ends (λ a. J) (λ e. I) r
    weaken (ok a, t) q = q
    weaken (err e, t) q = weaker t q

-- Steps that leave the server alone, each with what it found.
pub or_raise-Ends :
    {A B : Type 0} (R : B → Server → Type 0) (E : ApiError → Server → Type 0) (o : Option A)
    (e : ApiError) (f : A → Action B) (s : Server)
    → E e s
    → ((a : A) → o ≡ some a → Ends R E (f a s))
    → Ends R E ((or_raise o e >>= f) s)
unfolding ◌>>=◌
or_raise-Ends R E none e f s fails next = fails
or_raise-Ends R E (some a) e f s fails next = next a refl

pub of_result-Ends :
    {A B : Type 0} (R : B → Server → Type 0) (E : ApiError → Server → Type 0) (r : Result A)
    (f : A → Action B) (s : Server)
    → ((e : ApiError) → E e s)
    → ((a : A) → r ≡ ok a → Ends R E (f a s))
    → Ends R E ((of_result r >>= f) s)
unfolding ◌>>=◌
of_result-Ends R E (err e) f s fails next = fails e
of_result-Ends R E (ok a) f s fails next = next a refl

pub raise_if-Ends :
    {B : Type 0} (R : B → Server → Type 0) (E : ApiError → Server → Type 0) (c : Bool)
    (e : ApiError) (f : Unit {0} → Action B) (s : Server)
    → E e s
    → (c ≡ false → Ends R E (f tt s))
    → Ends R E ((raise_if c e >>= f) s)
unfolding ◌>>=◌
raise_if-Ends R E true e f s fails next = fails
raise_if-Ends R E false e f s fails next = next refl

pub gets-Ends :
    {A B : Type 0} (R : B → Server → Type 0) (E : ApiError → Server → Type 0) (g : Server → A)
    (f : A → Action B) (s : Server)
    → Ends R E (f (g s) s)
    → Ends R E ((gets g >>= f) s)
unfolding ◌>>=◌
gets-Ends R E g f s h = h

pub imp-Ends :
    {A : Type 0} (Q R : A → Server → Type 0) (E F : ApiError → Server → Type 0)
    (r : Result A × Server)
    → ((a : A) (s : Server) → Q a s → R a s)
    → ((e : ApiError) (s : Server) → E e s → F e s)
    → Ends Q E r
    → Ends R F r
imp-Ends Q R E F (ok a, s) good bad h = good a s h
imp-Ends Q R E F (err e, s) good bad h = bad e s h

-- A try that is counted changes what the limiter remembers, and nothing else.
pub check-Ends :
    {B : Type 0} (R : B → Server → Type 0) (E : ApiError → Server → Type 0) (now : ℕ) (who : Text)
    (bucket : Bucket) (f : Unit {0} → Action B) (s : Server)
    → ((e : ApiError) (hits : Hits) → E e (record s { hits = hits }))
    → ((hits : Hits) → Ends R E (f tt (record s { hits = hits })))
    → Ends R E ((check now who bucket >>= f) s)
unfolding ◌>>=◌ check
check-Ends {B = B} R E now who bucket f s fails next =
    by_answer (Limits.count network now who bucket true s.hits)
  where
    by_answer :
        (r : Result (Unit {0}) × Hits)
        → Ends {A = B} R E (elim r.0 as (λ a. Result B × Server) [
          | err e ↦ (err e, record s { hits = r.1 })
          | ok a ↦ f a (record s { hits = r.1 })
        ])
    by_answer (err e, hits) = fails e hits
    by_answer (ok tt, hits) = next hits

-- A request that is let in leaves the server alone; one that is not leaves the database alone.
pub authenticated-Ends :
    {B : Type 0} (R : B → Server → Type 0) (E : ApiError → Server → Type 0) (now : ℕ)
    (bearer : Option String) (f : Authenticated → Action B) (s : Server)
    → ((e : ApiError) (t : Server) → t.db ≡ s.db → E e t)
    → ((auth : Authenticated)
        → (Access.authenticate now bearer s.tokens s.db).0 ≡ ok auth
        → Ends R E (f auth s))
    → Ends R E ((authenticated now bearer >>= f) s)
unfolding ◌>>=◌ authenticated
authenticated-Ends {B = B} R E now bearer f s fails next =
    by_answer (Access.authenticate now bearer s.tokens s.db)
      (authenticate-Admits now bearer s.tokens s.db) (λ auth e. next auth e)
  where
    by_answer :
        (r : Result Authenticated × Tokens)
        → Admits now bearer s.tokens s.db r
        → ((auth : Authenticated) → r.0 ≡ ok auth → Ends R E (f auth s))
        → Ends {A = B} R E (elim r.0 as (λ a. Result B × Server) [
          | err e ↦ (err e, record s { tokens = r.1 })
          | ok auth ↦ f auth (record s { tokens = r.1 })
        ])
    by_answer (err e, tokens) admits go = fails e (record s { tokens = tokens }) refl
    by_answer (ok auth, tokens) admits go =
        subst (λ (t : Server). Ends R E (f auth t))
          (ap (λ (x : Tokens). record s { tokens = x }) (sym admits.0)) (go auth refl)

-- What comes after two steps comes after the second.
pub assoc-Ends :
    {A B C : Type 0} (R : C → Server → Type 0) (E : ApiError → Server → Type 0) (m : Action A)
    (g : A → Action B) (f : B → Action C) (s : Server)
    → Ends R E ((m >>= λ a. g a >>= f) s)
    → Ends R E (((m >>= g) >>= f) s)
unfolding ◌>>=◌
assoc-Ends {A = A} {C = C} R E m g f s h = by_first (m s) h
  where
    by_first :
        (r : Result A × Server)
        → Ends R E
            (elim r.0 as (λ a. Result C × Server) [ err e ↦ (err e, r.1) | ok a ↦ (g a >>= f) r.1 ])
        → Ends R E ((((λ t. r) >>= g) >>= f) s)
    by_first (err e, t) q = q
    by_first (ok a, t) q = q
