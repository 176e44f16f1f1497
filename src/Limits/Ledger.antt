-- ===== src/Limits/Ledger.antt =====
-- src/limits.rs: what the limiter promises about one who tries, against the ledger of all the tries
-- that were let through and not forgiven.
use uw_ussh_server.Prelude.{
  ℕ, ◌-◌, ◌≤◌, ◌≡◌, ◌∙◌, ap, refl, sym, inl, inr, Bool, true, false, List, [], ◌∷◌, ◌++◌, arith,
  string_eq, pair_eq, ltb, leb, retain, length, All, All-append, Bool-cases, if◌then◌else◌,
}
use uw_ussh_server.Error.{Result, ok, err, rate_limited}
use uw_ussh_server.Limits.{Bucket, Tries, drop_old, try_once}

-- Within the window that ends now.
abbrev pub is_fresh : ℕ → ℕ → ℕ → Bool
is_fresh now window t = ltb (now - t) window

-- The tries that count now.
abbrev pub fresh : ℕ → ℕ → List ℕ → List ℕ
fresh now window = retain (is_fresh now window)

-- Times that do not fall, none after `now`.
abbrev pub UpTo : ℕ → List ℕ → Type 0
UpTo now [] = Unit
UpTo now (t ∷ ts) = (t ≤ now) × All (λ (u : ℕ). t ≤ u) ts × UpTo now ts

pub fresh_eq :
    (now window t : ℕ) (ts : List ℕ)
    → is_fresh now window t ≡ true
    → All (λ (u : ℕ). t ≤ u) ts
    → fresh now window ts ≡ ts
unfolding retain
fresh_eq now window t [] h le = refl
fresh_eq now window t (u ∷ ts) h le = ground (arith, fresh_eq now window t ts h le.1)

-- Dropping from the front is filtering, as the times do not fall.
pub drop_old-fresh :
    (now window : ℕ) (ts : List ℕ) → UpTo now ts → drop_old now window ts ≡ fresh now window ts
unfolding drop_old retain
drop_old-fresh now window [] h = refl
drop_old-fresh now window (t ∷ ts) h =
    ground (arith, drop_old-fresh now window ts h.2, fresh_eq now window t ts)

pub UpTo-append : (now : ℕ) (ts : List ℕ) → UpTo now ts → UpTo now (ts ++ now ∷ [])
UpTo-append now [] h = (omega arith, tt, tt)
UpTo-append now (t ∷ ts) h =
    (h.0, All-append (λ (u : ℕ). t ≤ u) ts (now ∷ []) h.1 (h.0, tt), UpTo-append now ts h.2)

pub UpTo-later : (now later : ℕ) (ts : List ℕ) → now ≤ later → UpTo now ts → UpTo later ts
UpTo-later now later [] le h = tt
UpTo-later now later (t ∷ ts) le h = (omega arith, h.1, UpTo-later now later ts le h.2)

retain-append : (p : ℕ → Bool) (xs ys : List ℕ) → retain p (xs ++ ys) ≡ retain p xs ++ retain p ys
unfolding retain
retain-append p [] ys = refl
retain-append p (x ∷ xs) ys = ground (arith, retain-append p xs ys)

retain-All {ℓ} : (P : ℕ → Type ℓ) (p : ℕ → Bool) (ts : List ℕ) → All P ts → All P (retain p ts)
unfolding retain
retain-All P p [] h = tt
retain-All P p (t ∷ ts) h = ground (arith, retain-All P p ts h.1)

pub UpTo-retain : (now : ℕ) (p : ℕ → Bool) (ts : List ℕ) → UpTo now ts → UpTo now (retain p ts)
unfolding retain
UpTo-retain now p [] h = tt
UpTo-retain now p (t ∷ ts) h =
    ground (arith, UpTo-retain now p ts h.2, retain-All (λ (u : ℕ). t ≤ u) p ts h.1)

-- What counts later counted before.
pub fresh-fresh :
    (now later window : ℕ) (ts : List ℕ)
    → now ≤ later
    → fresh later window (fresh now window ts) ≡ fresh later window ts
unfolding retain
fresh-fresh now later window [] le = refl
fresh-fresh now later window (t ∷ ts) le = ground (arith, fresh-fresh now later window ts le)

-- What is remembered agrees with the ledger on all that counts now or later.
pub record Agrees (now window : ℕ) (remembered ledger : List ℕ) : Type 0 where
  pub same : fresh now window remembered ≡ fresh now window ledger
  pub remembered_up : UpTo now remembered
  pub ledger_up : UpTo now ledger

pub Agrees-later :
    (now later window : ℕ) (ts us : List ℕ)
    → now ≤ later
    → Agrees now window ts us
    → Agrees later window ts us
Agrees-later now later window ts us le h = record {
  same =
      sym (fresh-fresh now later window ts le)
      ∙ ap (fresh later window) h.same
      ∙ fresh-fresh now later window us le;
  remembered_up = UpTo-later now later ts le h.remembered_up;
  ledger_up = UpTo-later now later us le h.ledger_up;
}

Agrees-kept :
    (now window : ℕ) (ts us : List ℕ)
    → Agrees now window ts us
    → Agrees now window (drop_old now window ts) us
Agrees-kept now window ts us h = rw (drop_old-fresh now window ts h.remembered_up) (record {
  same = fresh-fresh now now window ts (omega arith) ∙ h.same;
  remembered_up = UpTo-retain now _ ts h.remembered_up;
  ledger_up = h.ledger_up;
})

Agrees-push :
    (now window : ℕ) (ts us : List ℕ)
    → Agrees now window ts us
    → Agrees now window (ts ++ now ∷ []) (us ++ now ∷ [])
Agrees-push now window ts us h = record {
  same =
      retain-append _ ts (now ∷ [])
      ∙ ap (λ front. front ++ fresh now window (now ∷ [])) h.same
      ∙ sym (retain-append _ us (now ∷ []));
  remembered_up = UpTo-append now ts h.remembered_up;
  ledger_up = UpTo-append now us h.ledger_up;
}

-- The ledger's own rule: a try is let through as long as fewer than the bucket allows count now.
unfoldable pub ledger_try : ℕ → Bucket → List ℕ → Result (Unit {0}) × List ℕ
ledger_try now b ts =
    if ltb (length (fresh now b.window ts)) b.max
    then (ok tt, ts ++ now ∷ [])
    else (err rate_limited, ts)

-- Where what is remembered of somebody agrees with the ledger of all the tries that were let
-- through: one more try is answered as the ledger answers it, and both go on agreeing.
pub try_once_refines :
    (now : ℕ) (b : Bucket) (t : Tries) (ledger : List ℕ)
    → Agrees now b.window t.at_times ledger
    → ((try_once now b t).0 ≡ (ledger_try now b ledger).0)
      × Agrees now b.window (try_once now b t).1.at_times (ledger_try now b ledger).1
unfolding try_once ledger_try
try_once_refines now b t ledger h =
    let kept = drop_old now b.window t.at_times in
    let k = Agrees-kept now b.window t.at_times ledger h in
    let same : length kept ≡ length (fresh now b.window ledger) =
      ap length (drop_old-fresh now b.window t.at_times h.remembered_up ∙ h.same) in
    elim (Bool-cases (leb b.max (length kept))) [
      | inl full ↦
          let over : ltb (length (fresh now b.window ledger)) b.max ≡ false = ground arith in
          rw (full, over) (refl, k)
      | inr room ↦
          let under : ltb (length (fresh now b.window ledger)) b.max ≡ true = ground arith in
          rw (room, under) (refl, Agrees-push now b.window kept ledger k)
    ]
