-- ===== src/Pairing/Bounds.antt =====
-- src/pairing.rs: the relay stays small, whatever is asked of it.
use uw_ussh_server.Prelude.{
  ℕ, ◌+◌, ◌≤◌, ◌<◌, ◌≡◌, Bool, List, [], ◌∷◌, some, arith, ◌==◌, nat_eq, nat_beq_iff, length,
  length-retain_le, retain, All, All-retain, if◌then◌else◌,
}
use uw_ussh_server.Prelude.HashMap.{
  lookup, insert, remove, IsKeyed, insert-IsKeyed, remove-IsKeyed, retain-IsKeyed, insert-All,
  remove-All, length-insert_le, length-insert,
}
use uw_ussh_server.Prelude.Text.{text_eq}
use uw_ussh_server.Pairing.{
  Session, Pairings, open_at_most, open_per_account, max_messages, is_account,
}

abbrev pub per_account : ℕ → Pairings → ℕ
per_account account inner = length (retain (is_account account) inner)

-- A side never holds more than the handshake takes.
abbrev pub IsShort : List ℕ × Session → Type 0
IsShort e = (length e.1.from_a ≤ max_messages) × (length e.1.from_b ≤ max_messages)

pub record IsBounded (inner : Pairings) : Type 0 where
  pub keyed : IsKeyed inner
  pub few : length inner ≤ open_at_most
  pub fair : (account : ℕ) → per_account account inner ≤ open_per_account
  pub short : All IsShort inner

length-retain-retain {ℓ} :
    {A : Type ℓ} (p q : A → Bool) (xs : List A)
    → length (retain p (retain q xs)) ≤ length (retain p xs)
unfolding retain
length-retain-retain p q [] = omega arith
length-retain-retain p q (x ∷ xs) = ground (arith, length-retain-retain p q xs)

pub retain-IsBounded :
    (q : List ℕ × Session → Bool) (inner : Pairings) → IsBounded inner → IsBounded (retain q inner)
retain-IsBounded q inner h = record {
  keyed = retain-IsKeyed q inner h.keyed;
  few = omega (arith, h.few, length-retain_le q inner);
  fair =
      λ account. omega (arith, h.fair account, length-retain-retain (is_account account) q inner);
  short = All-retain IsShort q inner h.short;
}

length-remove_le : (id : List ℕ) (inner : Pairings) → length (remove id inner) ≤ length inner
unfolding remove
length-remove_le id [] = omega arith
length-remove_le id ((j, s) ∷ inner) = ground (arith, length-remove_le id inner)

per_account-remove :
    (account : ℕ) (id : List ℕ) (inner : Pairings)
    → per_account account (remove id inner) ≤ per_account account inner
unfolding remove retain
per_account-remove account id [] = omega arith
per_account-remove account id ((j, s) ∷ inner) = ground (arith, per_account-remove account id inner)

pub remove-IsBounded :
    (id : List ℕ) (inner : Pairings) → IsBounded inner → IsBounded (remove id inner)
remove-IsBounded id inner h = record {
  keyed = remove-IsKeyed id inner h.keyed;
  few = omega (arith, h.few, length-remove_le id inner);
  fair = λ account. omega (arith, h.fair account, per_account-remove account id inner);
  short = remove-All IsShort id inner h.short;
}

-- A session put back for the one that was there, of the same account.
per_account-insert :
    (account : ℕ) (id : List ℕ) (s s' : Session) (inner : Pairings)
    → lookup id inner ≡ some s
    → s'.account ≡ s.account
    → per_account account (insert id s' inner) ≡ per_account account inner
unfolding lookup insert retain
per_account-insert account id s s' [] held same = cc
per_account-insert account id s s' ((j, r) ∷ inner) held same =
    ground (arith, per_account-insert account id s s' inner)

per_account-insert_new :
    (account : ℕ) (id : List ℕ) (s : Session) (inner : Pairings)
    → per_account account (insert id s inner)
      ≤ (if s.account == account then per_account account inner + 1 else per_account account inner)
unfolding insert retain
per_account-insert_new account id s [] = ground (arith, nat_beq_iff s.account account)
per_account-insert_new account id s ((j, r) ∷ inner) =
    ground (arith, per_account-insert_new account id s inner, nat_beq_iff s.account account)

pub insert-IsBounded :
    (id : List ℕ) (s s' : Session) (inner : Pairings)
    → IsBounded inner
    → lookup id inner ≡ some s
    → s'.account ≡ s.account
    → IsShort (id, s')
    → IsBounded (insert id s' inner)
insert-IsBounded id s s' inner h held same short = record {
  keyed = insert-IsKeyed id s' inner h.keyed;
  few = ground (arith, h.few, length-insert id s' inner);
  fair =
      λ account. omega (arith, h.fair account, per_account-insert account id s s' inner held same);
  short = insert-All IsShort id s' inner short h.short;
}

pub insert_new-IsBounded :
    (id : List ℕ) (s : Session) (inner : Pairings)
    → IsBounded inner
    → length inner < open_at_most
    → per_account s.account inner < open_per_account
    → IsShort (id, s)
    → IsBounded (insert id s inner)
insert_new-IsBounded id s inner h room fair short = record {
  keyed = insert-IsKeyed id s inner h.keyed;
  few = omega (arith, room, length-insert_le id s inner);
  fair = λ account. ground (
    arith,
    h.fair account,
    fair,
    nat_beq_iff s.account account,
    per_account-insert_new account id s inner,
  );
  short = insert-All IsShort id s inner short h.short;
}
