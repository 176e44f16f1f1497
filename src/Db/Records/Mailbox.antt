-- ===== src/Db/Records/Mailbox.antt =====
-- src/db/records.rs: the abstract mailbox that `push` implements. It holds the newest version of
-- each record under its id, and a record is taken only if it was based on the version held.
use uw_ussh_server.Prelude.{
  ℕ, ◌+◌, ◌≡◌, ◌≢◌, ◌∙◌, ap, refl, sym, subst, inl, inr, List, [], ◌∷◌, Option, none, some, arith,
  ◌==◌, nat_eq, nat_beq_iff, find, Bool-cases, Option-cases, if◌then◌else◌,
}
use uw_ussh_server.Prelude.Int.{ℤ}
use uw_ussh_server.Error.{ok}
use uw_ussh_server.Db.Tables.{AccountRow, RecordRow, Db, update_where, account_row}
use uw_ussh_server.Db.Records.{
  Proto, Envelope, Account, Quota, PushResponse, Pushing, is_record, upsert, get, kind_name,
  kind_from, row_to_envelope, new_row, take_in, refuse, push_one, push_each, start_push,
  commit_push, set_counts, push_within,
}
use uw_ussh_server.Db.Records.Cases.{pushed, push_one_cases, push_within_cases}

pub record Mailbox (Kind : Type 0) : Type 0 where
  -- The last number handed out.
  pub last : ℕ
  pub held : ℕ → Option (Envelope Kind)

module _ {Kind : Type 0} (account : Account) where
  -- The envelope under its new number is the version held from now on.
  unfoldable pub store : Envelope Kind → Mailbox Kind → Mailbox Kind
  store e m = record {
    last = m.last + 1;
    held = λ j.
        if e.id == j
        then some (record e {
          vault_id = account.vault_id;
          base_seq = m.last + 1;
          seq = some (m.last + 1);
        })
        else m.held j;
  }

  unfoldable pub offer : Envelope Kind → Mailbox Kind → Mailbox Kind
  unfolding store
  offer e m = elim (m.held e.id) [
    | none ↦ store e m
    | some h ↦ if h.base_seq == e.base_seq then store e m else m
  ]

  unfoldable pub offer_all : List (Envelope Kind) → Mailbox Kind → Mailbox Kind
  offer_all [] m = m
  offer_all (e ∷ es) m = offer_all es (offer e m)

find-upsert :
    (n : RecordRow) (j : ℕ) (rows : List RecordRow)
    → find (is_record n.account_id j) (upsert n rows)
      ≡ (if n.id == j then some n else find (is_record n.account_id j) rows)
unfolding find upsert
find-upsert n j [] = ground arith
find-upsert n j (r ∷ rows) = ground (arith, find-upsert n j rows)

abbrev pub last_number : Option AccountRow → ℕ
last_number none = 0
last_number (some r) = r.seq

account_row-update :
    (a n : ℕ) (c b : ℤ) (rows : List AccountRow) (r : AccountRow)
    → account_row a rows ≡ some r
    → account_row a (update_where (λ x. x.id == a) (set_counts n c b) rows)
      ≡ some (set_counts n c b r)
unfolding account_row find update_where
account_row-update a n c b [] r e = cc
account_row-update a n c b (x ∷ rows) r e = ground (arith, account_row-update a n c b rows r)

module _ {Kind : Type 0} (proto : Proto Kind) (account : Account) where
  -- What the rows of an account stand for.
  abbrev pub mailbox : Db → Mailbox Kind
  mailbox db = record {
    last = last_number (account_row account.id db.accounts);
    held = get proto db.records account;
  }

  abbrev pub pushing_mailbox : Pushing Kind → Mailbox Kind
  pushing_mailbox s = record { last = s.seq; held = get proto s.rows account }

  pub start_push-mailbox :
      (r : AccountRow) (db : Db)
      → account_row account.id db.accounts ≡ some r
      → pushing_mailbox (start_push r db) ≡ mailbox db
  unfolding start_push
  start_push-mailbox r db found =
      λ i. record { last = ap last_number (sym found) i; held = get proto db.records account }

  module _ (lawful : (k : Kind) → kind_from proto (kind_name proto k) ≡ some k)
      (device now : ℕ) where
    new_row_stored :
        (e : Envelope Kind) (n : ℕ)
        → row_to_envelope proto account (new_row proto account device now n e)
          ≡ record e { vault_id = account.vault_id; base_seq = n; seq = some n }
    unfolding row_to_envelope new_row
    new_row_stored e n = rw (lawful e.kind)

    -- What a written envelope is read back as, and that every other record is as it was.
    get-take_in :
        (e : Envelope Kind) (n : ℕ) (rows : List RecordRow) (j : ℕ)
        → get proto (upsert (new_row proto account device now n e) rows) account j ≡ (
            if e.id == j
            then some (record e { vault_id = account.vault_id; base_seq = n; seq = some n })
            else get proto rows account j)
    get-take_in e n rows j =
        let row = new_row proto account device now n e in
        let found : find (is_record account.id j) (upsert row rows)
            ≡ (if e.id == j then some row else find (is_record account.id j) rows) =
          unfold new_row in find-upsert row j rows in
        elim (Bool-cases (e.id == j)) [
          | inl same ↦ rw same (unfold get in rw (found, same, get) (ap some (new_row_stored e n)))
          | inr other ↦ rw other (unfold get in rw (found, other, get))
        ]

    pub take_in-store :
        (e : Envelope Kind) (s : Pushing Kind) (n b : ℤ)
        → pushing_mailbox (take_in proto account device now e s n b)
          ≡ store account e (pushing_mailbox s)
    unfolding take_in store
    take_in-store e s n b =
        λ i. record { last = s.seq + 1; held = λ j. get-take_in e (s.seq + 1) s.rows j i }

    offer-none :
        (e : Envelope Kind) (s : Pushing Kind)
        → find (is_record account.id e.id) s.rows ≡ none
        → offer account e (pushing_mailbox s) ≡ store account e (pushing_mailbox s)
    unfolding offer get
    offer-none e s missing = rw (missing, offer, get)

    offer_same :
        (e : Envelope Kind) (s : Pushing Kind) (r : RecordRow)
        → find (is_record account.id e.id) s.rows ≡ some r
        → r.seq ≡ e.base_seq
        → offer account e (pushing_mailbox s) ≡ store account e (pushing_mailbox s)
    unfolding offer get row_to_envelope
    offer_same e s r held same = rw (held, offer, get) (rw ((nat_beq_iff r.seq e.base_seq).1 same))

    offer_stale :
        (e : Envelope Kind) (s : Pushing Kind) (r : RecordRow)
        → find (is_record account.id e.id) s.rows ≡ some r
        → r.seq ≢ e.base_seq
        → offer account e (pushing_mailbox s) ≡ pushing_mailbox s
    unfolding offer get row_to_envelope
    offer_stale e s r held other =
        rw (held, offer, get)
          (elim (Bool-cases (r.seq == e.base_seq)) [
            | inl same ↦ absurd (other ((nat_beq_iff r.seq e.base_seq).0 same))
            | inr differs ↦ rw differs
          ])

    refuse_mailbox :
        (e : Envelope Kind) (s : Pushing Kind)
        → pushing_mailbox (refuse proto account e s) ≡ pushing_mailbox s
    unfolding refuse
    refuse_mailbox e s = elim (Option-cases (get proto s.rows account e.id)) [
      | inl missing ↦ rw (missing, refuse)
      | inr (h, held) ↦ rw (held, refuse)
    ]

    push_one-offer :
        (e : Envelope Kind) (s : Pushing Kind)
        → pushing_mailbox (push_one proto account device now e s)
          ≡ offer account e (pushing_mailbox s)
    push_one-offer e s =
        push_one_cases proto account device now e s
          (λ t. pushing_mailbox t ≡ offer account e (pushing_mailbox s))
          (λ missing. take_in-store e s _ _ ∙ sym (offer-none e s missing))
          (λ r held same. take_in-store e s _ _ ∙ sym (offer_same e s r held same))
          (λ r held other. refuse_mailbox e s ∙ sym (offer_stale e s r held other))

    push_each-offer_all :
        (es : List (Envelope Kind)) (s : Pushing Kind)
        → pushing_mailbox (push_each proto account device now es s)
          ≡ offer_all account es (pushing_mailbox s)
    unfolding push_each offer_all
    push_each-offer_all [] s = refl
    push_each-offer_all (e ∷ es) s =
        push_each-offer_all es (push_one proto account device now e s)
        ∙ ap (offer_all account es) (push_one-offer e s)

    mailbox-commit_push :
        (s : Pushing Kind) (r : AccountRow) (db : Db)
        → account_row account.id db.accounts ≡ some r
        → mailbox (commit_push account s db) ≡ pushing_mailbox s
    unfolding commit_push
    mailbox-commit_push s r db found = λ i. record {
      last =
          ap last_number (account_row-update account.id s.seq s.count s.bytes db.accounts r found)
            i;
      held = get proto s.rows account;
    }

    -- Where the protocol reads each kind back from its own name: a push that is taken does to the
    -- records and the last number of the account what offering its envelopes one by one does to
    -- the abstract mailbox, which holds for each id one version under the number it was given.
    pub push_within_refines :
        (es : List (Envelope Kind)) (quota : Quota) (db db' : Db) (response : PushResponse Kind)
        → push_within proto account device now es quota db ≡ (ok response, db')
        → mailbox db' ≡ offer_all account es (mailbox db)
    push_within_refines es quota db db' response =
        push_within_cases proto account device now es quota db
          (λ x. x ≡ (ok response, db') → mailbox db' ≡ offer_all account es (mailbox db))
          (λ _ e. cc)
          (λ r a e.
            let s = pushed proto account device now es quota db r in
            let same : commit_push account s db ≡ db' = cc in
            subst (λ d. mailbox d ≡ offer_all account es (mailbox db)) same
              (mailbox-commit_push s r db a.found
                ∙ push_each-offer_all es (start_push r db)
                ∙ ap (offer_all account es) (start_push-mailbox r db a.found)))
