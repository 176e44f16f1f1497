-- ===== src/Db/Records/Answers.antt =====
-- src/db/records.rs: what a push answers, envelope by envelope.
use mathlib.Core.List.{append-nil, append_assoc}
use uw_ussh_server.Prelude.{
  ℕ, ◌+◌, ◌≡◌, ◌≢◌, ◌∙◌, ap, sym, subst, inl, inr, List, [], ◌∷◌, ◌++◌, none, some, ◌==◌, nat_eq,
  nat_beq_iff, find, Bool-cases, if◌then◌else◌,
}
use uw_ussh_server.Prelude.Int.{ℤ}
use uw_ussh_server.Error.{ok}
use uw_ussh_server.Db.Tables.{AccountRow, RecordRow, Db}
use uw_ussh_server.Db.Records.{
  Proto, Envelope, Account, Quota, PushResponse, Pushing, is_record, get, row_to_envelope,
  kind_name, kind_from, take_in, refuse, push_one, push_each, start_push, answer, push_within,
}
use uw_ussh_server.Db.Records.Cases.{pushed, push_one_cases, push_within_cases}
use uw_ussh_server.Db.Records.Mailbox.{
  Mailbox, store, mailbox, pushing_mailbox, start_push-mailbox, take_in-store,
}

module _ {Kind : Type 0} where
  abbrev pub with_number : ℕ → ℕ → PushResponse Kind → PushResponse Kind
  with_number id n rest = record rest { accepted = record { id = id; seq = n } ∷ rest.accepted }

  abbrev pub with_conflict : Envelope Kind → PushResponse Kind → PushResponse Kind
  with_conflict held rest = record rest { conflicts = held ∷ rest.conflicts }

  -- What is answered to envelopes that are offered to a mailbox one by one: the next number to one
  -- that is new or based on the version held, and the version held to any other.
  unfoldable pub replies : Account → List (Envelope Kind) → Mailbox Kind → PushResponse Kind
  unfolding store
  replies account [] m = record { accepted = []; conflicts = []; cursor = m.last }
  replies account (e ∷ es) m =
      let taken = with_number e.id (m.last + 1) (replies account es (store account e m)) in
      let refused = replies account es m in
      elim (m.held e.id) [
        | none ↦ taken
        | some held ↦ if held.base_seq == e.base_seq then taken else with_conflict held refused
      ]

  -- An answer that goes on after what a push has answered so far.
  abbrev after : Pushing Kind → PushResponse Kind → PushResponse Kind
  after s rest = record {
    accepted = s.accepted ++ rest.accepted;
    conflicts = s.conflicts ++ rest.conflicts;
    cursor = rest.cursor;
  }

module _ {Kind : Type 0} (proto : Proto Kind) (account : Account)
    (lawful : (k : Kind) → kind_from proto (kind_name proto k) ≡ some k) (device now : ℕ) where
  replies-none :
      (e : Envelope Kind) (es : List (Envelope Kind)) (s : Pushing Kind)
      → find (is_record account.id e.id) s.rows ≡ none
      → replies account (e ∷ es) (pushing_mailbox proto account s)
        ≡ with_number e.id
            (s.seq + 1)
            (replies account es (store account e (pushing_mailbox proto account s)))
  unfolding replies get
  replies-none e es s missing = rw (missing, replies, get)

  replies_same :
      (e : Envelope Kind) (es : List (Envelope Kind)) (s : Pushing Kind) (r : RecordRow)
      → find (is_record account.id e.id) s.rows ≡ some r
      → r.seq ≡ e.base_seq
      → replies account (e ∷ es) (pushing_mailbox proto account s)
        ≡ with_number e.id
            (s.seq + 1)
            (replies account es (store account e (pushing_mailbox proto account s)))
  unfolding replies get row_to_envelope
  replies_same e es s r held same =
      rw (held, replies, get) (rw ((nat_beq_iff r.seq e.base_seq).1 same))

  replies_stale :
      (e : Envelope Kind) (es : List (Envelope Kind)) (s : Pushing Kind) (r : RecordRow)
      → find (is_record account.id e.id) s.rows ≡ some r
      → r.seq ≢ e.base_seq
      → replies account (e ∷ es) (pushing_mailbox proto account s)
        ≡ with_conflict
            (row_to_envelope proto account r)
            (replies account es (pushing_mailbox proto account s))
  unfolding replies get row_to_envelope
  replies_stale e es s r held other =
      rw (held, replies, get)
        (elim (Bool-cases (r.seq == e.base_seq)) [
          | inl same ↦ absurd (other ((nat_beq_iff r.seq e.base_seq).0 same))
          | inr differs ↦ rw differs
        ])

  refuse_held :
      (e : Envelope Kind) (s : Pushing Kind) (r : RecordRow)
      → find (is_record account.id e.id) s.rows ≡ some r
      → refuse proto account e s
        ≡ record s { conflicts = s.conflicts ++ row_to_envelope proto account r ∷ [] }
  unfolding refuse get
  refuse_held e s r held = rw (held, refuse, get)

  after_taken :
      (e : Envelope Kind) (s : Pushing Kind) (n b : ℤ) (rest : PushResponse Kind)
      → after (take_in proto account device now e s n b) rest
        ≡ after s (with_number e.id (s.seq + 1) rest)
  unfolding take_in
  after_taken e s n b rest = λ i. record {
    accepted = append_assoc s.accepted (record { id = e.id; seq = s.seq + 1 } ∷ []) rest.accepted i;
    conflicts = s.conflicts ++ rest.conflicts;
    cursor = rest.cursor;
  }

  after_refused :
      (held : Envelope Kind) (s : Pushing Kind) (rest : PushResponse Kind)
      → after (record s { conflicts = s.conflicts ++ held ∷ [] }) rest
        ≡ after s (with_conflict held rest)
  after_refused held s rest = λ i. record {
    accepted = s.accepted ++ rest.accepted;
    conflicts = append_assoc s.conflicts (held ∷ []) rest.conflicts i;
    cursor = rest.cursor;
  }

  push_each-replies :
      (es : List (Envelope Kind)) (s : Pushing Kind)
      → answer (push_each proto account device now es s)
        ≡ after s (replies account es (pushing_mailbox proto account s))
  unfolding push_each replies answer
  push_each-replies [] s = λ i. record {
    accepted = sym (append-nil s.accepted) i;
    conflicts = sym (append-nil s.conflicts) i;
    cursor = s.seq;
  }
  push_each-replies (e ∷ es) s =
      push_each-replies es (push_one proto account device now e s) ∙ first
    where
      Goes : Pushing Kind → Type 0
      Goes t =
          after t (replies account es (pushing_mailbox proto account t))
          ≡ after s (replies account (e ∷ es) (pushing_mailbox proto account s))

      taken :
          (n b : ℤ)
          → replies account (e ∷ es) (pushing_mailbox proto account s)
            ≡ with_number e.id
                (s.seq + 1)
                (replies account es (store account e (pushing_mailbox proto account s)))
          → Goes (take_in proto account device now e s n b)
      taken n b next =
          after_taken e s n b _
          ∙ ap (λ m. after s (with_number e.id (s.seq + 1) (replies account es m)))
              (take_in-store proto account lawful device now e s n b)
          ∙ ap (after s) (sym next)

      first : Goes (push_one proto account device now e s)
      first =
          push_one_cases proto account device now e s Goes
            (λ missing. taken _ _ (replies-none e es s missing))
            (λ r held same. taken _ _ (replies_same e es s r held same))
            (λ r held stale. subst Goes (sym (refuse_held e s r held)) (
              after_refused (row_to_envelope proto account r) s _
              ∙ ap (after s) (sym (replies_stale e es s r held stale))))

  -- Where the protocol reads each kind back from its own name: a push that is taken answers what
  -- the abstract mailbox replies when the envelopes are offered to it one by one: the next number
  -- to each that is new or based on the version held, the version held itself to each other, and
  -- the last number given as the cursor.
  pub push_within-replies :
      (es : List (Envelope Kind)) (quota : Quota) (db db' : Db) (response : PushResponse Kind)
      → push_within proto account device now es quota db ≡ (ok response, db')
      → response ≡ replies account es (mailbox proto account db)
  unfolding start_push
  push_within-replies es quota db db' response =
      push_within_cases proto account device now es quota db
        (λ x. x ≡ (ok response, db') → response ≡ replies account es (mailbox proto account db))
        (λ _ e. cc)
        (λ r a e.
          let same : answer (pushed proto account device now es quota db r) ≡ response = cc in
          sym same
          ∙ started r
          ∙ ap (replies account es) (start_push-mailbox proto account r db a.found))
    where
      started :
          (r : AccountRow)
          → answer (push_each proto account device now es (start_push r db))
            ≡ replies account es (pushing_mailbox proto account (start_push r db))
      started r = push_each-replies es (start_push r db)
