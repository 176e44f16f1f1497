-- ===== src/Db/Invites/Tokens.antt =====
-- src/db/invites.rs: an enrolment token lets in once, and five wrong passwords use it up.
use uw_ussh_server.Prelude.{
  ℕ, ◌+◌, ◌≤◌, ◌<◌, ◌≡◌, inl, inr, true, List, [], ◌∷◌, none, some, arith, nat_eq, if◌then◌else◌,
  retain, length, ltb, refl, Bool-cases, Option-cases, find, All, All-imp,
}
use uw_ussh_server.Prelude.Text.{text_eq, as_bytes}
use uw_ussh_server.Db.Tables.{EnrolmentRow, update_where}
use uw_ussh_server.Db.Invites.{
  is_unused, is_enrolment, peek_enrolment, redeem_enrolment, enrolment_failed, enrolment_attempts,
}

module _ (sha256 : List ℕ → List ℕ) where
  find_marked :
      (now later : ℕ) (token : List ℕ) (rows : List EnrolmentRow)
      → find (is_enrolment sha256 later token) (
          update_where
            (is_unused (sha256 (as_bytes token)))
            (λ r. record r { used_ms = some now })
            rows)
        ≡ none
  unfolding find update_where
  find_marked now later token [] = refl
  find_marked now later token (r ∷ rows) = ground (arith, find_marked now later token rows)

  redeemed_none :
      (now : ℕ) (token : List ℕ) (rows : List EnrolmentRow)
      → peek_enrolment sha256 now token rows ≡ none
      → redeem_enrolment sha256 now token rows ≡ (none, rows)
  unfolding redeem_enrolment
  redeemed_none now token rows h = rw (h, redeem_enrolment) refl

  marked : ℕ → List ℕ → List EnrolmentRow → List EnrolmentRow
  marked now token =
      update_where (is_unused (sha256 (as_bytes token))) (λ r. record r { used_ms = some now })

  redeemed_some :
      (now : ℕ) (token : List ℕ) (rows : List EnrolmentRow) (account : ℕ)
      → peek_enrolment sha256 now token rows ≡ some account
      → redeem_enrolment sha256 now token rows ≡ (
        if ltb 0 (length (retain (is_unused (sha256 (as_bytes token))) rows))
            then some account
            else none,
        marked now token rows,
      )
  unfolding redeem_enrolment marked
  redeemed_some now token rows account h = rw (h, redeem_enrolment) refl

  marked-none :
      (now later : ℕ) (token : List ℕ) (rows : List EnrolmentRow)
      → peek_enrolment sha256 later token (marked now token rows) ≡ none
  unfolding peek_enrolment marked
  marked-none now later token rows = rw (find_marked now later token rows) refl

  found_good :
      (now : ℕ) (token : List ℕ) (rows : List EnrolmentRow) (r : EnrolmentRow)
      → find (is_enrolment sha256 now token) rows ≡ some r
      → ltb 0 (length (retain (is_unused (sha256 (as_bytes token))) rows)) ≡ true
  unfolding find retain
  found_good now token [] r h = cc
  found_good now token (x ∷ rows) r h = ground (arith, found_good now token rows r, h)

  good_row :
      (now : ℕ) (token : List ℕ) (rows : List EnrolmentRow) (account : ℕ)
      → peek_enrolment sha256 now token rows ≡ some account
      → ltb 0 (length (retain (is_unused (sha256 (as_bytes token))) rows)) ≡ true
  unfolding peek_enrolment
  good_row now token rows account h =
      elim (Option-cases (find (is_enrolment sha256 now token) rows)) [
        | inl missing ↦ absurd (ground (arith, h, missing))
        | inr (r, found) ↦ found_good now token rows r found
      ]

  -- An enrolment token that names an account is redeemed for it, and never again.
  pub redeem_enrolment-once :
      (now later : ℕ) (token : List ℕ) (rows : List EnrolmentRow) (account : ℕ)
      → peek_enrolment sha256 now token rows ≡ some account
      → ((redeem_enrolment sha256 now token rows).0 ≡ some account)
        × ((redeem_enrolment sha256 later token (redeem_enrolment sha256 now token rows).1).0
            ≡ none)
  redeem_enrolment-once now later token rows account h =
      let gone =
        redeemed_none later token (marked now token rows) (marked-none now later token rows) in
      rw (redeemed_some now token rows account h)
        (rw (good_row now token rows account h) refl, rw gone refl)

  -- Wrong passwords tried with one token, each at its time.
  unfoldable pub fail_all : List ℕ → List ℕ → List EnrolmentRow → List EnrolmentRow
  fail_all token [] rows = rows
  fail_all token (now ∷ times) rows =
      fail_all token times (enrolment_failed sha256 now token rows).1

  -- A row of the token that is not used up has seen some failures.
  abbrev HasFailed : ℕ → List ℕ → EnrolmentRow → Type 0
  HasFailed n token r = is_unused (sha256 (as_bytes token)) r ≡ true → n ≤ r.failures

  failed_once :
      (now n : ℕ) (token : List ℕ) (rows : List EnrolmentRow)
      → All (HasFailed n token) rows
      → All (HasFailed (n + 1) token) (enrolment_failed sha256 now token rows).1
  unfolding enrolment_failed update_where
  failed_once now n token [] h = tt
  failed_once now n token (r ∷ rows) h =
      (λ u. ground (arith, h.0, u), failed_once now n token rows h.1)

  -- One that is not used up after a failure has failed fewer times than use it up.
  HasFewFailed : List ℕ → EnrolmentRow → Type 0
  HasFewFailed token r =
      is_unused (sha256 (as_bytes token)) r ≡ true → r.failures < enrolment_attempts

  few_failed :
      (now : ℕ) (token : List ℕ) (rows : List EnrolmentRow)
      → All (HasFewFailed token) (enrolment_failed sha256 now token rows).1
  unfolding enrolment_failed update_where HasFewFailed
  few_failed now token [] = tt
  few_failed now token (r ∷ rows) = (λ u. ground (arith, u), few_failed now token rows)

  fail_all-HasFailed :
      (n m : ℕ) (token times : List ℕ) (rows : List EnrolmentRow)
      → All (HasFailed n token) rows
      → m ≤ n + length times
      → All (HasFailed m token) (fail_all token times rows)
  unfolding fail_all
  fail_all-HasFailed n m token [] rows h le =
      All-imp (HasFailed n token) (HasFailed m token) (λ r failed u. omega (arith, failed u, le))
        rows h
  fail_all-HasFailed n m token (now ∷ times) rows h le =
      fail_all-HasFailed (n + 1) m token times (enrolment_failed sha256 now token rows).1
        (failed_once now n token rows h) (omega (arith, le))

  fail_all-HasFewFailed :
      (token times : List ℕ) (rows : List EnrolmentRow)
      → All (HasFewFailed token) rows
      → All (HasFewFailed token) (fail_all token times rows)
  unfolding fail_all
  fail_all-HasFewFailed token [] rows h = h
  fail_all-HasFewFailed token (now ∷ times) rows h =
      fail_all-HasFewFailed token times (enrolment_failed sha256 now token rows).1
        (few_failed now token rows)

  find_used :
      (later n : ℕ) (token : List ℕ) (rows : List EnrolmentRow)
      → enrolment_attempts ≤ n
      → All (HasFailed n token) rows
      → All (HasFewFailed token) rows
      → find (is_enrolment sha256 later token) rows ≡ none
  unfolding find HasFewFailed
  find_used later n token [] many h few = refl
  find_used later n token (r ∷ rows) many h few =
      elim (Bool-cases (is_unused (sha256 (as_bytes token)) r)) [
        | inl unused ↦ absurd (omega (arith, many, h.0 unused, few.0 unused))
        | inr used ↦ rw used (find_used later n token rows many h.1 few.1)
      ]

  none_failed : (token : List ℕ) (rows : List EnrolmentRow) → All (HasFailed 0 token) rows
  none_failed token [] = tt
  none_failed token (r ∷ rows) = (λ u. omega arith, none_failed token rows)

  -- After as many wrong master passwords as `enrolment_attempts`, or more, tried with one token at
  -- any times, the token names no account.
  pub fail_all-peek_enrolment :
      (token : List ℕ) (first : ℕ) (times : List ℕ) (later : ℕ) (rows : List EnrolmentRow)
      → enrolment_attempts ≤ length (first ∷ times)
      → peek_enrolment sha256 later token (fail_all token (first ∷ times) rows) ≡ none
  unfolding peek_enrolment fail_all
  fail_all-peek_enrolment token first times later rows many =
      let rows' = (enrolment_failed sha256 first token rows).1 in
      rw
        (find_used later (1 + length times) token (fail_all token times rows') (omega (arith, many))
          (fail_all-HasFailed 1 (1 + length times) token times rows'
            (failed_once first 0 token rows (none_failed token rows)) (omega arith))
          (fail_all-HasFewFailed token times rows' (few_failed first token rows)))
        refl
