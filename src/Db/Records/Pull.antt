-- ===== src/Db/Records/Pull.antt =====
-- src/db/records.rs, `pull`: nothing is missing between a page and the rows after its cursor, a page
-- keeps its bounds, and a device that pulls until there is no more has seen everything.
use mathlib.Core.List.{append-nil}
use mathlib.Core.Path.{ap₂}
use uw_ussh_server.Prelude.{
  ℕ, zero, suc, All, ◌^◌, ◌≤◌, ◌<◌, ◌≡◌, ◌⊎◌, ◌∙◌, ap, refl, sym, subst, inl, inr, Bool, true,
  false, ◌&&◌, not, List, [], ◌∷◌, ◌++◌, map, Option, none, some, arith, ltb, retain, sum_by,
  is_empty, length, length-append, Bool-cases,
}
use uw_ussh_server.Db.Tables.{RecordRow, Db}
use uw_ussh_server.Db.Records.{
  Proto, Envelope, Account, PullResponse, Page, first_page, cursor_past, read_page, row_to_envelope,
  rows_after, clamp_limit, pull,
}
use uw_ussh_server.Db.Records.Order.{
  Ascending, rows_above, rows_above_later, rows_above-Ascending, rows_after-rows_above,
  rows_above-All,
}
use uw_ussh_server.Db.Records.Numbers.{IsNumbered}
use uw_ussh_server.Db.Records.Pages.{shown, past, Splits, read_page-Splits, read_page-IsWithin}

retain-append {ℓ} :
    {A : Type ℓ} (p : A → Bool) (xs ys : List A) → retain p (xs ++ ys) ≡ retain p xs ++ retain p ys
unfolding retain
retain-append p [] ys = refl
retain-append p (x ∷ xs) ys = ground (arith, retain-append p xs ys)

keep_all :
    (k n : ℕ) (rs : List RecordRow) → k ≤ n → Ascending n rs → retain (λ r. ltb k r.seq) rs ≡ rs
unfolding retain
keep_all k n [] le h = refl
keep_all k n (r ∷ rs) le h = ground (arith, keep_all k r.seq rs (omega arith) h.1)

is_empty-map :
    {Kind : Type 0} (f : RecordRow → Envelope Kind) (rs : List RecordRow)
    → is_empty (map f rs) ≡ is_empty rs
is_empty-map f [] = refl
is_empty-map f (r ∷ rs) = refl

is_empty-eq_nil : (rs : List RecordRow) → is_empty rs ≡ true → rs ≡ []
is_empty-eq_nil [] h = refl
is_empty-eq_nil (r ∷ rs) h = cc

-- The two parts of a list of rows that is read as envelopes.
pub record Cut {Kind : Type 0} (f : RecordRow → Envelope Kind) (rows : List RecordRow)
    (front back : List (Envelope Kind)) : Type 0 where
  pub first : List RecordRow
  pub later : List RecordRow
  pub whole : rows ≡ first ++ later
  pub first_eq : map f first ≡ front
  pub later_eq : map f later ≡ back

cut :
    {Kind : Type 0} (f : RecordRow → Envelope Kind) (rows : List RecordRow)
    (front back : List (Envelope Kind))
    → map f rows ≡ front ++ back
    → Cut f rows front back
cut f rows [] back h = record {
  first = [];
  later = rows;
  whole = refl;
  first_eq = refl;
  later_eq = h;
}
cut f [] (e ∷ front) back h = absurd (cc)
cut f (r ∷ rows) (e ∷ front) back h =
    let c = cut f rows front back (cc) in
    record {
      first = r ∷ c.first;
      later = c.later;
      whole = ap (◌∷◌ r) c.whole;
      first_eq = cc (c.first_eq);
      later_eq = c.later_eq;
    }

and_false : (x y : Bool) → (x ≡ true → y ≡ false) → (x && y) ≡ false
and_false true y h = h refl
and_false false y h = refl

false_of_and : (x y : Bool) → (x && y) ≡ false → x ≡ true → y ≡ false
false_of_and true y h more = h
false_of_and false y h more = cc

All-front : (P : RecordRow → Type 0) (xs ys : List RecordRow) → All P (xs ++ ys) → All P xs
All-front P [] ys h = tt
All-front P (x ∷ xs) ys h = (h.0, All-front P xs ys h.1)

module _ {Kind : Type 0} (proto : Proto Kind) (account : Account) where
  abbrev pub envelopes_of : List RecordRow → List (Envelope Kind)
  envelopes_of = map (row_to_envelope proto account)

  -- The cursor past the first rows leaves exactly the later ones above it.
  past_cut :
      (n : ℕ) (first later : List RecordRow)
      → Ascending n (first ++ later)
      → (n ≤ past proto (envelopes_of first) n)
        × (retain (λ r. ltb (past proto (envelopes_of first) n) r.seq) (first ++ later) ≡ later)
  unfolding retain
  past_cut n [] later h = (omega arith, keep_all n n later (omega arith) h)
  past_cut n (r ∷ first) later h =
      let step : cursor_past proto (row_to_envelope proto account r) n ≡ r.seq =
        unfold row_to_envelope in omega arith in
      let rest = past_cut r.seq first later h.1 in
      subst
        (λ k.
          (n ≤ past proto (envelopes_of first) k)
          × (retain (λ x. ltb (past proto (envelopes_of first) k) x.seq) (r ∷ first ++ later)
              ≡ later))
        (sym step) (omega (arith, rest.0), ground (arith, rest.0, rest.1))

  past_fits :
      (n : ℕ) (rows : List RecordRow)
      → n < 2 ^ 63
      → All (λ (r : RecordRow). r.seq < 2 ^ 63) rows
      → past proto (envelopes_of rows) n < 2 ^ 63
  past_fits n [] fits small = fits
  past_fits n (r ∷ rows) fits small =
      past_fits (cursor_past proto (row_to_envelope proto account r) n) rows
        (unfold row_to_envelope in omega (arith, fits, small.0)) small.1

  first-nonempty :
      (manifests : Bool) (es front : List (Envelope Kind)) (first : List RecordRow)
      → envelopes_of first ≡ front
      → es ≡ shown proto manifests front
      → is_empty es ≡ false
      → 0 < length first
  unfolding retain
  first-nonempty manifests es front [] e h some_es =
      absurd (not_empty (some_es ∙ refl) (h ∙ ap (shown proto manifests) (sym e)))
    where
      not_empty : is_empty es ≡ false → es ≡ [] → ⊥
      not_empty filled none_es = cc (ap is_empty none_es)
  first-nonempty manifests es front (r ∷ first) e h some_es = omega arith

  module _ (since limit : ℕ) (manifests : Bool) (db : Db) where
    abbrev pub page : PullResponse Kind
    page = pull proto account since limit manifests db

    -- What a device that stands at `c` has yet to be shown.
    abbrev pub unread : ℕ → List (Envelope Kind)
    unread c = shown proto manifests (envelopes_of (rows_above db account.id c))

    page_state : Page proto
    page_state =
        read_page proto manifests (clamp_limit proto limit)
          (envelopes_of (rows_after db account.id since)) (first_page proto since)

    page_eq :
        (page.envelopes ≡ page_state.envelopes)
        × (page.cursor ≡ page_state.cursor)
        × (page.has_more ≡ page_state.has_more)
    unfolding pull page_state
    page_eq = (refl, refl, refl)

    page_Splits :
        Splits proto manifests
          (envelopes_of (rows_after db account.id since))
          (first_page proto since)
          page_state
    unfolding page_state
    page_Splits =
        read_page-Splits proto manifests (clamp_limit proto limit)
          (envelopes_of (rows_after db account.id since)) (first_page proto since) refl

    page_cut :
        Cut
          (row_to_envelope proto account)
          (rows_after db account.id since)
          page_Splits.front
          page_Splits.back
    page_cut = cut (row_to_envelope proto account) _ _ _ page_Splits.whole

    page_rows : since < 2 ^ 63 → rows_above db account.id since ≡ page_cut.first ++ page_cut.later
    page_rows fits = sym (rows_after-rows_above db account.id since fits) ∙ page_cut.whole

    at_end : page.cursor ≡ past proto (envelopes_of page_cut.first) since
    at_end =
        page_eq.1 ∙ page_Splits.reached ∙ ap (λ es. past proto es since) (sym page_cut.first_eq)

    -- Where a page stops: its cursor, and the rows left above it.
    page_end :
        since < 2 ^ 63
        → IsNumbered db
        → (since ≤ page.cursor) × (rows_above db account.id page.cursor ≡ page_cut.later)
    page_end fits h =
        let c = page_cut in
        let up = rows_above-Ascending db account.id since h.distinct in
        let p = past_cut since c.first c.later (subst (Ascending since) (page_rows fits) up) in
        rw at_end
          (p.0, rows_above_later db account.id since _ p.0 ∙ ap (retain _) (page_rows fits) ∙ p.1)

    -- A page asked for from a cursor that fits leaves one that fits.
    page_fits :
        since < 2 ^ 63 → All (λ (r : RecordRow). r.seq < 2 ^ 63) db.records → page.cursor < 2 ^ 63
    page_fits fits small = rw at_end (
        past_fits since page_cut.first fits (
          All-front (λ (r : RecordRow). r.seq < 2 ^ 63) page_cut.first page_cut.later
            (subst (All (λ (r : RecordRow). r.seq < 2 ^ 63)) (page_rows fits)
              (rows_above-All (λ (r : RecordRow). r.seq < 2 ^ 63) db account.id since small))))

    -- From a cursor below 2 ^ 63, in a database where no number stands twice in an account or
    -- above its last one: a page and what is above its cursor are together, in order, what was
    -- above the cursor it was asked from; the cursor does not go back, and `has_more` says whether
    -- rows are left above it.
    pub pull-unread :
        since < 2 ^ 63
        → IsNumbered db
        → (page.envelopes ++ unread page.cursor ≡ unread since)
          × (since ≤ page.cursor)
          × (page.has_more ≡ not (is_empty (rows_above db account.id page.cursor)))
    pull-unread fits h =
        let (le, later) = page_end fits h in
        let c = page_cut in
        (
          ap₂ ◌++◌ (page_eq.0 ∙ page_Splits.held) (
                ap (λ rows. shown proto manifests (envelopes_of rows)) later
                ∙ ap (shown proto manifests) c.later_eq)
              ∙ sym (retain-append _ page_Splits.front page_Splits.back)
              ∙ ap (shown proto manifests) (sym page_Splits.whole)
              ∙ ap (λ rows. shown proto manifests (envelopes_of rows))
                  (rows_after-rows_above db account.id since fits),
          le,
          page_eq.2
              ∙ page_Splits.honest
              ∙ ap (λ es. not (is_empty es)) (sym c.later_eq)
              ∙ ap not (is_empty-map (row_to_envelope proto account) c.later)
              ∙ ap (λ rows. not (is_empty rows)) (sym later),
        )

    -- With a protocol whose batch is at least one: a page holds at most the clamped limit of
    -- envelopes, and at most the bytes of a batch unless it is a single envelope; a page that says
    -- that there is more is not empty.
    pub pull_bounds :
        1 ≤ proto.max_batch
        → (length page.envelopes ≤ clamp_limit proto limit)
          × ((sum_by (λ e. length e.blob) page.envelopes ≤ proto.max_batch_bytes)
              ⊎ (length page.envelopes ≤ 1))
          × ((page.has_more && is_empty page.envelopes) ≡ false)
    unfolding pull
    pull_bounds least =
        let w =
          read_page-IsWithin proto manifests (clamp_limit proto limit)
            (envelopes_of (rows_after db account.id since)) (first_page proto since) (omega arith)
            refl
            (record {
              counted = unfold sum_by in refl;
              short = omega arith;
              light = inl (omega arith);
              never_empty = λ more. cc;
            }) in
        (
          w.short,
          rw (← w.counted) w.light,
          and_false page.has_more (is_empty page.envelopes) w.never_empty,
        )

    -- A page that says that there is more leaves fewer rows behind.
    pull-shrinks :
        since < 2 ^ 63
        → 1 ≤ proto.max_batch
        → IsNumbered db
        → page.has_more ≡ true
        → length (rows_above db account.id page.cursor) < length (rows_above db account.id since)
    pull-shrinks fits least h more =
        let c = page_cut in
        let some_first =
          first-nonempty manifests page.envelopes page_Splits.front c.first c.first_eq
            (page_eq.0 ∙ page_Splits.held)
            (false_of_and page.has_more (is_empty page.envelopes) (pull_bounds least).2 more) in
        omega (
          arith,
          some_first,
          ap length (page_rows fits),
          length-append c.first c.later,
          ap length (page_end fits h).1,
        )

  module _ (limit : ℕ) (manifests : Bool) (db : Db) where
    -- A device that pulls from its cursor until it is told that there is no more.
    pub drain : ℕ → ℕ → Option (List (Envelope Kind))
    drain zero since = none
    drain (suc fuel) since =
        let p = pull proto account since limit manifests db in
        elim p.has_more [
          | false ↦ some p.envelopes
          | true ↦ elim (drain fuel p.cursor) [
            | none ↦ none
            | some later ↦ some (p.envelopes ++ later)
          ]
        ]

    -- From a cursor below 2 ^ 63, with a protocol whose batch is at least one, and a database
    -- whose numbers are below 2 ^ 63 and where none stands twice in an account or above its last
    -- one: a device that pulls from its cursor until it is told that there is no more, with more
    -- rounds than there are rows above the cursor, ends and has been shown everything above its
    -- cursor that it reads, in order and once.
    pub drain-unread :
        (fuel since : ℕ)
        → since < 2 ^ 63
        → All (λ (r : RecordRow). r.seq < 2 ^ 63) db.records
        → 1 ≤ proto.max_batch
        → IsNumbered db
        → length (rows_above db account.id since) < fuel
        → drain fuel since
          ≡ some (shown proto manifests (envelopes_of (rows_above db account.id since)))
    unfolding drain
    drain-unread zero since fits small least h enough = elim enough [ ]
    drain-unread (suc fuel) since fits small least h enough =
        let p = pull proto account since limit manifests db in
        let (whole, _, honest) = pull-unread since limit manifests db fits h in
        elim (Bool-cases p.has_more) [
          | inl more ↦
              rw (more, drain)
                (rw
                  (drain-unread fuel p.cursor (page_fits since limit manifests db fits small) small
                    least h
                    (omega (arith, pull-shrinks since limit manifests db fits least h more)))
                  (ap some whole))
          | inr done ↦
              rw (done, drain)
                (ap some (
                  unfold retain in
                  sym (append-nil p.envelopes)
                  ∙ ap (λ rows. p.envelopes ++ shown proto manifests (envelopes_of rows))
                      (sym (is_empty-eq_nil _ (ground (arith, honest))))
                  ∙ whole))
        ]
