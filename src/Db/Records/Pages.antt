-- ===== src/Db/Records/Pages.antt =====
-- src/db/records.rs, `pull`: a page and what comes after it, the bounds of a page, and a device that
-- pulls until it is told that there is no more.
use mathlib.Core.List.{append-nil, append_assoc}
use uw_ussh_server.Prelude.{
  ℕ, ◌+◌, ◌≤◌, ◌≡◌, ◌≢◌, ◌⊎◌, ◌∙◌, ap, refl, sym, inl, inr, Bool, true, false, not, List, [], ◌∷◌,
  ◌++◌, arith, nat_eq, retain, sum_by, is_empty, length, length-append, sum_by-append, Bool-cases,
}
use uw_ussh_server.Db.Records.{Proto, Envelope, Page, cursor_past, is_hidden, is_full, read_page}

module _ {Kind : Type 0} (proto : Proto Kind) where
  -- What a device that reads manifests, or does not, is shown of some envelopes.
  abbrev pub shown : Bool → List (Envelope Kind) → List (Envelope Kind)
  shown manifests = retain (λ e. not (is_hidden proto manifests e))

  -- The cursor past some envelopes.
  abbrev pub past : List (Envelope Kind) → ℕ → ℕ
  past [] c = c
  past (e ∷ es) c = past es (cursor_past proto e c)

  -- A page splits the envelopes that it reads: it holds what is shown of the front, and stops before
  -- the back.
  pub record Splits (manifests : Bool) (es : List (Envelope Kind)) (s t : Page proto) : Type 0 where
    pub front : List (Envelope Kind)
    pub back : List (Envelope Kind)
    pub whole : es ≡ front ++ back
    pub held : t.envelopes ≡ s.envelopes ++ shown manifests front
    pub reached : t.cursor ≡ past front s.cursor
    pub honest : t.has_more ≡ not (is_empty back)

  module _ (manifests : Bool) (limit : ℕ) where
    skip_Splits :
        (e : Envelope Kind) (es : List (Envelope Kind)) (s t : Page proto)
        → is_hidden proto manifests e ≡ true
        → Splits manifests es (record s { cursor = cursor_past proto e s.cursor }) t
        → Splits manifests (e ∷ es) s t
    skip_Splits e es s t hidden x = record {
      front = e ∷ x.front;
      back = x.back;
      whole = ap (◌∷◌ e) x.whole;
      held = unfold retain in rw hidden x.held;
      reached = x.reached;
      honest = x.honest;
    }

    take_Splits :
        (e : Envelope Kind) (es : List (Envelope Kind)) (s t : Page proto) (b : ℕ)
        → is_hidden proto manifests e ≡ false
        → Splits manifests es
            (record s {
              envelopes = s.envelopes ++ e ∷ [];
              bytes = b;
              cursor = cursor_past proto e s.cursor;
            })
            t
        → Splits manifests (e ∷ es) s t
    take_Splits e es s t b visible x = record {
      front = e ∷ x.front;
      back = x.back;
      whole = ap (◌∷◌ e) x.whole;
      held = unfold retain in rw visible (x.held ∙ append_assoc s.envelopes _ _);
      reached = x.reached;
      honest = x.honest;
    }

    pub read_page-Splits :
        (es : List (Envelope Kind)) (s : Page proto)
        → s.has_more ≡ false
        → Splits manifests es s (read_page proto manifests limit es s)
    unfolding read_page
    read_page-Splits [] s start = record {
      front = [];
      back = [];
      whole = refl;
      held = unfold retain in sym (append-nil s.envelopes);
      reached = refl;
      honest = start;
    }
    read_page-Splits (e ∷ es) s start = elim (Bool-cases (is_hidden proto manifests e)) [
      | inl hidden ↦
          rw (hidden, read_page) (skip_Splits e es s _ hidden (read_page-Splits es _ start))
      | inr visible ↦
          rw (visible, read_page)
            (elim (Bool-cases (is_full proto limit s e)) [
              | inl full ↦
                  rw (full, read_page)
                    (record {
                      front = [];
                      back = e ∷ es;
                      whole = refl;
                      held = unfold retain in sym (append-nil s.envelopes);
                      reached = refl;
                      honest = refl;
                    })
              | inr room ↦
                  rw (room, read_page)
                    (take_Splits e es s _ _ visible (read_page-Splits es _ start))
            ])
    ]

  -- The bounds of a page that is being read.
  pub record IsWithin (limit : ℕ) (s : Page proto) : Type 0 where
    pub counted : s.bytes ≡ sum_by (λ e. length e.blob) s.envelopes
    pub short : length s.envelopes ≤ limit
    pub light : (s.bytes ≤ proto.max_batch_bytes) ⊎ (length s.envelopes ≤ 1)
    pub never_empty : s.has_more ≡ true → is_empty s.envelopes ≡ false

  full-nonempty :
      (limit : ℕ) (xs : List (Envelope Kind)) (n : ℕ) (more : Bool) (c : ℕ) (e : Envelope Kind)
      → 1 ≤ limit
      → is_full proto limit (record { envelopes = xs; bytes = n; has_more = more; cursor = c }) e
        ≡ true
      → is_empty xs ≡ false
  unfolding is_full
  full-nonempty limit [] n more c e least h = ground arith
  full-nonempty limit (x ∷ xs) n more c e least h = refl

  room_left :
      (limit : ℕ) (xs : List (Envelope Kind)) (n : ℕ) (more : Bool) (c : ℕ) (e : Envelope Kind)
      → is_full proto limit (record { envelopes = xs; bytes = n; has_more = more; cursor = c }) e
        ≡ false
      → (length xs ≢ limit) × ((n + length e.blob ≤ proto.max_batch_bytes) ⊎ (length xs ≡ 0))
  unfolding is_full
  room_left limit [] n more c e h = ground arith
  room_left limit (x ∷ xs) n more c e h = ground arith

  take-IsWithin :
      (limit : ℕ) (s : Page proto) (e : Envelope Kind)
      → is_full proto limit s e ≡ false
      → s.has_more ≡ false
      → IsWithin limit s
      → IsWithin limit (record s {
        envelopes = s.envelopes ++ e ∷ [];
        bytes = s.bytes + length e.blob;
        cursor = cursor_past proto e s.cursor;
      })
  unfolding sum_by
  take-IsWithin limit s e room start h =
      let longer = length-append s.envelopes (e ∷ []) in
      let heavier = sum_by-append (λ (x : Envelope Kind). length x.blob) s.envelopes (e ∷ []) in
      let left = room_left limit s.envelopes s.bytes s.has_more s.cursor e room in
      record {
        counted = omega (arith, heavier, h.counted);
        short = omega (arith, longer, left.0, h.short);
        light = ground (arith, longer, left.1, h.light);
        never_empty = λ more. cc;
      }

  pub read_page-IsWithin :
      (manifests : Bool) (limit : ℕ) (es : List (Envelope Kind)) (s : Page proto)
      → 1 ≤ limit
      → s.has_more ≡ false
      → IsWithin limit s
      → IsWithin limit (read_page proto manifests limit es s)
  unfolding read_page
  read_page-IsWithin manifests limit [] s least start h = h
  read_page-IsWithin manifests limit (e ∷ es) s least start h =
      elim (Bool-cases (is_hidden proto manifests e)) [
        | inl hidden ↦
            rw (hidden, read_page)
              (read_page-IsWithin manifests limit es _ least start (record {
                counted = h.counted;
                short = h.short;
                light = h.light;
                never_empty = h.never_empty;
              }))
        | inr visible ↦
            rw (visible, read_page)
              (elim (Bool-cases (is_full proto limit s e)) [
                | inl full ↦
                    rw (full, read_page)
                      (record {
                        counted = h.counted;
                        short = h.short;
                        light = h.light;
                        never_empty = λ _.
                            full-nonempty limit s.envelopes s.bytes s.has_more s.cursor e least
                              full;
                      })
                | inr room ↦
                    rw (room, read_page)
                      (read_page-IsWithin manifests limit es _ least start
                        (take-IsWithin limit s e room start h))
              ])
      ]
