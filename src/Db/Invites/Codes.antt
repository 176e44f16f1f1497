-- ===== src/Db/Invites/Codes.antt =====
-- src/db/invites.rs: an invite lets in once.
use uw_ussh_server.Prelude.{
  ℕ, ◌+◌, ◌≤◌, ◌<◌, ◌≡◌, Bool, true, false, List, [], ◌∷◌, ◌++◌, none, some, arith, nat_eq, retain,
  length, refl,
}
use uw_ussh_server.Prelude.Text.{text_eq, text_beq_iff}
use uw_ussh_server.Db.Tables.{InviteRow, update_where}
use uw_ussh_server.Db.Invites.{is_invite, create_invite, redeem_invite, hash, code}

module _ (sha256 : List ℕ → List ℕ) where
  none_left :
      (now later : ℕ) (code : List ℕ) (rows : List InviteRow)
      → now ≤ later
      → length (
          retain
            (is_invite sha256 later code)
            (update_where (is_invite sha256 now code) (λ r. record r { used_ms = some now }) rows))
        ≡ 0
  unfolding retain update_where
  none_left now later code [] h = refl
  none_left now later code (r ∷ rows) h = ground (arith, none_left now later code rows h)

  -- An invite is used up by the first who redeems it: at that time or later nobody redeems it
  -- again.
  pub redeem_invite-once :
      (now later : ℕ) (code : List ℕ) (rows : List InviteRow)
      → now ≤ later
      → (redeem_invite sha256 later code (redeem_invite sha256 now code rows).1).0 ≡ false
  unfolding redeem_invite
  redeem_invite-once now later code rows h = rw (none_left now later code rows h) refl

  some_left :
      (p : InviteRow → Bool) (rows : List InviteRow) (r : InviteRow)
      → p r ≡ true
      → 0 < length (retain p (rows ++ r ∷ []))
  unfolding retain
  some_left p [] r h = ground (arith, h)
  some_left p (x ∷ rows) r h = ground (arith, some_left p rows r h)

  -- The code that making an invite hands out is redeemed before the invite has run out.
  create_invite-redeem_invite :
      (now later : ℕ) (bytes : List ℕ) (ttl_ms : ℕ) (rows : List InviteRow)
      → later < now + ttl_ms
      → (redeem_invite sha256 later
          (create_invite sha256 now bytes ttl_ms rows).0
          (create_invite sha256 now bytes ttl_ms rows).1).0
        ≡ true
  unfolding redeem_invite create_invite
  create_invite-redeem_invite now later bytes ttl_ms rows h =
      let r : InviteRow = record {
        code_hash = hash sha256 (code bytes);
        created_ms = now;
        expires_ms = now + ttl_ms;
        used_ms = none;
      } in
      let good : is_invite sha256 later (code bytes) r ≡ true =
        ground (arith, h, text_beq_iff (hash sha256 (code bytes)) (hash sha256 (code bytes))) in
      let found = some_left (is_invite sha256 later (code bytes)) rows r good in
      ground (arith, found)
