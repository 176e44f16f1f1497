-- ===== src/Db/Accounts/Verifiers.antt =====
-- src/db/accounts.rs: which header an account hands back, and which login keys it knows again.
use uw_ussh_server.Prelude.{
  ℕ, ◌≡◌, ◌↔◌, true, List, [], ◌∷◌, ◌++◌, none, some, arith, ◌==◌, nat_eq, nat_beq_iff, find, refl,
}
use uw_ussh_server.Secrets.{constant_time_eq_iff}
use uw_ussh_server.Db.Tables.{AccountRow, update_where, account_row}
use uw_ussh_server.Db.Accounts.{
  VaultHeader, get, header, new_row, create, verify, rewrap, set_header,
}

module _ (sha256 : List ℕ → List ℕ) where
  row-append :
      (id : ℕ) (rows : List AccountRow) (r : AccountRow)
      → account_row id rows ≡ none
      → r.id ≡ id
      → account_row id (rows ++ r ∷ []) ≡ some r
  unfolding account_row find
  row-append id [] r h same = ground (arith, same, nat_beq_iff r.id id)
  row-append id (x ∷ rows) r h same = ground (arith, row-append id rows r)

  -- Where the id is new: an account hands back the header it was made with, less the fields that the
  -- server does not know, and exactly the keys that hash as its own verify.
  create-header-verify :
      (now id : ℕ) (h : VaultHeader) (auth_key key : List ℕ) (rows : List AccountRow)
      → account_row id rows ≡ none
      → (header id (create sha256 now id h auth_key rows).1 ≡ some (record h { extra = [] }))
        × ((verify sha256 id key (create sha256 now id h auth_key rows).1 ≡ true)
            ↔ (sha256 auth_key ≡ sha256 key))
  unfolding create header verify
  create-header-verify now id h auth_key key rows new =
      rw (row-append id rows (new_row sha256 now id h auth_key) new refl, header, verify)
        (refl, constant_time_eq_iff (sha256 auth_key) (sha256 key))

  row-update :
      (id : ℕ) (h : VaultHeader) (auth_key : List ℕ) (rows : List AccountRow) (r : AccountRow)
      → account_row id rows ≡ some r
      → account_row id (update_where (λ x. x.id == id) (rewrap sha256 h auth_key) rows)
        ≡ some (rewrap sha256 h auth_key r)
  unfolding account_row find update_where
  row-update id h auth_key [] r held = cc
  row-update id h auth_key (x ∷ rows) r held = ground (arith, row-update id h auth_key rows r)

  -- With an account row that is there: after a new master password the vault keeps its id and the
  -- account its counter, the rest of the header is the new one, without the fields that the server
  -- does not know, and exactly the keys that hash as the new one verify.
  pub set_header-header-verify :
      (id : ℕ) (h : VaultHeader) (auth_key key : List ℕ) (rows : List AccountRow) (r : AccountRow)
      → account_row id rows ≡ some r
      → (header id (set_header sha256 id h auth_key rows)
          ≡ some (record h { vault_id = r.vault_id; extra = [] }))
        × (get id (set_header sha256 id h auth_key rows) ≡ get id rows)
        × ((verify sha256 id key (set_header sha256 id h auth_key rows) ≡ true)
            ↔ (sha256 auth_key ≡ sha256 key))
  unfolding set_header header verify get
  set_header-header-verify id h auth_key key rows r held =
      rw (row-update id h auth_key rows r held, held, header, verify, get)
        (refl, refl, constant_time_eq_iff (sha256 auth_key) (sha256 key))
