-- ===== src/Db/Tables/Updates.antt =====
-- src/db/mod.rs: what an `UPDATE` leaves of a table.
use uw_ussh_server.Prelude.{suc, ◌≡◌, refl, ap, Bool, List, [], ◌∷◌, All, arith, length}
use uw_ussh_server.Db.Tables.{update_where}

-- The rows of an account that `UPDATE` went over.
pub update_where-All :
    {A : Type 0} (P : A → Type 0) (p : A → Bool) (f : A → A) (rows : List A)
    → ((r : A) → P r → P (f r))
    → All P rows
    → All P (update_where p f rows)
unfolding update_where
update_where-All P p f [] keep h = tt
update_where-All P p f (r ∷ rows) keep h =
    ground (arith, keep r h.0, update_where-All P p f rows keep h.1)

pub length-update_where :
    {A : Type 0} (p : A → Bool) (f : A → A) (rows : List A)
    → length (update_where p f rows) ≡ length rows
unfolding update_where
length-update_where p f [] = refl
length-update_where p f (r ∷ rows) = ap suc (length-update_where p f rows)
