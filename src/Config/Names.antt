-- ===== src/Config/Names.antt =====
-- src/config.rs: which variable a setting is read from.
use uw_ussh_server.Prelude.{◌≡◌, refl, ◌++◌}
use uw_ussh_server.Prelude.Text.{Text}
use uw_ussh_server.Prelude.Numerals.{strip_prefix}
use uw_ussh_server.Config.{Env, var, legacy_name, read_var, or_else, current_prefix, legacy_prefix}

-- A setting is read under its new name, where it is set and not empty, and otherwise under the name
-- it had before.
pub var-names :
    (env : Env) (rest : Text)
    → var env (current_prefix ++ rest)
      ≡ or_else (read_var env (current_prefix ++ rest)) (read_var env (legacy_prefix ++ rest))
unfolding var legacy_name strip_prefix
var-names env rest = refl
