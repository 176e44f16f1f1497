-- ===== src/Examples/Settings.antt =====
-- src/config.rs, src/updates.rs, src/main.rs and src/limits.rs at concrete inputs.
use uw_ussh_server.Prelude.{
  ◌+◌, ◌≡◌, refl, true, false, List, [], ◌∷◌, ◌++◌, Option, none, some, String, arith, inr, retain,
}
use uw_ussh_server.Prelude.Text.{Text, text, text_eq, trim, trim_start, trim_end}
use uw_ussh_server.Prelude.Numerals.{split, parse_u64, parse_digits}
use uw_ussh_server.Prelude.HashMap.{lookup}
use uw_ussh_server.Address.{IpAddr, v6, counted, network}
use uw_ussh_server.Address.Network.{around, network-counted}
use uw_ussh_server.Config.{
  SocketAddr, default, Env, var, read_var, or_else, current_prefix, legacy_prefix,
}
use uw_ussh_server.Config.Settings.{from_env}
use uw_ussh_server.Config.Reads.{Agrees}
use uw_ussh_server.Config.Agrees.{from_env-Agrees}
use uw_ussh_server.Config.Names.{var-names}
use uw_ussh_server.Updates.{
  version_key, order_lists, order_pre, order_parts, compare_versions, newest_release, Release,
  stable, less, is_on, is_newer, max_from,
}
use uw_ussh_server.Updates.Versions.{flip, compare_versions-flip}
use uw_ussh_server.Updates.Best.{is_transitive}
use uw_ussh_server.Updates.Newest.{IsNewest, newest_release-IsNewest}
use uw_ussh_server.Upkeep.{Forgets, purge, purge-Forgets}
use uw_ussh_server.Examples.Mail.{before}

abbrev site : IpAddr
site = v6 8193 3512 1 2 3 4 5 6

network-counted_example : network (counted site) ≡ around site
network-counted_example = network-counted site (omega arith, omega arith)

abbrev no_address : Text → Option SocketAddr
no_address t = none

abbrev env : Env
env = (text "UWUSSH_MAX_CONNECTIONS", text " 64 ") ∷ (text "UWUSYNC_ACCOUNT_MAX_MB", text "10") ∷ []

from_env-Agrees_example : Agrees no_address env (from_env no_address env)
from_env-Agrees_example = from_env-Agrees no_address env

-- What is read of these two settings, and what is refused.
reads_megabytes :
    from_env no_address env
    ≡ inr
        (record default { max_connections = 64; quota = record default.quota { bytes = 10485760 } })
unfolding from_env var lookup parse_u64 parse_digits trim trim_start trim_end
reads_megabytes = refl

var-names_example :
    var env (current_prefix ++ text "MAX_CONNECTIONS")
    ≡ or_else
        (read_var env (current_prefix ++ text "MAX_CONNECTIONS"))
        (read_var env (legacy_prefix ++ text "MAX_CONNECTIONS"))
var-names_example = var-names env (text "MAX_CONNECTIONS")

compare_versions-flip_example :
    compare_versions (text "v1.2.0-beta.2") (text "1.2.0")
    ≡ flip (compare_versions (text "1.2.0") (text "v1.2.0-beta.2"))
compare_versions-flip_example = compare_versions-flip (text "v1.2.0-beta.2") (text "1.2.0")

abbrev release : String → Release
release tag = record { tag_name = text tag; draft = false; prerelease = false; html_url = [] }

abbrev releases : List Release
releases = release "v1.3.0" ∷ release "v1.10.0" ∷ release "v1.9.2" ∷ []

releases_in_order : is_transitive releases ≡ true
unfolding compare_versions version_key order_lists order_pre order_parts split trim trim_start
    trim_end parse_u64 parse_digits
releases_in_order = refl

newest_release-IsNewest_example :
    IsNewest stable (text "1.2.0") releases (newest_release releases (text "1.2.0") stable)
newest_release-IsNewest_example =
    newest_release-IsNewest stable (text "1.2.0") releases releases_in_order

-- It is the one with the larger number, not the last.
offers_the_newest : newest_release releases (text "1.2.0") stable ≡ some (release "v1.10.0")
unfolding newest_release is_on is_newer max_from retain compare_versions version_key order_lists
    order_pre order_parts split trim trim_start trim_end parse_u64 parse_digits
offers_the_newest = refl

purge-Forgets_example :
    Forgets before.devices before.records (purge (λ n. 7776000100 + n) before).records
purge-Forgets_example = purge-Forgets (λ n. 7776000100 + n) before

-- Three pre-releases, each before the next, and the last before the first.
goes_round :
    (compare_versions (text "1.0.0-2") (text "1.0.0-10") ≡ less)
    × (compare_versions (text "1.0.0-10") (text "1.0.0-1a") ≡ less)
    × (compare_versions (text "1.0.0-1a") (text "1.0.0-2") ≡ less)
unfolding compare_versions version_key order_lists order_pre order_parts split trim trim_start
    trim_end parse_u64 parse_digits
goes_round = (refl, refl, refl)
