-- ===== src/Tests/Config.antt =====
-- The settings.
use bookstore_golang.Base.{ℕ_discrete, ◌≡◌, [], err, find, if◌then◌else◌, ◌==◌}
use bookstore_golang.Base.Text.{codes, str_eq, Str-discrete}
use bookstore_golang.Config.{Environment, missing}
use bookstore_golang.Config.Load.{must_load}
use bookstore_golang.Config.Load.Required.{must_load_outcome}

-- Every name is set but one.
abbrev without_secret : Environment
without_secret k = if k == codes "JWT_SECRET" then [] else codes "1"

must_load_outcome_example :
    must_load without_secret ≡ (err (missing (codes "JWT_SECRET")), without_secret)
unfolding find Str-discrete ℕ_discrete
must_load_outcome_example = must_load_outcome without_secret
