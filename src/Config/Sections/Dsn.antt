-- ===== src/Config/Sections/Dsn.antt =====
-- What the text of a connection tells.
use mathlib.Core.List.{append_assoc}
use bookstore_golang.Base.{◌≡◌, ◌++◌}
use bookstore_golang.Base.Text.{Str, codes}
use bookstore_golang.Config.Sections.{DbConfig, dsn}

-- A user that goes on with a colon and a text, with a password, and the user without them, with the
-- text, a colon and the password for its password, give one DSN.
dsn_shifted :
    (c : DbConfig) (x y : Str)
    → dsn (record c { user = c.user ++ (codes ":" ++ x); password = y })
      ≡ dsn (record c { password = x ++ (codes ":" ++ y) })
unfolding dsn
dsn_shifted c x y = simp append_assoc
