-- ===== src/Identity/Repo/Session/Unique.antt =====
-- Sessions of the table: no two have one id, one token hash, or one user and device.
use bookstore_golang.Base.{ℕ, ◌<◌, ◌≡◌, false, ◌==◌, nat_eq, List, All, Pairwise}
use bookstore_golang.Base.Text.{str_eq}
use bookstore_golang.Identity.Entity.{Session}
use bookstore_golang.Identity.Repo.Session.{is_of, has_hash, session_status_eq}

-- Two rows that may stand in the table together.
abbrev pub IsApart : Session → Session → Type 0
IsApart s t =
    ((s.id == t.id) ≡ false)
    × (has_hash s.refresh_token_hash t ≡ false)
    × (is_of s.user_id s.device_id t ≡ false)

-- The sequence of ids is past every row, and the rows are apart.
pub record IsValid (next : ℕ) (l : List Session) : Type 0 where
  pub past : All (λ s. s.id < next) l
  pub apart : Pairwise IsApart l
