-- ===== src/Idempotency/Record.antt =====
-- internal/platform/idempotency/record.go
use bookstore_golang.Base.{ℕ, Option, List}
use bookstore_golang.Base.Text.{Str}

pub data RecordStatus : Type 0 where
  in_progress completed : RecordStatus

pub data ReserveDecision : Type 0 where
  acquired existing : ReserveDecision

pub data BeginDecision : Type 0 where
  proceed replay conflict : BeginDecision

-- A Go map from names to values, as a list.
abbrev pub Headers : Type 0
Headers = List (Str × Str)

pub record Record : Type 0 where
  pub key : Str
  pub scope : Str
  pub status : RecordStatus
  pub request_hash : Str
  pub response_code : ℕ
  pub response_body : Str
  pub headers : Headers
  pub started_at : ℕ
  -- 0 is the zero time
  pub completed_at : ℕ

-- The `Result` of record.go: a response to keep.
pub record Response : Type 0 where
  pub status_code : ℕ
  pub body : Str
  pub headers : Headers

pub record BeginResult : Type 0 where
  pub decision : BeginDecision
  pub found : Option Record
