-- ===== src/Oracle/Entry.antt =====
-- pkg/oracle/entry.go: what the oracle keeps of one key, and the snapshot that it hands to its readers.
use driftwatch.Base.{ℕ, Bool, true, false, Option, Str, ℤ}
use driftwatch.Event.{TrustState, Event}
use driftwatch.Event.Value.{Value}
use driftwatch.Seqtrack.Tracker.{Verdict}
use driftwatch.Oracle.Ring.{Ring}

pub record Entry : Type 0 where
  pub key : Str
  pub value : Value
  pub version : ℕ
  pub trust : TrustState
  pub last_event_at : ℕ
  pub last_value_change_at : ℕ
  pub last_seq : ℕ
  pub last_epoch : ℕ
  pub last_publisher : Str
  pub ttl : Option ℤ
  pub expired : Bool
  pub truncated : Bool
  pub created_at : ℕ

pub record HistoryEntry : Type 0 where
  pub event : Event
  pub verdict : Verdict
  pub result_value : Value
  pub version : ℕ
  pub applied_at : ℕ

-- The internal entry.
pub record Stored : Type 0 where
  pub key : Str
  pub value : Value
  pub version : ℕ
  pub trust : TrustState
  pub last_event_at : ℕ
  pub last_value_change_at : ℕ
  pub last_seq : ℕ
  pub last_epoch : ℕ
  pub last_publisher : Str
  pub ttl : Option ℤ
  pub truncated : Bool
  pub created_at : ℕ
  pub gen : ℕ
  pub bucket : ℕ
  pub ring : Ring HistoryEntry

pub record ApplyResult : Type 0 where
  pub key : Str
  pub version : ℕ
  pub created : Bool
  pub deleted : Bool
  pub evicted : Str
  pub did_evict : Bool
  pub applied : Bool

abbrev pub is_complete : TrustState → Bool
is_complete TrustState.complete = true
is_complete _ = false

abbrev pub is_suspect : TrustState → Bool
is_suspect TrustState.suspect = true
is_suspect _ = false

abbrev pub is_adopted : TrustState → Bool
is_adopted TrustState.adopted = true
is_adopted _ = false
