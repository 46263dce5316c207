-- ===== src/Target.antt =====
-- pkg/target/target.go: what a store answers about itself and about a key. How it answers is outside.
use driftwatch.Base.{ℕ, Bool, Str, ℤ}
use driftwatch.Event.Value.{Value}

pub record Health : Type 0 where
  pub reachable : Bool
  pub evicted_keys : ℕ
  pub expired_keys : ℕ
  pub used_memory_bytes : ℕ
  pub max_memory_bytes : ℕ
  pub keyspace_size : ℤ
  pub role : Str
  pub replication_lag_ms : ℤ
  pub version : Str

-- The outcome of reading one key: its value, the type it has where that is the wrong one, or an error
-- of another kind.
pub data Read : Type 0 where
  value : Value → Read
  wrong_type : Str → Read
  failed : Read
