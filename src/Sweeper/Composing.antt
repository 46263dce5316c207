-- ===== src/Sweeper/Composing.antt =====
-- pkg/sweeper/sweeper.go: a batch that a sweep compares with nothing in between, against the steps of
-- Runs, each of which is one hold of the lock.
use driftwatch.Base.{◌≡◌, Option, none, some, Str}
use driftwatch.Event.Value.{Value}
use driftwatch.Differ.{Finding}
use driftwatch.Differ.Report.{Report}
use driftwatch.Oracle.Entry.{Entry}
use driftwatch.Oracle.Suspicion.{Oracle}
use driftwatch.Target
use driftwatch.Sweeper.{Sweeper, Config}
use driftwatch.Sweeper.Runs
use driftwatch.Sweeper.Runs.{World, Reach}

-- The world of a run with another sweeper is one that a run reaches.
abbrev Leads : Config → World → Sweeper → Type 0
Leads cfg w s = Reach cfg (record w { sweeper = s })

abbrev AboutRead : Str → Entry → Option (Option Finding) → Type 0
AboutRead key e none = Unit {0}
AboutRead key e (some none) = Unit {0}
AboutRead key e (some (some f)) = (f.key ≡ key) × (f.trust ≡ e.trust)

-- Where a batch ends, unless an error ends the sweep.
abbrev Ends : Config → World → Option (Report × Sweeper) → Type 0
Ends cfg w none = Unit {0}
Ends cfg w (some (rep, s)) = Leads cfg w s
