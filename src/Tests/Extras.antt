-- ===== src/Tests/Extras.antt =====
-- The two passes of pkg/sweeper/extras.go at concrete inputs.
use driftwatch.Base.{false, List, [], ◌∷◌, bytes, pos}
use driftwatch.Projection.Keyset.{set_value}
use driftwatch.Differ.{Options, ExpiryPolicy}
use driftwatch.Oracle.Suspicion.{Oracle}
use driftwatch.Target
use driftwatch.Sweeper.{Config}
use driftwatch.Sweeper.Extras.{Scanned, Second}

abbrev options : Options
options = record {
  ttl_tolerance = pos 0;
  expiry_policy = ExpiryPolicy.strict;
  assumed_ttl = pos 0;
  max_members_reported = 2;
  max_findings = 5;
  now = 0;
}

abbrev config : Config
config = record {
  differ_options = options;
  read_batch_size = 10;
  max_confirm_queue = 2;
  max_extras_tracked = 5;
  require_primary = false;
}

abbrev nothing_known : Oracle
nothing_known = record { entries = []; suspect_gen = 0; suspect_floor = 0 }

abbrev scan : List Scanned
scan = (bytes "x", (nothing_known, 10)) ∷ (bytes "y", (nothing_known, 10)) ∷ []

abbrev seconds : List Second
seconds =
    record {
      key = bytes "x";
      read = Target.value (set_value (bytes "m" ∷ []));
      after = nothing_known;
      clock = 20;
    }
    ∷ record { key = bytes "y"; read = Target.failed; after = nothing_known; clock = 20 }
    ∷ []
