-- ===== src/Tests/Oracle.antt =====
-- pkg/oracle at concrete inputs.
use driftwatch.Base.{List, ℕ, ◌≡◌, refl, [], ◌∷◌}
use driftwatch.Base.{
  ◌≤◌, none, some, Str, bytes, str_eq, lookup, Bool, Bool-cases, false, inl, inr, arith,
}
use driftwatch.Event.{TrustState}
use driftwatch.Projection.Keyset.{set_value}
use driftwatch.Oracle.Entry.{Stored}
use driftwatch.Oracle.Suspicion.{Oracle, get, mark_suspect, clear_suspect, in_scope}
use driftwatch.Oracle.Suspicion.Laws.{
  IsOracle, with_trust, doubt, restore, get-mark_suspect, get-clear_suspect,
}
use driftwatch.Oracle.Ring.{new_ring, push, push_all, snapshot, snapshot_loop}
use driftwatch.Oracle.Ring.Laws.{Latest, snapshot-push_all}

abbrev five : List ℕ
five = 1 ∷ 2 ∷ 3 ∷ 4 ∷ 5 ∷ []

snapshot-push_all_example : Latest 3 five (snapshot (push_all (new_ring 3) five))
snapshot-push_all_example = snapshot-push_all 3 five

abbrev kept : Stored
kept = record {
  key = bytes "k";
  value = set_value (bytes "a" ∷ []);
  version = 3;
  trust = TrustState.complete;
  last_event_at = 100;
  last_value_change_at = 100;
  last_seq = 8;
  last_epoch = 1;
  last_publisher = bytes "p";
  ttl = none;
  truncated = false;
  created_at = 10;
  gen = 2;
  bucket = 100;
  ring = new_ring 16;
}

abbrev adopted : Stored
adopted = record kept { key = bytes "old"; trust = TrustState.adopted; gen = 0 }

abbrev two_keys : Oracle
two_keys = record {
  entries = (bytes "k", kept) ∷ (bytes "old", adopted) ∷ [];
  suspect_gen = 2;
  suspect_floor = 1;
}

two_keys-gen_bound :
    (k : Str) (e : Stored) → lookup k two_keys.entries ≡ some e → e.gen ≤ two_keys.suspect_gen
unfolding lookup
two_keys-gen_bound k e h = elim (Bool-cases (str_eq (bytes "k") k)) [
  | inl here ↦ ground arith
  | inr other ↦ ground arith
]

two_keys-IsOracle : IsOracle two_keys
two_keys-IsOracle = record {
  floor_bound = omega arith;
  gen_bound = two_keys-gen_bound;
  room = omega arith;
}

abbrev starts : Str → Str → Bool
starts pattern key = str_eq pattern key

get-mark_suspect_example :
    get (mark_suspect starts [] two_keys) (bytes "k") 200
    ≡ with_trust doubt (in_scope starts [] (bytes "k")) (get two_keys (bytes "k") 200)
get-mark_suspect_example = get-mark_suspect starts [] (bytes "k") two_keys 200 two_keys-IsOracle

get-clear_suspect_example :
    get (clear_suspect starts (bytes "k") two_keys) (bytes "k") 200
    ≡ with_trust restore (in_scope starts (bytes "k") (bytes "k")) (get two_keys (bytes "k") 200)
get-clear_suspect_example =
    get-clear_suspect starts (bytes "k") (bytes "k") two_keys 200 two_keys-IsOracle

-- Five entries in a ring of three.
last_three : snapshot (push_all (new_ring 3) five) ≡ 3 ∷ 4 ∷ 5 ∷ []
unfolding snapshot push_all new_ring push snapshot_loop
last_three = refl
