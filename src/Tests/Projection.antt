-- ===== src/Tests/Projection.antt =====
-- pkg/projection and the fold of pkg/check at concrete inputs.
use driftwatch.Base.{
  ◌≡◌, refl, Option, none, some, List, [], ◌∷◌, arith, Str, bytes, pos, ◌+ℤ◌, ltb_ℤ, ◌||◌, lookup,
  delete, insert, str_eq, inr,
}
use driftwatch.Event.{Event, Op, touches_key}
use driftwatch.Event.Members.{has, put, take_out}
use driftwatch.Event.Value.{is_absent}
use driftwatch.Projection
use driftwatch.Projection.{ok, expand, data_for, shape_fits}
use driftwatch.Projection.Keyset.{
  KeysetOwnership, set_value, plain, upsert_of, starts_with, split_from, split, replace_loop,
}
use driftwatch.Projection.Keyset
use driftwatch.Projection.KeysetLaws.{IsKeyset, apply-IsKeyset}
use driftwatch.Projection.Counter.{add_saturating, max_int64, min_int64}
use driftwatch.Projection.Saturation.{clamp64, add_saturating_lem}
use driftwatch.Projection.Reference.{fold}
use driftwatch.Projection.Folding.{fold_one, mutate, fold_events, truncates, NeverTruncates}
use driftwatch.Projection.Reference.{fold}
use driftwatch.Projection.Equivalence.{fold_events-fold}
use driftwatch.Base.{none, some, Option}
use driftwatch.Projection.Alike.{plain_keyset, keyset_projects, set_reference}
use driftwatch.Projection.Equivalence.{fold_events-fold}

abbrev event_of : Op → Str → Option Str → Event
event_of op member value = record {
  publisher = bytes "p";
  epoch = 1;
  seq = 1;
  published_at = 0;
  observed_at = 0;
  topic = [];
  op = op;
  key = bytes "k";
  member = member;
  value = value;
  delta = pos 0;
  ttl = none;
  raw = none;
}

abbrev some_events : List Event
some_events =
    event_of Op.add (bytes "a") none
    ∷ event_of Op.remove (bytes "b") none
    ∷ event_of Op.add (bytes "b") none
    ∷ event_of Op.heartbeat [] none
    ∷ event_of Op.set [] (some (bytes "c,,d"))
    ∷ event_of Op.remove (bytes "c") none
    ∷ []

some_events_fit : NeverTruncates (keyset_projects (plain_keyset (bytes ",") 2)) [] some_events
unfolding fold_events truncates fold_one mutate Keyset.target_key Keyset.apply Keyset.apply_op
    Keyset.add Keyset.remove Keyset.replace expand data_for shape_fits touches_key lookup insert
    delete has put take_out split split_from starts_with replace_loop is_absent str_eq
some_events_fit = (refl, (refl, (refl, (refl, (refl, (refl, tt))))))

fold_events-fold_example :
    lookup (bytes "k") (fold_events (keyset_projects (plain_keyset (bytes ",") 2)) [] some_events)
    ≡ lookup (bytes "k") (fold (set_reference (bytes ",")) some_events)
fold_events-fold_example =
    fold_events-fold (bytes ",") 2 some_events (omega arith) some_events_fit (bytes "k")

-- What the fold holds at the end: the set of one member.
some_events_fold :
    lookup (bytes "k") (fold_events (keyset_projects (plain_keyset (bytes ",") 2)) [] some_events)
    ≡ some (set_value (bytes "d" ∷ []))
unfolding fold_events truncates fold_one mutate Keyset.target_key Keyset.apply Keyset.apply_op
    Keyset.add Keyset.remove Keyset.replace expand data_for shape_fits touches_key lookup insert
    delete has put take_out split split_from starts_with replace_loop is_absent str_eq
some_events_fold = refl

add_saturating_lem_example : add_saturating (pos 9223372036854775800) (pos 100) ≡ (
  clamp64 (pos 9223372036854775800 +ℤ pos 100),
  ltb_ℤ max_int64 (pos 9223372036854775800 +ℤ pos 100)
      || ltb_ℤ (pos 9223372036854775800 +ℤ pos 100) min_int64,
)
add_saturating_lem_example =
    add_saturating_lem (pos 9223372036854775800) (pos 100) (ground arith) (ground arith)

apply_adds :
    Keyset.apply
      (plain_keyset (bytes ",") 2)
      (set_value (bytes "a" ∷ []))
      (event_of Op.add (bytes "b") none)
    ≡ ok (upsert_of (bytes "k") (set_value (bytes "b" ∷ bytes "a" ∷ [])))
unfolding Keyset.apply Keyset.apply_op Keyset.add expand data_for shape_fits touches_key has put
    str_eq
apply_adds = refl

one_member : IsKeyset 2 (set_value (bytes "a" ∷ []))
one_member = record {
  is_kind = refl;
  present = refl;
  distinct = unfold has in (refl, tt);
  capped = omega arith;
}

abbrev delete_action : Projection.Action
delete_action = Projection.delete

apply_removes :
    Keyset.apply
      (plain_keyset (bytes ",") 2)
      (set_value (bytes "a" ∷ []))
      (event_of Op.remove (bytes "a") none)
    ≡ ok (plain (bytes "k") delete_action)
unfolding Keyset.apply Keyset.apply_op Keyset.remove expand data_for shape_fits touches_key has
    take_out str_eq
apply_removes = refl

apply-IsKeyset_example :
    (delete_action ≡ Projection.upsert → IsKeyset 2 (plain (bytes "k") delete_action).value)
    × ((member : Str)
        → Op.remove ≡ Op.remove
        → expand
            (plain_keyset (bytes ",") 2).member_tmpl
            (data_for (event_of Op.remove (bytes "a") none))
          ≡ ok member
        → bytes "a" ∷ [] ≡ member ∷ []
        → delete_action ≡ Projection.delete)
apply-IsKeyset_example =
    apply-IsKeyset (plain_keyset (bytes ",") 2) (set_value (bytes "a" ∷ []))
      (event_of Op.remove (bytes "a") none) (omega arith) (inr one_member)
      (plain (bytes "k") delete_action) apply_removes
