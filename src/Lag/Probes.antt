-- ===== src/Lag/Probes.antt =====
-- pkg/lag/probe.go: the reservoir of probed keys. `pick n` is the draw rand.Intn(n).
use driftwatch.Base.{
  ℕ, ◌+◌, ◌≤◌, ◌≡◌, Bool, true, false, List, [], ◌∷◌, ◌++◌, ltb, ◌==◌, if◌then◌else◌, length,
  get_or, set, Str,
}
use driftwatch.Event.Members.{has, put, take_out, IsMembers}

pub record ProbeSet : Type 0 where
  pub capacity : ℕ
  pub keys : List Str
  pub index : List Str
  pub seen : ℕ
  pub rotated_at : ℕ
  pub rotations : ℕ

-- `0` stands for every capacity that is not positive.
unfoldable pub new_probe_set : ℕ → ProbeSet
new_probe_set capacity = record {
  capacity = if capacity == 0 then 200 else capacity;
  keys = [];
  index = [];
  seen = 0;
  rotated_at = 0;
  rotations = 0;
}

unfoldable pub offer : (ℕ → ℕ) → Str → ProbeSet → ProbeSet
unfolding put take_out
offer pick key p =
    let seen = p.seen + 1 in
    let j = pick seen in
    if has key p.index
    then p
    else if ltb (length p.keys) p.capacity
    then record p { seen = seen; keys = p.keys ++ (key ∷ []); index = put key p.index }
    else if ltb j p.capacity
    then record p {
      seen = seen;
      keys = set p.keys j key;
      index = put key (take_out (get_or p.keys j []) p.index);
    }
    else record p { seen = seen }

unfoldable pub probes_key : Str → ProbeSet → Bool
probes_key key p = has key p.index

-- Whether it rotated, after the new state. A time of 0 is the zero time.
unfoldable pub rotate_if_due : ℕ → ℕ → ProbeSet → ProbeSet × Bool
rotate_if_due now every p =
    if p.rotated_at == 0
    then (record p { rotated_at = now }, false)
    else if ltb now (p.rotated_at + every)
    then (p, false)
    else (
      record p { keys = []; index = []; seen = 0; rotated_at = now; rotations = p.rotations + 1 },
      true,
    )

-- The sample is within its capacity, holds no key twice, and its index is the set of its keys.
pub record IsProbeSet (p : ProbeSet) : Type 0 where
  pub room : length p.keys ≤ p.capacity
  pub single : IsMembers p.keys
  pub indexed : (k : Str) → has k p.index ≡ has k p.keys
