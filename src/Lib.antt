-- ===== src/Lib.antt =====
-- Driftwatch watches the event stream that feeds a store, folds it into its own expectation of the
-- store (the oracle), and compares the two. This library models its core and proves what makes a
-- finding trustworthy.
--
-- Base        names, Boolean tests, lists, byte strings, maps and signed integers that the rest shares
-- Event       pkg/event/event.go: the event, its validation, the trust states; Event/Members for a set
--             of members, Event/Value for the value and its equality, Event/Names for the names of
--             operations
-- Seqtrack    pkg/seqtrack: gapset.go (GapSet) and seqtrack.go (Tracker): each publisher's sequence
--             numbers, the intervals of missing ones, restarts, the verdict on each event
-- Projection  pkg/projection: projection.go, keyset.go (Keyset), scalar.go (Scalar), counter.go
--             (Counter) and reference.go (Reference); Folding for the fold of pkg/check/check.go
-- Oracle      pkg/oracle: entry.go (Entry), what a comparison knows of a key; ring.go (Ring), a key's
--             bounded history; oracle.go (Suspicion), the reading of an entry and mass suspicion;
--             shard.go, settle.go and evict.go (Shard), the entries with their counts and the index of
--             settled keys; Applying for what Apply and AdoptSnapshot do to the shard of a key
-- Differ      pkg/differ: categorize.go and differ.go, the comparison of one key; report.go (Report)
-- Reorder     pkg/check/reorder.go: the buffer that restores each publisher's order
-- Target      pkg/target/target.go: what a store answers
-- Sweeper     pkg/sweeper: sweeper.go (and Sweeping), confirm.go (Confirming) and extras.go (Extras),
--             the confirm queue, the episodes, and the two phases; Runs takes their steps in any order,
--             each step one hold of the lock, and Composing takes a batch apart into them
-- Lag         pkg/lag: adaptive.go (Controller) and probe.go (Probes), the settlement window and the
--             sample of keys it is measured on
-- Tests       the theorems at concrete inputs, and runs of the definitions
--
-- An event passes the reorder buffer and the tracker, which gives its verdict; the fold looks the
-- key's value up, applies the projection and writes its mutation; a sweep compares the value with the
-- one in the store.
--
-- A Go function is a definition of the same name in snake case. A method that changes its receiver
-- returns the new record, an error or nil is an `Option` or a result, and a panic is `none`. A mutex
-- makes each method one step, so a run of the program is a list of calls; where a method of the sweeper
-- takes the mutex several times, each time is a step of Sweeper/Runs. The clock's reading is an
-- argument. uint64 values are natural numbers with the wrap-around written out; a time is a number of
-- nanoseconds; a Go string is the list of its bytes; a map is an association list with distinct keys,
-- whose order stands for the order of an iteration, which Go leaves open; a set is a list of its
-- members. A template that is no plain field is a function that renders it, and any such function is
-- allowed.
--
-- `enforceCap` loops on fuel: each round takes an interval away, so the number of intervals is enough.
-- `releaseConsecutive` takes a held event away in each round, so the number of held events is enough.
--
-- Not modelled: the sources and targets (network and store access), metrics, logging, the command line
-- and the Kubernetes controller, which do I/O; the test harness. The choice of a key's shard is a hash
-- of a library, and the theorems are about one shard. Nor yet: the walk of a sweep and the loop that
-- runs it; the ring of lag observations and the polling of probes; codecs; explanations; the settings
-- of a check.
pub mod Base
pub mod Event
pub mod Seqtrack
pub mod Projection
pub mod Oracle
pub mod Differ
pub mod Reorder
pub mod Target
pub mod Sweeper
pub mod Lag
pub mod Tests
