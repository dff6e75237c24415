-- ===== src/Task/Resource/Sharing.antt =====
-- What becomes of a path that two tasks read.
use hermes_agora.Base.{String, ◌≡◌, ◌≢◌, true, [], arith, eq_iff, eq_refl}
use hermes_agora.Base.Dict
use hermes_agora.Task.Resource.{read, write, acquire, release}

-- In a tracker without locks, of two different readers of a path only the first is remembered:
-- when that one releases the path, a writer is granted it while the second reader has not given it
-- back.
pub reader_forgotten :
    (first second writer path : String)
    → first ≢ second
    → let shared = acquire second path read (acquire first path read []).0 in
      let later = acquire writer path write (release first path shared.0).0 in
      (shared.1 ≡ true) × (later.1 ≡ true)
unfolding acquire release Dict.get Dict.put Dict.del
reader_forgotten first second writer path h =
    ground (arith, eq_iff first second, eq_refl path, eq_refl first)

-- In a tracker without locks, a task that reads a path and then asks to write it is granted that,
-- but the lock stays a read lock: another reader is granted the path as well.
pub upgrade_unrecorded :
    (task other path : String)
    → task ≢ other
    → let upgraded = acquire task path write (acquire task path read []).0 in
      let later = acquire other path read upgraded.0 in (upgraded.1 ≡ true) × (later.1 ≡ true)
unfolding acquire Dict.get Dict.put
upgrade_unrecorded task other path h = ground (arith, eq_iff task other, eq_refl path, eq_refl task)
