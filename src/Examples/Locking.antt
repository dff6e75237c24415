-- ===== src/Examples/Locking.antt =====
-- The lock tracker on concrete locks.
use hermes_agora.Base.{String, ◌≡◌, refl, ap, ◌≢◌, false≢true, some, [], ◌∷◌, ◌==◌}
use hermes_agora.Base.Dict
use hermes_agora.Task.Resource.{write, Locks, release}
use hermes_agora.Task.Resource.Locks.{holder, holder-release}
use hermes_agora.Task.Resource.Waiting.{IsTracker, operations-IsTracker}

abbrev held : Locks
held =
    (
      "a.py",
      record {
        resource_path = "a.py";
        locked_by = "t1";
        waiting_tasks = "t2" ∷ "t3" ∷ [];
        lock_type = write;
      },
    )
    ∷ []

held-IsTracker : IsTracker held
held-IsTracker = record {
  distinct = (refl, tt);
  queues = (record { named = refl; once = (refl, (refl, tt)); not_holder = refl }, tt);
}

operations-IsTracker_example : IsTracker (release "t1" "a.py" held).0
operations-IsTracker_example =
    (operations-IsTracker "t1" write ("b.py" ∷ []) "a.py" held held-IsTracker).2

holder-release_example : holder "a.py" (release "t1" "a.py" held).0 ≡ some "t2"
unfolding Dict.get
holder-release_example = holder-release "t1" "a.py" held "a.py"

abbrev named : String → String
named s = s

apart : named "t1" ≢ named "t2"
apart h = false≢true (ap (λ x. x == "t2") h)
