-- ===== src/Task/Resource/Locks.antt =====
-- Who holds a lock after an operation on one path.
use hermes_agora.Base.{
  eq_iff, arith, String, [], ◌∷◌, List, refl, set_add, eq_refl, ◌≡◌, ◌↔◌, ◌⊎◌, true, Option, none,
  some, ◌==◌, if◌then◌else◌,
}
use hermes_agora.Base.Dict
use hermes_agora.Base.Dict.{Dict}
use hermes_agora.Task.Resource.{
  LockType, read, write, ResourceLock, Locks, fresh_lock, acquire, acquire_found, release,
  release_found,
}

abbrev pub holder_of : Option ResourceLock → Option String
holder_of none = none
holder_of (some lock) = some lock.locked_by

-- The task that holds the lock on a path.
abbrev pub holder : String → Locks → Option String
holder path locks = holder_of (Dict.get path locks)

abbrev pub first : List String → Option String
first [] = none
first (x ∷ xs) = some x

abbrev pub type_of : Option ResourceLock → Option LockType
type_of none = none
type_of (some lock) = some lock.lock_type

module _ (task path : String) (mode : LockType) (locks : Locks) where
  holder-acquire_found :
      (other : String) (o : Option ResourceLock)
      → Dict.get path locks ≡ o
      → holder other (acquire_found task path mode locks o).0 ≡ (
          if path == other
          then elim (holder_of o) [ none ↦ some task | some t ↦ some t ]
          else holder other locks)
  unfolding acquire_found
  holder-acquire_found other none e =
      ground (arith, e, Dict.get-put path other (fresh_lock path task mode) locks)
  holder-acquire_found other (some existing) e = ground (
    arith,
    e,
    eq_iff path other,
    Dict.get-put path other
        (record existing { waiting_tasks = set_add task existing.waiting_tasks }) locks,
  )

  -- Asking for a path never takes it from its holder, whatever the answer: a free path goes to the
  -- task that asks, and every other path keeps its holder.
  pub holder-acquire :
      (other : String)
      → holder other (acquire task path mode locks).0 ≡ (
          if path == other
          then elim (holder path locks) [ none ↦ some task | some t ↦ some t ]
          else holder other locks)
  unfolding acquire
  holder-acquire other = holder-acquire_found other (Dict.get path locks) refl

  -- A path is granted exactly when it is free, the task holds it already, or the lock on it and
  -- the request are both for reading.
  pub acquire_granted : ((acquire task path mode locks).1 ≡ true) ↔ (
      (holder path locks ≡ none)
      ⊎ (holder path locks ≡ some task)
      ⊎ ((type_of (Dict.get path locks) ≡ some read) × (mode ≡ read)))
  unfolding acquire
  acquire_granted = go (Dict.get path locks)
    where
      go :
          (o : Option ResourceLock)
          → ((acquire_found task path mode locks o).1 ≡ true) ↔ (
              (holder_of o ≡ none)
              ⊎ (holder_of o ≡ some task)
              ⊎ ((type_of o ≡ some read) × (mode ≡ read)))
      go none = ground arith
      go (some existing) = ground (arith, eq_iff existing.locked_by task)

  -- A granted write leaves the task as the holder.
  pub acquire-write_holds :
      mode ≡ write
      → (acquire task path mode locks).1 ≡ true
      → holder path (acquire task path mode locks).0 ≡ some task
  acquire-write_holds w h =
      ground (arith, w, acquire_granted.0 h, holder-acquire path, eq_refl path)

module _ (task path : String) (locks : Locks) where
  holder-release_found :
      (other : String) (o : Option ResourceLock)
      → Dict.get path locks ≡ o
      → holder other (release_found task path locks o).0 ≡ (
          if path == other
          then elim o [
            | none ↦ none
            | some lock ↦
                if lock.locked_by == task then first lock.waiting_tasks else some lock.locked_by
          ]
          else holder other locks)
  unfolding release_found
  holder-release_found other none e = ground (arith, e, eq_iff path other)
  holder-release_found other (some lock) e = go lock.waiting_tasks refl
    where
      go :
          (ws : List String)
          → lock.waiting_tasks ≡ ws
          → holder other (release_found task path locks (some lock)).0 ≡ (
              if path == other
              then (if lock.locked_by == task
                  then first lock.waiting_tasks
                  else some lock.locked_by)
              else holder other locks)
      go [] w = ground (arith, e, w, eq_iff path other, Dict.get-del path other locks)
      go (next ∷ rest) w = ground (
        arith,
        e,
        w,
        eq_iff path other,
        Dict.get-put path other
            (record lock { locked_by = next; waiting_tasks = rest; lock_type = write }) locks,
      )

  -- Where the holder of a path releases it, the task that has waited longest becomes the holder,
  -- or the path is free if none waits; the release of another task changes no holder, and no other
  -- path changes its holder.
  pub holder-release :
      (other : String)
      → holder other (release task path locks).0 ≡ (
          if path == other
          then elim (Dict.get path locks) [
            | none ↦ none
            | some lock ↦
                if lock.locked_by == task then first lock.waiting_tasks else some lock.locked_by
          ]
          else holder other locks)
  unfolding release
  holder-release other = holder-release_found other (Dict.get path locks) refl
