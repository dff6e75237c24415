-- ===== src/Task/Resource.antt =====
-- agora/coordinator/task_resource.py and task_resource_compat.py: locks on artifact paths.
-- The asyncio events of waiting tasks are left out: no code of the class ever creates one.
pub mod Locks
pub mod Waiting
pub mod Batches
pub mod Sharing
use hermes_agora.Base.{
  String, ◌≡◌, Bool, true, false, not, ◌&&◌, ◌||◌, Option, none, some, List, [], ◌∷◌, ◌++◌, ◌==◌,
  if◌then◌else◌, any_of, set_add, to_set,
}
use hermes_agora.Base.Dict
use hermes_agora.Base.Dict.{Dict}

pub data LockType : Type 0 where
  read write : LockType

pub record ResourceLock : Type 0 where
  pub resource_path : String
  pub locked_by : String
  pub waiting_tasks : List String
  pub lock_type : LockType

-- `self._locks`
abbrev pub Locks : Type 0
Locks = Dict ResourceLock

abbrev pub both_read : LockType → LockType → Bool
both_read read read = true
both_read _ _ = false

abbrev pub is_write : LockType → Bool
is_write write = true
is_write read = false

abbrev pub fresh_lock : String → String → LockType → ResourceLock
fresh_lock path task mode = record {
  resource_path = path;
  locked_by = task;
  waiting_tasks = [];
  lock_type = mode;
}

-- the end of `acquire`, on the lock that is there
unfoldable pub acquire_found :
    String → String → LockType → Locks → Option ResourceLock → Locks × Bool
unfolding set_add
acquire_found task path mode locks none = (Dict.put path (fresh_lock path task mode) locks, true)
acquire_found task path mode locks (some existing) =
    if existing.locked_by == task
    then (locks, true)
    else if both_read existing.lock_type mode
    then (locks, true)
    else (
      Dict.put path (record existing { waiting_tasks = set_add task existing.waiting_tasks }) locks,
      false,
    )

-- `acquire` on one path
unfoldable pub acquire : String → String → LockType → Locks → Locks × Bool
unfolding acquire_found
acquire task path mode locks = acquire_found task path mode locks (Dict.get path locks)

abbrev pub hand_over : String → ResourceLock → List String → Locks → Locks × List String
hand_over path lock [] locks = (Dict.del path locks, [])
hand_over path lock (next ∷ rest) locks = (
  Dict.put path (record lock { locked_by = next; waiting_tasks = rest; lock_type = write }) locks,
  next ∷ [],
)

unfoldable pub release_found : String → String → Locks → Option ResourceLock → Locks × List String
release_found task path locks none = (locks, [])
release_found task path locks (some lock) =
    if lock.locked_by == task then hand_over path lock lock.waiting_tasks locks else (locks, [])

-- `release` of one path
unfoldable pub release : String → String → Locks → Locks × List String
unfolding release_found
release task path locks = release_found task path locks (Dict.get path locks)

-- whether the lock on a path stops `task` from taking it in a batch
abbrev pub blocks : String → LockType → Option ResourceLock → Bool
blocks task mode none = false
blocks task mode (some existing) =
    not (existing.locked_by == task) && (is_write mode || is_write existing.lock_type)

abbrev pub take_found : String → LockType → String → Locks → Option ResourceLock → Locks
take_found task mode path locks none = Dict.put path (fresh_lock path task mode) locks
take_found task mode path locks (some existing) =
    if existing.locked_by == task then locks else Dict.put path (fresh_lock path task mode) locks

-- the second loop of `acquire_sync`
unfoldable pub take_all : String → LockType → List String → Locks → Locks
take_all task mode [] locks = locks
take_all task mode (path ∷ paths) locks =
    take_all task mode paths (take_found task mode path locks (Dict.get path locks))

-- `acquire_sync`: all the paths or none
unfoldable pub acquire_sync : String → List String → LockType → Locks → Locks × Bool
unfolding take_all
acquire_sync task paths mode locks =
    if any_of (λ path. blocks task mode (Dict.get path locks)) paths
    then (locks, false)
    else (take_all task mode paths locks, true)

-- `release_all`: the locks that stay, and the tasks that waited for the others
unfoldable pub keep_others : String → Locks → Locks
keep_others task [] = []
keep_others task ((path, lock) ∷ locks) =
    let rest = keep_others task locks in
    if lock.locked_by == task then rest else (path, lock) ∷ rest

unfoldable pub waiting_for : String → Locks → List String
waiting_for task [] = []
waiting_for task ((path, lock) ∷ locks) =
    let rest = waiting_for task locks in
    if lock.locked_by == task then lock.waiting_tasks ++ rest else rest

unfoldable pub release_all : String → Locks → Locks × List String
unfolding keep_others waiting_for to_set
release_all task locks = (keep_others task locks, to_set (waiting_for task locks))

-- `get_locked_paths`, `get_held_locks`
pub get_locked_paths : String → Locks → List String
get_locked_paths task [] = []
get_locked_paths task ((path, lock) ∷ locks) =
    let rest = get_locked_paths task locks in if lock.locked_by == task then path ∷ rest else rest

pub add_waiting_found : String → String → Locks → Option ResourceLock → Locks
unfolding set_add
add_waiting_found path task locks none = locks
add_waiting_found path task locks (some lock) =
    Dict.put path (record lock { waiting_tasks = set_add task lock.waiting_tasks }) locks

-- `add_waiting`, `add_waiter`
pub add_waiting : String → String → Locks → Locks
unfolding add_waiting_found
add_waiting path task locks = add_waiting_found path task locks (Dict.get path locks)
