-- ===== src/Task/Resource/Waiting.antt =====
-- The queues of waiting tasks.
use hermes_agora.Base.{
  refl, any_of, set_add, mem-set_add, Option, none, some, text-cases, String, ◌≡◌, inl, inr, false,
  List, [], ◌∷◌, ◌++◌, arith, ◌==◌, eq_iff, Bool-cases, All, mem, mem-append,
}
use hermes_agora.Base.Dict
use hermes_agora.Base.Dict.{Dict}
use hermes_agora.Base.Counter.{keys}
use hermes_agora.Base.Entries.{Distinct-del, All-get, Distinct, Distinct-put}
use hermes_agora.Task.Resource.{
  keep_others, release_all, acquire_sync, take_all, take_found, hand_over, release, release_found,
  blocks, both_read, LockType, write, ResourceLock, Locks, fresh_lock, acquire, acquire_found,
}

abbrev pub NoRepeats : List String → Type 0
NoRepeats [] = Unit
NoRepeats (x ∷ xs) = (mem x xs ≡ false) × NoRepeats xs

-- A lock stands under its own path, no task waits twice for it, and its holder does not wait.
pub record IsQueue (path : String) (lock : ResourceLock) : Type 0 where
  pub named : lock.resource_path ≡ path
  pub once : NoRepeats lock.waiting_tasks
  pub not_holder : mem lock.locked_by lock.waiting_tasks ≡ false

pub record IsTracker (locks : Locks) : Type 0 where
  pub distinct : Distinct locks
  pub queues : All (λ e. IsQueue e.0 e.1) locks

NoRepeats-snoc :
    (x : String) (xs : List String) → NoRepeats xs → mem x xs ≡ false → NoRepeats (xs ++ x ∷ [])
NoRepeats-snoc x [] h m = (refl, tt)
NoRepeats-snoc x (y ∷ ys) h m =
    ground (arith, mem-append y ys (x ∷ []), eq_iff x y, eq_iff y x, NoRepeats-snoc x ys)

NoRepeats-set_add : (x : String) (xs : List String) → NoRepeats xs → NoRepeats (set_add x xs)
unfolding set_add
NoRepeats-set_add x xs h = elim (Bool-cases (mem x xs)) [
  | inl e ↦ rw e h
  | inr e ↦ rw e (NoRepeats-snoc x xs h e)
]

All-put {ℓ κ} :
    {V : Type ℓ} (P : String × V → Type κ) (k : String) (v : V) (d : Dict V)
    → P (k, v)
    → All P d
    → All P (Dict.put k v d)
unfolding Dict.put
All-put P k v [] p h = (p, tt)
All-put P k v ((j, w) ∷ d) p h = elim (Bool-cases (j == k)) [
  | inl e ↦ rw e (p, h.1)
  | inr e ↦ rw e (h.0, All-put P k v d p h.1)
]

IsTracker-put :
    (path : String) (lock : ResourceLock) (locks : Locks)
    → IsQueue path lock
    → IsTracker locks
    → IsTracker (Dict.put path lock locks)
IsTracker-put path lock locks q h = record {
  distinct = Distinct-put path lock locks h.distinct;
  queues = All-put (λ e. IsQueue e.0 e.1) path lock locks q h.queues;
}

get-IsQueue :
    (path : String) (lock : ResourceLock) (locks : Locks)
    → IsTracker locks
    → Dict.get path locks ≡ some lock
    → IsQueue path lock
get-IsQueue path lock locks h e = All-get (λ x. IsQueue x.0 x.1) path lock locks h.queues e

fresh-IsQueue : (path task : String) (mode : LockType) → IsQueue path (fresh_lock path task mode)
fresh-IsQueue path task mode = record { named = refl; once = tt; not_holder = refl }

All-del {ℓ κ} :
    {V : Type ℓ} (P : String × V → Type κ) (k : String) (d : Dict V)
    → All P d
    → All P (Dict.del k d)
unfolding Dict.del
All-del P k [] h = tt
All-del P k ((j, w) ∷ d) h = elim (Bool-cases (j == k)) [
  | inl e ↦ rw e (All-del P k d h.1)
  | inr e ↦ rw e (h.0, All-del P k d h.1)
]

module _ (task path : String) (mode : LockType) (locks : Locks) (h : IsTracker locks) where
  acquire_found-IsTracker :
      (o : Option ResourceLock)
      → Dict.get path locks ≡ o
      → IsTracker (acquire_found task path mode locks o).0
  unfolding acquire_found
  acquire_found-IsTracker none e =
      IsTracker-put path (fresh_lock path task mode) locks (fresh-IsQueue path task mode) h
  acquire_found-IsTracker (some lock) e = elim (text-cases lock.locked_by task) [
    | inl (t, _) ↦ rw t h
    | inr (t, _) ↦ rw t (elim (Bool-cases (both_read lock.lock_type mode)) [
      | inl b ↦ rw b h
      | inr b ↦
          let q = get-IsQueue path lock locks h e in
          rw b (
            IsTracker-put path (record lock { waiting_tasks = set_add task lock.waiting_tasks })
              locks
              (record {
                named = q.named;
                once = NoRepeats-set_add task lock.waiting_tasks q.once;
                not_holder =
                    rw (mem-set_add lock.locked_by task lock.waiting_tasks, t, q.not_holder);
              })
              h)
    ])
  ]

  -- Asking for a path keeps the tracker well formed.
  pub acquire-IsTracker : IsTracker (acquire task path mode locks).0
  unfolding acquire
  acquire-IsTracker = acquire_found-IsTracker (Dict.get path locks) refl

  take_found-IsTracker : (o : Option ResourceLock) → IsTracker (take_found task mode path locks o)
  take_found-IsTracker none =
      IsTracker-put path (fresh_lock path task mode) locks (fresh-IsQueue path task mode) h
  take_found-IsTracker (some lock) = elim (text-cases lock.locked_by task) [
    | inl (t, _) ↦ rw t h
    | inr (t, _) ↦
        rw t (IsTracker-put path (fresh_lock path task mode) locks (fresh-IsQueue path task mode) h)
  ]

module _ (task : String) (mode : LockType) where
  take_all-IsTracker :
      (paths : List String) (locks : Locks)
      → IsTracker locks
      → IsTracker (take_all task mode paths locks)
  unfolding take_all
  take_all-IsTracker [] locks h = h
  take_all-IsTracker (path ∷ paths) locks h =
      take_all-IsTracker paths (take_found task mode path locks (Dict.get path locks))
        (take_found-IsTracker task path mode locks h (Dict.get path locks))

  -- So does asking for a batch of paths, granted or not.
  pub acquire_sync-IsTracker :
      (paths : List String) (locks : Locks)
      → IsTracker locks
      → IsTracker (acquire_sync task paths mode locks).0
  unfolding acquire_sync
  acquire_sync-IsTracker paths locks h =
      elim (Bool-cases (any_of (λ p. blocks task mode (Dict.get p locks)) paths)) [
        | inl e ↦ rw e h
        | inr e ↦ rw e (take_all-IsTracker paths locks h)
      ]

hand_over-IsTracker :
    (path : String) (lock : ResourceLock) (ws : List String) (locks : Locks)
    → IsTracker locks
    → lock.resource_path ≡ path
    → NoRepeats ws
    → IsTracker (hand_over path lock ws locks).0
hand_over-IsTracker path lock [] locks h p w = record {
  distinct = Distinct-del path locks h.distinct;
  queues = All-del (λ e. IsQueue e.0 e.1) path locks h.queues;
}
hand_over-IsTracker path lock (next ∷ rest) locks h p w =
    IsTracker-put path (record lock { locked_by = next; waiting_tasks = rest; lock_type = write })
      locks (record { named = p; once = w.1; not_holder = w.0 }) h

-- And so does giving back a path.
pub release-IsTracker :
    (task path : String) (locks : Locks) → IsTracker locks → IsTracker (release task path locks).0
unfolding release
release-IsTracker task path locks h = go (Dict.get path locks) refl
  where
    go :
        (o : Option ResourceLock)
        → Dict.get path locks ≡ o
        → IsTracker (release_found task path locks o).0
    go none e = unfold release_found in h
    go (some lock) e =
        unfold release_found in
        elim (Bool-cases (lock.locked_by == task)) [
          | inl t ↦
              let q = get-IsQueue path lock locks h e in
              rw t (hand_over-IsTracker path lock lock.waiting_tasks locks h q.named q.once)
          | inr t ↦ rw t h
        ]

mem-keys-keep_others :
    (path task : String) (locks : Locks)
    → mem path (keys locks) ≡ false
    → mem path (keys (keep_others task locks)) ≡ false
unfolding keep_others
mem-keys-keep_others path task [] h = h
mem-keys-keep_others path task ((p, lock) ∷ locks) h =
    ground (arith, mem-keys-keep_others path task locks)

Distinct-keep_others :
    (task : String) (locks : Locks) → Distinct locks → Distinct (keep_others task locks)
unfolding keep_others
Distinct-keep_others task [] h = tt
Distinct-keep_others task ((p, lock) ∷ locks) h =
    ground (arith, mem-keys-keep_others p task locks, Distinct-keep_others task locks h.1)

All-keep_others {κ} :
    (P : String × ResourceLock → Type κ) (task : String) (locks : Locks)
    → All P locks
    → All P (keep_others task locks)
unfolding keep_others
All-keep_others P task [] h = tt
All-keep_others P task ((p, lock) ∷ locks) h = elim (Bool-cases (lock.locked_by == task)) [
  | inl e ↦ rw e (All-keep_others P task locks h.1)
  | inr e ↦ rw e (h.0, All-keep_others P task locks h.1)
]

-- And so does giving back everything.
pub release_all-IsTracker :
    (task : String) (locks : Locks) → IsTracker locks → IsTracker (release_all task locks).0
unfolding release_all
release_all-IsTracker task locks h = record {
  distinct = Distinct-keep_others task locks h.distinct;
  queues = All-keep_others (λ e. IsQueue e.0 e.1) task locks h.queues;
}

-- Acquiring one path or a batch, releasing one path and releasing all keep the tracker well
-- formed: paths are distinct, a lock stands under its own path, no task waits twice for a lock,
-- and the holder of a lock does not wait for it.
pub operations-IsTracker :
    (task : String) (mode : LockType) (paths : List String) (path : String) (locks : Locks)
    → IsTracker locks
    → IsTracker (acquire task path mode locks).0
      × IsTracker (acquire_sync task paths mode locks).0
      × IsTracker (release task path locks).0
      × IsTracker (release_all task locks).0
operations-IsTracker task mode paths path locks h = (
  acquire-IsTracker task path mode locks h,
  acquire_sync-IsTracker task mode paths locks h,
  release-IsTracker task path locks h,
  release_all-IsTracker task locks h,
)
