-- ===== src/Task/Resource/Batches.antt =====
-- Taking many paths at once, and giving all of them back.
use hermes_agora.Base.{
  false≢true, String, ◌≡◌, refl, sym, ap, subst, inl, inr, true, false, Option, none, some, List,
  [], ◌∷◌, arith, ◌==◌, eq_iff, if◌then◌else◌, Bool-cases, text-cases, any_of, mem,
}
use hermes_agora.Base.Dict
use hermes_agora.Base.Dict.{Dict}
use hermes_agora.Base.Counter.{keys}
use hermes_agora.Base.Entries.{Distinct}
use hermes_agora.Task.Resource.{
  LockType, write, ResourceLock, Locks, fresh_lock, blocks, take_found, take_all, acquire_sync,
  release_all, keep_others,
}
use hermes_agora.Task.Resource.Locks.{holder, holder_of}

module _ (task : String) (mode : LockType) where
  holder-take_found :
      (path other : String) (locks : Locks) (o : Option ResourceLock)
      → Dict.get path locks ≡ o
      → holder other (take_found task mode path locks o)
        ≡ (if path == other then some task else holder other locks)
  holder-take_found path other locks none e =
      ground
        (arith, e, eq_iff path other, Dict.get-put path other (fresh_lock path task mode) locks)
  holder-take_found path other locks (some lock) e = ground (
    arith,
    e,
    eq_iff path other,
    eq_iff lock.locked_by task,
    Dict.get-put path other (fresh_lock path task mode) locks,
  )

  holder-take_all :
      (other : String) (paths : List String) (locks : Locks)
      → holder other (take_all task mode paths locks)
        ≡ (if mem other paths then some task else holder other locks)
  unfolding take_all
  holder-take_all other [] locks = refl
  holder-take_all other (path ∷ paths) locks = ground (
    arith,
    eq_iff other path,
    eq_iff path other,
    holder-take_found path other locks (Dict.get path locks) refl,
    holder-take_all other paths (take_found task mode path locks (Dict.get path locks)),
  )

  any_blocked :
      (path : String) (paths : List String) (locks : Locks)
      → any_of (λ p. blocks task mode (Dict.get p locks)) paths ≡ false
      → mem path paths ≡ true
      → blocks task mode (Dict.get path locks) ≡ false
  any_blocked path [] locks h m = cc
  any_blocked path (p ∷ paths) locks h m = elim (text-cases path p) [
    | inl (_, e) ↦ subst (λ x. blocks task mode (Dict.get x locks) ≡ false) (sym e) (ground arith)
    | inr (t, _) ↦ any_blocked path paths locks (ground arith) (ground (arith, t))
  ]

  blocks-write :
      (o : Option ResourceLock) (t : String)
      → mode ≡ write
      → blocks task mode o ≡ false
      → holder_of o ≡ some t
      → t ≡ task
  blocks-write none t w b h = cc
  blocks-write (some lock) t w b h = ground (arith, eq_iff lock.locked_by task)

  -- A batch of paths is taken as a whole or not at all: refused, it changes no lock; granted, the
  -- task holds every path of it and every other path keeps its holder.
  pub acquire_sync_atomic :
      (paths : List String) (locks : Locks)
      → ((acquire_sync task paths mode locks).1 ≡ false
          → (acquire_sync task paths mode locks).0 ≡ locks)
        × ((acquire_sync task paths mode locks).1 ≡ true
            → (other : String)
            → holder other (acquire_sync task paths mode locks).0
              ≡ (if mem other paths then some task else holder other locks))
  unfolding acquire_sync
  acquire_sync_atomic paths locks =
      elim (Bool-cases (any_of (λ p. blocks task mode (Dict.get p locks)) paths)) [
        | inl e ↦ rw e (λ _. refl, λ h. absurd (false≢true h))
        | inr e ↦
            rw e (λ h. absurd (false≢true (sym h)), λ _ other. holder-take_all other paths locks)
      ]

  -- A batch that is asked for writing takes no path from a task that holds it.
  pub acquire_sync_write_keeps :
      mode ≡ write
      → (paths : List String) (locks : Locks) (other t : String) → holder other locks ≡ some t
      → holder other (acquire_sync task paths mode locks).0 ≡ some t
  unfolding acquire_sync
  acquire_sync_write_keeps w paths locks other t h =
      elim (Bool-cases (any_of (λ p. blocks task mode (Dict.get p locks)) paths)) [
        | inl e ↦ rw e h
        | inr e ↦ rw e (elim (Bool-cases (mem other paths)) [
          | inl m ↦
              let same =
                blocks-write (Dict.get other locks) t w (any_blocked other paths locks e m) h in
              rw (holder-take_all other paths locks, m) (ap some (sym same))
          | inr m ↦ rw (holder-take_all other paths locks, m) h
        ])
      ]

get-keep_others-fresh :
    (task path : String) (locks : Locks)
    → mem path (keys locks) ≡ false
    → Dict.get path (keep_others task locks) ≡ none
unfolding keep_others Dict.get
get-keep_others-fresh task path [] h = refl
get-keep_others-fresh task path ((p, lock) ∷ locks) h =
    ground (arith, eq_iff p path, eq_iff path p, get-keep_others-fresh task path locks)

holder-keep_others :
    (task path : String) (locks : Locks)
    → Distinct locks
    → holder path (keep_others task locks)
      ≡ elim (holder path locks) [ none ↦ none | some t ↦ if t == task then none else some t ]
unfolding keep_others Dict.get
holder-keep_others task path [] d = refl
holder-keep_others task path ((p, lock) ∷ locks) d = elim (text-cases p path) [
  | inl (t, e) ↦
      let gone : mem path (keys locks) ≡ false = subst (λ x. mem x (keys locks) ≡ false) e d.0 in
      ground (arith, t, get-keep_others-fresh task path locks gone)
  | inr (t, _) ↦ ground (arith, t, holder-keep_others task path locks d.1)
]

-- Where the paths of the locks are distinct, a task that releases all holds no path afterwards,
-- and every other task holds what it held.
pub holder-release_all :
    (task : String) (locks : Locks)
    → Distinct locks
    → (path : String)
    → holder path (release_all task locks).0
      ≡ elim (holder path locks) [ none ↦ none | some t ↦ if t == task then none else some t ]
unfolding release_all
holder-release_all task locks d path = holder-keep_others task path locks d
