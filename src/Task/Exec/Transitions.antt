-- ===== src/Task/Exec/Transitions.antt =====
-- What the verification of a finished task (task_verify/) does to the statuses in the table.
use hermes_agora.Base.{
  none, ℕ, String, ◌≡◌, refl, sym, ◌∙◌, subst, inl, inr, Bool, ◌&&◌, Option, some, List, arith,
  Bool-cases, text-cases,
}
use hermes_agora.Task.Status.{is_valid_transition}
use hermes_agora.Task.Status.Diagram.{accept, StepBetween}
use hermes_agora.Task.Status
use hermes_agora.Task.Store.{Task, Changes, get_task, update_task_status, no_changes}
use hermes_agora.Task.Store.Updates.{status, status-update}
use hermes_agora.Task.World.{World}
use hermes_agora.Task.Verify.{
  verify_task, verify_found, delegate_review, auto_verify, is_simple_task,
}

-- Zero or more steps of the life cycle, on the texts of the statuses.
pub data Reach (s : String) : String → Type 0 where
  here : Reach s s
  next : {t u : String} → Reach s t → StepBetween t u → Reach s u

Reach-trans : {s t u : String} → Reach s t → Reach t u → Reach s u
Reach-trans p here = p
Reach-trans p (next q e) = next (Reach-trans p q) e

-- Every task of the first table is in the second, with a status that its life cycle allows.
abbrev pub Follows : List Task → List Task → Type 0
Follows before after =
    (j s : String)
    → status j before ≡ some s
    → (s' : String) × (status j after ≡ some s') × Reach s s'

Follows-refl : (tasks : List Task) → Follows tasks tasks
Follows-refl tasks j s h = (s, h, here)

Follows-trans : (a b c : List Task) → Follows a b → Follows b c → Follows a c
Follows-trans a b c f g j s h =
    let (t, ht, p) = f j s h in let (u, hu, q) = g j t ht in (u, hu, Reach-trans p q)

Follows-update :
    (now : ℕ) (k new : String) (changes : Changes) (tasks : List Task) (cur : String)
    → status k tasks ≡ some cur
    → StepBetween cur new
    → Follows tasks (update_task_status now k new changes tasks)
Follows-update now k new changes tasks cur at edge j s h = elim (text-cases k j) [
  | inl (t, e) ↦
      let same : cur ≡ s =
        let p : some cur ≡ some s = sym at ∙ subst (λ x. status x tasks ≡ some s) (sym e) h in
        cc (p) in
      (
        new,
        ground (arith, status-update now k j new changes tasks, h, t),
        next here (subst (λ x. StepBetween x new) same edge),
      )
  | inr (t, _) ↦ (s, ground (arith, status-update now k j new changes tasks, h, t), here)
]

module _ (exists : String → Bool) (now : ℕ) where
  tasks-delegate_review : (task : Task) (w : World) → (delegate_review task w).tasks ≡ w.tasks
  unfolding delegate_review
  tasks-delegate_review task w = ground arith

  -- Verification accepts a task that is done, or leaves the table alone.
  pub verify_task-Follows :
      (k : String) (w : World) → Follows w.tasks (verify_task exists now k w).tasks
  unfolding verify_task
  verify_task-Follows k w = go (get_task k w.tasks) refl
    where
      go :
          (o : Option Task)
          → get_task k w.tasks ≡ o
          → Follows w.tasks (verify_found exists now k o w).tasks
      go none e = unfold verify_found in Follows-refl w.tasks
      go (some task) e =
          unfold verify_found in
          elim (text-cases task.status "done") [
            | inr (t, _) ↦ rw t (Follows-refl w.tasks)
            | inl (t, done) ↦
                rw t (elim (Bool-cases (auto_verify exists task && is_simple_task task w.tasks)) [
                  | inr b ↦ rw b (
                      subst (λ x. Follows w.tasks x) (sym (tasks-delegate_review task w))
                        (Follows-refl w.tasks))
                  | inl b ↦ rw b (
                      Follows-update now k "accepted" no_changes w.tasks "done"
                        (ground (arith, e, done))
                        (Status.done, Status.accepted, accept, refl, refl))
                ])
          ]
