-- ===== src/Web/Tasks/Single.antt =====
-- Only one task is at work at a time in racelink/web/tasks.py.
use gatecontrol_lora.Prelude.{
  ℕ, Bool-cases, List, Option, Text, [], ap, arith, contains, false, if◌then◌else◌, inl, inr, none,
  refl, some, subst, suc, true, ◌==◌, ◌∙◌, ◌∷◌, ◌≡◌,
}
use gatecontrol_lora.Web.Tasks.{
  Task, TaskManager, ask_start, thread_ends, Outcome, TaskInput, change_task, ended, is_running,
  is_running_state, raised, remove_thread, returned, runner_ends, runs, start, task_run, task_step,
  update_task,
}

-- Either no thread is at work and no task is shown as running, or one is, and it is the one of
-- the task that is shown as running.
abbrev pub AtWork : Option Task → List ℕ → Type 0
AtWork none threads = threads ≡ []
AtWork (some t) threads =
    if is_running_state t.state then threads ≡ t.task_id ∷ [] else threads ≡ []

abbrev pub IsSingle : TaskManager → Type 0
IsSingle m = AtWork m.task m.threads

idle_threads :
    (o : Option Task) (threads : List ℕ) → runs o ≡ false → AtWork o threads → threads ≡ []
idle_threads none threads e h = h
idle_threads (some t) threads e h = rw e at h

start-IsSingle :
    (now : ℕ) (name : Text) (m : TaskManager) → IsSingle m → IsSingle (start now name m).1
unfolding start is_running
start-IsSingle now name m h = elim (Bool-cases (runs m.task)) [
  | inl e ↦ rw (start, is_running, e) h
  | inr e ↦
      rw (start, is_running, e) (ap (λ ts. suc m.task_seq ∷ ts) (idle_threads m.task m.threads e h))
]

-- The one thread at work is taken off the list.
remove_only :
    (ident a : ℕ) (threads : List ℕ)
    → threads ≡ a ∷ []
    → contains threads ident ≡ true
    → remove_thread ident threads ≡ []
remove_only ident a threads e c =
    let here : contains (a ∷ []) ident ≡ true = subst (λ ts. contains ts ident ≡ true) e c in
    let same : (a == ident) ≡ true = ground (arith, here) in
    ap (remove_thread ident) e ∙ rw same refl

no_thread : (ident : ℕ) (threads : List ℕ) → threads ≡ [] → contains threads ident ≡ false
no_thread ident threads e = rw e refl

ended-AtWork :
    (now ident : ℕ) (outcome : Outcome) (o : Option Task) (threads : List ℕ)
    → contains threads ident ≡ true
    → AtWork o threads
    → AtWork (change_task (ended now outcome) o) (remove_thread ident threads)
ended-AtWork now ident outcome none threads c h = cc (no_thread ident threads h, c)
ended-AtWork now ident outcome (some t) threads c h = elim (Bool-cases (is_running_state t.state)) [
  | inl e ↦ stopped outcome (remove_only ident t.task_id threads (rw e at h) c)
  | inr e ↦ cc (no_thread ident threads (rw e at h), c)
]
  where
    stopped :
        (outcome : Outcome)
        → remove_thread ident threads ≡ []
        → AtWork (some (ended now outcome t)) (remove_thread ident threads)
    stopped returned k = k
    stopped (raised text) k = k

runner_ends-IsSingle :
    (now ident : ℕ) (outcome : Outcome) (m : TaskManager)
    → IsSingle m
    → IsSingle (runner_ends now ident outcome m)
unfolding runner_ends update_task
runner_ends-IsSingle now ident outcome m h = elim (Bool-cases (contains m.threads ident)) [
  | inl e ↦ rw (runner_ends, e) (ended-AtWork now ident outcome m.task m.threads e h)
  | inr e ↦ rw (runner_ends, e) h
]

-- However tasks are asked for and threads end, there is never more than one thread at work, and
-- it is the thread of the task that is shown as running; while no task is shown as running, no
-- thread is at work. This holds if it does at the start.
pub task_run-IsSingle :
    (inputs : List TaskInput) (m : TaskManager) → IsSingle m → IsSingle (task_run inputs m)
unfolding task_run task_step
task_run-IsSingle [] m h = h
task_run-IsSingle (ask_start now name ∷ is) m h =
    task_run-IsSingle is (start now name m).1 (start-IsSingle now name m h)
task_run-IsSingle (thread_ends now ident outcome ∷ is) m h =
    task_run-IsSingle is (runner_ends now ident outcome m)
      (runner_ends-IsSingle now ident outcome m h)
