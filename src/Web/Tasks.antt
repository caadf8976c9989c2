-- ===== src/Web/Tasks.antt =====
-- racelink/web/tasks.py: the one long-running task that the web interface shows. The lock makes a
-- call one step; the thread of a task is an entry of the state from its start until its target
-- has returned or raised. What a task is called with, and the counters of its replies, are left
-- out, and so are the broadcasts, which do not raise.
pub mod Single
use gatecontrol_lora.Prelude.{
  ℕ, Bool, List, Option, Text, [], contains, false, if◌then◌else◌, none, some, suc, true, ◌==◌, ◌∷◌,
  ◌≡◌,
}

pub data TaskState : Type 0 where
  running done error : TaskState

pub record Task : Type 0 where
  pub task_id : ℕ
  pub name : Text
  pub state : TaskState
  pub started_ts : ℕ
  pub ended_ts : Option ℕ
  pub last_error : Option Text

pub record TaskManager : Type 0 where
  pub task : Option Task
  pub task_seq : ℕ
  pub threads : List ℕ

abbrev pub is_running_state : TaskState → Bool
is_running_state running = true
is_running_state done = false
is_running_state error = false

abbrev pub runs : Option Task → Bool
runs none = false
runs (some t) = is_running_state t.state

unfoldable pub is_running : TaskManager → Bool
is_running m = runs m.task

abbrev new_task : ℕ → Text → ℕ → Task
new_task ident name now = record {
  task_id = ident;
  name = name;
  state = running;
  started_ts = now;
  ended_ts = none;
  last_error = none;
}

-- The snapshot that `start` returns, and nothing where a task runs.
unfoldable pub start : ℕ → Text → TaskManager → Option Task × TaskManager
unfolding is_running
start now name m =
    let ident = suc m.task_seq in
    if is_running m then (none, m) else (
      some (new_task ident name now),
      record {
        task = some (new_task ident name now);
        task_seq = ident;
        threads = ident ∷ m.threads;
      },
    )

-- What the target comes to.
pub data Outcome : Type 0 where
  returned : Outcome
  raised : (text : Text) → Outcome

abbrev pub change_task : (Task → Task) → Option Task → Option Task
change_task f none = none
change_task f (some t) = some (f t)

-- `update`, as the runner calls it: it changes the task that is shown, if there is one.
unfoldable pub update_task : (Task → Task) → TaskManager → TaskManager
update_task f m = record m { task = change_task f m.task }

abbrev pub ended : ℕ → Outcome → Task → Task
ended now returned t = record t { state = done; ended_ts = some now }
ended now (raised text) t = record t { state = error; ended_ts = some now; last_error = some text }

abbrev pub remove_thread : ℕ → List ℕ → List ℕ
remove_thread ident [] = []
remove_thread ident (t ∷ ts) =
    let rest = remove_thread ident ts in if t == ident then ts else t ∷ rest

-- The end of a thread's target.
unfoldable pub runner_ends : ℕ → ℕ → Outcome → TaskManager → TaskManager
unfolding update_task
runner_ends now ident outcome m =
    if contains m.threads ident
    then update_task (ended now outcome) (record m { threads = remove_thread ident m.threads })
    else m

pub data TaskInput : Type 0 where
  ask_start : (now : ℕ) (name : Text) → TaskInput
  thread_ends : (now ident : ℕ) → Outcome → TaskInput

unfoldable pub task_step : TaskInput → TaskManager → TaskManager
unfolding start runner_ends
task_step (ask_start now name) m = (start now name m).1
task_step (thread_ends now ident outcome) m = runner_ends now ident outcome m

unfoldable pub task_run : List TaskInput → TaskManager → TaskManager
unfolding task_step
task_run [] m = m
task_run (i ∷ is) m = task_run is (task_step i m)
