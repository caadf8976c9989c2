-- ===== src/Examples/Tasks.antt =====
-- A second task is refused while the first is at work.
use gatecontrol_lora.Prelude.{List, [], codes, none, refl, ◌∷◌, ◌≡◌}
use gatecontrol_lora.Web.Tasks.{
  TaskManager, ask_start, thread_ends, TaskInput, is_running, returned, runner_ends, start,
  task_run, task_step, update_task,
}
use gatecontrol_lora.Web.Tasks.Single.{IsSingle, task_run-IsSingle}

abbrev idle_manager : TaskManager
idle_manager = record { task = none; task_seq = 0; threads = [] }

abbrev inputs : List TaskInput
inputs =
    ask_start 1 (codes "discover")
    ∷ ask_start 2 (codes "fwupdate")
    ∷ thread_ends 3 1 returned
    ∷ ask_start 4 (codes "fwupdate")
    ∷ []

second_at_work : (task_run inputs idle_manager).threads ≡ 2 ∷ []
unfolding task_run task_step start runner_ends update_task is_running
second_at_work = refl

task_run-IsSingle_example : IsSingle (task_run inputs idle_manager)
task_run-IsSingle_example = task_run-IsSingle inputs idle_manager refl
