-- ===== src/Tasks/Progress.antt =====
-- How the threads of functions/task_manager.py end.
use aws_iprotate_python.Prelude.{String, ◌≡◌, refl, arith}
use aws_iprotate_python.Run.{World, Kwargs}
use aws_iprotate_python.Tasks.{Server, TaskData, begin_task, set_stop_task}
use aws_iprotate_python.Tasks.Threads.{System, Steps, here, next, Reach}
use aws_iprotate_python.Tasks.Idles.{begin_task_cases}

module _ {W : Type 0} (world : World W) where
  pub Steps-trans : {x y z : System W} → Steps world x y → Steps world y z → Steps world x z
  Steps-trans p here = p
  Steps-trans p (next q s) = next (Steps-trans p q) s

  Reach-Steps : {x y : System W} → Reach world x → Steps world x y → Reach world y
  Reach-Steps r p = record {
    before = r.before;
    after = r.after;
    profile = r.profile;
    constructed = r.constructed;
    path = Steps-trans r.path p;
  }

  set_stop_task-threads :
      (name result : String) (d : TaskData) (s : Server W)
      → (set_stop_task world name result d s).1.threads ≡ s.threads
  unfolding set_stop_task
  set_stop_task-threads name result d s = ground arith

  pub begin_task-threads :
      (k : Kwargs) (s : Server W) → (begin_task world k s).1.threads ≡ s.threads
  begin_task-threads k s =
      begin_task_cases world (λ r. r.1.threads ≡ s.threads) k s (λ p _. refl) (λ _. refl)
