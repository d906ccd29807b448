-- ===== src/Tasks/Threads.antt =====
-- The handlers of app.py and the threads that run tasks share one TaskManager. A step is one whole
-- access of one of them to the profiles of functions/task_manager.py; the steps come in any order.
use aws_iprotate_python.Prelude.{String, ◌≡◌, List, [], ◌∷◌, ◌++◌}
use aws_iprotate_python.Prelude.Dict.{Dict}
use aws_iprotate_python.Py.{Error, ok, err}
use aws_iprotate_python.Host.{Host}
use aws_iprotate_python.Run.{World, Kwargs, Answer}
use aws_iprotate_python.Tasks.{
  TaskData, Profile, Server, answer, outcome, new_profiles, register_profile, reload_profile,
  set_stop_task, begin_task, perform_task,
}

-- `active` are the threads that have marked their profile busy and have not answered yet, `dead`
-- those that an exception has ended before the answer.
pub record System (W : Type 0) : Type 0 where
  pub server : Server W
  pub active : List Kwargs
  pub dead : List Kwargs

module _ {W : Type 0} (world : World W) where
  -- the server of `x` without one of its threads
  abbrev pub without : System W → List Kwargs → List Kwargs → Server W
  without x before behind = record x.server { threads = before ++ behind }

  -- The task of a thread runs on a machine that others change meanwhile: its answer, or the exception
  -- that ends it, is one that it gives from some state of the machine.
  pub data Step (x : System W) : System W → Type 0 where
    -- whatever is done to the machine
    work : (h : Host W) → Step x (record x { server = record x.server { host = h } })
    -- a handler registers a profile, starts a thread, or notes a failed login
    register : (name : String) → Step x (record x { server = (register_profile name x.server).1 })
    start :
        (k : Kwargs)
        → Step x (record x { server = record x.server { threads = x.server.threads ++ k ∷ [] } })
    refuse :
        (name : String) (d : TaskData)
        → Step x (record x { server = (set_stop_task world name "failed" d x.server).1 })
    -- a thread marks its profile busy, or finds that there is none
    begin :
        (before behind : List Kwargs) (k : Kwargs)
        → x.server.threads ≡ before ++ k ∷ behind
        → (begin_task world k (without x before behind)).0 ≡ ok tt
        → Step x (record x {
          server = (begin_task world k (without x before behind)).1;
          active = k ∷ x.active;
        })
    vanish :
        (before behind : List Kwargs) (k : Kwargs) (e : Error)
        → x.server.threads ≡ before ++ k ∷ behind
        → (begin_task world k (without x before behind)).0 ≡ err e
        → Step x (record x { server = (begin_task world k (without x before behind)).1 })
    -- the task has answered, and the profile is marked idle; or it has raised
    stop :
        (before behind : List Kwargs) (k : Kwargs) (a : Answer) (h : Host W)
        → x.active ≡ before ++ k ∷ behind
        → (perform_task world k h).0 ≡ ok a
        → Step x (record x {
          server = (set_stop_task world k.config_name (outcome world a) (answer a) x.server).1;
          active = before ++ behind;
        })
    die :
        (before behind : List Kwargs) (k : Kwargs) (e : Error) (h : Host W)
        → x.active ≡ before ++ k ∷ behind
        → (perform_task world k h).0 ≡ err e
        → Step x (record x { active = before ++ behind; dead = k ∷ x.dead })
    -- the profile is read anew
    reload : (name : String) → Step x (record x { server = (reload_profile name x.server).1 })

  pub data Steps (x : System W) : System W → Type 0 where
    here : Steps x x
    next : {y z : System W} → Steps x y → Step y z → Steps x z

  -- `TaskManager()` on the machine `h`, before the first request
  abbrev pub initial : Host W → Dict Profile → System W
  initial h profile = record {
    server = record { host = h; profile = profile; threads = [] };
    active = [];
    dead = [];
  }

  pub record Reach (x : System W) : Type 0 where
    pub before : Host W
    pub after : Host W
    pub profile : Dict Profile
    pub constructed : new_profiles before ≡ (ok profile, after)
    pub path : Steps (initial after profile) x
