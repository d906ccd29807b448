-- ===== src/App/Start.antt =====
-- The start of app.py, and its `check_last_task`, which nothing calls.
pub mod Timeout
use aws_iprotate_python.Prelude.{ℕ, String, ◌==◌, Option, none, some, [], if◌then◌else◌, ltb}
use aws_iprotate_python.Prelude.Dict.{Dict, lookup, insert}
use aws_iprotate_python.Py.{type_error, Exec, pure, gets, or_raise, dict_hasattr, ◌>>=◌, ◌>>◌}
use aws_iprotate_python.Host.{Host, outside}
use aws_iprotate_python.Config.{ApiConfig, ConfigLoader, new_loader, on_parser, load_api_config}
use aws_iprotate_python.Service.{new_service, reset_all}
use aws_iprotate_python.Run.{World}
use aws_iprotate_python.Tasks.{
  idle, Profile, LastTask, Server, new_profiles, profile_of, put_profile, on_host, register_profile,
}

module _ {W : Type 0} (world : World W) where
  -- The profiles of the TaskManager, and the port; the services that run from before are stopped.
  unfoldable pub start_up : Exec (Host W) (Dict Profile × String)
  start_up = do
    profiles ← new_profiles
    loader ← new_loader
    (_, loader') ← on_parser load_api_config loader
    outside (new_service world.systemd "")
    outside (reset_all world.systemd)
    pure (profiles, loader'.api_config.port)

-- `elapsed` are the seconds since a formatted time, and `now` formats the time of the call
module _ {W : Type 0} (elapsed : String → Exec (Server W) ℕ) (now : Exec (Server W) String) where
  abbrev pub timed_out : String → Profile → Exec (Server W) LastTask
  timed_out name p = do
    t ← now
    let last = record p.last_task { status = some "Timeout"; end_time = some t }
    put_profile name
        (record p { status = idle; last_task = last; task_start_time = none; current_task = none })
    pure last

  abbrev pub after_timeout : String → Profile → Exec (Server W) LastTask
  after_timeout name p = do
    started ← or_raise p.task_start_time (type_error "strptime() argument 1 must be str, not None")
    seconds ← elapsed started
    if ltb 600 seconds then timed_out name p else pure p.last_task

  abbrev pub last_task_of : String → Option Profile → Exec (Server W) LastTask
  last_task_of name none = do register_profile name; p ← profile_of name; pure p.last_task
  last_task_of name (some p) =
      if dict_hasattr "task_start_time" then after_timeout name p else pure p.last_task

  unfoldable pub check_last_task : String → Exec (Server W) LastTask
  check_last_task name = do known ← gets (λ s. lookup name s.profile); last_task_of name known
