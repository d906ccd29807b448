-- ===== src/Tasks.antt =====
-- `class TaskManager` of functions/task_manager.py: one record for each profile, and the life of a
-- task. The state is shared by the request handlers and the threads that run tasks; `threads` are
-- those that have been started and have not run yet.
pub mod Answers
pub mod Life
pub mod Threads
pub mod Idles
pub mod Sound
pub mod Accounting
pub mod Progress
pub mod Overlap
use aws_iprotate_python.Prelude.{
  ℕ, String, ◌<>◌, Bool, true, false, Option, none, some, List, [], ◌∷◌, ◌++◌, ◌==◌, if◌then◌else◌,
}
use aws_iprotate_python.Prelude.Dict.{Dict, lookup, insert}
use aws_iprotate_python.Py.{
  Error, key_error, attribute_error, Result, ok, err, Exec, pure, raise, gets, or_raise, modify,
  ◌>>=◌, ◌>>◌,
}
use aws_iprotate_python.Host.{Host}
use aws_iprotate_python.Config.{
  AwsConfig, ConfigLoader, new_loader, on_parser, load_aws_config, load_all_aws_config,
}
use aws_iprotate_python.Run.{World, Kwargs, Answer, RunTask, new_run_task}
use aws_iprotate_python.Run

pub data Status : Type 0 where
  idle busy : Status

-- `data` of the last task: the answer of the task, or the text of a failed login
pub data TaskData : Type 0 where
  answer : Answer → TaskData
  text : String → TaskData

-- a key that the dict lacks is `none`
pub record LastTask : Type 0 where
  pub start_time : Option String
  pub end_time : Option String
  pub task_type : Option String
  pub status : Option String
  pub payload : Option TaskData

abbrev pub no_task : LastTask
no_task = record {
  start_time = none;
  end_time = none;
  task_type = none;
  status = none;
  payload = none;
}

pub record Profile : Type 0 where
  pub config_name : String
  pub status : Status
  pub aws_current_region : Option String
  pub last_task : LastTask
  pub current_task : Option String
  pub task_start_time : Option String

pub record Server (W : Type 0) : Type 0 where
  pub host : Host W
  pub profile : Dict Profile
  pub threads : List Kwargs

-- `aws.get("region") or None`
abbrev pub region_or_none : AwsConfig → Option String
region_or_none aws = if aws.region == "" then none else some aws.region

abbrev pub fresh_profile : AwsConfig → LastTask → Profile
fresh_profile aws last = record {
  config_name = aws.config_name;
  status = idle;
  aws_current_region = region_or_none aws;
  last_task = last;
  current_task = none;
  task_start_time = none;
}

-- `next((aws for aws in all_aws if aws.get("configName") == config_name), None)`
unfoldable pub find_config : String → List AwsConfig → Option AwsConfig
find_config name [] = none
find_config name (aws ∷ rest) = if aws.config_name == name then some aws else find_config name rest

unfoldable pub register_all : List AwsConfig → Dict Profile → Dict Profile
register_all [] profiles = profiles
register_all (aws ∷ rest) profiles =
    register_all rest (insert aws.config_name (fresh_profile aws no_task) profiles)

module _ {W : Type 0} where
  abbrev pub on_host : {A : Type 0} → Exec (Host W) A → Exec (Server W) A
  on_host m s = let (r, h) = m s.host in (r, record s { host = h })

  -- `ConfigLoader().load_all_aws_config()`
  abbrev pub load_all_again : Exec (Host W) (List AwsConfig)
  load_all_again = do
    loader ← new_loader
    (configs, _) ← load_all_aws_config loader.config
    pure configs

  -- `self.profile` of `TaskManager()`
  unfoldable pub new_profiles : Exec (Host W) (Dict Profile)
  new_profiles = do configs ← load_all_again; pure (register_all configs [])

  -- `self.profile[config_name]`
  abbrev pub profile_of : String → Exec (Server W) Profile
  profile_of name = do
    profiles ← gets (λ s. s.profile)
    or_raise (lookup name profiles) (key_error name)

  abbrev pub put_profile : String → Profile → Exec (Server W) Unit
  put_profile name p = modify (λ s. record s { profile = insert name p s.profile })

  -- the rest of `reload_profile`, once the configs are read, and once the profile is found
  abbrev pub reload_found : String → List AwsConfig → Profile → Exec (Server W) Unit
  reload_found name configs p = do
    aws ←
        or_raise (find_config name configs)
          (attribute_error "'NoneType' object has no attribute 'get'")
    put_profile name (fresh_profile aws p.last_task)

  abbrev pub reload_from : String → List AwsConfig → Exec (Server W) Unit
  reload_from name configs = do p ← profile_of name; reload_found name configs p

  unfoldable pub reload_profile : String → Exec (Server W) Unit
  reload_profile name = do configs ← on_host load_all_again; reload_from name configs

  -- the rest of `register_profile`, once config.conf is read
  abbrev pub register_from : String → ConfigLoader → Exec (Server W) Unit
  register_from name loader = do
    (aws, _) ← on_host (on_parser (load_aws_config name) loader)
    put_profile name (fresh_profile aws no_task)

  unfoldable pub register_new : String → Exec (Server W) Unit
  register_new name = do loader ← on_host new_loader; register_from name loader

  -- `if self.profile.get(config_name) is None`
  unfoldable pub register_missing : String → Option Profile → Exec (Server W) Unit
  register_missing name none = register_new name
  register_missing name (some _) = pure tt

  unfoldable pub register_profile : String → Exec (Server W) Unit
  unfolding register_missing
  register_profile name = do
    profiles ← gets (λ s. s.profile)
    register_missing name (lookup name profiles)

module _ {W : Type 0} (world : World W) where
  -- the time, formatted
  abbrev pub time : Exec (Server W) String
  time = on_host λ h. let (t, w) = world.now h.world in (ok t, record h { world = w })

  abbrev pub mark_idle : String → String → TaskData → Profile → Exec (Server W) Unit
  mark_idle name result payload p = do
    t ← time
    put_profile name (record p {
      status = idle;
      current_task = none;
      last_task = record p.last_task {
        end_time = some t;
        status = some result;
        payload = some payload;
      };
    })

  unfoldable pub set_stop_task : String → String → TaskData → Exec (Server W) Unit
  set_stop_task name result payload = do p ← profile_of name; mark_idle name result payload p

  abbrev pub mark_busy : Kwargs → Profile → Exec (Server W) Unit
  mark_busy kwargs p = do
    t ← time
    t' ← time
    put_profile kwargs.config_name (record p {
      status = busy;
      task_start_time = some t;
      current_task = some kwargs.task_type;
      last_task = record p.last_task { start_time = some t'; task_type = some kwargs.task_type };
    })

  -- the first statements of `set_start_task`: the profile is marked busy
  unfoldable pub begin_task : Kwargs → Exec (Server W) Unit
  begin_task kwargs = do p ← profile_of kwargs.config_name; mark_busy kwargs p

  -- `getattr(task, task_type)(**kwargs)`
  unfoldable pub task_method : RunTask → Kwargs → Exec (Host W) Answer
  task_method task kwargs =
      if kwargs.task_type == "change_region"
      then Run.change_region world task kwargs
      else if kwargs.task_type == "change_ip"
      then Run.change_ip world task kwargs
      else if kwargs.task_type == "change_whitelist"
      then Run.change_whitelist world kwargs
      else if kwargs.task_type == "reset"
      then Run.reset world kwargs
      else if kwargs.task_type == "change_auth"
      then Run.change_auth world kwargs
      else raise
          (attribute_error ("'RunTask' object has no attribute '" <> kwargs.task_type <> "'"))

  -- the run itself
  unfoldable pub perform_task : Kwargs → Exec (Host W) Answer
  perform_task kwargs = do task ← new_run_task world; task_method task kwargs

  abbrev pub outcome : Answer → String
  outcome a = if a.success then "success" else "failed"

  -- the last statements
  unfoldable pub finish_task : Kwargs → Answer → Exec (Server W) Answer
  finish_task kwargs result = do
    set_stop_task kwargs.config_name (outcome result) (answer result)
    reload_profile kwargs.config_name
    pure result

  unfoldable pub set_start_task : Kwargs → Exec (Server W) Answer
  set_start_task kwargs = do
    begin_task kwargs
    result ← on_host (perform_task kwargs)
    finish_task kwargs result

  unfoldable pub execute_task : Kwargs → Exec (Host W) Answer
  unfolding perform_task
  execute_task kwargs = perform_task kwargs
