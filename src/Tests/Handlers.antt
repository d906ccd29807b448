-- ===== src/Tests/Handlers.antt =====
-- The theorems on the tasks and the requests, each on a concrete run.
use aws_iprotate_python.Prelude.{String, true, Option, none, some, [], ◌∷◌, ◌≡◌, ◌↔◌, ◌⊎◌, refl}
use aws_iprotate_python.Prelude.Dict.{lookup, insert}
use aws_iprotate_python.Prelude.Text.{str}
use aws_iprotate_python.ConfigParser.{set, has_option}
use aws_iprotate_python.Py.{ok, err, no_section}
use aws_iprotate_python.Config.{
  new_loader, load_configs, number_config, reset_aws_config_order, reorder_aws_config,
  load_aws_config, default_option, read_aws_config,
}
use aws_iprotate_python.Config.Defaults.{aws_config}
use aws_iprotate_python.Run.{Kwargs, Answer, RunTask, new_run_task}
use aws_iprotate_python.Tasks.{
  Profile, Server, idle, busy, fresh_profile, no_task, task_method, begin_task, set_start_task,
}
use aws_iprotate_python.Tasks.Answers.{task_method-Answers}
use aws_iprotate_python.Tasks.Life.{state_of, set_start_task_idle, set_start_task_stuck}
use aws_iprotate_python.Replies.{Request, word, authorised, config_detail, no_kwargs}
use aws_iprotate_python.App.{
  get_change_region, open_config, get_start_process, get_reset, get_change_auth,
  get_available_region, get_config_detail, change_whitelist,
}
use aws_iprotate_python.App.Keys.{authorised_iff, authorised_empty}
use aws_iprotate_python.App.Secrets.{config_detail_hides}
use aws_iprotate_python.App.Refusal.{get_change_region-Refuses, Refuses, wrong_key-Refuses}
use aws_iprotate_python.Tests.Machine.{
  alpha_config, beta_numbered, numbered_loader, Rules, api, host, old_alpha, world,
}

authorised_iff_example : (authorised (some "own") api alpha_config ≡ true) ↔ (
    ◌≡◌ {A = Option String} (some "own") (some "master")
    ⊎ ◌≡◌ {A = Option String} (some "own") (some ""))
unfolding lookup
authorised_iff_example = authorised_iff (some "own") api alpha_config

authorised_empty_example : authorised (some "") api alpha_config ≡ true
unfolding lookup
authorised_empty_example = authorised_empty "alpha" old_alpha api alpha_config refl refl

abbrev pub profile_alpha : Profile
profile_alpha = fresh_profile alpha_config no_task

config_detail_hides_example :
    let d =
      config_detail
        (("region", word "us-east-1") ∷ [])
        alpha_config
        profile_alpha
        "p:50001"
        "p:60001" in
    (lookup "accessKey" d ≡ none) × (lookup "secretKey" d ≡ none) × (lookup "apikey" d ≡ none)
config_detail_hides_example =
    config_detail_hides (("region", word "us-east-1") ∷ []) alpha_config profile_alpha "p:50001"
      "p:60001"

abbrev reset_alpha : Kwargs
reset_alpha = no_kwargs "alpha" "reset"

abbrev task : RunTask
task = record { config = numbered_loader; key_path = "key.pem" }

task_method-Answers_example : (a : Answer) × ((task_method world task reset_alpha host).0 ≡ ok a)
task_method-Answers_example = task_method-Answers world task reset_alpha host refl

abbrev pub server : Server Rules
server = record { host = host; profile = ("alpha", profile_alpha) ∷ []; threads = [] }

set_start_task_idle_example :
    state_of "alpha" (set_start_task world reset_alpha server).1 ≡ some (idle, none)
unfolding lookup new_run_task begin_task new_loader load_configs number_config
    reset_aws_config_order set reorder_aws_config insert load_aws_config default_option has_option
    read_aws_config str
set_start_task_idle_example =
    set_start_task_idle world reset_alpha server {p = profile_alpha} {task = task} refl refl refl

-- config.conf is empty
abbrev server_without_conf : Server Rules
server_without_conf = record server { host = record host { conf = [] } }

set_start_task_stuck_example :
    ((set_start_task world reset_alpha server_without_conf).0 ≡ err (no_section "api"))
    × (state_of "alpha" (set_start_task world reset_alpha server_without_conf).1
        ≡ some (busy, some "reset"))
unfolding lookup new_run_task new_loader begin_task
set_start_task_stuck_example =
    set_start_task_stuck world reset_alpha server_without_conf {p = profile_alpha} refl refl

abbrev wrong_request : Request
wrong_request = record {
  apikey = some "guess";
  config_name = some "beta";
  new_region = none;
  new_whitelist = some "";
  new_user = none;
  new_pass = none;
}

wrong_key-Refuses_example :
    Refuses (get_start_process world wrong_request) server
    × Refuses (get_reset world wrong_request) server
    × Refuses (get_change_auth world wrong_request) server
    × Refuses (get_available_region world wrong_request) server
    × Refuses (get_config_detail world wrong_request) server
    × Refuses (change_whitelist world wrong_request) server
unfolding open_config new_loader authorised lookup load_configs number_config reset_aws_config_order
    set reorder_aws_config insert load_aws_config default_option has_option read_aws_config str
wrong_key-Refuses_example =
    wrong_key-Refuses wrong_request server {name = "beta"} {api = api}
      {aws = aws_config "beta" beta_numbered "2" "AK2" "SK2"} refl refl world

abbrev region_request : Request
region_request = record wrong_request { new_region = some "eu-west-1" }

get_change_region-Refuses_example : Refuses (get_change_region world region_request) server
unfolding open_config new_loader authorised lookup load_configs number_config reset_aws_config_order
    set reorder_aws_config insert load_aws_config default_option has_option read_aws_config str
get_change_region-Refuses_example =
    get_change_region-Refuses region_request server {name = "beta"} {api = api}
      {aws = aws_config "beta" beta_numbered "2" "AK2" "SK2"} refl refl world "eu-west-1" refl
