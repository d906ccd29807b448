-- ===== src/Tests/Threads.antt =====
-- The theorems on the threads and the handlers together, on the machine with two profiles.
use aws_iprotate_python.App.Steps.{HandlerSteps}
use aws_iprotate_python.Prelude.{◌≡◌, refl, ap, ◌∙◌, none, some, [], ◌∷◌}
use aws_iprotate_python.Prelude.Dict.{Dict, lookup, insert}
use aws_iprotate_python.Prelude.Text.{str}
use aws_iprotate_python.ConfigParser.{set, has_option}
use aws_iprotate_python.Py.{ok, index_error}
use aws_iprotate_python.Config.{
  new_loader, load_configs, number_config, reset_aws_config_order, reorder_aws_config,
  load_aws_config, default_option, read_aws_config, load_all_aws_config,
}
use aws_iprotate_python.Config.Defaults.{aws_config}
use aws_iprotate_python.Host.{Host}
use aws_iprotate_python.Tasks.{Profile, new_profiles, register_all, fresh_profile, no_task}
use aws_iprotate_python.Run.{Kwargs, Answer, new_run_task, RunTask}
use aws_iprotate_python.Tasks.{idle, perform_task, task_method}
use aws_iprotate_python.Tasks.Threads.{System, Steps, Reach, here, next, start}
use aws_iprotate_python.Tasks.Sound.{AllSound, Held}
use aws_iprotate_python.Tasks.Accounting.{Reach-AllSound}
use aws_iprotate_python.Tasks.Overlap.{overlap_idle}
use aws_iprotate_python.Tasks.Answers.{task_method-Answers}
use aws_iprotate_python.Tasks.Life.{state_of}
use aws_iprotate_python.Replies.{object, word, says, no_kwargs, Request}
use aws_iprotate_python.Py.{pure}
use aws_iprotate_python.Py.Keeps.{bind_ok}
use aws_iprotate_python.Aws.{Aws, new_aws}
use aws_iprotate_python.Aws.Client.{login, connect}
use aws_iprotate_python.App.{with_login}
use aws_iprotate_python.App.Routes.{dispatch, to_reset}
use aws_iprotate_python.App.Paths.{dispatch-Steps}
use aws_iprotate_python.App.Logins.{with_login_fails}
use aws_iprotate_python.Tests.Machine.{
  Rules, host, world, numbered_loader, alpha_numbered, beta_numbered,
}

abbrev registered : Dict Profile
registered =
    ("alpha", fresh_profile (aws_config "alpha" alpha_numbered "1" "AK1" "SK1") no_task)
    ∷ ("beta", fresh_profile (aws_config "beta" beta_numbered "2" "AK2" "SK2") no_task)
    ∷ []

abbrev after : Host Rules
after = record host { conf = numbered_loader.config }

constructed : new_profiles host ≡ (ok registered, after)
unfolding new_profiles register_all lookup new_loader load_configs number_config
    reset_aws_config_order set reorder_aws_config insert load_aws_config default_option has_option
    read_aws_config str load_all_aws_config
constructed = refl

abbrev reset_alpha : Kwargs
reset_alpha = no_kwargs "alpha" "reset"

-- two threads wait, the first of which a request for `alpha` has started
abbrev change_ip_kwargs : Kwargs
change_ip_kwargs = no_kwargs "alpha" "change_ip"

abbrev request : Request
request = record {
  apikey = some "master";
  config_name = some "alpha";
  new_region = none;
  new_whitelist = none;
  new_user = none;
  new_pass = none;
}

abbrev two_threads : System Rules
two_threads = record {
  server = record {
    host = after;
    profile = registered;
    threads = reset_alpha ∷ change_ip_kwargs ∷ [];
  };
  active = [];
  dead = [];
}

reached : Reach world two_threads
reached = record {
  before = host;
  after = after;
  profile = registered;
  constructed = constructed;
  path = next (next here (start reset_alpha)) (start change_ip_kwargs);
}

Reach-AllSound_example : AllSound two_threads
Reach-AllSound_example = Reach-AllSound world reached

abbrev fresh_alpha : Profile
fresh_alpha = fresh_profile (aws_config "alpha" alpha_numbered "1" "AK1" "SK1") no_task

abbrev run_task : RunTask
run_task = record { config = numbered_loader; key_path = "key.pem" }

answers : (a : Answer) × ((perform_task world reset_alpha host).0 ≡ ok a)
unfolding perform_task new_run_task lookup new_loader load_configs number_config
    reset_aws_config_order set reorder_aws_config insert load_aws_config default_option has_option
    read_aws_config str
answers =
    let h : Host Rules = (new_run_task world host).1 in
    let (a, e) = task_method-Answers world run_task reset_alpha h refl in
    (
      a,
      ap (λ r. r.0)
            (bind_ok (new_run_task world) (λ t. task_method world t reset_alpha) host {a = run_task}
              {s' = h} refl)
          ∙ e,
    )

overlap_idle_example :
    (y : System Rules) × Steps world two_threads y
    × (state_of "alpha" y.server ≡ some (idle, none))
    × Held "alpha" y.active
unfolding lookup
overlap_idle_example =
    overlap_idle world two_threads reset_alpha change_ip_kwargs [] fresh_alpha answers.0 host refl
      refl refl answers.1

dispatch-Steps_example :
    HandlerSteps world to_reset request two_threads
      (record two_threads { server = (dispatch world to_reset request two_threads.server).1 })
dispatch-Steps_example = dispatch-Steps world request two_threads to_reset

abbrev client : Aws
client = record {
  config = numbered_loader;
  config_name = "alpha";
  aws_config = aws_config "alpha" alpha_numbered "1" "AK1" "SK1";
  ec2 = none;
  resource = none;
  key_pair_name = none;
  security_group = none;
}

with_login_fails_example :
    let r = with_login world "alpha" [] (λ aws. pure (says "")) two_threads.server in
    (r.0
      ≡ ok (
          object (
            insert "message"
              (word "list index out of range")
              (insert "status" (word "failed") []))))
    × (state_of "alpha" r.1 ≡ some (idle, none))
unfolding new_aws lookup new_loader load_configs number_config reset_aws_config_order set
    reorder_aws_config insert load_aws_config default_option has_option read_aws_config str login
    connect
with_login_fails_example =
    with_login_fails world "alpha" [] (λ aws. pure (says "")) two_threads.server fresh_alpha client
      index_error refl refl refl
