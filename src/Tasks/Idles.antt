-- ===== src/Tasks/Idles.antt =====
-- What the statements of functions/task_manager.py do to the profiles, in any state.
use aws_iprotate_python.Prelude.{
  String, ◌≡◌, refl, Option, none, some, List, [], ◌∷◌, arith, eq_iff,
}
use aws_iprotate_python.Prelude.Dict.{Dict, lookup, insert}
use aws_iprotate_python.Py.{key_error, attribute_error, or_raise, Result, ok, err, Exec, ◌>>=◌}
use aws_iprotate_python.Py.Keeps.{bind_cases}
use aws_iprotate_python.ConfigParser.{Conf}
use aws_iprotate_python.Config.{
  AwsConfig, ConfigLoader, new_loader, load_aws_config, read_aws_config, on_parser,
}
use aws_iprotate_python.Run.{World, Kwargs}
use aws_iprotate_python.Tasks.{
  idle, TaskData, Profile, Server, profile_of, mark_idle, set_stop_task, reload_profile, mark_busy,
  begin_task, register_profile, register_new, register_missing, find_config, on_host, put_profile,
  fresh_profile, reload_found, reload_from, register_from, no_task, load_all_again,
}

-- A profile stands under its own name.
abbrev pub IsKeyed : Dict Profile → Type 0
IsKeyed profiles =
    (name : String) (p : Profile) → lookup name profiles ≡ some p → p.config_name ≡ name

-- No profile changes, or the one of `name` is idle now and has no task.
pub data Idles (name : String) (profiles : Dict Profile) : Dict Profile → Type 0 where
  same : Idles name profiles profiles
  puts :
      (q : Profile)
      → q.config_name ≡ name
      → q.status ≡ idle
      → q.current_task ≡ none
      → Idles name profiles (insert name q profiles)

-- The same for the statement that stops a task: no profile changes only where there is none.
pub data Stops (name : String) (profiles : Dict Profile) : Dict Profile → Type 0 where
  gone : lookup name profiles ≡ none → Stops name profiles profiles
  stops :
      (q : Profile)
      → q.config_name ≡ name
      → q.status ≡ idle
      → q.current_task ≡ none
      → Stops name profiles (insert name q profiles)

pub Idles-of_Stops :
    {name : String} {profiles profiles' : Dict Profile}
    → Stops name profiles profiles'
    → Idles name profiles profiles'
Idles-of_Stops (gone _) = same
Idles-of_Stops (stops q n s t) = puts q n s t

-- an aws config bears the name that it was looked up by
find_config-name :
    (name : String) (configs : List AwsConfig) (aws : AwsConfig)
    → find_config name configs ≡ some aws
    → aws.config_name ≡ name
unfolding find_config
find_config-name name [] aws h = ground arith
find_config-name name (c ∷ configs) aws h =
    ground (arith, eq_iff c.config_name name, find_config-name name configs aws)

read_aws_config-name :
    (name : String) (c : Conf) (aws : AwsConfig)
    → (read_aws_config name c).0 ≡ ok aws
    → aws.config_name ≡ name
unfolding read_aws_config
read_aws_config-name name c aws h = ground arith

load_aws_config-name :
    (name : String) (c : Conf) (aws : AwsConfig)
    → (load_aws_config name c).0 ≡ ok aws
    → aws.config_name ≡ name
unfolding load_aws_config
load_aws_config-name name c aws h = grind (arith, read_aws_config-name)

module _ {W : Type 0} where
  abbrev Ends : {A : Type 0} → String → Server W → Result A × Server W → Type 0
  Ends name s x = Idles name s.profile x.1.profile

  profile_of_cases :
      {A : Type 0} (P : Result A × Server W → Type 0) (name : String) (s : Server W)
      (f : Profile → Exec (Server W) A)
      → ((p : Profile) → lookup name s.profile ≡ some p → P (f p s))
      → (lookup name s.profile ≡ none → P (err (key_error name), s))
      → P ((profile_of name >>= f) s)
  profile_of_cases P name s f found missing = at_lookup (lookup name s.profile) refl
    where
      at_lookup :
          (o : Option Profile)
          → lookup name s.profile ≡ o
          → P ((or_raise o (key_error name) >>= f) s)
      at_lookup none e = missing e
      at_lookup (some p) e = found p e

  reload_found-Idles :
      (name : String) (configs : List AwsConfig) (p : Profile) (s : Server W)
      → Idles name s.profile (reload_found name configs p s).1.profile
  reload_found-Idles name configs p s = at_config (find_config name configs) refl
    where
      at_config :
          (o : Option AwsConfig)
          → find_config name configs ≡ o
          → Idles name s.profile
              ((or_raise o (attribute_error "'NoneType' object has no attribute 'get'") >>= λ aws.
                  put_profile name (fresh_profile aws p.last_task))
                s).1.profile
      at_config none e = same
      at_config (some aws) e = puts _ (find_config-name name configs aws e) refl refl

  pub reload_profile-Idles :
      (name : String) (s : Server W) → Idles name s.profile (reload_profile name s).1.profile
  unfolding reload_profile
  reload_profile-Idles name s =
      bind_cases (Ends name s) (on_host load_all_again) (reload_from name) s
        (λ configs _.
          profile_of_cases (Ends name s) name (on_host load_all_again s).1
            (reload_found name configs)
            (λ p _. reload_found-Idles name configs p (on_host load_all_again s).1) (λ _. same))
        (λ e _. same)

  register_from-Idles :
      (name : String) (loader : ConfigLoader) (s : Server W)
      → Idles name s.profile (register_from name loader s).1.profile
  register_from-Idles name loader s =
      bind_cases (Ends name s) (on_host (on_parser (load_aws_config name) loader))
        (λ x. put_profile name (fresh_profile x.0 no_task)) s (λ x e. puts _ (loaded x e) refl refl)
        (λ e _. same)
    where
      loaded :
          (x : AwsConfig × ConfigLoader)
          → (on_parser (load_aws_config name) loader s.host).0 ≡ ok x
          → x.0.config_name ≡ name
      loaded x e = ground (arith, load_aws_config-name name loader.config x.0)

  register_missing-Idles :
      (name : String) (o : Option Profile) (s : Server W)
      → Idles name s.profile (register_missing name o s).1.profile
  unfolding register_missing register_new
  register_missing-Idles name none s =
      bind_cases (Ends name s) (on_host new_loader) (register_from name) s
        (λ loader _. register_from-Idles name loader (on_host new_loader s).1) (λ e _. same)
  register_missing-Idles name (some p) s = same

  pub register_profile-Idles :
      (name : String) (s : Server W) → Idles name s.profile (register_profile name s).1.profile
  unfolding register_profile
  register_profile-Idles name s = register_missing-Idles name (lookup name s.profile) s

module _ {W : Type 0} (world : World W) where
  pub set_stop_task-Stops :
      (name result : String) (d : TaskData) (s : Server W)
      → IsKeyed s.profile
      → Stops name s.profile (set_stop_task world name result d s).1.profile
  unfolding set_stop_task
  set_stop_task-Stops name result d s keyed =
      profile_of_cases (λ x. Stops name s.profile x.1.profile) name s
        (mark_idle world name result d) (λ p e. stops _ (keyed name p e) refl refl) gone

  -- A thread begins where its profile is registered, and raises where it is not.
  pub begin_task_cases :
      (P : Result (Unit {0}) × Server W → Type 0) (k : Kwargs) (s : Server W)
      → ((p : Profile) → lookup k.config_name s.profile ≡ some p → P (mark_busy world k p s))
      → (lookup k.config_name s.profile ≡ none → P (err (key_error k.config_name), s))
      → P (begin_task world k s)
  unfolding begin_task
  begin_task_cases P k s = profile_of_cases P k.config_name s (mark_busy world k)
