-- ===== src/Replies.antt =====
-- What the handlers of app.py read and send: the arguments of a request, the check of its key, and the
-- JSON objects.
use aws_iprotate_python.Prelude.{
  ℕ, String, ◌<>◌, Bool, true, false, Option, none, some, List, [], ◌∷◌, ◌==◌, ◌||◌, if◌then◌else◌,
  get_or, is_some,
}
use aws_iprotate_python.Prelude.Dict.{Dict, lookup, insert, merge, remove}
use aws_iprotate_python.Prelude.Text.{str}
use aws_iprotate_python.Py.{dict_hasattr}
use aws_iprotate_python.Outside.{Region}
use aws_iprotate_python.Config.{ApiConfig, AwsConfig}
use aws_iprotate_python.Profile.{has_auth}
use aws_iprotate_python.Run.{Kwargs}
use aws_iprotate_python.Tasks.{Status, idle, busy, LastTask, Profile}

-- `request.args`
pub record Request : Type 0 where
  pub apikey : Option String
  pub config_name : Option String
  pub new_region : Option String
  pub new_whitelist : Option String
  pub new_user : Option String
  pub new_pass : Option String

-- a value of the JSON object that a handler sends
pub data Value : Type 0 where
  word : String → Value
  nothing : Value
  state : Status → Value
  regions : List Region → Value
  last : LastTask → Value
  current : Option String → Value

pub data Response : Type 0 where
  object : Dict Value → Response
  region_list : List Region → Response
  profiles : Dict Profile → Response

-- `jsonify({"message": …})`
abbrev pub says : String → Response
says m = object (("message", word m) ∷ [])

-- `apikey == key`, where the request may have no `apikey`
unfoldable pub is_key : Option String → String → Bool
is_key none key = false
is_key (some given) key = given == key

-- The request has the key of the service or the key of the profile.
unfoldable pub authorised : Option String → ApiConfig → AwsConfig → Bool
unfolding is_key
authorised given api aws = is_key given api.apikey || is_key given aws.apikey

abbrev pub no_kwargs : String → String → Kwargs
no_kwargs name task_type = record {
  config_name = name;
  task_type = task_type;
  new_region = none;
  new_whitelist = none;
  new_user = none;
  new_pass = none;
}

unfoldable pub proxy_address : String → ℕ → AwsConfig → String
proxy_address publicip port aws =
    if has_auth aws.user aws.pass
    then publicip <> ":" <> str port <> ":" <> aws.user <> ":" <> aws.pass
    else publicip <> ":" <> str port

abbrev pub base_socks5_port : ℕ
base_socks5_port = 50000

abbrev pub base_http_port : ℕ
base_http_port = 60000

abbrev pub is_busy : Status → Bool
is_busy idle = false
is_busy busy = true

-- the answer's fields where `hasattr` finds them on the profile
abbrev pub add_tasks : Profile → Dict Value → Dict Value
add_tasks p response =
    let response' =
      if dict_hasattr "last_task"
      then insert "last_task" (last p.last_task) response
      else response in
    if dict_hasattr "current_task"
    then insert "current_task" (current p.current_task) response'
    else response'

-- the object with the profile's `last_task` as it stands
abbrev pub live_last_task : Option Profile → Dict Value → Dict Value
live_last_task none response = response
live_last_task (some p) response = insert "last_task" (last p.last_task) response

abbrev pub brief : String → AwsConfig → Dict Value
brief name aws = ("config_name", word name) ∷ ("region", word aws.region) ∷ []

-- the dict of `load_aws_config`, under the names that it has there
unfoldable pub aws_dict : AwsConfig → Dict Value
aws_dict aws =
    ("configName", word aws.config_name)
    ∷ ("order", word aws.order)
    ∷ ("accessKey", word aws.access_key)
    ∷ ("secretKey", word aws.secret_key)
    ∷ ("instanceId", word aws.instance_id)
    ∷ ("region", word aws.region)
    ∷ ("apikey", word aws.apikey)
    ∷ ("whitelist", word aws.whitelist)
    ∷ ("user", word aws.user)
    ∷ ("pass", word aws.pass)
    ∷ []

-- `d[new] = d.pop(old)`, of a key that is there
abbrev pub rename : String → String → Dict Value → Dict Value
rename old new d = insert new (get_or (lookup old d) nothing) (remove old d)

-- `profile_task.get("last_task") or None`: an empty dict is None
abbrev pub last_or_nothing : LastTask → Value
last_or_nothing t =
    if is_some t.start_time
      || is_some t.end_time
      || is_some t.task_type
      || is_some t.status
      || is_some t.payload
    then last t
    else nothing

-- the object that `/get_config` sends, from the moment that the regions are in it
unfoldable pub config_detail : Dict Value → AwsConfig → Profile → String → String → Dict Value
unfolding aws_dict
config_detail response aws p socks5 http =
    let merged = merge response (aws_dict aws) in
    let public = remove "apikey" (remove "secretKey" (remove "accessKey" merged)) in
    let renamed = rename "instanceId" "instanceid" (rename "configName" "config_name" public) in
    insert "http_proxy" (word http) (
      insert "socks5_proxy" (word socks5) (
        insert "status" (state p.status) (
          insert "last_task" (last_or_nothing p.last_task)
            (insert "current_task" (current p.current_task) renamed))))
