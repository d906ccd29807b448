-- ===== src/App.antt =====
-- The request handlers of app.py. A handler works on the shared server and returns the JSON that it
-- sends; an exception that it lets through is the web framework's error 500. `load_aws_config`
-- never returns None, so the "Config not found" answers are not there.
pub mod Keys
pub mod Secrets
pub mod Refusal
pub mod Routes
pub mod Steps
pub mod Paths
pub mod Logins
pub mod Start
use aws_iprotate_python.Prelude.{
  ℕ, ◌+◌, String, ◌<>◌, Bool, true, false, Option, none, some, List, [], ◌∷◌, ◌++◌, ◌==◌, ◌||◌,
  if◌then◌else◌, get_or, is_some,
}
use aws_iprotate_python.Prelude.Dict.{Dict, lookup, insert, merge, remove}
use aws_iprotate_python.Prelude.Text.{str}
use aws_iprotate_python.Py.{
  Error, no_section, attribute_error, message, Result, ok, err, Exec, pure, raise, gets, or_raise,
  except, modify, dict_hasattr, ◌>>=◌, ◌>>◌,
}
use aws_iprotate_python.Host.{Host}
use aws_iprotate_python.Outside.{Region}
use aws_iprotate_python.Config.{
  ApiConfig, AwsConfig, ConfigLoader, new_loader, on_parser, load_api_config, load_aws_config,
}
use aws_iprotate_python.Profile.{has_auth, as_int}
use aws_iprotate_python.Aws.{Aws, call, new_aws}
use aws_iprotate_python.Aws.Client.{login, get_all_regions}
use aws_iprotate_python.Run.{World, Kwargs}
use aws_iprotate_python.Tasks.{
  Status, idle, busy, LastTask, Profile, Server, text, on_host, profile_of, register_profile,
  set_stop_task,
}
use aws_iprotate_python.Replies.{
  Request, Value, Response, says, is_key, authorised, no_kwargs, proxy_address, base_socks5_port,
  base_http_port, is_busy, add_tasks, brief, aws_dict, rename, last_or_nothing, config_detail, word,
  nothing, state, regions, last, current, object, region_list, profiles, live_last_task,
}

module _ {W : Type 0} where
  -- What every handler of a profile loads: the name, the service's config and the profile's.
  unfoldable pub open_config : Request → Exec (Server W) (String × ApiConfig × AwsConfig)
  open_config req = do
    loader ← on_host new_loader
    name ← or_raise req.config_name (no_section "None")
    (_, loader₁) ← on_host (on_parser (load_aws_config name) loader)
    (api, loader₂) ← on_host (on_parser load_api_config loader₁)
    (aws, _) ← on_host (on_parser (load_aws_config name) loader₂)
    pure (name, api, aws)

  -- the rest of a handler, behind the check of the key
  abbrev pub with_key :
      Request
      → (String → ApiConfig → AwsConfig → Exec (Server W) Response)
      → Exec (Server W) Response
  with_key req rest = do
    (name, api, aws) ← open_config req
    if authorised req.apikey api aws then rest name api aws else pure (says "Invalid API key")

  -- `threading.Thread(target=task.set_start_task, kwargs=kwargs).start()`
  abbrev pub start_thread : Kwargs → Exec (Server W) Unit
  start_thread kwargs = modify (λ s. record s { threads = s.threads ++ kwargs ∷ [] })

  -- `if task.profile.get(config_name) is None: task.register_profile(config_name)`
  abbrev pub register_unknown : String → Option Profile → Exec (Server W) Unit
  register_unknown name none = register_profile name
  register_unknown name (some _) = pure tt

  abbrev pub status_of : String → Exec (Server W) Status
  status_of name = do p ← profile_of name; pure p.status

  unfoldable pub check_task_status : String → Exec (Server W) Status
  check_task_status name = do
    known ← gets (λ s. lookup name s.profile)
    register_unknown name known
    status_of name

  -- The end of `/change_ip` and of `/change_region`: a thread starts unless the profile is busy;
  -- `reply` is the response with a message.
  abbrev pub start_or_refuse : Kwargs → (String → Response) → Status → Exec (Server W) Response
  start_or_refuse kwargs reply status =
      if is_busy status
      then pure (reply "Process is busy")
      else do start_thread kwargs; pure (reply "Process started")

  unfoldable pub start_unless_busy :
      String → Kwargs → (String → Response) → Exec (Server W) Response
  unfolding check_task_status
  start_unless_busy name kwargs reply = do
    status ← check_task_status name
    start_or_refuse kwargs reply status

  -- The answer of `/change_region` holds the profile's own `last_task`, not a copy of it: what is sent
  -- is what stands there when the answer is sent, after a failed login has been noted.
  abbrev pub send_live : String → Response → Exec (Server W) Response
  send_live name (object response) = do
    known ← gets (λ s. lookup name s.profile)
    pure (object (live_last_task known response))
  send_live name (region_list found) = pure (region_list found)
  send_live name (profiles known) = pure (profiles known)

module _ {W : Type 0} (world : World W) where
  -- `aws_login.login()`, which may raise; the machine keeps what it has done
  abbrev pub log_in : Aws → Exec (Server W) (Result (Bool × Aws))
  log_in aws s =
      let attempt = call (login world.ec2) aws s.host in
      (ok attempt.0, record s { host = attempt.1 })

  abbrev pub after_login :
      String
      → Dict Value
      → (Aws → Exec (Server W) Response)
      → Result (Bool × Aws)
      → Exec (Server W) Response
  after_login name response rest (ok (_, aws)) = rest aws
  after_login name response rest (err e) = do
    set_stop_task world name "failed" (text (message e))
    pure (object (insert "message" (word (message e)) (insert "status" (word "failed") response)))

  -- `Aws(config_name)` and its login. A failed login is answered, and noted as the last task.
  unfoldable pub with_login :
      String → Dict Value → (Aws → Exec (Server W) Response) → Exec (Server W) Response
  with_login name response rest = do
    aws ← on_host (new_aws name)
    attempt ← log_in aws
    after_login name response rest attempt

  -- `/change_ip`, from the profile on
  abbrev pub change_ip_of : String → Dict Value → Profile → Exec (Server W) Response
  change_ip_of name response p = with_login name (add_tasks p response) λ _.
      start_unless_busy name (no_kwargs name "change_ip") λ m.
        object (insert "message" (word m) (insert "status" (word "busy") (add_tasks p response)))

  -- The profiles are a dict: `hasattr` says whether the name is one of its methods.
  abbrev pub register_by_attribute : String → Exec (Server W) Unit
  register_by_attribute name = if dict_hasattr name then pure tt else register_profile name

  abbrev pub change_ip_from : String → Dict Value → Exec (Server W) Response
  change_ip_from name response = do
    register_by_attribute name
    p ← profile_of name
    change_ip_of name response p

  -- `/change_ip`
  unfoldable pub get_start_process : Request → Exec (Server W) Response
  get_start_process req = with_key req λ name api aws. do
    order ← on_host (as_int aws.order)
    change_ip_from name (
        ("config_name", word name)
        ∷ ("region", word aws.region)
        ∷ ("socks5_proxy", word (proxy_address api.publicip (base_socks5_port + order) aws))
        ∷ ("http_proxy", word (proxy_address api.publicip (base_http_port + order) aws))
        ∷ [])

  -- `/reset`
  unfoldable pub get_reset : Request → Exec (Server W) Response
  get_reset req = with_key req λ name api aws.
      with_login name (brief name aws)
        λ _. do start_thread (no_kwargs name "reset"); pure (says "Process started")

  -- `/change_auth`
  unfoldable pub get_change_auth : Request → Exec (Server W) Response
  get_change_auth req = with_key req λ name api aws. with_login name (brief name aws) λ _. do
    let base = no_kwargs name "change_auth"
    start_thread (record base { new_user = req.new_user; new_pass = req.new_pass })
    pure (says "Process started")

  -- `/change_region`, from the second look at the profile on, from the first one on, and by the new
  -- region of the request
  abbrev pub change_region_with :
      String → AwsConfig → String → Dict Value → Profile → Exec (Server W) Response
  change_region_with name aws new_region response p =
      let response' =
        if dict_hasattr "current_task"
        then insert "current_task" (current p.current_task) response
        else response in
      if aws.region == new_region
      then pure
          (object (insert "message" (word "New region is the same as the old region") response'))
      else start_unless_busy name
          (record (no_kwargs name "change_region") { new_region = some new_region })
          λ m. object (insert "message" (word m) response')

  abbrev pub change_region_of : String → AwsConfig → String → Profile → Exec (Server W) Response
  change_region_of name aws new_region p = do
    let response =
        ("config_name", word name)
        ∷ ("old_region", word aws.region)
        ∷ ("new_region", word new_region)
        ∷ ("last_task", last p.last_task)
        ∷ []
    answer ←
        with_login name response
          λ _. do p' ← profile_of name; change_region_with name aws new_region response p'
    send_live name answer

  unfoldable pub change_region_to : Request → Option String → Exec (Server W) Response
  change_region_to req none = pure (says "New region is not provided")
  change_region_to req (some new_region) =
      with_key req λ name api aws. do p ← profile_of name; change_region_of name aws new_region p

  unfoldable pub get_change_region : Request → Exec (Server W) Response
  unfolding change_region_to
  get_change_region req = change_region_to req req.new_region

  -- `/get_available_region`
  unfoldable pub get_available_region : Request → Exec (Server W) Response
  get_available_region req = with_key req λ name api aws. with_login name (brief name aws) λ client.
      do (found, _) ← on_host (call (get_all_regions world.ec2) client); pure (region_list found)

  -- `/get_config`
  unfoldable pub get_config_detail : Request → Exec (Server W) Response
  get_config_detail req = with_key req λ name api aws. with_login name (brief name aws) λ client. do
    (found, _) ← on_host (call (get_all_regions world.ec2) client)
    known ← gets (λ s. lookup name s.profile)
    p ← or_raise known (attribute_error "'NoneType' object has no attribute 'get'")
    order ← on_host (as_int aws.order)
    pure (
        object (
          config_detail (insert "available_region" (regions found) (brief name aws)) aws p
            (proxy_address api.publicip (base_socks5_port + order) aws)
            (proxy_address api.publicip (base_http_port + order) aws)))

  -- `/change_whitelist`
  unfoldable pub change_whitelist : Request → Exec (Server W) Response
  change_whitelist req = with_key req λ name api aws. do
    let base = no_kwargs name "change_whitelist"
    start_thread (record base { new_whitelist = req.new_whitelist })
    pure (says "Process started")

  -- `/get_task`, which takes the key of the service alone
  unfoldable pub get_task : Request → Exec (Server W) Response
  get_task req = do
    loader ← on_host new_loader
    (api, _) ← on_host (on_parser load_api_config loader)
    if is_key req.apikey api.apikey
        then (do known ← gets (λ s. s.profile); pure (profiles known))
        else pure (says "Invalid API key")
