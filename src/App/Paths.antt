-- ===== src/App/Paths.antt =====
-- The handlers of app.py, each run alone, as paths of the steps that its route may take.
use aws_iprotate_python.App.Steps.{
  registers, logs_in, task_of, From, Still, Still-Keeps, if-Keeps, with_key-Keeps,
  start_thread-Keeps, with_login-Keeps, profile_of-Keeps, register_profile-Keeps,
  start_unless_busy-Keeps, HandlerSteps, here,
}
use aws_iprotate_python.Prelude.{◌==◌, String, ◌≡◌, refl, Option, none, some, arith}
use aws_iprotate_python.Py.{dict_hasattr, pure, ◌>>=◌}
use aws_iprotate_python.Py.Keeps.{Keeps, Keeps-bind}
use aws_iprotate_python.Run.{World}
use aws_iprotate_python.Tasks.{Profile, on_host, profile_of}
use aws_iprotate_python.Prelude.Dict.{Dict}
use aws_iprotate_python.Config.{AwsConfig}
use aws_iprotate_python.Profile.{as_int}
use aws_iprotate_python.Tasks.Threads.{System}
use aws_iprotate_python.Replies.{Request, Response, Value, object, region_list, profiles, no_kwargs}
use aws_iprotate_python.App.Routes.{
  Route, to_change_ip, to_reset, to_change_auth, to_change_region, to_get_available_region,
  to_get_config, to_change_whitelist, to_get_task, dispatch,
}
use aws_iprotate_python.App.{
  with_login, change_ip_of, register_by_attribute, change_ip_from, change_region_with,
  change_region_of, change_region_to, get_start_process, get_reset, get_change_auth,
  get_change_region, get_available_region, get_config_detail, change_whitelist, get_task, send_live,
}

module _ {W : Type 0} (world : World W) (req : Request) (x : System W) where
  change_ip_from-Keeps :
      (name : String) (response : Dict Value)
      → req.config_name ≡ some name
      → Keeps (From world to_change_ip req x) (change_ip_from world name response)
  unfolding registers logs_in task_of
  change_ip_from-Keeps name response named =
      Keeps-bind (register_by_attribute world name)
        (λ _. profile_of name >>= change_ip_of world name response)
        (if-Keeps world to_change_ip req x (dict_hasattr name) _ _
          (Still-Keeps world to_change_ip req x (pure tt) (λ s. (refl, refl)))
          (register_profile-Keeps world to_change_ip req x name named refl))
        (λ _.
          profile_of-Keeps world to_change_ip req x name (change_ip_of world name response) (λ p.
            with_login-Keeps world to_change_ip req x name _ _ named refl (λ aws.
              start_unless_busy-Keeps world to_change_ip req x (no_kwargs name "change_ip") _ named
                refl refl)))

  get_start_process-Keeps : Keeps (From world to_change_ip req x) (get_start_process world req)
  unfolding get_start_process
  get_start_process-Keeps = with_key-Keeps world to_change_ip req x _ λ name api aws named.
      Keeps-bind (on_host (as_int aws.order)) _
        (Still-Keeps world to_change_ip req x (on_host (as_int aws.order)) (λ s. (refl, refl)))
        (λ order. change_ip_from-Keeps name _ named)

  get_reset-Keeps : Keeps (From world to_reset req x) (get_reset world req)
  unfolding get_reset logs_in task_of
  get_reset-Keeps = with_key-Keeps world to_reset req x _ λ name api aws named.
      with_login-Keeps world to_reset req x name _ _ named refl
        (λ _. start_thread-Keeps world to_reset req x (no_kwargs name "reset") _ named refl)

  get_change_auth-Keeps : Keeps (From world to_change_auth req x) (get_change_auth world req)
  unfolding get_change_auth logs_in task_of
  get_change_auth-Keeps = with_key-Keeps world to_change_auth req x _ λ name api aws named.
      with_login-Keeps world to_change_auth req x name _ _ named refl
        (λ _. start_thread-Keeps world to_change_auth req x _ _ named refl)

  send_live-Keeps :
      (name : String) (r : Response) → Keeps (From world to_change_region req x) (send_live name r)
  send_live-Keeps name (object d) =
      Still-Keeps world to_change_region req x (send_live name (object d)) (λ s. (refl, refl))
  send_live-Keeps name (region_list found) =
      Still-Keeps world to_change_region req x (pure (region_list found)) (λ s. (refl, refl))
  send_live-Keeps name (profiles known) =
      Still-Keeps world to_change_region req x (pure (profiles known)) (λ s. (refl, refl))

  change_region_of-Keeps :
      (name : String) (aws : AwsConfig) (region : String) (p : Profile)
      → req.config_name ≡ some name
      → Keeps (From world to_change_region req x) (change_region_of world name aws region p)
  unfolding registers logs_in task_of
  change_region_of-Keeps name aws region p named =
      Keeps-bind (with_login world name _ _) (send_live name)
        (with_login-Keeps world to_change_region req x name _ _ named refl λ _.
          profile_of-Keeps world to_change_region req x name
            (change_region_with world name aws region _)
            λ p'.
              if-Keeps world to_change_region req x (aws.region == region) _ _
                (Still-Keeps world to_change_region req x (pure _) (λ s. (refl, refl)))
                (start_unless_busy-Keeps world to_change_region req x _ _ named refl refl))
        (send_live-Keeps name)

  get_change_region-Keeps : Keeps (From world to_change_region req x) (get_change_region world req)
  unfolding get_change_region
  get_change_region-Keeps = by_region req.new_region
    where
      by_region :
          (o : Option String)
          → Keeps (From world to_change_region req x) (change_region_to world req o)
      by_region none =
          unfold change_region_to in
          Still-Keeps world to_change_region req x (pure _) (λ s. (refl, refl))
      by_region (some region) =
          unfold change_region_to in
          with_key-Keeps world to_change_region req x _ λ name api aws named.
            profile_of-Keeps world to_change_region req x name
              (change_region_of world name aws region)
              λ p. change_region_of-Keeps name aws region p named

  get_available_region-Keeps :
      Keeps (From world to_get_available_region req x) (get_available_region world req)
  unfolding get_available_region logs_in
  get_available_region-Keeps =
      with_key-Keeps world to_get_available_region req x _ λ name api aws named.
        with_login-Keeps world to_get_available_region req x name _ _ named refl
          (λ client. Still-Keeps world to_get_available_region req x _ (λ s. ground arith))

  get_config_detail-Keeps : Keeps (From world to_get_config req x) (get_config_detail world req)
  unfolding get_config_detail logs_in
  get_config_detail-Keeps = with_key-Keeps world to_get_config req x _ λ name api aws named.
      with_login-Keeps world to_get_config req x name _ _ named refl
        (λ client. Still-Keeps world to_get_config req x _ (λ s. ground arith))

  change_whitelist-Keeps : Keeps (From world to_change_whitelist req x) (change_whitelist world req)
  unfolding change_whitelist task_of
  change_whitelist-Keeps =
      with_key-Keeps world to_change_whitelist req x _
        λ name api aws named. start_thread-Keeps world to_change_whitelist req x _ _ named refl

  get_task-Still : Still world to_get_task req x (get_task world req)
  unfolding get_task
  get_task-Still s = ground arith

  dispatch-Keeps : (route : Route) → Keeps (From world route req x) (dispatch world route req)
  dispatch-Keeps to_change_ip = get_start_process-Keeps
  dispatch-Keeps to_reset = get_reset-Keeps
  dispatch-Keeps to_change_auth = get_change_auth-Keeps
  dispatch-Keeps to_change_region = get_change_region-Keeps
  dispatch-Keeps to_get_available_region = get_available_region-Keeps
  dispatch-Keeps to_get_config = get_config_detail-Keeps
  dispatch-Keeps to_change_whitelist = change_whitelist-Keeps
  dispatch-Keeps to_get_task =
      Still-Keeps world to_get_task req x (get_task world req) get_task-Still

  -- Every handler is, from every state and for every request, a path of steps of four kinds: work on
  -- the machine; to register the profile that the request names, if the route is /change_ip or
  -- /change_region; to note a failed login of this profile, if the route logs in at AWS; and to start
  -- a thread for this profile and the route's own task, if it has one. To the profiles and the threads
  -- it does nothing else.
  pub dispatch-Steps :
      (route : Route)
      → HandlerSteps world route req x (record x { server = (dispatch world route req x.server).1 })
  dispatch-Steps route = (dispatch-Keeps route).at x.server here
