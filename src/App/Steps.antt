-- ===== src/App/Steps.antt =====
-- What a handler of app.py may do to what the threads share, by its route.
use aws_iprotate_python.Host.{Host}
use aws_iprotate_python.Prelude.{
  String, ◌≡◌, refl, Bool, true, false, Option, none, some, sym, subst, cond, arith, ◌++◌, [], ◌∷◌,
}
use aws_iprotate_python.Py.{message, Result, ok, err, Exec, pure, gets, ◌>>=◌, ◌>>◌}
use aws_iprotate_python.Py.Keeps.{Keeps, Keeps-bind, bind_cases}
use aws_iprotate_python.Run.{World, Kwargs}
use aws_iprotate_python.Tasks.{
  text, Profile, Server, on_host, profile_of, register_profile, set_stop_task, TaskData,
}
use aws_iprotate_python.Prelude.Dict.{Dict, insert, lookup}
use aws_iprotate_python.Config.{ApiConfig, AwsConfig}
use aws_iprotate_python.Aws.{Aws, new_aws}
use aws_iprotate_python.Tasks.Threads
use aws_iprotate_python.Tasks.Threads.{System, Step, Steps}
use aws_iprotate_python.Replies.{Request, Response, Value, authorised, says, object, word, is_busy}
use aws_iprotate_python.App.Routes.{
  Route, to_change_ip, to_reset, to_change_auth, to_change_region, to_get_available_region,
  to_get_config, to_change_whitelist, to_get_task,
}
use aws_iprotate_python.App.{
  open_config, with_key, with_login, log_in, after_login, start_thread, check_task_status,
  register_unknown, status_of, start_or_refuse, start_unless_busy,
}

-- the routes that register a profile
unfoldable pub registers : Route → Bool
registers to_change_ip = true
registers to_reset = false
registers to_change_auth = false
registers to_change_region = true
registers to_get_available_region = false
registers to_get_config = false
registers to_change_whitelist = false
registers to_get_task = false

-- the routes that log in at AWS
unfoldable pub logs_in : Route → Bool
logs_in to_change_ip = true
logs_in to_reset = true
logs_in to_change_auth = true
logs_in to_change_region = true
logs_in to_get_available_region = true
logs_in to_get_config = true
logs_in to_change_whitelist = false
logs_in to_get_task = false

-- the task that a route starts
unfoldable pub task_of : Route → Option String
task_of to_change_ip = some "change_ip"
task_of to_reset = some "reset"
task_of to_change_auth = some "change_auth"
task_of to_change_region = some "change_region"
task_of to_get_available_region = none
task_of to_get_config = none
task_of to_change_whitelist = some "change_whitelist"
task_of to_get_task = none

module _ {W : Type 0} (world : World W) (route : Route) (req : Request) where
  -- the profile is the one that the request names
  abbrev pub Named : String → Type 0
  Named name = req.config_name ≡ some name

  -- Work on the machine; and, on the profile of the request alone: it is registered, or a failed login
  -- is noted, or a thread of the route's task is started, where the route does such a thing at all.
  pub data HandlerStep (x : System W) : System W → Type 0 where
    work : (h : Host W) → HandlerStep x (record x { server = record x.server { host = h } })
    register :
        (name : String)
        → Named name
        → registers route ≡ true
        → HandlerStep x (record x { server = (register_profile name x.server).1 })
    refuse :
        (name : String) (d : TaskData)
        → Named name
        → logs_in route ≡ true
        → HandlerStep x (record x { server = (set_stop_task world name "failed" d x.server).1 })
    start :
        (k : Kwargs)
        → Named k.config_name
        → task_of route ≡ some k.task_type
        → HandlerStep x
            (record x { server = record x.server { threads = x.server.threads ++ k ∷ [] } })

  pub data HandlerSteps (x : System W) : System W → Type 0 where
    here : HandlerSteps x x
    next : {y z : System W} → HandlerSteps x y → HandlerStep y z → HandlerSteps x z

  -- They are steps of the threads' state machine.
  HandlerStep-Step : {x y : System W} → HandlerStep x y → Step world x y
  HandlerStep-Step (work h) = Threads.work h
  HandlerStep-Step (register name _ _) = Threads.register name
  HandlerStep-Step (refuse name d _ _) = Threads.refuse name d
  HandlerStep-Step (start k _ _) = Threads.start k

  pub HandlerSteps-Steps : {x y : System W} → HandlerSteps x y → Steps world x y
  HandlerSteps-Steps here = Threads.here
  HandlerSteps-Steps (next p s) = Threads.next (HandlerSteps-Steps p) (HandlerStep-Step s)

module _ {W : Type 0} (world : World W) (route : Route) (req : Request) (x : System W) where
  -- the server is one that steps of the handler reach from `x`
  abbrev pub From : Server W → Type 0
  From s = HandlerSteps world route req x (record x { server = s })

  -- statements that leave the profiles and the threads alone
  abbrev pub Still : {A : Type 0} → Exec (Server W) A → Type 0
  Still m = (s : Server W) → ((m s).1.profile ≡ s.profile) × ((m s).1.threads ≡ s.threads)

  pub Still-Keeps : {A : Type 0} (m : Exec (Server W) A) → Still m → Keeps From m
  Still-Keeps m still = record { at = λ s p. moved s p (still s).0 (still s).1 }
    where
      moved :
          (s : Server W)
          → From s
          → (m s).1.profile ≡ s.profile
          → (m s).1.threads ≡ s.threads
          → From (m s).1
      moved s p e f =
          subst (λ q. From (record { host = (m s).1.host; profile = q; threads = (m s).1.threads }))
            (sym e)
            (subst (λ q. From (record { host = (m s).1.host; profile = s.profile; threads = q }))
              (sym f) (next p (work (m s).1.host)))

  open_config-Still : Still (open_config req)
  unfolding open_config
  open_config-Still s = ground arith

  pub if-Keeps :
      {A : Type 0} (b : Bool) (m n : Exec (Server W) A)
      → Keeps From m
      → Keeps From n
      → Keeps From (cond b m n)
  if-Keeps true m n km kn = km
  if-Keeps false m n km kn = kn

  -- the name that a handler goes on with is that of the request
  opens :
      (s : Server W) (name : String) (api : ApiConfig) (aws : AwsConfig)
      → (open_config req s).0 ≡ ok (name, api, aws)
      → Named world route req name
  unfolding open_config
  opens s name api aws e = ground arith

  pub with_key-Keeps :
      (rest : String → ApiConfig → AwsConfig → Exec (Server W) Response)
      → ((name : String) (api : ApiConfig) (aws : AwsConfig)
          → Named world route req name
          → Keeps From (rest name api aws))
      → Keeps From (with_key req rest)
  with_key-Keeps rest k =
      let opened = Still-Keeps (open_config req) open_config-Still in
      record {
        at = λ s p.
            bind_cases (λ r. From r.1) (open_config req)
              (λ x.
                cond (authorised req.apikey x.1 x.2) (rest x.0 x.1 x.2)
                  (pure (says "Invalid API key")))
              s
              (λ x e.
                (if-Keeps (authorised req.apikey x.1 x.2) _ _
                    (k x.0 x.1 x.2 (opens s x.0 x.1 x.2 e))
                    (Still-Keeps (pure (says "Invalid API key")) (λ s. (refl, refl)))).at
                  (open_config req s).1 (opened.at s p))
              (λ e _. opened.at s p);
      }

  pub start_thread-Keeps :
      (k : Kwargs) (r : Response)
      → Named world route req k.config_name
      → task_of route ≡ some k.task_type
      → Keeps From (start_thread k >> pure r)
  start_thread-Keeps k r named typed = record { at = λ s p. next p (start k named typed) }

  pub with_login-Keeps :
      (name : String) (response : Dict Value) (rest : Aws → Exec (Server W) Response)
      → Named world route req name
      → logs_in route ≡ true
      → ((aws : Aws) → Keeps From (rest aws))
      → Keeps From (with_login world name response rest)
  unfolding with_login
  with_login-Keeps name response rest named logs k =
      Keeps-bind (on_host (new_aws name))
        (λ aws. log_in world aws >>= after_login world name response rest)
        (Still-Keeps (on_host (new_aws name)) (λ s. (refl, refl)))
        (λ aws.
          Keeps-bind (log_in world aws) (after_login world name response rest)
            (Still-Keeps (log_in world aws) (λ s. (refl, refl))) after)
    where
      after : (r : Result (Bool × Aws)) → Keeps From (after_login world name response rest r)
      after (ok (_, aws)) = k aws
      after (err e) =
          Keeps-bind (set_stop_task world name "failed" (text (message e)))
            (λ _. pure (
              object
                (insert "message" (word (message e)) (insert "status" (word "failed") response))))
            (record { at = λ s p. next p (refuse name (text (message e)) named logs) })
            (λ _. Still-Keeps (pure _) (λ s. (refl, refl)))

  pub profile_of-Keeps :
      {A : Type 0} (name : String) (rest : Profile → Exec (Server W) A)
      → ((p : Profile) → Keeps From (rest p))
      → Keeps From (profile_of name >>= rest)
  profile_of-Keeps name rest k =
      Keeps-bind (profile_of name) rest (Still-Keeps (profile_of name) (λ s. ground arith)) k

  pub register_profile-Keeps :
      (name : String)
      → Named world route req name
      → registers route ≡ true
      → Keeps From (register_profile name)
  register_profile-Keeps name named new = record { at = λ s p. next p (register name named new) }

  pub start_unless_busy-Keeps :
      (k : Kwargs) (reply : String → Response)
      → Named world route req k.config_name
      → registers route ≡ true
      → task_of route ≡ some k.task_type
      → Keeps From (start_unless_busy k.config_name k reply)
  unfolding start_unless_busy check_task_status
  start_unless_busy-Keeps k reply named new typed =
      let name = k.config_name in
      Keeps-bind (check_task_status name) (start_or_refuse k reply)
        (Keeps-bind (gets (λ s. lookup name s.profile))
          (λ known. register_unknown name known >> status_of name)
          (Still-Keeps (gets (λ s. lookup name s.profile)) (λ s. (refl, refl)))
          (λ known.
            Keeps-bind (register_unknown name known) (λ _. status_of name) (unknown known)
              (λ _.
                profile_of-Keeps name (λ p. pure p.status)
                  (λ p. Still-Keeps (pure p.status) (λ s. (refl, refl))))))
        (λ status.
          if-Keeps (is_busy status) _ _
            (Still-Keeps (pure (reply "Process is busy")) (λ s. (refl, refl)))
            (start_thread-Keeps k (reply "Process started") named typed))
    where
      unknown : (known : Option Profile) → Keeps From (register_unknown k.config_name known)
      unknown none = register_profile-Keeps k.config_name named new
      unknown (some p) = Still-Keeps (pure tt) (λ s. (refl, refl))
