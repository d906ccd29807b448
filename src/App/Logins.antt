-- ===== src/App/Logins.antt =====
-- A request of app.py whose login at AWS fails.
use aws_iprotate_python.Prelude.{String, ◌≡◌, ap, ◌∙◌, none, some}
use aws_iprotate_python.Prelude.Dict.{Dict, lookup, insert}
use aws_iprotate_python.Py.{Error, message, ok, err, Exec, pure, ◌>>=◌}
use aws_iprotate_python.Py.Keeps.{bind_ok}
use aws_iprotate_python.Aws.{Aws, call, new_aws}
use aws_iprotate_python.Aws.Client.{login}
use aws_iprotate_python.Run.{World}
use aws_iprotate_python.Tasks.{idle, Profile, Server, text, on_host, set_stop_task}
use aws_iprotate_python.Tasks.Life.{state_of, set_stop_task_idle}
use aws_iprotate_python.Replies.{Response, Value, object, word, no_kwargs}
use aws_iprotate_python.App.{log_in, after_login, with_login}

-- Where the object of a registered profile is made and its login fails, the request is answered
-- with the failure; and the profile is idle afterwards, without a current task, also where a task
-- of it is at work.
pub with_login_fails :
    {W : Type 0} (world : World W) (name : String) (response : Dict Value)
    (rest : Aws → Exec (Server W) Response) (s : Server W) (p : Profile) (aws : Aws) (e : Error)
    → lookup name s.profile ≡ some p
    → (new_aws name s.host).0 ≡ ok aws
    → (call (login world.ec2) aws (new_aws name s.host).1).0 ≡ err e
    → let r = with_login world name response rest s in
      (r.0
        ≡ ok (
            object
              (insert "message" (word (message e)) (insert "status" (word "failed") response))))
      × (state_of name r.1 ≡ some (idle, none))
unfolding with_login
with_login_fails {W} world name response rest s p aws e there made failed =
    let s₁ : Server W = record s { host = (new_aws name s.host).1 } in
    let s₂ : Server W = record s { host = (call (login world.ec2) aws s₁.host).1 } in
    let e₁ =
      bind_ok (on_host (new_aws name))
        (λ a. log_in world a >>= after_login world name response rest) s {a = aws} {s' = s₁}
        (ap (λ r. (r, s₁)) made) in
    let e₂ =
      bind_ok (log_in world aws) (after_login world name response rest) s₁ {a = err e} {s' = s₂}
        (ap (λ r. (ok r, s₂)) failed) in
    let (e₃, i) =
      set_stop_task_idle world (no_kwargs name "") s₂ there "failed" (text (message e)) in
    let e₄ =
      bind_ok (set_stop_task world name "failed" (text (message e)))
        (λ _.
          pure (
            object
              (insert "message" (word (message e)) (insert "status" (word "failed") response))))
        s₂ e₃ in
    let whole = e₁ ∙ e₂ ∙ e₄ in (ap (λ r. r.0) whole, ap (λ r. state_of name r.1) whole ∙ i)
