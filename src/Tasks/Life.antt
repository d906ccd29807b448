-- ===== src/Tasks/Life.antt =====
-- The life of one task: `set_start_task` of functions/task_manager.py.
use text.Mathlib.TextPositions.{eq_refl}
use aws_iprotate_python.Prelude.{String, ◌≡◌, ap, subst, ◌∙◌, refl, Option, none, some, arith}
use aws_iprotate_python.Prelude.Dict.{Dict, lookup, insert, lookup-insert}
use aws_iprotate_python.Py.{Error, Result, ok, err, Exec, pure, ◌>>=◌, ◌>>◌}
use aws_iprotate_python.Py.Keeps.{bind_ok, bind_err}
use aws_iprotate_python.Host.{Host}
use aws_iprotate_python.Run.{World, Kwargs, Answer, RunTask, new_run_task}
use aws_iprotate_python.Tasks.{
  Status, idle, busy, TaskData, answer, Profile, Server, begin_task, mark_busy, mark_idle,
  put_profile, profile_of, on_host, task_method, perform_task, finish_task, outcome, set_stop_task,
  reload_profile, set_start_task,
}
use aws_iprotate_python.Tasks.Answers.{IsTask, task_method-Answers}

-- The status and the current task of a profile, if it is registered.
abbrev pub state_of : {W : Type 0} → String → Server W → Option (Status × Option String)
state_of name s = elim (lookup name s.profile) [
  | none ↦ none
  | some p ↦ some (p.status, p.current_task)
]

lookup_ok :
    {W : Type 0} (name : String) (s : Server W) {p : Profile}
    → lookup name s.profile ≡ some p
    → profile_of name s ≡ (ok p, s)
lookup_ok name s there = rw (there) refl

pub at_self :
    (name : String) (v : Profile) (m : Dict Profile) → lookup name (insert name v m) ≡ some v
at_self name v m = grind (arith, lookup-insert, eq_refl)

state_after :
    {W : Type 0} (name : String) (s : Server W) (q : Profile)
    → state_of name (put_profile name q s).1 ≡ some (q.status, q.current_task)
state_after name s q =
    ap (λ o. elim o [ none ↦ none | some r ↦ some (r.status, r.current_task) ])
      (at_self name q s.profile)

module _ {W : Type 0} (world : World W) (kwargs : Kwargs) (s : Server W) {p : Profile}
    (there : lookup kwargs.config_name s.profile ≡ some p) where
  abbrev pub begun : Server W
  begun = (mark_busy world kwargs p s).1

  pub begin_task_ok : begin_task world kwargs s ≡ (ok tt, begun)
  unfolding begin_task
  begin_task_ok =
      bind_ok (profile_of kwargs.config_name) (mark_busy world kwargs) s
        (lookup_ok kwargs.config_name s there)

  -- the profile is busy while the task runs
  begun-busy : state_of kwargs.config_name begun ≡ some (busy, some kwargs.task_type)
  begun-busy = state_after kwargs.config_name s _

  pub set_stop_task_idle :
      (result : String) (d : TaskData)
      → let s' = (mark_idle world kwargs.config_name result d p s).1 in
        (set_stop_task world kwargs.config_name result d s ≡ (ok tt, s'))
        × (state_of kwargs.config_name s' ≡ some (idle, none))
  unfolding set_stop_task
  set_stop_task_idle result d = (
    bind_ok (profile_of kwargs.config_name) (mark_idle world kwargs.config_name result d) s
        (lookup_ok kwargs.config_name s there),
    state_after kwargs.config_name s _,
  )

-- A method that keeps the profile idle, whatever it returns.
reload_profile_idle :
    {W : Type 0} (name : String) (s : Server W)
    → state_of name s ≡ some (idle, none)
    → state_of name (reload_profile name s).1 ≡ some (idle, none)
unfolding reload_profile
reload_profile_idle name s h = grind (arith, h, lookup-insert, eq_refl)

-- a statement that returns a value changes no state
then_pure :
    {S A B : Type 0} (r : Result A) (s : S) (b : B) → (((λ _. (r, s)) >>= λ _. pure b) s).1 ≡ s
then_pure (ok a) s b = refl
then_pure (err e) s b = refl

module _ {W : Type 0} (world : World W) (kwargs : Kwargs) where
  -- what `set_start_task` does once the profile is marked busy
  abbrev run_and_finish : Exec (Server W) Answer
  run_and_finish = do result ← on_host (perform_task world kwargs); finish_task world kwargs result

  finish_task_idle :
      (a : Answer) (s : Server W) {p : Profile}
      → lookup kwargs.config_name s.profile ≡ some p
      → state_of kwargs.config_name (finish_task world kwargs a s).1 ≡ some (idle, none)
  unfolding finish_task
  finish_task_idle a s {p} there =
      let name : String = kwargs.config_name in
      let stopped : Server W = (mark_idle world name (outcome world a) (answer a) p s).1 in
      let r : Result (Unit {0}) × Server W = reload_profile name stopped in
      let (e, i) = set_stop_task_idle world kwargs s there (outcome world a) (answer a) in
      ap (λ x. state_of name x.1)
        (bind_ok (set_stop_task world name (outcome world a) (answer a))
          (λ _. reload_profile name >> pure a) s e)
      ∙ ap (state_of name) (then_pure r.0 r.1 a)
      ∙ reload_profile_idle name stopped i

  run_and_finish_idle :
      (s : Server W) {p : Profile} {task : RunTask}
      → lookup kwargs.config_name s.profile ≡ some p
      → IsTask kwargs.task_type
      → (new_run_task world s.host).0 ≡ ok task
      → state_of kwargs.config_name (run_and_finish s).1 ≡ some (idle, none)
  unfolding perform_task
  run_and_finish_idle s {p} {task} there t constructed =
      let h : Host W = (new_run_task world s.host).1 in
      let (a, e) = task_method-Answers world task kwargs h t in
      let h' : Host W = (task_method world task kwargs h).1 in
      let r : perform_task world kwargs s.host ≡ (ok a, h') =
        bind_ok (new_run_task world) (λ x. task_method world x kwargs) s.host
          (ap (λ x. (x, h)) constructed)
        ∙ ap (λ x. (x, h')) e in
      ap (λ x. state_of kwargs.config_name x.1)
        (bind_ok (on_host (perform_task world kwargs)) (finish_task world kwargs) s
          (ap (λ x. (x.0, record s { host = x.1 })) r))
      ∙ finish_task_idle a (record s { host = h' }) there

  run_and_finish_raises :
      (s : Server W) {e : Error}
      → (new_run_task world s.host).0 ≡ err e
      → ((run_and_finish s).0 ≡ err e)
        × (state_of kwargs.config_name (run_and_finish s).1 ≡ state_of kwargs.config_name s)
  unfolding perform_task
  run_and_finish_raises s raised =
      let h : Host W = (new_run_task world s.host).1 in
      let r : perform_task world kwargs s.host ≡ (err _, h) =
        bind_err (new_run_task world) (λ x. task_method world x kwargs) s.host
          (ap (λ x. (x, h)) raised) in
      let q =
        bind_err (on_host (perform_task world kwargs)) (finish_task world kwargs) s
          (ap (λ x. (x.0, record s { host = x.1 })) r) in
      (ap (λ x. x.0) q, ap (λ x. state_of kwargs.config_name x.1) q)

  -- If the profile is registered, the task has one of the five types, and RunTask() constructs once
  -- the profile is marked busy, then `set_start_task` leaves the profile idle and without a current
  -- task, whatever the task answers and whether or not the reload of the profile raises.
  pub set_start_task_idle :
      (s : Server W) {p : Profile} {task : RunTask}
      → lookup kwargs.config_name s.profile ≡ some p
      → IsTask kwargs.task_type
      → (new_run_task world (begin_task world kwargs s).1.host).0 ≡ ok task
      → state_of kwargs.config_name (set_start_task world kwargs s).1 ≡ some (idle, none)
  unfolding set_start_task
  set_start_task_idle s {p} {task} there t constructed =
      let c = begin_task_ok world kwargs s there in
      ap (λ x. state_of kwargs.config_name x.1)
        (bind_ok (begin_task world kwargs) (λ _. run_and_finish) s c)
      ∙ run_and_finish_idle (begun world kwargs s there) (at_self kwargs.config_name _ s.profile) t
          (subst (λ x. (new_run_task world x.1.host).0 ≡ ok task) c constructed)

  -- If the profile is registered and RunTask() raises once it is marked busy, `set_start_task` raises
  -- the same error, and the profile stays busy with this task as the current one.
  pub set_start_task_stuck :
      (s : Server W) {p : Profile} {e : Error}
      → lookup kwargs.config_name s.profile ≡ some p
      → (new_run_task world (begin_task world kwargs s).1.host).0 ≡ err e
      → ((set_start_task world kwargs s).0 ≡ err e)
        × (state_of kwargs.config_name (set_start_task world kwargs s).1
            ≡ some (busy, some kwargs.task_type))
  unfolding set_start_task
  set_start_task_stuck s {p} {e} there raised =
      let c = begin_task_ok world kwargs s there in
      let q = bind_ok (begin_task world kwargs) (λ _. run_and_finish) s c in
      let (x, y) =
        run_and_finish_raises (begun world kwargs s there)
          (subst (λ x. (new_run_task world x.1.host).0 ≡ err e) c raised) in
      (
        ap (λ x. x.0) q ∙ x,
        ap (λ x. state_of kwargs.config_name x.1) q ∙ y ∙ begun-busy world kwargs s there,
      )
