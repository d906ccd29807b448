-- ===== src/Tasks/Overlap.antt =====
-- Two threads of one profile, in the terms of functions/task_manager.py.
use aws_iprotate_python.Prelude.{
  ◌≡◌, refl, ap, sym, subst, ◌∙◌, inl, none, some, List, [], ◌∷◌, ◌++◌,
}
use aws_iprotate_python.Prelude.Dict.{lookup}
use aws_iprotate_python.Py.{ok}
use aws_iprotate_python.Host.{Host}
use aws_iprotate_python.Run.{World, Kwargs, Answer}
use aws_iprotate_python.Tasks.{
  idle, Profile, Server, answer, outcome, begin_task, set_stop_task, perform_task,
}
use aws_iprotate_python.Tasks.Threads.{System, begin, stop, Steps, here, next, without}
use aws_iprotate_python.Tasks.Sound.{Held}
use aws_iprotate_python.Tasks.Progress.{Steps-trans, begin_task-threads}
use aws_iprotate_python.Tasks.Life.{state_of, at_self, begin_task_ok, set_stop_task_idle}

module _ {W : Type 0} (world : World W) where
  begin_step :
      (x : System W) (k : Kwargs) (behind : List Kwargs) (p : Profile)
      → x.server.threads ≡ k ∷ behind
      → lookup k.config_name x.server.profile ≡ some p
      → (y : System W) × Steps world x y
        × (y.server.threads ≡ behind)
        × (y.active ≡ k ∷ x.active)
        × (q : Profile) × (lookup k.config_name y.server.profile ≡ some q)
  begin_step x k behind p waiting there =
      let s : Server W = without world x [] behind in
      let e = begin_task_ok world k s there in
      let (q, l) =
        subst (λ r. (q : Profile) × (lookup k.config_name r.1.profile ≡ some q)) (sym e)
          (_, at_self k.config_name _ x.server.profile) in
      (
        record x { server = (begin_task world k s).1; active = k ∷ x.active },
        next here (begin [] behind k waiting (ap (λ r. r.0) e)),
        begin_task-threads world k s,
        refl,
        q,
        l,
      )

  stop_step :
      (x : System W) (k : Kwargs) (before behind : List Kwargs) (p : Profile) (a : Answer)
      (h : Host W)
      → x.active ≡ before ++ k ∷ behind
      → lookup k.config_name x.server.profile ≡ some p
      → (perform_task world k h).0 ≡ ok a
      → (y : System W) × Steps world x y
        × (state_of k.config_name y.server ≡ some (idle, none))
        × (y.active ≡ before ++ behind)
  stop_step x k before behind p a h working there answers =
      let (e, i) = set_stop_task_idle world k x.server there (outcome world a) (answer a) in
      (
        record x {
          server = (set_stop_task world k.config_name (outcome world a) (answer a) x.server).1;
          active = before ++ behind;
        },
        next here (stop before behind k a h working answers),
        ap (λ r. state_of k.config_name r.1) e ∙ i,
        refl,
      )

  -- Where two threads of a registered profile wait and the first one's task can answer, steps lead to a
  -- state in which the profile is idle although the second thread is at work on it.
  pub overlap_idle :
      (x : System W) (k k' : Kwargs) (rest : List Kwargs) (p : Profile) (a : Answer) (h : Host W)
      → x.server.threads ≡ k ∷ k' ∷ rest
      → k'.config_name ≡ k.config_name
      → lookup k.config_name x.server.profile ≡ some p
      → (perform_task world k h).0 ≡ ok a
      → (y : System W) × Steps world x y
        × (state_of k.config_name y.server ≡ some (idle, none))
        × Held k.config_name y.active
  overlap_idle x k k' rest p a h waiting one there answers =
      let (x₁, p₁, t₁, a₁, q₁, l₁) = begin_step x k (k' ∷ rest) p waiting there in
      let (x₂, p₂, t₂, a₂, q₂, l₂) =
        begin_step x₁ k' rest q₁ t₁
          (subst (λ n. lookup n x₁.server.profile ≡ some q₁) (sym one) l₁) in
      let (x₃, p₃, i₃, a₃) =
        stop_step x₂ k (k' ∷ []) x.active q₂ a h (a₂ ∙ ap (λ l. k' ∷ l) a₁)
          (subst (λ n. lookup n x₂.server.profile ≡ some q₂) one l₂) answers in
      (
        x₃,
        Steps-trans world p₁ (Steps-trans world p₂ p₃),
        i₃,
        subst (Held k.config_name) (sym a₃) (inl one),
      )
