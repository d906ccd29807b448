-- ===== src/Tasks/Accounting.antt =====
-- The profiles of functions/task_manager.py in every state that handlers and threads can reach.
use aws_iprotate_python.Prelude.{
  String, ◌≡◌, refl, ap, subst, inl, inr, List, [], ◌∷◌, ◌++◌, arith, eq_iff,
}
use aws_iprotate_python.Prelude.Dict.{Dict, insert, lookup-nil}
use aws_iprotate_python.Py.{Error, ok, err, ok_injective}
use aws_iprotate_python.Host.{Host}
use aws_iprotate_python.Run.{World, Kwargs}
use aws_iprotate_python.Config.{AwsConfig}
use aws_iprotate_python.Py.{pure}
use aws_iprotate_python.Py.Keeps.{bind_cases}
use aws_iprotate_python.Tasks.{
  register_all, fresh_profile, no_task, new_profiles, load_all_again, outcome, answer, begin_task,
  Profile,
}
use aws_iprotate_python.Tasks.Idles.{
  Stops, gone, stops, Idles-of_Stops, set_stop_task-Stops, reload_profile-Idles,
  register_profile-Idles, begin_task_cases,
}
use aws_iprotate_python.Tasks.Threads.{
  work, register, start, refuse, begin, vanish, stop, die, reload, System, Step, Steps, here, next,
  Reach, initial, without,
}
use aws_iprotate_python.Tasks.Sound.{
  Every, Every-insert, Held, Held-split, IsSound, idle-IsSound, Idles-Every, Worked, AllSound,
  IsSound-map,
}

module _ {W : Type 0} (world : World W) (x : System W) (sound : AllSound x) where
  begin-AllSound :
      (before behind : List Kwargs) (k : Kwargs)
      → let r = begin_task world k (without world x before behind) in
        r.0 ≡ ok tt → AllSound (record x { server = r.1; active = k ∷ x.active })
  begin-AllSound before behind k =
      begin_task_cases world
        (λ r. r.0 ≡ ok tt → AllSound (record x { server = r.1; active = k ∷ x.active })) k
        (without world x before behind)
        (λ p there _.
          Every-insert (IsSound (Worked (record x { active = k ∷ x.active }))) k.config_name _
            x.server.profile
            ((sound k.config_name p there).0, (k.task_type, refl), λ _. inl (inl refl))
            (λ j p' _ h.
              IsSound-map (Worked x) (Worked (record x { active = k ∷ x.active })) j p'
                (λ w. elim w [ inl a ↦ inl (inr a) | inr d ↦ inr d ]) (sound j p' h)))
        (λ _ e. absurd (ground arith))

  vanish-AllSound :
      (before behind : List Kwargs) (k : Kwargs) (e : Error)
      → let r = begin_task world k (without world x before behind) in
        r.0 ≡ err e → AllSound (record x { server = r.1 })
  vanish-AllSound before behind k e =
      begin_task_cases world (λ r. r.0 ≡ err e → AllSound (record x { server = r.1 })) k
        (without world x before behind) (λ p there h. absurd (ground arith)) (λ _ _. sound)

  -- a profile of another name keeps its threads
  still :
      (before behind : List Kwargs) (k : Kwargs)
      → x.active ≡ before ++ k ∷ behind
      → (j : String) → (k.config_name ≡ j → ⊥)
      → Worked x j
      → Worked (record x { active = before ++ behind }) j
  still before behind k e j other (inr d) = inr d
  still before behind k e j other (inl a) =
      elim (Held-split j before k behind (subst (Held j) e a)) [
        | inl c ↦ absurd (other c)
        | inr a' ↦ inl a'
      ]

  stop-AllSound :
      (before behind : List Kwargs) (k : Kwargs) {profiles : Dict Profile}
      → x.active ≡ before ++ k ∷ behind
      → Stops k.config_name x.server.profile profiles
      → Every (IsSound (Worked (record x { active = before ++ behind }))) profiles
  stop-AllSound before behind k e (gone lacks) j p h =
      IsSound-map (Worked x) (Worked (record x { active = before ++ behind })) j p
        (still before behind k e j (λ n. absurd (ground (arith, n, lacks, h)))) (sound j p h)
  stop-AllSound before behind k e (stops q n s t) j p h =
      Every-insert (IsSound (Worked (record x { active = before ++ behind }))) k.config_name q
        x.server.profile
        (idle-IsSound (Worked (record x { active = before ++ behind })) k.config_name q n s t)
        (λ j' p' other h'.
          IsSound-map (Worked x) (Worked (record x { active = before ++ behind })) j' p'
            (still before behind k e j'
              (λ c. absurd (ground (arith, eq_iff k.config_name j', c, other))))
            (sound j' p' h'))
        j p h

  die-AllSound :
      (before behind : List Kwargs) (k : Kwargs)
      → x.active ≡ before ++ k ∷ behind
      → AllSound (record x { active = before ++ behind; dead = k ∷ x.dead })
  die-AllSound before behind k e j p h =
      IsSound-map (Worked x) (Worked (record x { active = before ++ behind; dead = k ∷ x.dead })) j
        p
        (λ w. elim w [
          | inl a ↦ elim (Held-split j before k behind (subst (Held j) e a)) [
            | inl c ↦ inr (inl c)
            | inr a' ↦ inl a'
          ]
          | inr d ↦ inr (inr d)
        ])
        (sound j p h)

module _ {W : Type 0} (world : World W) where
  Step-AllSound : {x y : System W} → Step world x y → AllSound x → AllSound y
  Step-AllSound (work h) sound = sound
  Step-AllSound {x} (register name) sound =
      Idles-Every (Worked x) (register_profile-Idles name x.server) sound
  Step-AllSound (start k) sound = sound
  Step-AllSound {x} (refuse name d) sound =
      Idles-Every (Worked x)
        (Idles-of_Stops
          (set_stop_task-Stops world name "failed" d x.server (λ j p h. (sound j p h).0)))
        sound
  Step-AllSound {x} (begin before behind k e r) sound =
      begin-AllSound world x sound before behind k r
  Step-AllSound {x} (vanish before behind k f e r) sound =
      vanish-AllSound world x sound before behind k f r
  Step-AllSound {x} (stop before behind k a h e r) sound =
      stop-AllSound world x sound before behind k e (
        set_stop_task-Stops world k.config_name (outcome world a) (answer a) x.server
          (λ j p h. (sound j p h).0))
  Step-AllSound {x} (die before behind k f h e r) sound =
      die-AllSound world x sound before behind k e
  Step-AllSound {x} (reload name) sound =
      Idles-Every (Worked x) (reload_profile-Idles name x.server) sound

  Steps-AllSound : {x y : System W} → Steps world x y → AllSound x → AllSound y
  Steps-AllSound here sound = sound
  Steps-AllSound (next p s) sound = Step-AllSound s (Steps-AllSound p sound)

  register_all-Every :
      (H : String → Type 0) (configs : List AwsConfig) (profiles : Dict Profile)
      → Every (IsSound H) profiles
      → Every (IsSound H) (register_all configs profiles)
  unfolding register_all
  register_all-Every H [] profiles sound = sound
  register_all-Every H (c ∷ configs) profiles sound =
      register_all-Every H configs (insert c.config_name (fresh_profile c no_task) profiles) (
        Every-insert (IsSound H) c.config_name (fresh_profile c no_task) profiles
          (refl, refl, λ e. absurd (ground arith)) (λ j p _. sound j p))

  new_profiles-Every :
      (H : String → Type 0) (h : Host W) (profiles : Dict Profile)
      → (new_profiles h).0 ≡ ok profiles
      → Every (IsSound H) profiles
  unfolding new_profiles
  new_profiles-Every H h profiles =
      bind_cases (λ r. r.0 ≡ ok profiles → Every (IsSound H) profiles) load_all_again
        (λ configs. pure (register_all configs [])) h
        (λ configs _ e. subst (Every (IsSound H)) (ok_injective e) (
          register_all-Every H configs []
            (λ j p h'. absurd (ground (arith, lookup-nil {V = Profile} j, h')))))
        (λ e _ e'. absurd (ground arith))

  -- In every state that handlers and threads reach, in whatever order their steps come, each
  -- registered profile stands under its own name, has a current task exactly while it is busy, and
  -- is busy only while a thread that began on it has not answered, or died before it answered.
  pub Reach-AllSound : {x : System W} → Reach world x → AllSound x
  Reach-AllSound r = Steps-AllSound r.path (
      new_profiles-Every (Worked (initial world r.after r.profile)) r.before r.profile
        (ap (λ y. y.0) r.constructed))
