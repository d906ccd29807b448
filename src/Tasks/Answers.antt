-- ===== src/Tasks/Answers.antt =====
-- `task_method` of functions/task_manager.py, over the methods of functions/run.py.
use aws_iprotate_python.Prelude.{
  String, ◌≡◌, refl, arith, Bool, true, false, ◌||◌, if◌then◌else◌, ◌==◌,
}
use aws_iprotate_python.Py.{message, Result, ok, err, Exec}
use aws_iprotate_python.Host.{Host}
use aws_iprotate_python.Run.{
  World, Kwargs, Answer, RunTask, answering, new_run_task, failed, failure,
}
use aws_iprotate_python.Run
use aws_iprotate_python.Tasks.{task_method}

-- The types of task that the handlers ask for.
abbrev pub IsTask : String → Type 0
IsTask t =
    (t == "change_region"
      || t == "change_ip"
      || t == "change_whitelist"
      || t == "reset"
      || t == "change_auth")
    ≡ true

no_other :
    (t : String)
    → IsTask t
    → (t == "change_region") ≡ false
    → (t == "change_ip") ≡ false
    → (t == "change_whitelist") ≡ false
    → (t == "reset") ≡ false
    → (t == "change_auth") ≡ false
    → ⊥
no_other t h n₁ n₂ n₃ n₄ n₅ = ground arith

-- `m` answers at `s`.
record Answers {S : Type 0} (m : Exec S Answer) (s : S) : Type 0 where
  given : Answer
  returns : (m s).0 ≡ ok given

if-Answers :
    {S : Type 0} (b : Bool) (m n : Exec S Answer) (s : S)
    → (b ≡ true → Answers m s)
    → (b ≡ false → Answers n s)
    → Answers (if b then m else n) s
if-Answers true m n s hm hn = hm refl
if-Answers false m n s hm hn = hn refl

answered :
    {S : Type 0} (r : Result Answer) (s : S)
    → (a : Answer) × (◌≡◌ {A = Result Answer}
        (let x : Result Answer × S = elim r [
          | ok a' ↦ (ok a', s)
          | err e ↦ (ok (failed (failure (message e))), s)
        ] in
          x).0
        (ok a))
answered (ok a) s = (a, refl)
answered (err e) s = (failed (failure (message e)), refl)

module _ {W : Type 0} (world : World W) where
  answering-Answers : (m : Exec (Host W) Answer) (h : Host W) → Answers (answering m) h
  unfolding answering
  answering-Answers m h = let (a, e) = answered (m h).0 (m h).1 in record { given = a; returns = e }

  change_region-Answers :
      (task : RunTask) (k : Kwargs) (h : Host W) → Answers (Run.change_region world task k) h
  unfolding Run.change_region
  change_region-Answers task k h = answering-Answers _ h

  change_ip-Answers :
      (task : RunTask) (k : Kwargs) (h : Host W) → Answers (Run.change_ip world task k) h
  unfolding Run.change_ip
  change_ip-Answers task k h = answering-Answers _ h

  change_whitelist-Answers : (k : Kwargs) (h : Host W) → Answers (Run.change_whitelist world k) h
  unfolding Run.change_whitelist
  change_whitelist-Answers k h = answering-Answers _ h

  reset-Answers : (k : Kwargs) (h : Host W) → Answers (Run.reset world k) h
  unfolding Run.reset
  reset-Answers k h = answering-Answers _ h

  change_auth-Answers : (k : Kwargs) (h : Host W) → Answers (Run.change_auth world k) h
  unfolding Run.change_auth
  change_auth-Answers k h = answering-Answers _ h

  -- A task of one of the five types answers from every state of the machine, whatever raises inside
  -- it.
  pub task_method-Answers :
      (task : RunTask) (kwargs : Kwargs) (h : Host W)
      → IsTask kwargs.task_type
      → (a : Answer) × ((task_method world task kwargs h).0 ≡ ok a)
  unfolding task_method
  task_method-Answers task k h t =
      let a : Answers (task_method world task k) h =
        if-Answers (k.task_type == "change_region") (Run.change_region world task k) _ h
          (λ _. change_region-Answers task k h)
          λ n₁.
            if-Answers (k.task_type == "change_ip") (Run.change_ip world task k) _ h
              (λ _. change_ip-Answers task k h)
              λ n₂.
                if-Answers (k.task_type == "change_whitelist") (Run.change_whitelist world k) _ h
                  (λ _. change_whitelist-Answers k h)
                  λ n₃.
                    if-Answers (k.task_type == "reset") (Run.reset world k) _ h
                      (λ _. reset-Answers k h)
                      λ n₄.
                        if-Answers (k.task_type == "change_auth") (Run.change_auth world k) _ h
                          (λ _. change_auth-Answers k h)
                          λ n₅. absurd (no_other k.task_type t n₁ n₂ n₃ n₄ n₅) in
      (a.given, a.returns)
