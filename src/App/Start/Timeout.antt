-- ===== src/App/Start/Timeout.antt =====
-- The timeout of `check_last_task` in app.py.
use aws_iprotate_python.Prelude.{ℕ, String, ◌≡◌, refl, some}
use aws_iprotate_python.Prelude.Dict.{lookup}
use aws_iprotate_python.Py.{ok, Exec, dict_hasattr}
use aws_iprotate_python.Tasks.{Profile, Server}
use aws_iprotate_python.App.Start.{check_last_task}

-- `check_last_task` answers the last task of a registered profile and changes nothing, however long
-- ago its task began: a task that hangs is never timed out.
pub never_times_out :
    {W : Type 0} (elapsed : String → Exec (Server W) ℕ) (now : Exec (Server W) String)
    (name : String) (s : Server W) (p : Profile)
    → lookup name s.profile ≡ some p
    → check_last_task elapsed now name s ≡ (ok p.last_task, s)
unfolding check_last_task dict_hasattr
never_times_out elapsed now name s p there = rw there refl
