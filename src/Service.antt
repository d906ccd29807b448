-- ===== src/Service.antt =====
-- `class ServiceManager` of functions/service.py. An object is the name of its service.
pub mod Names
use aws_iprotate_python.Prelude.{ℕ, Bool, ◌=ℕ◌, String, ◌<>◌, List, [], ◌∷◌, ◌==◌, if◌then◌else◌}
use text.Mathlib.Text.{starts_with}
use aws_iprotate_python.Prelude.Text.{split}
use aws_iprotate_python.Py.{index_error, Exec, pure, raise, for_each, first, ◌>>=◌, ◌>>◌}
use aws_iprotate_python.Outside.{SystemdUnit, Systemd}

abbrev pub unit_of : String → String
unit_of service_name = "iprotate@" <> service_name

-- `xs[1]`
abbrev pub second : {S A : Type 0} → List A → Exec S A
second [] = raise index_error
second (x ∷ []) = raise index_error
second (x ∷ y ∷ _) = pure y

-- `service.split("@")[1].split(".")[0]`
unfoldable pub name_of : {S : Type 0} → String → Exec S String
name_of service = do behind ← second (split b'@' service); first (split b'.' behind)

module _ {W : Type 0} (systemd : Systemd W) where
  -- `ServiceManager(service_name)` makes a handle of the unit
  unfoldable pub new_service : String → Exec W Unit
  new_service name = systemd.service (unit_of name)

  unfoldable pub restart_iprotate_service : String → Exec W Unit
  restart_iprotate_service name = do systemd.service (unit_of name); systemd.restart (unit_of name)

  -- `system` runs a command in a shell and gives its exit code
  unfoldable pub wg_reload : (String → Exec W ℕ) → String → Exec W Bool
  wg_reload system name = do
    exit_code ← system (
        "wg syncconf " <> name <> " <(wg-quick strip /opt/cloud-iprotate/profile_config/" <> name
        <> "/" <> name <> ".conf)")
    pure (exit_code =ℕ 0)

  unfoldable pub stop : String → Exec W Unit
  stop name = systemd.stop (unit_of name)

  unfoldable pub start : String → Exec W Unit
  start name = systemd.start (unit_of name)

  abbrev pub running : List SystemdUnit → List String
  running [] = []
  running (u ∷ us) = if u.sub_state == "running" then u.name ∷ running us else running us

  -- one service of the loop
  unfoldable pub reset_one : String → Exec W Unit
  reset_one service =
      if starts_with service "iprotate@"
      then (do name ← name_of service; systemd.service (unit_of name); systemd.stop (unit_of name))
      else pure tt

  unfoldable pub reset_all : Exec W Unit
  reset_all = do units ← systemd.list_units; for_each (running units) reset_one
