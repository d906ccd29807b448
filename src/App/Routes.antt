-- ===== src/App/Routes.antt =====
-- The routes of app.py.
use aws_iprotate_python.Py.{Exec}
use aws_iprotate_python.Run.{World}
use aws_iprotate_python.Tasks.{Server}
use aws_iprotate_python.Replies.{Request, Response}
use aws_iprotate_python.App.{
  get_start_process, get_reset, get_change_auth, get_change_region, get_available_region,
  get_config_detail, change_whitelist, get_task,
}

-- the paths, without the slash
pub data Route : Type 0 where
  to_change_ip to_reset to_change_auth to_change_region : Route
  to_get_available_region to_get_config to_change_whitelist to_get_task : Route

abbrev pub dispatch : {W : Type 0} → World W → Route → Request → Exec (Server W) Response
dispatch world to_change_ip = get_start_process world
dispatch world to_reset = get_reset world
dispatch world to_change_auth = get_change_auth world
dispatch world to_change_region = get_change_region world
dispatch world to_get_available_region = get_available_region world
dispatch world to_get_config = get_config_detail world
dispatch world to_change_whitelist = change_whitelist world
dispatch world to_get_task = get_task world
