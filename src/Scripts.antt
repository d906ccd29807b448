-- ===== src/Scripts.antt =====
-- The scripts at the end of functions/aws.py, functions/ssh_setup.py, functions/service.py and
-- garbage/config.py, which run when a file is started by itself. What they print is not kept.
use aws_iprotate_python.Prelude.{ℕ, String, ◌<>◌, List, if◌then◌else◌}
use aws_iprotate_python.Py.{Exec, pure, modify, ◌>>=◌, ◌>>◌, gets}
use aws_iprotate_python.Host.{Host, outside}
use aws_iprotate_python.Outside.{Login}
use aws_iprotate_python.ConfigParser.{Conf}
use aws_iprotate_python.Config.{new_loader, on_parser, load_api_config}
use aws_iprotate_python.Profile.{profile_name, generate_profile_config, generate_peer_config}
use aws_iprotate_python.Aws.{call, new_aws}
use aws_iprotate_python.Aws.Client.{login, get_instance_address}
use aws_iprotate_python.Aws.Launch.{launch_instance, terminate_instance}
use aws_iprotate_python.Aws.Rotate.{get_new_ip}
use aws_iprotate_python.SshSetup
use aws_iprotate_python.SshSetup.{host_login, host_setup}
use aws_iprotate_python.Service.{new_service, wg_reload, restart_iprotate_service, reset_all}
use aws_iprotate_python.Run.{World, local_path, remote_path}
use aws_iprotate_python.Garbage.ProxyConfig.{
  ProxyConfig, get_value, set_value, add_user, remove_user, parse_parent_proxy, set_parent_proxy,
  write_config, get_service_value, set_service_value,
}

module _ {W : Type 0} (world : World W) where
  open world use {ec2, net, ssh, systemd}

  -- functions/aws.py: the instance of a profile is launched anew
  unfoldable pub relaunch_script : Exec (Host W) String
  relaunch_script = do
    aws₁ ← new_aws "aws02"
    (_, aws₂) ← call (login ec2) aws₁
    (_, aws₃) ← call (terminate_instance ec2) aws₂
    (_, aws₄) ← call (launch_instance ec2) aws₃
    (aws_ip, _) ← call (get_instance_address ec2) aws₄
    pure aws_ip

  abbrev pub script_login : String → Login
  script_login ip = record { host = ip; username = "ubuntu"; key_path = "/root/.ssh/id_rsa" }

  -- the instance is set up unless it answers behind the tunnel
  unfoldable pub set_up_unless_there : String → String → String → Exec (Host W) Unit
  set_up_unless_there order name aws_ip = do
    there ← outside (SshSetup.connect ssh (script_login ("10.0." <> order <> ".1")) 10)
    if there then pure tt else do
      outside (host_login ssh (script_login aws_ip))
      outside (host_setup ssh (local_path order name) remote_path)

  -- functions/ssh_setup.py: the instance of a profile is launched and set up; `system` runs a command
  -- and gives its exit code
  unfoldable pub set_up_script : (String → Exec W ℕ) → Exec (Host W) Unit
  set_up_script system = do
    let name : String = "aws2"
    aws₁ ← new_aws name
    (_, aws₂) ← call (login ec2) aws₁
    (_, aws₃) ← call (terminate_instance ec2) aws₂
    (_, aws₄) ← call (launch_instance ec2) aws₃
    (rotation, aws) ← call (get_new_ip ec2) aws₄
    let order = aws.aws_config.order
    let service = profile_name order name
    loader ← new_loader
    (_, loader₁) ← on_parser load_api_config loader
    loader₂ ← generate_peer_config net name loader₁
    generate_profile_config name rotation.new_ip loader₂
    outside (new_service systemd service)
    reloaded ← outside (wg_reload systemd system service)
    outside (restart_iprotate_service systemd service)
    if reloaded then pure tt else do
      outside (restart_iprotate_service systemd service)
      set_up_unless_there order name rotation.new_ip
    set_up_unless_there order name rotation.new_ip

  -- functions/service.py: all units of the service are stopped
  unfoldable pub reset_script : Exec (Host W) Unit
  reset_script = do outside (new_service systemd ""); outside (reset_all systemd)

-- a statement about the lines of a `ProxyConfig`
abbrev pub on_lines : {A : Type 0} → Exec (List String) A → Exec ProxyConfig A
on_lines m p = let (r, lines) = m p.lines in (r, record p { lines = lines })

-- garbage/config.py: a file of 3proxy is edited and written
unfoldable pub edit_proxy_script : Exec ProxyConfig Unit
edit_proxy_script = do
  on_lines (get_value "nserver")
  on_lines (get_value "log")
  on_lines (get_value "users")
  on_lines (set_value "nserver" "8.8.4.4")
  on_lines (add_user "user3" "password3")
  on_lines (remove_user "user1")
  on_lines parse_parent_proxy
  on_lines (set_parent_proxy "192.168.1.1" "8080")
  modify write_config
  on_lines (get_value "parent")
  pure tt

-- and then a file of systemd, whose parser is the state; the result is what is written to the file
unfoldable pub edit_service_script : Exec Conf Conf
edit_service_script = do
  get_service_value "Service" "ExecStart"
  set_service_value "Service" "ExecStart" "/usr/bin/python3 /path/to/app.py"
  gets (λ parser. parser)
