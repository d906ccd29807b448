-- ===== src/Run.antt =====
-- `class RunTask` of functions/run.py: the five tasks. Each catches every exception and answers
-- with a status. What a task logs is not kept.
pub mod Values
pub mod Endpoint
pub mod Region
pub mod Untouched
pub mod Whitelist
use aws_iprotate_python.ConfigParser.{as_read}
use aws_iprotate_python.Prelude.{
  ℕ, zero, suc, ◌+◌, String, ◌<>◌, Bool, true, false, Option, none, some, ◌==◌, not, if◌then◌else◌,
}
use aws_iprotate_python.Py.{message, ok, err, Exec, pure, except, ◌>>=◌, ◌>>◌}
use aws_iprotate_python.Host.{Host, outside}
use aws_iprotate_python.Outside.{Proxy, Login, Ec2, Net, Ssh, Systemd}
use aws_iprotate_python.Config.{
  ConfigLoader, AwsConfig, new_loader, on_parser, load_aws_config, set_loader_value, write_changes,
}
use aws_iprotate_python.Config
use aws_iprotate_python.Profile.{
  profile_name, as_int, generate_3proxy_config, generate_shadowsocks_config,
  generate_profile_config, generate_peer_config,
}
use aws_iprotate_python.Connection.{
  new_firewall, delete_rules, apply_whitelist, new_socks5, get_external_ip, Firewall,
}
use aws_iprotate_python.Aws.{Aws, call, new_aws}
use aws_iprotate_python.Aws.Client.{login, get_instance_address}
use aws_iprotate_python.Aws.Launch.{launch_instance, terminate_instance}
use aws_iprotate_python.Aws.Rotate.{NewIp, get_new_ip}
use aws_iprotate_python.SshSetup.{host_login, host_setup}
use aws_iprotate_python.Service.{new_service, restart_iprotate_service, stop, start}
pub use aws_iprotate_python.Run.Values.{
  World, Data, failure, notice, moved, rotated, whitelisted, authenticated, done, Answer, succeeded,
  failed, Kwargs, RunTask,
}

abbrev pub remote_path : String
remote_path = "/etc/wireguard/wg0.conf"

abbrev pub local_path : String → String → String
local_path order name =
    "/opt/cloud-iprotate/profile_config/" <> profile_name order name <> "/wg0.conf"

abbrev pub basesocks_port : ℕ
basesocks_port = 50000

-- `except Exception as e: return {"status": "failed", "data": str(e)}`
unfoldable pub answering : {W : Type 0} → Exec (Host W) Answer → Exec (Host W) Answer
answering m = except m (λ e. pure (failed (failure (message e))))

module _ {W : Type 0} (world : World W) where
  open world use {ec2, net, ssh, systemd}

  unfoldable pub new_run_task : Exec (Host W) RunTask
  new_run_task = do
    loader ← new_loader
    pure (record { config = loader; key_path = loader.api_config.ssh_key_path })

  -- The loop that waits for the proxy: at most `left` probes, a sleep after each that fails or
  -- that shows another address than `accept` wants.
  unfoldable pub probe : Proxy → (String → Bool) → ℕ → W → W
  probe proxy accept zero w = w
  probe proxy accept (suc left) w =
      let (r, w') = get_external_ip net proxy w in
      elim r [
        | ok ip ↦ elim (accept ip) [ true ↦ w' | false ↦ probe proxy accept left (ssh.sleep 1 w') ]
        | err e ↦ probe proxy accept left (ssh.sleep 1 w')
      ]

  abbrev pub wait_for_proxy : Proxy → (String → Bool) → Exec (Host W) Unit
  wait_for_proxy proxy accept h = (ok tt, record h { world = probe proxy accept 5 h.world })

  -- the instance is set up and the service restarted; then the proxy is probed
  unfoldable pub prove_proxy : Aws → String → ConfigLoader → Exec (Host W) Unit
  prove_proxy aws aws_ip loader = do
    order ← as_int aws.aws_config.order
    wait_for_proxy
        (new_socks5 loader.api_config.publicip (basesocks_port + order) (some aws.aws_config.user)
          (some aws.aws_config.pass))
        (λ ip. ip == aws_ip)

  -- the files of the profile, for an instance at `ip`
  unfoldable pub write_profile : String → String → ConfigLoader → Exec (Host W) ConfigLoader
  write_profile name ip loader = do
    loader₁ ← generate_profile_config name ip loader
    generate_peer_config net name loader₁

  -- the instance at `ip` gets its end of the tunnel
  unfoldable pub set_up_instance : RunTask → String → String → String → Exec (Host W) Unit
  set_up_instance self order name ip = do
    let host : Login = record { host = ip; username = "ubuntu"; key_path = self.key_path }
    outside (host_login ssh host)
    outside (host_setup ssh (local_path order name) remote_path)
    outside (new_service systemd (profile_name order name))

  -- what `change_region` does with the new instance's address
  unfoldable pub serve_region :
      RunTask → String → String → String → Aws → String → ConfigLoader → Exec (Host W) Answer
  serve_region self name old_region new_region aws aws_ip loader = do
    let order = aws.aws_config.order
    set_up_instance self order name aws_ip
    outside (restart_iprotate_service systemd (profile_name order name))
    prove_proxy aws aws_ip loader
    pure (succeeded (moved old_region new_region aws_ip))

  unfoldable pub settle_region :
      RunTask → String → String → String → ConfigLoader → String × Aws → Exec (Host W) Answer
  settle_region self name old_region new_region loader (aws_ip, aws) = do
    loader' ← write_profile name aws_ip loader
    serve_region self name old_region new_region aws aws_ip loader'

  -- What `change_region` does once it knows that the region is another. Config.conf has it as the
  -- parser reads it back; nothing reads the loader's own copy.
  unfoldable pub move_region :
      RunTask → ConfigLoader → String → String → String → Exec (Host W) Answer
  move_region self loader name old_region new_region = do
    aws₁ ← new_aws name
    (_, aws₂) ← call (login ec2) aws₁
    (_, _) ← call (terminate_instance ec2) aws₂
    Config.change_region name (as_read (some new_region)) self.config
    aws₃ ← new_aws name
    (_, aws₄) ← call (login ec2) aws₃
    (_, aws₅) ← call (launch_instance ec2) aws₄
    placed ← call (get_instance_address ec2) aws₅
    settle_region self name old_region new_region loader placed

  abbrev pub region_to : RunTask → String → Option String → ConfigLoader → Exec (Host W) Answer
  region_to self name none loader = pure (failed (notice "New region is not provided"))
  region_to self name (some new_region) loader = do
    (config, loader') ← on_parser (load_aws_config name) loader
    if config.region == new_region
        then pure (failed (notice "New region is the same as the old region"))
        else move_region self loader' name config.region new_region

  unfoldable pub change_region : RunTask → Kwargs → Exec (Host W) Answer
  change_region self kwargs =
      answering do loader ← new_loader; region_to self kwargs.config_name kwargs.new_region loader

  -- what `change_ip` does with the new address
  unfoldable pub serve_ip : RunTask → String → NewIp → Aws → ConfigLoader → Exec (Host W) Answer
  serve_ip self name new_ip aws loader = do
    let order = aws.aws_config.order
    set_up_instance self order name new_ip.new_ip
    except (outside (stop systemd (profile_name order name))) (λ _. pure tt)
    outside (restart_iprotate_service systemd (profile_name order name))
    prove_proxy aws new_ip.new_ip loader
    pure (succeeded (rotated new_ip))

  unfoldable pub settle_ip : RunTask → String → ConfigLoader → NewIp × Aws → Exec (Host W) Answer
  settle_ip self name loader (new_ip, aws) = do
    loader' ← write_profile name new_ip.new_ip loader
    serve_ip self name new_ip aws loader'

  unfoldable pub change_ip : RunTask → Kwargs → Exec (Host W) Answer
  change_ip self kwargs = answering do
    let name = kwargs.config_name
    aws₁ ← new_aws name
    (_, aws₂) ← call (login ec2) aws₁
    loader ← new_loader
    rotation ← call (get_new_ip ec2) aws₂
    settle_ip self name loader rotation

  -- what `change_whitelist` does with the firewall
  abbrev pub renew_firewall : Kwargs → Firewall → Exec (Host W) Answer
  renew_firewall kwargs fw = do
    outside (delete_rules net fw)
    outside (apply_whitelist net fw)
    pure (succeeded (whitelisted kwargs.new_whitelist))

  -- The loader is only written, so it has the value as the parser reads it back.
  unfoldable pub set_whitelist : Kwargs → Exec (Host W) Answer
  set_whitelist kwargs = do
    let name = kwargs.config_name
    loader ← new_loader
    loader' ← set_loader_value name "whitelist" (as_read kwargs.new_whitelist) loader
    write_changes name loader'
    fw ← new_firewall net name
    renew_firewall kwargs fw

  unfoldable pub change_whitelist : Kwargs → Exec (Host W) Answer
  change_whitelist kwargs = answering (set_whitelist kwargs)

  unfoldable pub reset : Kwargs → Exec (Host W) Answer
  reset kwargs = answering do
    let name = kwargs.config_name
    aws₁ ← new_aws name
    (_, aws₂) ← call (login ec2) aws₁
    (_, _) ← call (terminate_instance ec2) aws₂
    loader ← new_loader
    loader₁ ← set_loader_value name "region" (some "us-east-2") loader
    loader₂ ← set_loader_value name "whitelist" (some "") loader₁
    loader₃ ← set_loader_value name "instanceid" (some "") loader₂
    loader₄ ← set_loader_value name "user" (some "") loader₃
    loader₅ ← set_loader_value name "pass" (some "") loader₄
    write_changes name loader₅
    pure (succeeded (done "config reset"))

  -- The files are generated from the values as they were given; config.conf has them as the parser
  -- reads them back.
  unfoldable pub change_auth : Kwargs → Exec (Host W) Answer
  change_auth kwargs = answering do
    let name = kwargs.config_name
    aws ← new_aws name
    let order = aws.aws_config.order
    loader ← new_loader
    loader₁ ← set_loader_value name "user" kwargs.new_user loader
    loader₂ ← set_loader_value name "pass" kwargs.new_pass loader₁
    stored₁ ← set_loader_value name "user" (as_read kwargs.new_user) loader₂
    stored₂ ← set_loader_value name "pass" (as_read kwargs.new_pass) stored₁
    write_changes name stored₂
    loader₃ ← generate_3proxy_config name loader₂
    loader₄ ← generate_shadowsocks_config name loader₃
    outside (new_service systemd (profile_name order name))
    outside (stop systemd (profile_name order name))
    port ← as_int order
    outside (start systemd (profile_name order name))
    wait_for_proxy
        (new_socks5 loader₄.api_config.publicip (basesocks_port + port) kwargs.new_user
          kwargs.new_pass)
        (λ ip. not (ip == ""))
    pure (succeeded (authenticated kwargs.new_user kwargs.new_pass))
