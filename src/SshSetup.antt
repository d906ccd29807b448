-- ===== src/SshSetup.antt =====
-- `class SSHSetup` and `class SetupHost` of functions/ssh_setup.py. The output of a command that
-- the source reads and throws away is not kept; the calls on the remote machine are all there.
pub mod Retry
use aws_iprotate_python.Prelude.{
  ℕ, zero, suc, String, ◌<>◌, Bool, true, false, Option, none, some, List, [], ◌∷◌, ◌==◌, ◌=ℕ◌, not,
  if◌then◌else◌,
}
use aws_iprotate_python.Prelude.Text.{split, strip}
use aws_iprotate_python.Py.{
  Result, ok, err, attribute_error, Exec, pure, raise, modify, ◌>>=◌, ◌>>◌,
}
use aws_iprotate_python.Outside.{Login, Reply, Ssh}

-- `s.split("/")[-1]`
abbrev pub last_part : List String → String
last_part [] = ""
last_part (x ∷ []) = x
last_part (x ∷ y ∷ xs) = last_part (y ∷ xs)

module _ {W : Type 0} (ssh : Ssh W) where
  abbrev pub output_of : String → Exec W String
  output_of command = do reply ← ssh.exec_command command; pure (strip reply.output)

  abbrev pub run_command : String → Exec W Unit
  run_command command = do ssh.exec_command command; pure tt

  -- The loop of `connect` with `left` rounds to go: a round that fails sleeps, and the last one
  -- that fails gives up. What it returns says whether it ended by `break`.
  unfoldable pub attempts : Login → ℕ → Exec W Bool
  attempts login zero w = (ok true, w)
  attempts login (suc left) w =
      let (r, w') = ssh.connect login w in
      elim r [
        | ok _ ↦ (ok true, w')
        | err e ↦ elim left [
          | zero ↦ (ok false, ssh.sleep 1 w')
          | suc _ ↦ attempts login left (ssh.sleep 1 w')
        ]
      ]

  unfoldable pub connect : Login → ℕ → Exec W Bool
  connect login tries = do
    broke ← attempts login tries
    if broke then ssh.has_transport else pure false

  unfoldable pub is_file_exists : String → Exec W Bool
  is_file_exists remote_path = do
    output ← output_of (
        "sudo test -f " <> remote_path
        <> " && echo \"File exists\" || echo \"File does not exist\"")
    pure (output == "File exists")

  unfoldable pub is_package_installed : String → Exec W Bool
  is_package_installed package_name = do
    output ← output_of ("sudo dpkg -l | grep " <> package_name)
    pure (not (output == ""))

  unfoldable pub install_package : String → Exec W Bool
  install_package package_name = do
    installed ← is_package_installed package_name
    if installed then pure true else do
      reply ← ssh.exec_command ("sudo apt update -y && sudo apt install " <> package_name <> " -y")
      pure (reply.exit_status =ℕ 0)

  unfoldable pub remove_package : String → Exec W Bool
  remove_package package_name = do
    run_command (
        "sudo apt remove " <> package_name <> " -y && sudo apt autoremove -y && sudo apt purge "
        <> package_name <> " -y")
    installed ← is_package_installed package_name
    pure (not installed)

  unfoldable pub disable_service : String → Exec W String
  disable_service service =
      output_of ("sudo systemctl stop " <> service <> " && sudo systemctl disable " <> service)

  unfoldable pub enable_service : String → Exec W String
  enable_service service =
      output_of ("sudo systemctl enable " <> service <> " && sudo systemctl start " <> service)

  unfoldable pub stop_service : String → Exec W String
  stop_service service = output_of ("sudo systemctl stop " <> service)

  unfoldable pub start_service : String → Exec W String
  start_service service = output_of ("sudo systemctl start " <> service)

  unfoldable pub restart_service : String → Exec W String
  restart_service service = output_of ("sudo systemctl restart " <> service)

  -- `exec_command` returns a tuple, and a tuple has no `read`
  unfoldable pub ufw_allow_all : Exec W Unit
  ufw_allow_all = do
    ssh.exec_command "sudo ufw default allow incoming"
    raise (attribute_error "'tuple' object has no attribute 'read'")

  unfoldable pub allow_ipv4_forwarding : Exec W Unit
  allow_ipv4_forwarding =
      run_command
        "echo \"net.ipv4.ip_forward = 1\" | sudo tee /etc/sysctl.d/99-sysctl.conf && sudo sysctl -p"

  unfoldable pub read_file : String → Exec W String
  read_file remote_path = output_of ("sudo cat " <> remote_path)

  unfoldable pub copy_to_host : String → String → Exec W Bool
  copy_to_host local_path remote_path = do
    let temp_path = "/tmp/" <> last_part (split b'/' local_path)
    ssh.put local_path temp_path
    run_command ("sudo mv " <> temp_path <> " " <> remote_path)
    is_file_exists remote_path

  unfoldable pub execute_script : String → Exec W String
  execute_script script_path = output_of ("sudo bash " <> script_path)

  abbrev pub change_eth_script_path : String
  change_eth_script_path = "/opt/cloud-iprotate/change_eth.sh"

  -- `SetupHost.login`: what `connect` returns is not looked at
  unfoldable pub host_login : Login → Exec W Unit
  host_login login = do connect login 10; pure tt

  drop_upgrades : Exec W Unit
  drop_upgrades = do
    there ← is_package_installed "unattended-upgrades"
    if there then (do remove_package "unattended-upgrades"; pure tt) else pure tt

  add_wireguard : Exec W Unit
  add_wireguard = do
    there ← is_package_installed "wireguard"
    if there then pure tt else do install_package "wireguard"; pure tt

  -- `SetupHost.setup`, after a login
  unfoldable pub host_setup : String → String → Exec W Unit
  unfolding drop_upgrades add_wireguard
  host_setup local_path remote_path = do
    drop_upgrades
    add_wireguard
    allow_ipv4_forwarding
    copy_to_host local_path remote_path
    copy_to_host change_eth_script_path "/tmp/change_eth.sh"
    execute_script "/tmp/change_eth.sh"
    enable_service "wg-quick@wg0"
    restart_service "wg-quick@wg0"
    ssh.close

  -- `SetupHost.close`, after a login: it closes a client that it has just made, without a transport
  unfoldable pub host_close : Exec W Unit
  host_close = ssh.close
