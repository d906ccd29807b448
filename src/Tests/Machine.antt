-- ===== src/Tests/Machine.antt =====
-- A small machine: config.conf with two profiles, a firewall that is a list of rules, and services
-- that answer at once.
use aws_iprotate_python.Prelude.{zero, suc, String, true, none, some, List, [], ◌∷◌, refl}
use aws_iprotate_python.Py.{raised, index_error, ok, err, Exec, pure, raise}
use aws_iprotate_python.ConfigParser.{Section, Conf}
use aws_iprotate_python.Host.{Host}
use aws_iprotate_python.Config.{AwsConfig, ApiConfig, ConfigLoader}
use aws_iprotate_python.Config.Defaults.{aws_config}
use aws_iprotate_python.Connection.Rules.{IsUfw, remove_at, numbered}
use aws_iprotate_python.Outside.{Ec2, Net, Ssh, Systemd}
use aws_iprotate_python.Run.{World}

abbrev pub api_section : Section
api_section =
    ("apikey", "master")
    ∷ ("port", "5000")
    ∷ ("interfacewgprivatekey", "a")
    ∷ ("interfacewgpublickey", "b")
    ∷ ("peerwgpublickey", "c")
    ∷ ("peerwgprivatekey", "d")
    ∷ ("publicip", "10.0.0.1")
    ∷ ("sshkeypath", "key.pem")
    ∷ []

abbrev pub api : ApiConfig
api = record {
  apikey = "master";
  port = "5000";
  interface_wg_private_key = "a";
  interface_wg_public_key = "b";
  peer_wg_public_key = "c";
  peer_wg_private_key = "d";
  publicip = "10.0.0.1";
  ssh_key_path = "key.pem";
}

-- `beta` was the first once, and has the number that it had then
abbrev pub alpha : Section
alpha = ("accesskey", "AK1") ∷ ("secretkey", "SK1") ∷ ("instanceid", "i-1") ∷ []

abbrev pub beta : Section
beta = ("accesskey", "AK2") ∷ ("secretkey", "SK2") ∷ ("order", "1") ∷ ("apikey", "own") ∷ []

abbrev pub two_profiles : Conf
two_profiles = ("api", api_section) ∷ ("alpha", alpha) ∷ ("beta", beta) ∷ []

-- the rules of the firewall
abbrev pub Rules : Type 0
Rules = List String

abbrev pub done : Exec Rules (Unit {0})
done = pure tt

abbrev pub net : Net Rules
net = record {
  os_system = λ command w. command ∷ w;
  ip_network = λ s. true;
  ufw_rules = λ w. (ok (numbered 1 w), w);
  ufw_delete = λ n w. elim n [ zero ↦ (err index_error, w) | suc k ↦ (ok tt, remove_at k w) ];
  fetch_ip = λ p. pure "192.0.2.7";
}

abbrev pub net-IsUfw : IsUfw net (λ w. w)
net-IsUfw = record { status = λ w. refl; delete = λ n w. refl; deleted = λ n w. refl }

-- a remote machine that lets nobody in while it has rules: each pause takes one away
abbrev pub ssh : Ssh Rules
ssh = record {
  connect = λ login w. elim w [ [] ↦ (ok tt, []) | r ∷ rs ↦ (err (raised "refused"), r ∷ rs) ];
  has_transport = pure true;
  exec_command = λ c. pure (record { output = ""; exit_status = 0 });
  put = λ a b. done;
  close = done;
  sleep = λ n w. elim w [ [] ↦ [] | _ ∷ rs ↦ rs ];
}

-- an account in which nothing is kept
abbrev pub blank_ec2 : {W : Type 0} → Ec2 W
blank_ec2 = record {
  client = λ s. pure tt;
  resource = λ s. pure tt;
  describe_regions = λ s l. pure [];
  describe_images = λ s. pure ("ami" ∷ []);
  describe_key_pairs = λ s. pure [];
  import_key_pair = λ s a b. pure a;
  describe_role_groups = λ s. pure [];
  describe_group = λ s i. pure [];
  create_security_group = λ s. raise index_error;
  authorize_security_group_ingress = λ s i. pure tt;
  describe_instances = λ s l. pure (some []);
  create_instances = λ s r. pure ("i-2" ∷ []);
  wait_running = λ s i. pure tt;
  terminate_instances = λ s i. pure tt;
  describe_instance_types = λ s t. pure (record { instance_types = []; next_token = none });
  describe_addresses = λ s. pure [];
  allocate_address = λ s i. pure "eip";
  associate_address = λ s i a. pure tt;
  associate_public_ip = λ s i a. pure tt;
  disassociate_address = λ s a. pure tt;
  release_address = λ s a. pure tt;
  read_key = λ p. raise index_error;
  md5 = λ b. b;
  key_date = pure "2024";
  page_limit = 3;
}

abbrev pub ec2 : Ec2 Rules
ec2 = blank_ec2

abbrev pub systemd : Systemd Rules
systemd = record {
  service = λ n. done;
  restart = λ n. done;
  stop = λ n. done;
  start = λ n. done;
  list_units = pure [];
}

abbrev pub world : World Rules
world = record { ec2 = ec2; net = net; ssh = ssh; systemd = systemd; now = λ w. ("2024-01-01", w) }

abbrev pub rules : Rules
rules = "iprotate_1 ALLOW" ∷ "OpenSSH" ∷ "iprotate_1" ∷ "iprotate_12" ∷ []

abbrev pub host : Host Rules
host = record { conf = two_profiles; files = []; world = rules }

-- a loader that read the file before `beta` was there and `alpha` had an instance
abbrev pub old_alpha : Section
old_alpha =
    ("accesskey", "AK1") ∷ ("secretkey", "SK1") ∷ ("order", "1") ∷ ("instanceid", "i-0") ∷ []

abbrev pub old_loader : ConfigLoader
old_loader = record {
  config = ("api", api_section) ∷ ("alpha", old_alpha) ∷ [];
  api_config = api;
  all_aws_configs = [];
}

abbrev pub alpha_config : AwsConfig
alpha_config = aws_config "alpha" old_alpha "1" "AK1" "SK1"

-- the sections as `ConfigLoader()` leaves them
abbrev pub alpha_numbered : Section
alpha_numbered =
    ("accesskey", "AK1")
    ∷ ("secretkey", "SK1")
    ∷ ("instanceid", "i-1")
    ∷ ("order", "1")
    ∷ ("user", "")
    ∷ ("pass", "")
    ∷ ("apikey", "")
    ∷ ("whitelist", "")
    ∷ ("region", "us-east-1")
    ∷ []

abbrev pub beta_numbered : Section
beta_numbered =
    ("accesskey", "AK2")
    ∷ ("secretkey", "SK2")
    ∷ ("order", "2")
    ∷ ("apikey", "own")
    ∷ ("user", "")
    ∷ ("pass", "")
    ∷ ("whitelist", "")
    ∷ ("region", "us-east-1")
    ∷ ("instanceid", "")
    ∷ []

abbrev pub numbered_loader : ConfigLoader
numbered_loader = record {
  config = ("api", api_section) ∷ ("alpha", alpha_numbered) ∷ ("beta", beta_numbered) ∷ [];
  api_config = api;
  all_aws_configs =
      aws_config "alpha" alpha_numbered "1" "AK1" "SK1"
      ∷ aws_config "beta" beta_numbered "2" "AK2" "SK2"
      ∷ [];
}
