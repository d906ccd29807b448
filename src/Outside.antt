-- ===== src/Outside.antt =====
-- What the program calls and does not implement, as parameters: boto3's EC2 client, paramiko,
-- pyufw, systemd, the shell and the proxy probe. `W` is the state behind them. Each call may
-- change it, and may raise. A client is the region and the credentials that it was made with.
use aws_iprotate_python.Prelude.{ℕ, String, Bool, Option, List}
use aws_iprotate_python.Py.{Exec}

pub record Session : Type 0 where
  pub region : String
  pub access_key : String
  pub secret_key : String

pub record Tag : Type 0 where
  pub key : String
  pub value : String

pub record Instance : Type 0 where
  pub instance_id : String
  pub state : String
  pub public_ip : Option String
  pub tags : List Tag

pub record Reservation : Type 0 where
  pub instances : List Instance

pub record Address : Type 0 where
  pub allocation_id : String
  pub association_id : Option String
  pub tags : Option (List Tag)

pub record IpRange : Type 0 where
  pub cidr_ip : String
  pub description : Option String

pub record Permission : Type 0 where
  pub ip_protocol : String
  pub ip_ranges : List IpRange

pub record SecurityGroup : Type 0 where
  pub group_id : String
  pub group_name : String
  pub ip_permissions : List Permission

pub record KeyPair : Type 0 where
  pub key_name : String
  pub key_fingerprint : String

-- what paramiko and cryptography give of a private key file
pub record KeyFile : Type 0 where
  pub base64 : String
  pub public_der : List ℕ

pub record InstanceType : Type 0 where
  pub instance_type : String
  pub default_cores : ℕ

pub record TypesPage : Type 0 where
  pub instance_types : List InstanceType
  pub next_token : Option String

pub record Region : Type 0 where
  pub region_name : String
  pub opt_in_status : Option String

pub record LaunchRequest : Type 0 where
  pub image_id : String
  pub instance_type : String
  pub key_name : String
  pub user_data : String

-- the operations of boto3 that functions/aws.py calls; an empty list of ids or names asks for all
pub record Ec2 (W : Type 0) : Type 0 where
  pub client : Session → Exec W Unit
  pub resource : Session → Exec W Unit
  pub describe_regions : Session → List String → Exec W (List Region)
  pub describe_images : Session → Exec W (List String)
  pub describe_key_pairs : Session → Exec W (List KeyPair)
  pub import_key_pair : Session → String → String → Exec W String
  pub describe_role_groups : Session → Exec W (List SecurityGroup)
  pub describe_group : Session → String → Exec W (List SecurityGroup)
  pub create_security_group : Session → Exec W SecurityGroup
  pub authorize_security_group_ingress : Session → String → Exec W Unit
  pub describe_instances : Session → List String → Exec W (Option (List Reservation))
  pub create_instances : Session → LaunchRequest → Exec W (List String)
  pub wait_running : Session → String → Exec W Unit
  pub terminate_instances : Session → String → Exec W Unit
  pub describe_instance_types : Session → Option String → Exec W TypesPage
  pub describe_addresses : Session → Exec W (List Address)
  pub allocate_address : Session → String → Exec W String
  pub associate_address : Session → String → String → Exec W Unit
  pub associate_public_ip : Session → String → String → Exec W Unit
  pub disassociate_address : Session → String → Exec W Unit
  pub release_address : Session → String → Exec W Unit
  -- `paramiko.RSAKey.from_private_key_file` and the public half of the key
  pub read_key : String → Exec W KeyFile
  pub md5 : List ℕ → List ℕ
  -- `datetime.datetime.now().strftime("%Y-%m-%d-%H-%M-%S")`
  pub key_date : Exec W String
  -- how many pages of instance types the service sends at most
  pub page_limit : ℕ

-- the arguments of `SocksiPyHandler`
pub record Proxy : Type 0 where
  pub host : String
  pub port : ℕ
  pub user : Option String
  pub pass : Option String

-- the arguments of `SSHClient.connect`
pub record Login : Type 0 where
  pub host : String
  pub username : String
  pub key_path : String

pub record Reply : Type 0 where
  pub output : String
  pub exit_status : ℕ

pub record SystemdUnit : Type 0 where
  pub name : String
  pub sub_state : String

-- The shell and the libraries of functions/connection.py. `ip_network` says whether
-- `ipaddress.ip_network(text, strict=False)` accepts a text; the status of a command is not read.
pub record Net (W : Type 0) : Type 0 where
  pub os_system : String → W → W
  pub ip_network : String → Bool
  pub ufw_rules : Exec W (List (ℕ × String))
  pub ufw_delete : ℕ → Exec W Unit
  -- the page at http://ifconfig.me/ip, fetched through the proxy
  pub fetch_ip : Proxy → Exec W String

-- paramiko's client, for functions/ssh_setup.py; a command gives its output and its exit status
pub record Ssh (W : Type 0) : Type 0 where
  pub connect : Login → Exec W Unit
  pub has_transport : Exec W Bool
  pub exec_command : String → Exec W Reply
  pub put : String → String → Exec W Unit
  pub close : Exec W Unit
  pub sleep : ℕ → W → W

-- systemd, for functions/service.py; a unit is its name and its sub-state
pub record Systemd (W : Type 0) : Type 0 where
  pub service : String → Exec W Unit
  pub restart : String → Exec W Unit
  pub stop : String → Exec W Unit
  pub start : String → Exec W Unit
  pub list_units : Exec W (List SystemdUnit)
