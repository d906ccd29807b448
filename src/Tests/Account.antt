-- ===== src/Tests/Account.antt =====
-- The theorems on the firewall, the remote login, the key and the account, each on a concrete run.
use aws_iprotate_python.Prelude.{
  List, inl, String, true, false, Option, none, some, [], ◌∷◌, ◌≡◌, ◌⊎◌, refl, arith,
}
use aws_iprotate_python.Py.{Error, Result, ok, err, raised, index_error}
use aws_iprotate_python.Outside.{Address, Ec2, TypesPage, InstanceType, Reservation, Login}
use aws_iprotate_python.Connection.{Firewall, delete_rules, apply_whitelist}
use aws_iprotate_python.Connection.Rules.{
  keep, run_all, commands, delete_rules_lem, apply_whitelist_lem,
}
use aws_iprotate_python.SshSetup.{connect}
use aws_iprotate_python.SshSetup.Retry.{connect_gives_up, connect_stops}
use aws_iprotate_python.Aws.Fingerprint.{
  format_fingerprint, read_fingerprint, read-format_fingerprint,
}
use aws_iprotate_python.Aws.Launch.{find_reusable, one_core, get_instance_type_free_tier}
use aws_iprotate_python.Aws.{Aws, Self}
use aws_iprotate_python.Aws.Addresses.{Passes, disassociate_and_release_ip-Passes}
use aws_iprotate_python.Aws.Client.{disassociate_and_release_ip, session_of}
use aws_iprotate_python.Aws.Pages.{get_instance_type_free_tier_lem}
use aws_iprotate_python.Aws.Reuse.{find_reusable-none}
use aws_iprotate_python.Tests.Machine.{
  alpha_config, numbered_loader, ec2, Rules, host, net, net-IsUfw, rules, ssh,
}

abbrev firewall : Firewall
firewall = record {
  config_name = "alpha";
  aws_config = alpha_config;
  order = 1;
  app_name = "iprotate_1";
  wgport = 40001;
  socks5port = 50001;
  httpport = 60001;
  ssport = 30001;
  whitelist = some ("10.0.0.0/8" ∷ " 192.0.2.7" ∷ []);
}

delete_rules_example :
    ((delete_rules net firewall rules).0 ≡ ok tt)
    × ((delete_rules net firewall rules).1 ≡ keep "iprotate_1" rules)
delete_rules_example = delete_rules_lem net (λ w. w) net-IsUfw firewall rules

apply_whitelist_example :
    apply_whitelist net firewall []
    ≡ (ok tt, run_all net (commands net "iprotate_1" firewall.whitelist) [])
apply_whitelist_example = apply_whitelist_lem net firewall []

abbrev login_alpha : Login
login_alpha = record { host = "192.0.2.7"; username = "ubuntu"; key_path = "key.pem" }

refused : (e : Error) × (◌≡◌ {A = Result (Unit {0})} (err (raised "refused")) (err e))
refused = (raised "refused", refl)

connect_gives_up_example : connect ssh login_alpha 3 rules ≡ (ok false, "iprotate_12" ∷ [])
connect_gives_up_example =
    connect_gives_up ssh login_alpha 2 rules (refused, (refused, (refused, tt)))

connect_stops_example : connect ssh login_alpha 9 rules ≡ (ok true, [])
connect_stops_example =
    connect_stops ssh login_alpha 4 8 rules (omega arith)
      (refused, (refused, (refused, (refused, tt)))) refl

read-format_fingerprint_example :
    read_fingerprint (format_fingerprint (10 ∷ 255 ∷ 3 ∷ [])) ≡ 10 ∷ 255 ∷ 3 ∷ []
read-format_fingerprint_example =
    read-format_fingerprint (10 ∷ 255 ∷ 3 ∷ [])
      ((omega arith), ((omega arith), ((omega arith), tt)))

abbrev tagged : Reservation
tagged = record {
  instances =
      record {
        instance_id = "i-1";
        state = "running";
        tags = record { key = "role"; value = "iprotate" } ∷ [];
        public_ip = none;
      }
      ∷ [];
}

find_reusable-none_example :
    (find_reusable (tagged ∷ []) tt ≡ (ok none, tt))
    ⊎ (find_reusable (tagged ∷ []) tt ≡ (err index_error, tt))
find_reusable-none_example = find_reusable-none (tagged ∷ []) tt

-- a service that sends two pages, the second behind the token "more"
abbrev micro : InstanceType
micro = record { instance_type = "t2.micro"; default_cores = 1 }

abbrev small : InstanceType
small = record { instance_type = "t3.small"; default_cores = 2 }

abbrev pages : Option String → TypesPage
pages none = record { instance_types = small ∷ []; next_token = some "more" }
pages (some _) = record { instance_types = micro ∷ []; next_token = none }

abbrev paged_ec2 : Ec2 Rules
paged_ec2 = record ec2 { describe_instance_types = λ s t w. (ok (pages t), w) }

abbrev pub logged_in : Aws
logged_in = record {
  config = numbered_loader;
  config_name = "alpha";
  aws_config = alpha_config;
  ec2 = some (session_of alpha_config);
  resource = some (session_of alpha_config);
  key_pair_name = none;
  security_group = none;
}

abbrev self : Self Rules
self = record { host = host; aws = logged_in }

get_instance_type_free_tier_lem_example :
    get_instance_type_free_tier paged_ec2 self ≡ (ok (some micro), self)
unfolding one_core
get_instance_type_free_tier_lem_example =
    get_instance_type_free_tier_lem paged_ec2 (session_of alpha_config) pages
      (record { asked = λ token w. refl }) self refl (pages (some "more") ∷ []) (omega arith)
      ("more", refl, refl, refl, inl refl)

-- two addresses, one of them with the tag of the instance, and a service that refuses every release
abbrev pub addresses : List Address
addresses =
    record { allocation_id = "eip-1"; association_id = none; tags = none }
    ∷ record {
      allocation_id = "eip-2";
      association_id = some "assoc-2";
      tags = some (record { key = "instance"; value = "i-0" } ∷ []);
    }
    ∷ []

abbrev refusing_ec2 : Ec2 Rules
refusing_ec2 = record ec2 {
  describe_addresses = λ s w. (ok addresses, w);
  release_address = λ s a w. (err (raised "not authorised"), w);
}

disassociate_and_release_ip_example : Passes (disassociate_and_release_ip refusing_ec2) self
disassociate_and_release_ip_example =
    disassociate_and_release_ip-Passes refusing_ec2 self {session = session_of alpha_config}
      {addresses = addresses} refl refl
