-- ===== src/Tests/Tunnels.antt =====
-- The tasks that move a profile's tunnel, on a machine where each step succeeds.
use aws_iprotate_python.Aws.Launch.Saved.{Launched, launch_instance_lem}
use aws_iprotate_python.Tests.Account.{logged_in}
use aws_iprotate_python.Run.Whitelist.{AllOrNothing, change_whitelist_lem, IsPlain}
use aws_iprotate_python.Aws.Fingerprint.{format_fingerprint}
use aws_iprotate_python.Aws.Launch.{
  terminate_instance, launch_instance, find_reusable, launch_new, create_security_group,
  any_allows_all, get_instance_type_free_tier, more_pages, one_core, set_keypair, describe_images,
  find_key_pair, create_instance, start_instance, keep_instance,
}
use aws_iprotate_python.Connection.{
  new_firewall, set_up_firewall, delete_rules, apply_whitelist, apply_entries, get_external_ip,
  delete_matching, rule_matches, allow_address,
}
use aws_iprotate_python.Prelude.Text.{int, str, strip, ends_with, split}
use aws_iprotate_python.Profile.{
  generate_profile_config, generate_peer_config, refresh_firewall, write_peer_config,
  generate_3proxy_config, generate_shadowsocks_config,
}
use aws_iprotate_python.Aws.Rotate.{get_new_ip}
use aws_iprotate_python.Aws.Client.{
  login, connect, get_instance_address, disassociate_and_release_ip, allocate_and_associate_ip,
}
use aws_iprotate_python.ConfigParser.{
  set, has_option, get, get_option, option, set_value, section, AllDistinct,
}
use aws_iprotate_python.Config.{
  new_loader, load_configs, number_config, reset_aws_config_order, reorder_aws_config,
  load_aws_config, default_option, read_aws_config, load_api_config, set_loader_value,
  write_changes, update_section,
}
use aws_iprotate_python.Aws.{new_aws, save_instance_id, reload_aws_config, Self}
use aws_iprotate_python.Prelude.{none, some, [], ◌∷◌, ◌≡◌, refl, subst, some_injective, String}
use aws_iprotate_python.Prelude.Dict.{lookup, insert, merge}
use aws_iprotate_python.Py.{ok, pure, for_each, dict_hasattr}
use aws_iprotate_python.Outside.{Instance, SecurityGroup}
use aws_iprotate_python.Run.{
  World, Kwargs, RunTask, change_ip, rotated, succeeded, moved, whitelisted,
}
use aws_iprotate_python.Run
use aws_iprotate_python.Config
use aws_iprotate_python.SshSetup
use aws_iprotate_python.Service
use aws_iprotate_python.Run.Endpoint.{Answered, Rotated, WithKeysOf, change_ip_lem}
use aws_iprotate_python.Replies.{no_kwargs}
use aws_iprotate_python.Tests.Machine.{
  Rules, blank_ec2, ssh, systemd, net, host, numbered_loader, net-IsUfw, world,
}

abbrev running : Instance
running = record { instance_id = "i-1"; state = "running"; public_ip = some "192.0.2.7"; tags = [] }

abbrev group : SecurityGroup
group = record { group_id = "sg-1"; group_name = "iprotate"; ip_permissions = [] }

-- an account with one instance
abbrev ready : World Rules
ready = record {
  ec2 = record blank_ec2 {
    describe_regions = λ s l.
        pure
          (record { region_name = "us-east-1"; opt_in_status = some "opt-in-not-required" } ∷ []);
    read_key = λ p. pure (record { base64 = "AAAA"; public_der = 48 ∷ [] });
    describe_role_groups = λ s. pure (group ∷ []);
    describe_group = λ s i. pure (group ∷ []);
    describe_instance_types = λ s n. pure (record {
      instance_types = record { instance_type = "t3.micro"; default_cores = 1 } ∷ [];
      next_token = none;
    });
    describe_instances = λ s l. pure (some (record { instances = running ∷ [] } ∷ []));
  };
  net = record net { ufw_rules = pure [] };
  ssh = record ssh { connect = λ login. pure tt };
  systemd = systemd;
  now = λ w. ("2024-01-01", w);
}

abbrev mover : RunTask
mover = record { config = numbered_loader; key_path = "key.pem" }

abbrev to_london : Kwargs
to_london = record (no_kwargs "alpha" "change_region") { new_region = some "eu-west-2" }

change_ip_lem_example :
    Answered
      (WithKeysOf host.conf (λ api. Rotated api "alpha"))
      (change_ip ready mover (no_kwargs "alpha" "change_ip") host)
change_ip_lem_example = change_ip_lem ready mover (no_kwargs "alpha" "change_ip") host

change_ip_succeeds :
    (change_ip ready mover (no_kwargs "alpha" "change_ip") host).0
    ≡ ok (succeeded (rotated (record { old_ip = some "192.0.2.7"; new_ip = "192.0.2.7" })))
unfolding change_ip Run.answering new_aws new_loader lookup load_configs number_config
    reset_aws_config_order set reorder_aws_config insert load_aws_config default_option has_option
    read_aws_config login connect get_new_ip get_instance_address disassociate_and_release_ip
    for_each allocate_and_associate_ip Run.settle_ip Run.write_profile generate_profile_config int
    str generate_peer_config refresh_firewall new_firewall set_up_firewall delete_rules
    apply_whitelist apply_entries write_peer_config Run.serve_ip Run.set_up_instance
    SshSetup.host_login SshSetup.connect SshSetup.attempts SshSetup.host_setup
    SshSetup.is_package_installed strip SshSetup.install_package SshSetup.allow_ipv4_forwarding
    SshSetup.copy_to_host SshSetup.is_file_exists SshSetup.execute_script SshSetup.enable_service
    SshSetup.restart_service Service.new_service Service.stop Service.restart_iprotate_service
    Run.prove_proxy Run.probe get_external_ip generate_3proxy_config generate_shadowsocks_config
    load_api_config get get_option option
change_ip_succeeds = refl

change_region_succeeds :
    (Run.change_region ready mover to_london host).0
    ≡ ok (succeeded (moved "us-east-1" "eu-west-2" "192.0.2.7"))
unfolding Run.change_region Run.move_region Config.change_region set_loader_value set_value
    write_changes section update_section merge terminate_instance launch_instance find_reusable
    launch_new create_security_group any_allows_all get_instance_type_free_tier more_pages one_core
    set_keypair find_key_pair format_fingerprint describe_images save_instance_id reload_aws_config
    Run.settle_region Run.serve_region Run.answering new_aws new_loader lookup load_configs
    number_config reset_aws_config_order set reorder_aws_config insert load_aws_config
    default_option has_option read_aws_config login connect get_instance_address for_each
    Run.write_profile generate_profile_config int str generate_peer_config refresh_firewall
    new_firewall set_up_firewall delete_rules apply_whitelist apply_entries write_peer_config
    Run.set_up_instance SshSetup.host_login SshSetup.connect SshSetup.attempts SshSetup.host_setup
    SshSetup.is_package_installed strip SshSetup.install_package SshSetup.allow_ipv4_forwarding
    SshSetup.copy_to_host SshSetup.is_file_exists SshSetup.execute_script SshSetup.enable_service
    SshSetup.restart_service Service.new_service Service.restart_iprotate_service Run.prove_proxy
    Run.probe get_external_ip generate_3proxy_config generate_shadowsocks_config load_api_config get
    get_option option dict_hasattr create_instance start_instance keep_instance
change_region_succeeds = refl

abbrev allow_office : Kwargs
allow_office = record (no_kwargs "alpha" "change_whitelist") { new_whitelist = some "10.0.0.0/8" }

allow_office-IsPlain : (w : String) → allow_office.new_whitelist ≡ some w → IsPlain w
unfolding split
allow_office-IsPlain w e = subst IsPlain (some_injective e) (refl, refl, refl)

change_whitelist_lem_example :
    AllOrNothing world
      (λ w. w)
      net-IsUfw
      allow_office
      host.world
      (Run.change_whitelist world allow_office host)
unfolding lookup
change_whitelist_lem_example =
    change_whitelist_lem world (λ w. w) net-IsUfw allow_office host.world host allow_office-IsPlain
      refl
      (
        (refl, (refl, (refl, (refl, (refl, (refl, (refl, (refl, tt)))))))),
        ((refl, (refl, (refl, tt))), ((refl, (refl, (refl, (refl, tt)))), tt)),
      )

change_whitelist_succeeds :
    (Run.change_whitelist world allow_office host).0
    ≡ ok (succeeded (whitelisted (some "10.0.0.0/8")))
unfolding Run.change_whitelist Run.set_whitelist set_loader_value set_value write_changes section
    update_section merge Run.answering new_loader lookup load_configs number_config
    reset_aws_config_order set reorder_aws_config insert load_aws_config default_option has_option
    read_aws_config for_each int str new_firewall set_up_firewall delete_rules delete_matching
    rule_matches ends_with apply_whitelist apply_entries allow_address strip split load_api_config
    get get_option option
change_whitelist_succeeds = refl

abbrev launcher : Self Rules
launcher = record { host = host; aws = logged_in }

numbered-AllDistinct : AllDistinct numbered_loader.config
unfolding lookup
numbered-AllDistinct = (
  (refl, (refl, (refl, (refl, (refl, (refl, (refl, (refl, tt)))))))),
  (
    (refl, (refl, (refl, (refl, (refl, (refl, (refl, (refl, (refl, tt))))))))),
    ((refl, (refl, (refl, (refl, (refl, (refl, (refl, (refl, (refl, tt))))))))), tt),
  ),
)

launch_instance_lem_example :
    Launched ready.ec2 launcher numbered-AllDistinct (launch_instance ready.ec2 launcher)
launch_instance_lem_example = launch_instance_lem ready.ec2 launcher numbered-AllDistinct
