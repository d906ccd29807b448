-- ===== src/Tests/Files.antt =====
-- The theorems on the generated files, the services and the firewall's rules, each on a concrete run.
use aws_iprotate_python.Prelude.{
  ℕ, ◌<◌, ◌<>◌, ◌≡◌, ◌↔◌, refl, true, sym, ap, subst, ◌∙◌, some, [], arith,
}
use mathlib.Core.Option
use aws_iprotate_python.Prelude.Dict.{lookup, insert, merge}
use aws_iprotate_python.Prelude.Text.{str, int}
use aws_iprotate_python.Prelude.Text.Split.{lacks}
use aws_iprotate_python.Py.{ok, ◌>>◌}
use aws_iprotate_python.ConfigParser.{option}
use aws_iprotate_python.Config.{
  AwsConfig, load_api_config, new_loader, load_configs, number_config, reset_aws_config_order,
  reorder_aws_config, load_aws_config, default_option, read_aws_config,
}
use aws_iprotate_python.Config.Defaults.{aws_config}
use aws_iprotate_python.Config.Again.{loaded}
use aws_iprotate_python.Config.Orders.{new_loader_numbers, Constructed}
use aws_iprotate_python.Connection.{app_of, rule_matches}
use aws_iprotate_python.Connection.Exact.{rule_matches_iff}
use aws_iprotate_python.Profile.{generate_profile_config, wg_config, peer_config}
use aws_iprotate_python.Profile.Contents.{expected_files, generate_profile_config_lem}
use aws_iprotate_python.Profile.Ports.{http, ports_distinct}
use aws_iprotate_python.Profile.Tunnel.{tunnel_ends}
use aws_iprotate_python.Service.{unit_of, reset_one}
use aws_iprotate_python.Service.Names.{reset_one_lem}
use aws_iprotate_python.Tests.Machine.{
  Rules, api, host, old_alpha, old_loader, alpha_config, systemd, rules, numbered_loader,
  beta_numbered,
}
use aws_iprotate_python.Tests.Settings.{two_profiles-IsDistinct}
use aws_iprotate_python.Host.{Host}
use aws_iprotate_python.ConfigParser.{set, has_option}
use aws_iprotate_python.Py.{ok_injective}

generate_profile_config_lem_example :
    generate_profile_config "alpha" "192.0.2.7" old_loader host ≡ (
      ok (loaded "alpha" old_alpha old_loader),
      record host { files = merge [] (expected_files api alpha_config 1 "192.0.2.7") },
    )
unfolding lookup int
generate_profile_config_lem_example =
    generate_profile_config_lem "alpha" old_loader old_alpha alpha_config 1 refl refl "192.0.2.7"
      host refl

computed : (new_loader host).0 ≡ ok numbered_loader
unfolding lookup new_loader load_configs number_config reset_aws_config_order set reorder_aws_config
    insert load_aws_config default_option has_option read_aws_config str
computed = refl

constructed : (h' : Host Rules) × Constructed host numbered_loader h'
unfolding load_api_config lookup option
constructed =
    let (loader, h', made) = new_loader_numbers host api two_profiles-IsDistinct refl (
      (λ e. absurd (ground arith)),
      ((λ _. ("AK1", "SK1", refl, refl)), ((λ _. ("AK2", "SK2", refl, refl)), tt)),
    ) in
    (
      h',
      subst (λ l. Constructed host l h')
          (ok_injective (sym (ap (λ r. r.0) made.returns) ∙ computed)) made,
    )

abbrev beta_config : AwsConfig
beta_config = aws_config "beta" beta_numbered "2" "AK2" "SK2"

ports_distinct_example : (60002 < 65536) × (http ≡ http) × (◌≡◌ {A = ℕ} 1 1)
unfolding int
ports_distinct_example =
    ports_distinct 1 1 beta_config beta_config http http 60002 constructed.1 (omega arith) refl refl
      refl refl

tunnel_ends_example :
    let here = option (wg_config api "1" "alpha" 40001 "192.0.2.7") in
    let there = option (peer_config api "1") in
    (here "Interface" "privatekey" ≡ some "a")
    × (there "Peer" "publickey" ≡ some "b")
    × (there "Interface" "privatekey" ≡ some "d")
    × (here "Peer" "publickey" ≡ some "c")
    × (here "Interface" "address" ≡ there "Peer" "allowedips")
    × (there "Interface" "address" ≡ here "Peer" "allowedips")
    × (here "Peer" "endpoint"
        ≡ Option.map (λ p. "192.0.2.7" <> (":" <> p)) (there "Interface" "listenport"))
tunnel_ends_example = tunnel_ends api "1" "alpha" 40001 "192.0.2.7"

reset_one_lem_example :
    reset_one systemd (unit_of ("iprotate_1_alpha" <> ("." <> "service"))) rules
    ≡ (do systemd.service (unit_of "iprotate_1_alpha"); systemd.stop (unit_of "iprotate_1_alpha"))
        rules
unfolding lacks
reset_one_lem_example = reset_one_lem systemd "iprotate_1_alpha" "service" rules refl refl

rule_matches_iff_example :
    (rule_matches (app_of 1) ("Anywhere" <> (" " <> app_of 11)) ≡ true) ↔ (◌≡◌ {A = ℕ} 11 1)
rule_matches_iff_example = rule_matches_iff 11 1 "Anywhere"
