-- ===== src/Tests/Settings.antt =====
-- The theorems on config.conf, the firewall, the remote login and the key, each on a concrete run.
use aws_iprotate_python.Config.Race.{write_is_lost}
use aws_iprotate_python.Prelude.{String, none, some, ◌≡◌, refl, cond, ◌==◌, arith, [], ◌∷◌}
use aws_iprotate_python.Prelude.Dict.{lookup, or_else, IsDistinct}
use aws_iprotate_python.Py.{ok}
use aws_iprotate_python.ConfigParser.{Conf, option}
use aws_iprotate_python.Host.{Host}
use aws_iprotate_python.Config.{
  AwsConfig, ConfigLoader, load_aws_config, load_api_config, write_changes, change_region,
  update_section, load_all_aws_config,
}
use aws_iprotate_python.Config.Defaults.{described, default_of, aws_config, load_aws_config_lem}
use aws_iprotate_python.Config.Orders.{Constructed, new_loader_numbers}
use aws_iprotate_python.Config.Writes.{write_changes_lem, change_region_lem}
use aws_iprotate_python.Tests.Machine.{Rules, api, host, two_profiles, beta, old_alpha, old_loader}

old_alpha-IsDistinct : IsDistinct old_alpha
unfolding lookup
old_alpha-IsDistinct = (refl, (refl, (refl, (refl, tt))))

pub two_profiles-IsDistinct : IsDistinct two_profiles
unfolding lookup
two_profiles-IsDistinct = (refl, (refl, (refl, tt)))

new_loader_numbers_example :
    (loader : ConfigLoader) × (h' : Host Rules) × Constructed host loader h'
unfolding load_api_config lookup option
new_loader_numbers_example = new_loader_numbers host api two_profiles-IsDistinct refl (
  (λ e. absurd (ground arith)),
  ((λ _. ("AK1", "SK1", refl, refl)), ((λ _. ("AK2", "SK2", refl, refl)), tt)),
)

write_changes_example :
    (c : Conf) × (write_changes "alpha" old_loader host ≡ (ok tt, record host { conf = c }))
    × ((s k : String)
        → option c s k
          ≡ cond
              ("alpha" == s)
              (or_else (lookup k old_alpha) (option two_profiles s k))
              (option two_profiles s k))
unfolding lookup
write_changes_example =
    write_changes_lem "alpha" old_loader host old_alpha refl old_alpha-IsDistinct

abbrev alpha_config : AwsConfig
alpha_config = aws_config "alpha" old_alpha "1" "AK1" "SK1"

change_region_example :
    (loader' : ConfigLoader) × (c : Conf) × (change_region "alpha"
        (some "eu-west-1")
        old_loader
        host
      ≡ (ok loader', record host { conf = c }))
    × ((s k : String)
        → option c s k
          ≡ cond
              ("alpha" == s)
              (cond
                ("region" == k)
                (some "eu-west-1")
                (or_else (lookup k old_alpha) (or_else (default_of k) (option two_profiles s k))))
              (option two_profiles s k))
unfolding lookup
change_region_example =
    change_region_lem "alpha" old_loader host "eu-west-1" old_alpha alpha_config refl
      old_alpha-IsDistinct refl

load_aws_config_example :
    ((load_aws_config "beta" two_profiles).0 ≡ described "beta" beta)
    × ((s k : String)
        → option (load_aws_config "beta" two_profiles).1 s k
          ≡ or_else (option two_profiles s k) (cond ("beta" == s) (default_of k) none))
unfolding lookup
load_aws_config_example = load_aws_config_lem "beta" two_profiles refl

write_is_lost_example :
    ((write_changes "alpha" old_loader host).1.conf ≡ update_section "alpha" old_alpha two_profiles)
    × (load_all_aws_config two_profiles (write_changes "alpha" old_loader host).1
        ≡ load_all_aws_config two_profiles host)
unfolding lookup
write_is_lost_example =
    write_is_lost "alpha" old_loader host old_alpha "alpha" ("beta" ∷ []) refl refl
