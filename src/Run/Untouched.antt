-- ===== src/Run/Untouched.antt =====
-- `change_whitelist` of functions/run.py where a statement of it raises: the firewall is as it was.
use aws_iprotate_python.Prelude.{String, ◌≡◌, ap, ◌∙◌, arith, List, Option}
use aws_iprotate_python.Py.{ok}
use aws_iprotate_python.Py.Ensures.{Leaves, Leaves-bind, Leaves-last}
use aws_iprotate_python.ConfigParser.{section, as_read}
use aws_iprotate_python.Host.{Host}
use aws_iprotate_python.Outside.{Net}
use aws_iprotate_python.Config.{
  AwsConfig, ConfigLoader, new_loader, on_parser, load_api_config, load_aws_config,
  set_loader_value, write_changes,
}
use aws_iprotate_python.Config.Frame.{new_loader-SameRest}
use aws_iprotate_python.Connection.{Firewall, set_up_firewall, new_firewall, delete_rules}
use aws_iprotate_python.Connection.Rules.{
  IsUfw, delete_rules_lem, apply_whitelist_lem, commands, run_all,
}
use aws_iprotate_python.Run.{World, succeeded, whitelisted, Kwargs, set_whitelist, renew_firewall}

module _ {W : Type 0} (name : String) where
  set_loader_value_world :
      (value : Option String) (loader : ConfigLoader) (h : Host W)
      → (set_loader_value name "whitelist" value loader h).1.world ≡ h.world
  unfolding set_loader_value
  set_loader_value_world value loader h = ground arith

  write_changes_world :
      (loader : ConfigLoader) (h : Host W) → (write_changes name loader h).1.world ≡ h.world
  unfolding write_changes section
  write_changes_world loader h = ground arith

module _ {W : Type 0} (net : Net W) (name : String) (v : W) where
  -- the outside world is `v`
  abbrev pub IsAt : Host W → Type 0
  IsAt h = h.world ≡ v

  set_up_firewall-Leaves :
      (aws : AwsConfig) (h : Host W) → IsAt h → Leaves IsAt (set_up_firewall net name aws h)
  unfolding set_up_firewall
  set_up_firewall-Leaves aws h i = record { at = λ e r. ground arith }

  pub new_firewall-Leaves : (h : Host W) → IsAt h → Leaves IsAt (new_firewall net name h)
  unfolding new_firewall
  new_firewall-Leaves h i =
      Leaves-bind new_loader _ h ((new_loader-SameRest h).world ∙ i) λ loader h₁ i₁.
        Leaves-bind (on_parser load_api_config loader) _ h₁ (ground arith) λ r h₂ i₂.
          Leaves-bind (on_parser (load_aws_config name) r.1) _ h₂ (ground arith)
            λ x h₃ i₃. set_up_firewall-Leaves x.0 h₃ i₃

module _ {W : Type 0} (world : World W) (rules : W → List String) (ufw : IsUfw world.net rules)
    (kwargs : Kwargs) where
  open world use {net}

  pub renew_firewall_lem :
      (fw : Firewall) (h : Host W)
      → let left = (delete_rules net fw h.world).1 in
        renew_firewall world kwargs fw h ≡ (
          ok (succeeded (whitelisted kwargs.new_whitelist)),
          record h { world = run_all net (commands net fw.app_name fw.whitelist) left },
        )
  renew_firewall_lem fw h =
      let left : W = (delete_rules net fw h.world).1 in
      ground (arith, delete_rules_lem net rules ufw fw h.world, apply_whitelist_lem net fw left)

module _ {W : Type 0} (world : World W) (rules : W → List String) (ufw : IsUfw world.net rules)
    (kwargs : Kwargs) (v : W) where
  open world use {net}

  pub set_whitelist-Leaves :
      (h : Host W) → h.world ≡ v → Leaves (λ h'. h'.world ≡ v) (set_whitelist world kwargs h)
  unfolding set_whitelist
  set_whitelist-Leaves h i =
      let name = kwargs.config_name in
      Leaves-bind new_loader _ h ((new_loader-SameRest h).world ∙ i) λ loader h₁ i₁.
        Leaves-bind (set_loader_value name "whitelist" (as_read kwargs.new_whitelist) loader) _ h₁
          (set_loader_value_world name (as_read kwargs.new_whitelist) loader h₁ ∙ i₁)
          λ l h₂ i₂.
            Leaves-bind (write_changes name l) _ h₂ (write_changes_world name l h₂ ∙ i₂) λ _ h₃ i₃.
              Leaves-last (new_firewall net name) (renew_firewall world kwargs) h₃
                (new_firewall-Leaves net name v h₃ i₃)
                λ fw h₄. (
                  succeeded (whitelisted kwargs.new_whitelist),
                  ap (λ x. x.0) (renew_firewall_lem world rules ufw kwargs fw h₄),
                )
