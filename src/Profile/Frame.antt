-- ===== src/Profile/Frame.antt =====
-- `generate_peer_config` of functions/main.py sets the firewall anew, which leaves the tunnel's file alone.
use aws_iprotate_python.Config.Frame.{new_loader-SameRest}
use aws_iprotate_python.Prelude.{
  ℕ, String, ◌<>◌, ◌≡◌, refl, Option-cases, inl, inr, arith, ◌∙◌, Option, ap,
}
use aws_iprotate_python.Prelude.Text.{int}
use aws_iprotate_python.Prelude.Dict.{lookup, insert, lookup-insert_other}
use aws_iprotate_python.Py.{Result, ok, err, except, pure, ◌>>=◌}
use aws_iprotate_python.Host.{Host, Content, ini}
use aws_iprotate_python.Outside.{Net}
use aws_iprotate_python.Config.{AwsConfig, load_aws_config, new_loader, on_parser, load_api_config}
use aws_iprotate_python.Profile.{refresh_firewall, renew_rules}
use aws_iprotate_python.Py.Keeps.{Keeps, Keeps-bind}
use aws_iprotate_python.Connection.{new_firewall, app_of, app_config, set_up_firewall}
use aws_iprotate_python.Profile.Paths.{tunnel_path, tunnel-elsewhere}

-- What `lookup` finds at the path of the tunnel's file is `v`.
abbrev pub Stands : {W : Type 0} → String → String → Option Content → Host W → Type 0
Stands order name v h = lookup (tunnel_path order name) h.files ≡ v

module _ {W : Type 0} (net : Net W) (name order n : String) (v : Option Content) where
  profile_file-Stands :
      (k : ℕ) (c : Content) (h : Host W)
      → Stands order n v h
      → Stands order n v
          (record h { files = insert ("/etc/ufw/applications.d/" <> app_of k) c h.files })
  profile_file-Stands k c h p =
      lookup-insert_other _ (tunnel_path order n) c h.files
        (tunnel-elsewhere order n "/etc/ufw/applications.d/" (app_of k) refl refl)
      ∙ p

  set_up_firewall-Keeps :
      (aws : AwsConfig) → Keeps (Stands order n v) (set_up_firewall net name aws)
  unfolding set_up_firewall
  set_up_firewall-Keeps aws = record {
    at = λ h p. elim (Option-cases (int aws.order)) [
      | inl e ↦ ground arith
      | inr (k, e) ↦ ground (arith, profile_file-Stands k (ini (app_config k)) h p)
    ];
  }

  new_firewall-Keeps : Keeps (Stands order n v) (new_firewall net name)
  unfolding new_firewall
  new_firewall-Keeps =
      Keeps-bind new_loader _
        (record { at = λ h p. ap (lookup (tunnel_path order n)) (new_loader-SameRest h).files ∙ p })
        λ loader.
          Keeps-bind (on_parser load_api_config loader) _ (record { at = λ h p. ground arith })
            λ read.
              Keeps-bind (on_parser (load_aws_config name) read.1) _
                (record { at = λ h p. ground arith }) λ found. set_up_firewall-Keeps found.0

  passed_over :
      (x : Result (Unit {0}) × Host W)
      → Stands order n v x.1
      → Stands order n v (except (λ _. x) (λ _. pure tt) x.1).1
  passed_over (ok _, h) p = p
  passed_over (err _, h) p = p

  pub refresh_firewall-Keeps : Keeps (Stands order n v) (refresh_firewall net name)
  unfolding refresh_firewall
  refresh_firewall-Keeps = record {
    at = λ h p. passed_over ((new_firewall net name >>= renew_rules net) h) (
        (Keeps-bind (new_firewall net name) (renew_rules net) new_firewall-Keeps
            (λ fw. record { at = λ h' p'. ground arith })).at
          h p);
  }
