-- ===== src/Profile/Written.antt =====
-- The two ends of the tunnel among the files, after `generate_profile_config` and
-- `generate_peer_config` of functions/main.py have returned.
use aws_iprotate_python.Profile.Tunnel.{Joined, tunnel_ends}
use aws_iprotate_python.Profile.Near.{NearEnd, generate_profile_config-Ensures}
use aws_iprotate_python.Profile.Frame.{Stands, refresh_firewall-Keeps}
use aws_iprotate_python.Prelude.{◌+◌, ℕ, String, ◌≡◌, refl, some, arith, ◌∙◌, sym, subst, ap}
use aws_iprotate_python.Prelude.Text.{int}
use aws_iprotate_python.Prelude.Dict.{lookup, insert, lookup-insert_other, lookup-insert_same}
use aws_iprotate_python.Py.{ok, ◌>>=◌}
use aws_iprotate_python.Py.Ensures.{Ensures, Ensures-ok, Ensures-bind}
use aws_iprotate_python.ConfigParser.{Section}
use aws_iprotate_python.Host.{Host, Content, ini}
use aws_iprotate_python.Outside.{Net}
use aws_iprotate_python.Config.{AwsConfig, ApiConfig, ConfigLoader, wg_port_base}
use aws_iprotate_python.Config.Defaults.{described}
use aws_iprotate_python.Config.Again.{loaded, load_again}
use aws_iprotate_python.Profile.{
  peer_config, wg_config, generate_profile_config, generate_peer_config, refresh_firewall,
  write_peer_config,
}
use aws_iprotate_python.Profile.Paths.{peer_path, tunnel_path, tunnel-elsewhere}

-- Both ends of the profile's tunnel stand among the files, for an instance at `ip`: this machine's
-- and the one that is sent to the instance, of one order and of the keys in `api`; the keys of the
-- two ends, their addresses and the endpoint fit.
pub record TunnelTo {W : Type 0} (api : ApiConfig) (name ip : String) (h : Host W) : Type 0 where
  pub order : String
  pub number : ℕ
  pub numbered : int order ≡ some number
  pub near :
      lookup (tunnel_path order name) h.files
      ≡ some (ini (wg_config api order name (wg_port_base + number) ip))
  pub far : lookup (peer_path order name) h.files ≡ some (ini (peer_config api order))
  pub joined :
      Joined api ip (wg_config api order name (wg_port_base + number) ip) (peer_config api order)

module _ {W : Type 0} (net : Net W) (name ip : String) where
  far_end :
      (loader : ConfigLoader) (sec : Section) (aws : AwsConfig) (h : Host W)
      → described name sec ≡ ok aws
      → write_peer_config name (loaded name sec loader) h ≡ (
        ok (loaded name sec loader),
        record h {
          files =
              insert
                (peer_path aws.order name)
                (ini (peer_config loader.api_config aws.order))
                h.files;
        },
      )
  unfolding write_peer_config
  far_end loader sec aws h reads = ground (arith, load_again name loader h sec aws reads)

  write_peer_config-Ensures :
      (l₀ loader : ConfigLoader) (h h' : Host W) (r : NearEnd name ip l₀ loader h)
      → Stands r.config.order name (lookup (tunnel_path r.config.order name) h.files) h'
      → Ensures (λ _ h''. TunnelTo l₀.api_config name ip h'') (write_peer_config name loader h')
  write_peer_config-Ensures l₀ loader h h' r stands =
      let path : String = tunnel_path r.config.order name in
      let peer : Content = ini (peer_config l₀.api_config r.config.order) in
      subst (Ensures (λ _ h''. TunnelTo l₀.api_config name ip h''))
        (sym
          (ap (λ l. write_peer_config name l h') r.same ∙ far_end l₀ r.section r.config h' r.reads))
        (Ensures-ok (loaded name r.section l₀)
          (record h' { files = insert (peer_path r.config.order name) peer h'.files })
          (record {
            order = r.config.order;
            number = r.number;
            numbered = r.numbered;
            near =
                lookup-insert_other (peer_path r.config.order name) path peer h'.files (
                  tunnel-elsewhere r.config.order name "/opt/cloud-iprotate/profile_config/" _ refl
                    refl)
                ∙ stands
                ∙ r.near;
            far = lookup-insert_same (peer_path r.config.order name) peer h'.files;
            joined = tunnel_ends l₀.api_config r.config.order name (wg_port_base + r.number) ip;
          }))

  generate_peer_config-Ensures :
      (l₀ loader : ConfigLoader) (h : Host W)
      → NearEnd name ip l₀ loader h
      → Ensures (λ _ h'. TunnelTo l₀.api_config name ip h') (generate_peer_config net name loader h)
  unfolding generate_peer_config
  generate_peer_config-Ensures l₀ loader h r =
      Ensures-bind (refresh_firewall net name) (λ _. write_peer_config name loader) h
        (record {
          at = λ _ _.
              (refresh_firewall-Keeps net name r.config.order name
                  (lookup (tunnel_path r.config.order name) h.files)).at
                h refl;
        })
        (λ _ h' stands. write_peer_config-Ensures l₀ loader h h' r stands)

  -- what a `write_profile` that returns has left
  pub tunnel_written :
      (loader : ConfigLoader) (h : Host W)
      → Ensures
          (λ _ h'. TunnelTo loader.api_config name ip h')
          ((generate_profile_config name ip loader >>= generate_peer_config net name) h)
  tunnel_written loader h =
      Ensures-bind (generate_profile_config name ip loader) (generate_peer_config net name) h
        (generate_profile_config-Ensures name ip loader h)
        (λ loader' h' r. generate_peer_config-Ensures loader loader' h' r)

pub TunnelTo-files :
    {W : Type 0} (api : ApiConfig) (name ip : String) (h h' : Host W)
    → h'.files ≡ h.files
    → TunnelTo api name ip h
    → TunnelTo api name ip h'
TunnelTo-files api name ip h h' same t = record {
  order = t.order;
  number = t.number;
  numbered = t.numbered;
  near = ap (lookup (tunnel_path t.order name)) same ∙ t.near;
  far = ap (lookup (peer_path t.order name)) same ∙ t.far;
  joined = t.joined;
}
