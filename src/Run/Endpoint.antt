-- ===== src/Run/Endpoint.antt =====
-- What `change_ip` of functions/run.py has done where it answers success, and what a move has.
use aws_iprotate_python.Config.Keys.{new_loader-Loads, new_loader-Keys}
use aws_iprotate_python.ConfigParser.{Conf, as_read}
use aws_iprotate_python.Aws.Launch.{launch_instance, terminate_instance}
use aws_iprotate_python.Prelude.{String, ◌≡◌, refl, inl, inr, ◌⊎◌, some, arith, sym, ap, ◌∙◌}
use aws_iprotate_python.Py.{message, Result, ok, err, Result-cases, Error}
use aws_iprotate_python.Py.Ensures.{
  Ensures, Ensures-bind, Ensures-skip, Ensures-weaken, Ensures-raises,
}
use aws_iprotate_python.Host.{Host}
use aws_iprotate_python.Config.{
  ConfigLoader, new_loader, load_aws_config, on_parser, ApiConfig, AwsConfig, load_api_config,
}
use aws_iprotate_python.Profile.Written.{TunnelTo, tunnel_written, TunnelTo-files}
use aws_iprotate_python.Aws.{Aws, call, new_aws}
use aws_iprotate_python.Aws.Client.{login, get_instance_address, connect}
use aws_iprotate_python.Aws.Rotate.{NewIp, get_new_ip}
use aws_iprotate_python.Config
use aws_iprotate_python.Run.{
  World, failure, moved, rotated, Answer, succeeded, failed, Kwargs, RunTask, answering,
  write_profile, serve_ip, settle_ip, change_ip, set_up_instance, serve_region, settle_region,
  move_region, prove_proxy,
}

-- The answer is that of a rotation, and the tunnel leads to the new address.
abbrev pub Rotated : {W : Type 0} → ApiConfig → String → Answer → Host W → Type 0
Rotated api name a h = (n : NewIp) × (a ≡ succeeded (rotated n)) × TunnelTo api name n.new_ip h

-- The answer is that of a move between two regions, and the tunnel leads to the new instance.
abbrev pub Moved : {W : Type 0} → ApiConfig → String → String → String → Answer → Host W → Type 0
Moved api name old new a h =
    (ip : String) × (a ≡ succeeded (moved old new ip)) × TunnelTo api name ip h

-- with the section of the web service, and its keys, that the file has
abbrev pub WithKeysOf :
    {W : Type 0} → Conf → (ApiConfig → Answer → Host W → Type 0) → Answer → Host W → Type 0
WithKeysOf c Q a h = (api : ApiConfig) × ((load_api_config c).0 ≡ ok api) × Q api a h

module _ {W : Type 0} (world : World W) (self : RunTask) (name : String) where
  open world use {ec2, net}

  set_up_instance_files :
      (order ip : String) (h : Host W)
      → (set_up_instance world self order name ip h).1.files ≡ h.files
  unfolding set_up_instance
  set_up_instance_files order ip h = ground arith

  prove_proxy_files :
      (aws : Aws) (ip : String) (loader : ConfigLoader) (h : Host W)
      → (prove_proxy world aws ip loader h).1.files ≡ h.files
  unfolding prove_proxy
  prove_proxy_files aws ip loader h = ground arith

  -- the files stay as they are while the instance is set up
  serve_ip-Ensures :
      (new_ip : NewIp) (aws : Aws) (loader : ConfigLoader) (h : Host W)
      → Ensures
          (λ a h'. (a ≡ succeeded (rotated new_ip)) × (h'.files ≡ h.files))
          (serve_ip world self name new_ip aws loader h)
  unfolding serve_ip
  serve_ip-Ensures new_ip aws loader h = record {
    at = λ a e. grind (arith, set_up_instance_files, prove_proxy_files);
  }

  serve_region-Ensures :
      (old new : String) (aws : Aws) (ip : String) (loader : ConfigLoader) (h : Host W)
      → Ensures
          (λ a h'. (a ≡ succeeded (moved old new ip)) × (h'.files ≡ h.files))
          (serve_region world self name old new aws ip loader h)
  unfolding serve_region
  serve_region-Ensures old new aws ip loader h = record {
    at = λ a e. grind (arith, set_up_instance_files, prove_proxy_files);
  }

  settle_ip-Ensures :
      (loader : ConfigLoader) (rotation : NewIp × Aws) (h : Host W)
      → Ensures (Rotated loader.api_config name) (settle_ip world self name loader rotation h)
  unfolding settle_ip write_profile
  settle_ip-Ensures loader (n, aws) h =
      Ensures-bind (write_profile world name n.new_ip loader)
        (λ l. serve_ip world self name n aws l) h (tunnel_written net name n.new_ip loader h)
        λ l h' tunnel.
          Ensures-weaken (serve_ip world self name n aws l h') (serve_ip-Ensures n aws l h')
            λ a h'' same.
              (n, same.0, TunnelTo-files loader.api_config name n.new_ip h' h'' same.1 tunnel)

  settle_region-Ensures :
      (old new : String) (loader : ConfigLoader) (placed : String × Aws) (h : Host W)
      → Ensures
          (Moved loader.api_config name old new)
          (settle_region world self name old new loader placed h)
  unfolding settle_region write_profile
  settle_region-Ensures old new loader (ip, aws) h =
      Ensures-bind (write_profile world name ip loader)
        (λ l. serve_region world self name old new aws ip l) h (tunnel_written net name ip loader h)
        λ l h' tunnel.
          Ensures-weaken (serve_region world self name old new aws ip l h')
            (serve_region-Ensures old new aws ip l h')
            λ a h'' same.
              (ip, same.0, TunnelTo-files loader.api_config name ip h' h'' same.1 tunnel)

  pub move_region-Ensures :
      (loader : ConfigLoader) (old new : String) (h : Host W)
      → Ensures
          (Moved loader.api_config name old new)
          (move_region world self loader name old new h)
  unfolding move_region
  move_region-Ensures loader old new h = Ensures-skip (new_aws name) _ h λ aws₁ h₁.
      Ensures-skip (call (login ec2) aws₁) _ h₁ λ r₂ h₂.
        Ensures-skip (call (terminate_instance ec2) r₂.1) _ h₂ λ r₃ h₃.
          Ensures-skip (Config.change_region name (as_read (some new)) self.config) _ h₃ λ l h₄.
            Ensures-skip (new_aws name) _ h₄ λ aws₅ h₅.
              Ensures-skip (call (login ec2) aws₅) _ h₅ λ r₆ h₆.
                Ensures-skip (call (launch_instance ec2) r₆.1) _ h₆ λ r₇ h₇.
                  Ensures-skip (call (get_instance_address ec2) r₇.1) _ h₇
                    λ placed h₈. settle_region-Ensures old new loader placed h₈

-- A task that catches every exception answers failure with its text, or with what it returns.
abbrev pub Answered : {W : Type 0} → (Answer → Host W → Type 0) → Result Answer × Host W → Type 0
Answered Q x =
    ((text : String) × (x.0 ≡ ok (failed (failure text)))) ⊎ ((a : Answer) × (x.0 ≡ ok a) × Q a x.1)

pub answers :
    {W : Type 0} (Q : Answer → Host W → Type 0) (x : Result Answer × Host W)
    → Ensures Q x
    → Answered Q (answering (λ _. x) x.1)
unfolding answering
answers Q (ok a, h) p = inr (a, refl, p.at a refl)
answers Q (err e, h) p = inl (message e, refl)

module _ {W : Type 0} (name : String) where
  -- the section of the web service outlives the making of the object and its login
  new_aws-Keys :
      (h : Host W)
      → Ensures
          (λ _ h'.
            (api : ApiConfig) × ((load_api_config h.conf).0 ≡ ok api)
            × ((load_api_config h'.conf).0 ≡ ok api))
          (new_aws name h)
  unfolding new_aws
  new_aws-Keys h = elim (Result-cases (new_loader h).0) [
    | inl (loader, e) ↦ record {
      at = λ _ _.
          let (was, is_there) = (new_loader-Keys h).at loader e in
          (loader.api_config, was, ap (λ c. (load_api_config c).0) (same_conf h) ∙ is_there);
    }
    | inr (error, e) ↦ Ensures-raises (new_aws name h) error (raises h error e)
  ]
    where
      same_conf : (h : Host W) → (new_aws name h).1.conf ≡ (new_loader h).1.conf
      same_conf h = ground arith

      raises :
          (h : Host W) (error : Error)
          → (new_loader h).0 ≡ err error
          → (new_aws name h).0 ≡ err error
      raises h error e = ground arith

login-conf :
    {W : Type 0} (world : World W) (aws : Aws) (h : Host W)
    → (call (login world.ec2) aws h).1.conf ≡ h.conf
unfolding login connect
login-conf world aws h = ground arith

module _ {W : Type 0} (world : World W) (self : RunTask) (kwargs : Kwargs) (h : Host W) where
  open world use {ec2}

  -- `change_ip` always returns: a failure with its text, or a success after which both ends of the
  -- tunnel stand among the files, for the new address, of one order and with the keys that
  -- config.conf had when the task began: each end has one private key and the public key of the
  -- other, and this end's endpoint is the new address at the port where the other end listens.
  pub change_ip_lem :
      Answered
        (WithKeysOf h.conf (λ api. Rotated api kwargs.config_name))
        (change_ip world self kwargs h)
  unfolding change_ip answering
  change_ip_lem =
      let name = kwargs.config_name in
      answers (WithKeysOf h.conf (λ api. Rotated api name)) _ (
        Ensures-bind (new_aws name) _ h (new_aws-Keys name h) λ aws₁ h₁ (api, was, is).
          Ensures-bind {P = λ _ h'. h'.conf ≡ h₁.conf} (call (login ec2) aws₁) _ h₁
            (record { at = λ _ _. login-conf world aws₁ h₁ })
            λ r h₂ same. Ensures-bind new_loader _ h₂ (new_loader-Loads h₂) λ loader h₃ loads.
              Ensures-skip (call (get_new_ip ec2) r.1) (settle_ip world self name loader) h₃
                λ rotation h₄.
                  Ensures-weaken (settle_ip world self name loader rotation h₄)
                    (settle_ip-Ensures world self name loader rotation h₄)
                    λ a h₅ rotated'. (
                      loader.api_config,
                      was ∙ sym is ∙ ap (λ c. (load_api_config c).0) (sym same) ∙ loads,
                      rotated',
                    ))
