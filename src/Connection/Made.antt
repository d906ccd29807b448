-- ===== src/Connection/Made.antt =====
-- The object that the constructor of `class Firewall` in functions/connection.py makes: it is read
-- from config.conf.
use aws_iprotate_python.Config.Frame.{new_loader-SameRest}
use aws_iprotate_python.Prelude.{
  String, ◌≡◌, refl, sym, subst, ap, ◌∙◌, Option, none, some, List, arith, ◌==◌, if◌then◌else◌,
}
use aws_iprotate_python.Prelude.Text.{int, split}
use aws_iprotate_python.Prelude.Dict.{lookup}
use aws_iprotate_python.Py.{Result, ok, err}
use aws_iprotate_python.Py.Ensures.{Ensures, Ensures-ok, Ensures-bind}
use aws_iprotate_python.ConfigParser.{Conf, Section, option}
use aws_iprotate_python.ConfigParser.Laws.{option-there}
use aws_iprotate_python.Host.{Host}
use aws_iprotate_python.Outside.{Net}
use aws_iprotate_python.Config.{
  ApiConfig, AwsConfig, ConfigLoader, new_loader, on_parser, load_api_config, load_aws_config,
}
use aws_iprotate_python.Config.Defaults.{described, result-load_aws_config}
use aws_iprotate_python.Config.Stable.{value-IsStable, new_loader-Ensures}
use aws_iprotate_python.Config.InStep.{new_loader-Agrees}
use aws_iprotate_python.Config.Numbering.{SameOrders, section_of}
use aws_iprotate_python.Config.Defaults.{api_frame}
use aws_iprotate_python.Connection.{Firewall, app_of, set_up_firewall, new_firewall}

-- the entries of a whitelist
abbrev pub entries_of : String → Option (List String)
entries_of w = if w == "" then none else some (split b',' w)

-- The world after the two commands that tell ufw of the application.
abbrev pub registered : {W : Type 0} → Net W → W → W
registered net v =
    net.os_system "ufw app update iprotate_{self.order} > /dev/null 2>&1"
      (net.os_system "ufw app list > /dev/null 2>&1" v)

-- config.conf has the whitelist, and the firewall's object is for it and for the order in the file.
pub record IsFor {W : Type 0} (net : Net W) (name w : String) (v : W) (fw : Firewall) (h : Host W)
    : Type 0 where
  pub order : String
  pub app : fw.app_name ≡ app_of fw.order
  pub entries : fw.whitelist ≡ entries_of w
  pub numbered : int order ≡ some fw.order
  pub on_disk : option h.conf name "order" ≡ some order
  pub saved : option h.conf name "whitelist" ≡ some w
  pub world : h.world ≡ registered net v

described_options :
    (name w : String) (sec : Section) (aws : AwsConfig)
    → described name sec ≡ ok aws
    → lookup "whitelist" sec ≡ some w
    → (aws.whitelist ≡ w) × (lookup "order" sec ≡ some aws.order)
described_options name w sec aws d has = ground arith

module _ {W : Type 0} (name w : String) (v : W) where
  -- what the parser and the file have when the constructor of the firewall has its loader
  record Loaded (c : Conf) (h : Host W) : Type 0 where
    parsed : option c name "whitelist" ≡ some w
    filed : option h.conf name "whitelist" ≡ some w
    same : SameOrders h.conf c
    world : h.world ≡ v

  loads :
      (h : Host W)
      → option h.conf name "whitelist" ≡ some w
      → h.world ≡ v
      → Ensures (λ loader h'. Loaded loader.config h') (new_loader h)
  loads h i world =
      let p = new_loader-Ensures _ (value-IsStable name "whitelist" w refl) h i in
      let q = new_loader-Agrees h in
      record {
        at = λ a e. record {
          parsed = (p.at a e).0;
          filed = (p.at a e).1;
          same = q.at a e;
          world = (new_loader-SameRest h).world ∙ world;
        };
      }

  reads_api :
      (loader : ConfigLoader) (h : Host W)
      → Loaded loader.config h
      → Ensures (λ r h'. Loaded r.1.config h') (on_parser load_api_config loader h)
  reads_api loader h l = by_result (load_api_config loader.config) (api_frame loader.config)
    where
      by_result :
          (x : Result ApiConfig × Conf)
          → x.1 ≡ loader.config
          → Ensures (λ r h'. Loaded r.1.config h') (on_parser (λ _. x) loader h)
      by_result (ok a, c) e =
          Ensures-ok (a, record loader { config = c }) h (subst (λ c. Loaded c h) (sym e) l)
      by_result (err e', c) e = record { at = λ a r. absurd (cc) }

  -- the config that the firewall is made from
  record Found (aws : AwsConfig) (h : Host W) : Type 0 where
    whitelist : aws.whitelist ≡ w
    on_disk : option h.conf name "order" ≡ some aws.order
    filed : option h.conf name "whitelist" ≡ some w
    world : h.world ≡ v

  reads_config :
      (loader : ConfigLoader) (h : Host W)
      → Loaded loader.config h
      → Ensures (λ r h'. Found r.0 h') (on_parser (load_aws_config name) loader h)
  reads_config loader h l =
      by_result (load_aws_config name loader.config)
        (result-load_aws_config name loader.config there)
    where
      sec : Section
      sec = (section_of name "whitelist" loader.config w l.parsed).0

      there : lookup name loader.config ≡ some sec
      there = (section_of name "whitelist" loader.config w l.parsed).1

      by_result :
          (x : Result AwsConfig × Conf)
          → x.0 ≡ described name sec
          → Ensures (λ r h'. Found r.0 h') (on_parser (λ _. x) loader h)
      by_result (ok a, c) e =
          let options =
            described_options name w sec a (sym e)
              (sym (option-there name loader.config sec there "whitelist") ∙ l.parsed) in
          Ensures-ok (a, record loader { config = c }) h
            (record {
              whitelist = options.0;
              on_disk = l.same name ∙ option-there name loader.config sec there "order" ∙ options.1;
              filed = l.filed;
              world = l.world;
            })
      by_result (err e', c) e = record { at = λ a r. absurd (cc) }

module _ {W : Type 0} (net : Net W) (name w : String) (v : W) where
  sets_up :
      (aws : AwsConfig) (h : Host W)
      → Found name w v aws h
      → Ensures (IsFor net name w v) (set_up_firewall net name aws h)
  unfolding set_up_firewall
  sets_up aws h f = record {
    at = λ fw e.
        let made : (fw.app_name ≡ app_of fw.order)
            × (fw.whitelist ≡ entries_of aws.whitelist)
            × (int aws.order ≡ some fw.order)
            × ((set_up_firewall net name aws h).1.conf ≡ h.conf)
            × ((set_up_firewall net name aws h).1.world ≡ registered net h.world) =
          ground arith in
        let (app', entries, numbered, conf, world) = made in
        record {
          order = aws.order;
          app = app';
          entries = entries ∙ ap entries_of f.whitelist;
          numbered = numbered;
          on_disk = ap (λ c. option c name "order") conf ∙ f.on_disk;
          saved = ap (λ c. option c name "whitelist") conf ∙ f.filed;
          world = world ∙ ap (registered net) f.world;
        };
  }

  pub new_firewall-Ensures :
      (h : Host W)
      → option h.conf name "whitelist" ≡ some w
      → h.world ≡ v
      → Ensures (IsFor net name w v) (new_firewall net name h)
  unfolding new_firewall
  new_firewall-Ensures h i world =
      Ensures-bind new_loader _ h (loads name w v h i world) λ loader h₁ l.
        Ensures-bind (on_parser load_api_config loader) _ h₁ (reads_api name w v loader h₁ l)
          λ r h₂ l₂.
            Ensures-bind (on_parser (load_aws_config name) r.1) _ h₂
              (reads_config name w v r.1 h₂ l₂) λ x h₃ f. sets_up x.0 h₃ f
