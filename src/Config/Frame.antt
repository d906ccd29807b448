-- ===== src/Config/Frame.antt =====
-- The constructor of `class ConfigLoader` in functions/main.py touches config.conf alone.
use aws_iprotate_python.Prelude.{
  ℕ, ◌+◌, String, ◌≡◌, refl, Bool-cases, inl, inr, List, [], ◌∷◌, ◌++◌, arith, ◌==◌, ◌∙◌,
}
use aws_iprotate_python.ConfigParser.{Conf, sections, get}
use aws_iprotate_python.Py.Keeps.{Keeps-bind}
use aws_iprotate_python.Host.{Host}
use aws_iprotate_python.Config.Defaults.{api_frame}
use aws_iprotate_python.Config.{
  AwsConfig, number_config, reset_aws_config_order, reorder_aws_config, load_configs,
  load_all_aws_config, load_api_config, new_loader,
}

-- No other file and nothing outside differs.
pub record SameRest {W : Type 0} (h h' : Host W) : Type 0 where
  pub files : h'.files ≡ h.files
  pub world : h'.world ≡ h.world

SameRest-refl : {W : Type 0} (h : Host W) → SameRest h h
SameRest-refl h = record { files = refl; world = refl }

SameRest-trans : {W : Type 0} {a b c : Host W} → SameRest a b → SameRest b c → SameRest a c
SameRest-trans p q = record { files = q.files ∙ p.files; world = q.world ∙ p.world }

module _ {W : Type 0} where
  number_config-SameRest :
      (s : String) (n : ℕ) (c : Conf) (h : Host W) → SameRest h (number_config s n c h).1
  unfolding number_config reset_aws_config_order reorder_aws_config
  number_config-SameRest s n c h = ground arith

  load_configs-SameRest :
      (names : List String) (n : ℕ) (acc : List AwsConfig) (c : Conf) (h : Host W)
      → SameRest h (load_configs names n acc c h).1
  unfolding load_configs
  load_configs-SameRest [] n acc c h = SameRest-refl h
  load_configs-SameRest (s ∷ names) n acc c h = elim (Bool-cases (s == "api")) [
    | inl e ↦ rw (e, load_configs) (load_configs-SameRest names n acc c h)
    | inr e ↦
        rw (e, load_configs)
          ((Keeps-bind {P = SameRest h} (number_config s n c)
              (λ x. load_configs names (n + 1) (acc ++ x.0 ∷ []) x.1)
              (record { at = λ h' k. SameRest-trans k (number_config-SameRest s n c h') })
              (λ x. record {
                at = λ h' k.
                    SameRest-trans k (load_configs-SameRest names (n + 1) (acc ++ x.0 ∷ []) x.1 h');
              })).at
            h (SameRest-refl h))
  ]

  pub new_loader-SameRest : (h : Host W) → SameRest h (new_loader h).1
  unfolding new_loader load_all_aws_config load_api_config get
  new_loader-SameRest h =
      ground (arith, load_configs-SameRest (sections h.conf) 1 [] h.conf h, api_frame h.conf)
