-- ===== src/Config/InStep.antt =====
-- After `ConfigLoader()` of functions/main.py, config.conf has the orders that the parser has.
use aws_iprotate_python.Prelude.Text.{str}
use aws_iprotate_python.Prelude.{
  ℕ, ◌+◌, String, ◌≡◌, refl, sym, subst, Bool-cases, inl, inr, none, some, List, [], ◌∷◌, ◌++◌,
  arith, ◌==◌, Option-cases, ◌∙◌, eq_refl,
}
use aws_iprotate_python.Prelude.Dict.{
  lookup, insert, lookup-insert, insert-insert, lookup-insert_same,
}
use aws_iprotate_python.Py.{Result, ok, err, no_section, Exec, pure, ◌>>=◌}
use aws_iprotate_python.Py.Ensures.{Ensures, Ensures-ok, Ensures-raises, Ensures-bind, Ensures-err}
use aws_iprotate_python.ConfigParser.{Conf, Section, sections, set}
use aws_iprotate_python.Host.{Host, parser}
use aws_iprotate_python.Config.{
  ApiConfig, AwsConfig, ConfigLoader, load_api_config, load_aws_config, reset_aws_config_order,
  reorder_aws_config, number_config, load_configs, load_all_aws_config, new_loader,
}
use aws_iprotate_python.Config.Defaults.{with_defaults, parser-load_aws_config}
use aws_iprotate_python.Config.Numbering.{
  ordered, SameOrders, SameOrders-after, orders_lem, saved, after,
}
use aws_iprotate_python.Config.Defaults.{api_frame}

module _ {W : Type 0} where
  -- config.conf and the parser
  abbrev Agree : {A : Type 0} → A × Conf → Host W → Type 0
  Agree r h = SameOrders h.conf r.1

  number_missing :
      (s : String) (n : ℕ) (c : Conf) (h : Host W)
      → lookup s c ≡ none
      → (number_config s n c h).0 ≡ err (no_section s)
  unfolding number_config reset_aws_config_order set
  number_missing s n c h e = ground arith

  rounds_end :
      (s : String) (n : ℕ) (c : Conf) (h : Host W) (sec : Section)
      → lookup s c ≡ some sec
      → number_config s n c h
        ≡ parser (load_aws_config s) (insert s (ordered n sec) c) (saved s n sec c h)
  unfolding number_config set reset_aws_config_order reorder_aws_config
  rounds_end s n c h sec e = ground (
    arith,
    orders_lem s n sec c h e,
    lookup-insert s s (insert "order" "" sec) c,
    eq_refl s,
    insert-insert s (insert "order" "" sec) (ordered n sec) c,
    insert-insert "order" "" (str n) sec,
  )

  agrees :
      (s : String) (n : ℕ) (c : Conf) (h : Host W) (sec : Section) (x : Result AwsConfig × Conf)
      → x.1 ≡ after s n sec c
      → Ensures Agree (parser (λ _. x) c (saved s n sec c h))
  agrees s n c h sec (ok a, c') e =
      Ensures-ok (a, c') (saved s n sec c h)
        (subst (SameOrders (insert s (ordered n sec) c)) (sym e) (SameOrders-after s n sec c))
  agrees s n c h sec (err e', c') e = Ensures-err e' (saved s n sec c h)

  number_there :
      (s : String) (n : ℕ) (c : Conf) (h : Host W) (sec : Section)
      → lookup s c ≡ some sec
      → Ensures Agree (number_config s n c h)
  number_there s n c h sec e =
      let c' : Conf = insert s (ordered n sec) c in
      subst (Ensures Agree) (sym (rounds_end s n c h sec e)) (
        agrees s n c h sec (load_aws_config s c') (
          parser-load_aws_config s c' (lookup-insert_same s (ordered n sec) c)
          ∙ insert-insert s (ordered n sec) (with_defaults (ordered n sec)) c))

  number_config-Ensures :
      (s : String) (n : ℕ) (c : Conf) (h : Host W) → Ensures Agree (number_config s n c h)
  number_config-Ensures s n c h = elim (Option-cases (lookup s c)) [
    | inl e ↦ Ensures-raises (number_config s n c h) (no_section s) (number_missing s n c h e)
    | inr (sec, e) ↦ number_there s n c h sec e
  ]

  load_configs-Ensures :
      (names : List String) (n : ℕ) (acc : List AwsConfig) (c : Conf) (h : Host W)
      → SameOrders h.conf c
      → Ensures Agree (load_configs names n acc c h)
  unfolding load_configs
  load_configs-Ensures [] n acc c h i = Ensures-ok (acc, c) h i
  load_configs-Ensures (s ∷ names) n acc c h i = elim (Bool-cases (s == "api")) [
    | inl e ↦ rw (e, load_configs) (load_configs-Ensures names n acc c h i)
    | inr e ↦
        rw (e, load_configs)
          (Ensures-bind (number_config s n c)
            (λ x. load_configs names (n + 1) (acc ++ x.0 ∷ []) x.1) h
            (number_config-Ensures s n c h)
            λ x h' k. load_configs-Ensures names (n + 1) (acc ++ x.0 ∷ []) x.1 h' k)
  ]

  -- Where `ConfigLoader()` returns, config.conf has the orders of its parser.
  pub new_loader-Agrees :
      (h : Host W) → Ensures (λ loader h'. SameOrders h'.conf loader.config) (new_loader h)
  unfolding new_loader load_all_aws_config
  new_loader-Agrees h =
      let finish : ApiConfig → List AwsConfig × Conf → Exec (Host W) ConfigLoader =
        λ api x. pure (record { config = x.1; api_config = api; all_aws_configs = x.0 }) in
      let number : ApiConfig × Conf → Exec (Host W) ConfigLoader =
        λ r. load_all_aws_config r.1 >>= finish r.0 in
      Ensures-bind (parser load_api_config h.conf) number h
        (api_agrees h (load_api_config h.conf) (api_frame h.conf))
        λ r h₁ k₁.
          Ensures-bind (load_all_aws_config r.1) (finish r.0) h₁
            (load_configs-Ensures (sections r.1) 1 [] r.1 h₁ k₁)
            λ x h₂ k₂.
              Ensures-ok (record { config = x.1; api_config = r.0; all_aws_configs = x.0 }) h₂ k₂
    where
      api_agrees :
          (h : Host W) (x : Result ApiConfig × Conf)
          → x.1 ≡ h.conf
          → Ensures Agree (parser (λ _. x) h.conf h)
      api_agrees h (ok a, c) e = Ensures-ok (a, c) h (subst (SameOrders h.conf) (sym e) (λ s. refl))
      api_agrees h (err e', c) e = Ensures-err e' h
