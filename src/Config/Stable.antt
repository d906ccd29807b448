-- ===== src/Config/Stable.antt =====
-- What the constructor of `class ConfigLoader` in functions/main.py leaves as it is: it sets the
-- orders and fills in options that are missing, in its parser and in config.conf.
use aws_iprotate_python.Prelude.Text.{str}
use aws_iprotate_python.Prelude.{
  ℕ, ◌+◌, String, ◌≡◌, refl, sym, subst, true, false, Bool-cases, ◌⊎◌, inl, inr, none, some, List,
  [], ◌∷◌, ◌++◌, arith, ◌==◌, eq_iff, Option-cases,
}
use aws_iprotate_python.Prelude.Dict.{lookup, insert, lookup-insert, insert-IsDistinct}
use aws_iprotate_python.Py.{Result, ok, err, Exec, ◌>>=◌, pure, ◌>>◌}
use aws_iprotate_python.Py.Keeps.{Keeps, Keeps-bind}
use aws_iprotate_python.Py.Ensures.{Ensures, Ensures-ok, Ensures-err, Ensures-bind}
use aws_iprotate_python.ConfigParser.{
  Section, Conf, AllDistinct, option, has_option, get, set, sections,
}
use aws_iprotate_python.ConfigParser.Laws.{
  option-insert, option-there, lookup-AllDistinct, insert-AllDistinct,
}
use aws_iprotate_python.Host.{Host, parser, read_conf, write_conf}
use aws_iprotate_python.Config.{
  AwsConfig, ConfigLoader, default_option, read_aws_config, load_aws_config, load_api_config,
  reset_aws_config_order, reorder_aws_config, number_config, load_configs, load_all_aws_config,
  new_loader, ApiConfig,
}
use aws_iprotate_python.Config.Defaults.{api_frame, default_of}

-- `I` outlives an order that is set and an option that is added at its default.
pub record IsStable (I : Conf → Type 0) : Type 0 where
  pub fill :
      (s k x : String) (sec : Section) (c : Conf)
      → lookup s c ≡ some sec
      → (("order" == k) ≡ true) ⊎ ((lookup k sec ≡ none) × (default_of k ≡ some x))
      → I c
      → I (insert s (insert k x sec) c)

-- the parser after `set` and after `default_option`
set_after :
    (s k x : String) (c : Conf) (sec : Section)
    → lookup s c ≡ some sec
    → (set s k x c).1 ≡ insert s (insert k x sec) c
unfolding set
set_after s k x c sec e = ground arith

set_missing : (s k x : String) (c : Conf) → lookup s c ≡ none → (set s k x c).1 ≡ c
unfolding set
set_missing s k x c e = ground arith

default_after :
    (s k x : String) (c : Conf) (sec : Section)
    → lookup s c ≡ some sec
    → lookup k sec ≡ none
    → (default_option s k x c).1 ≡ insert s (insert k x sec) c
unfolding default_option has_option option set
default_after s k x c sec e m = ground arith

default_there :
    (s k x : String) (c : Conf) (sec : Section) (v : String)
    → lookup s c ≡ some sec
    → lookup k sec ≡ some v
    → (default_option s k x c).1 ≡ c
unfolding default_option has_option option
default_there s k x c sec v e m = ground arith

default_nowhere : (s k x : String) (c : Conf) → lookup s c ≡ none → (default_option s k x c).1 ≡ c
unfolding default_option has_option option set
default_nowhere s k x c e = ground arith

module _ (I : Conf → Type 0) (stable : IsStable I) where
  set-Stable : (s x : String) (c : Conf) → I c → I (set s "order" x c).1
  set-Stable s x c i = elim (Option-cases (lookup s c)) [
    | inl e ↦ subst I (sym (set_missing s "order" x c e)) i
    | inr (sec, e) ↦
        subst I (sym (set_after s "order" x c sec e)) (stable.fill s "order" x sec c e (inl refl) i)
  ]

  default-Keeps : (s k x : String) → default_of k ≡ some x → Keeps I (default_option s k x)
  default-Keeps s k x d = record {
    at = λ c i. elim (Option-cases (lookup s c)) [
      | inl e ↦ subst I (sym (default_nowhere s k x c e)) i
      | inr (sec, e) ↦ elim (Option-cases (lookup k sec)) [
        | inl m ↦
            subst I (sym (default_after s k x c sec e m)) (stable.fill s k x sec c e (inr (m, d)) i)
        | inr (v, m) ↦ subst I (sym (default_there s k x c sec v e m)) i
      ]
    ];
  }

  read-Keeps : (name : String) → Keeps I (read_aws_config name)
  unfolding read_aws_config get
  read-Keeps name = record { at = λ c i. subst I (sym (read_frame c)) i }
    where
      read_frame : (c : Conf) → (read_aws_config name c).1 ≡ c
      read_frame c = ground arith

  pub load_aws_config-Keeps : (name : String) → Keeps I (load_aws_config name)
  unfolding load_aws_config
  load_aws_config-Keeps name =
      Keeps-bind (default_option name "user" "") _ (default-Keeps name "user" "" refl) λ _.
        Keeps-bind (default_option name "pass" "") _ (default-Keeps name "pass" "" refl) λ _.
          Keeps-bind (default_option name "apikey" "") _ (default-Keeps name "apikey" "" refl) λ _.
            Keeps-bind (default_option name "whitelist" "") _
              (default-Keeps name "whitelist" "" refl)
              λ _.
                Keeps-bind (default_option name "region" "us-east-1") _
                  (default-Keeps name "region" "us-east-1" refl)
                  λ _.
                    Keeps-bind (default_option name "instanceid" "") _
                      (default-Keeps name "instanceid" "" refl) λ _. read-Keeps name

  module _ {W : Type 0} where
    -- in the parser and in config.conf
    abbrev pub Both : {A : Type 0} → A × Conf → Host W → Type 0
    Both r h = I r.1 × I h.conf

    parser-Ensures :
        {A : Type 0} (m : Exec Conf A) (c : Conf) (h : Host W)
        → I (m c).1
        → I h.conf
        → Ensures Both (parser m c h)
    parser-Ensures {A} m c h i j = by_result (m c) i
      where
        by_result : (x : Result A × Conf) → I x.1 → Ensures Both (parser (λ _. x) c h)
        by_result (ok a, c') k = Ensures-ok (a, c') h (k, j)
        by_result (err e, c') k = Ensures-err e h

    set_order-Ensures :
        (s x : String) (c : Conf) (h : Host W)
        → I c
        → I h.conf
        → Ensures
            (λ c' h'. I c' × I h'.conf)
            ((do (_, c') ← parser (set s "order" x) c; write_conf c'; pure c') h)
    set_order-Ensures s x c h i j =
        Ensures-bind (parser (set s "order" x) c) _ h
          (parser-Ensures (set s "order" x) c h (set-Stable s x c i) j)
          λ r h' k. Ensures-ok r.1 (record h' { conf = r.1 }) (k.0, k.0)

    number_config-Ensures :
        (s : String) (n : ℕ) (c : Conf) (h : Host W)
        → I c
        → I h.conf
        → Ensures Both (number_config s n c h)
    unfolding number_config reset_aws_config_order reorder_aws_config
    number_config-Ensures s n c h i j =
        Ensures-bind (reset_aws_config_order s c) _ h (set_order-Ensures s "" c h i j) λ c₁ h₁ k₁.
          Ensures-bind (reorder_aws_config s n c₁) _ h₁
            (set_order-Ensures s (str n) c₁ h₁ k₁.0 k₁.1)
            λ c₂ h₂ k₂.
              parser-Ensures (load_aws_config s) c₂ h₂ ((load_aws_config-Keeps s).at c₂ k₂.0) k₂.1

    load_configs-Ensures :
        (names : List String) (n : ℕ) (acc : List AwsConfig) (c : Conf) (h : Host W)
        → I c
        → I h.conf
        → Ensures Both (load_configs names n acc c h)
    unfolding load_configs
    load_configs-Ensures [] n acc c h i j = Ensures-ok (acc, c) h (i, j)
    load_configs-Ensures (s ∷ names) n acc c h i j = elim (Bool-cases (s == "api")) [
      | inl e ↦ rw (e, load_configs) (load_configs-Ensures names n acc c h i j)
      | inr e ↦
          rw (e, load_configs)
            (Ensures-bind (number_config s n c)
              (λ x. load_configs names (n + 1) (acc ++ x.0 ∷ []) x.1) h
              (number_config-Ensures s n c h i j)
              λ x h' k. load_configs-Ensures names (n + 1) (acc ++ x.0 ∷ []) x.1 h' k.0 k.1)
    ]

    -- What outlives an order and a missing option outlives `ConfigLoader()`, in the parser that it
    -- makes and in config.conf.
    pub new_loader-Ensures :
        (h : Host W) → I h.conf → Ensures (λ loader h'. I loader.config × I h'.conf) (new_loader h)
    unfolding new_loader load_all_aws_config
    new_loader-Ensures h i =
        let finish : ApiConfig → List AwsConfig × Conf → Exec (Host W) ConfigLoader =
          λ api x. pure (record { config = x.1; api_config = api; all_aws_configs = x.0 }) in
        let number : ApiConfig × Conf → Exec (Host W) ConfigLoader =
          λ r. load_all_aws_config r.1 >>= finish r.0 in
        Ensures-bind read_conf (λ c. parser load_api_config c >>= number) h
          (Ensures-ok {Q = λ c h'. I c × I h'.conf} h.conf h (i, i))
          λ c h₁ k₁.
            Ensures-bind (parser load_api_config c) number h₁
              (parser-Ensures load_api_config c h₁ (subst I (sym (api_frame c)) k₁.0) k₁.1)
              λ r h₂ k₂.
                Ensures-bind (load_all_aws_config r.1) (finish r.0) h₂
                  (load_configs-Ensures (sections r.1) 1 [] r.1 h₂ k₂.0 k₂.1)
                  λ x h₃ k₃.
                    Ensures-ok (record { config = x.1; api_config = r.0; all_aws_configs = x.0 }) h₃
                      k₃

-- An option other than the order that has a value keeps it.
pub value-IsStable :
    (name key v : String) → ("order" == key) ≡ false → IsStable (λ c. option c name key ≡ some v)
value-IsStable name key v n = record {
  fill = λ s k x sec c there why has. by_why s k x sec c there why has;
}
  where
    by_why :
        (s k x : String) (sec : Section) (c : Conf)
        → lookup s c ≡ some sec
        → (("order" == k) ≡ true) ⊎ ((lookup k sec ≡ none) × (default_of k ≡ some x))
        → option c name key ≡ some v
        → option (insert s (insert k x sec) c) name key ≡ some v
    by_why s k x sec c there (inl e) has = ground (
      arith,
      option-insert s (insert k x sec) c name key,
      lookup-insert k key x sec,
      option-there s c sec there key,
      eq_iff s name,
      eq_iff k key,
      eq_iff "order" k,
      n,
    )
    by_why s k x sec c there (inr (e, d)) has = ground (
      arith,
      option-insert s (insert k x sec) c name key,
      lookup-insert k key x sec,
      option-there s c sec there key,
      eq_iff s name,
      eq_iff k key,
    )

-- No section has an option twice.
pub distinct-IsStable : IsStable AllDistinct
distinct-IsStable = record {
  fill = λ s k x sec c there why d.
      insert-AllDistinct s (insert k x sec) c
        (insert-IsDistinct k x sec (lookup-AllDistinct s c sec d there)) d;
}
