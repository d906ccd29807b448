-- ===== src/Config/Orders.antt =====
-- `load_all_aws_config` of functions/main.py, which every ConfigLoader() runs, numbers the sections.
use mathlib.Core.List.{append_assoc, append-nil}
use aws_iprotate_python.Config.Filled.{OnlyDefaults, OnlyDefaults-IsStable}
use aws_iprotate_python.Py.Ensures.{Ensures}
use aws_iprotate_python.Prelude.{
  ℕ, ◌<◌, ◌+◌, String, ◌≡◌, refl, true, false, none, some, List, [], ◌∷◌, ◌++◌, map, arith, ◌==◌,
  eq_iff, Bool-cases, inl, inr, ◌∙◌, subst,
}
use aws_iprotate_python.Prelude.Dict.{Dict, lookup, keys, IsDistinct}
use aws_iprotate_python.Prelude.Text.{str, str_injective}
use aws_iprotate_python.Py.{ok}
use aws_iprotate_python.ConfigParser.{Section, Conf, sections, option}
use aws_iprotate_python.Host.{Host}
use aws_iprotate_python.Config.{
  AwsConfig, ApiConfig, ConfigLoader, new_loader, load_api_config, load_configs,
  load_all_aws_config,
}
use aws_iprotate_python.Config.Defaults.{described, api_frame}
use aws_iprotate_python.Config.Stable.{new_loader-Ensures}
use aws_iprotate_python.Config.Numbering.{
  ordered, saved, number_config_lem, profiles, numbers, AllCredentials, Lacks, AllNew, IsNumbered,
  SameOrders, after, option-after, after-AllCredentials, order-after, section_of, SameOrders-after,
  described_ok,
}

module _ {W : Type 0} where
  -- What the loop has done when it ends: the configs it returns, the parser and the machine.
  record Loaded (names : List String) (n : ℕ) (acc : List AwsConfig) (c : Conf) (h : Host W)
      : Type 0 where
    configs : List AwsConfig
    final : Conf
    host : Host W
    returns : load_configs names n acc c h ≡ (ok (acc ++ configs, final), host)
    named : map (λ (a : AwsConfig). a.config_name) configs ≡ profiles names
    counted : map (λ (a : AwsConfig). a.order) configs ≡ numbers n (profiles names)
    numbered : IsNumbered n names final
    frame : (s k : String) → Lacks s names → option final s k ≡ option c s k
    on_disk : SameOrders host.conf final
    others : (host.files ≡ h.files) × (host.world ≡ h.world)

  Loaded-nil :
      (n : ℕ) (acc : List AwsConfig) (c : Conf) (h : Host W)
      → SameOrders h.conf c
      → Loaded [] n acc c h
  unfolding load_configs
  Loaded-nil n acc c h same = record {
    configs = [];
    final = c;
    host = h;
    returns = simp append-nil;
    named = refl;
    counted = refl;
    numbered = tt;
    frame = λ s k _. refl;
    on_disk = same;
    others = (refl, refl);
  }

  -- The section of the web service itself is passed over.
  Loaded-api :
      (s : String) (names : List String) (n : ℕ) (acc : List AwsConfig) (c : Conf) (h : Host W)
      → (s == "api") ≡ true
      → Loaded names n acc c h
      → Loaded (s ∷ names) n acc c h
  unfolding load_configs
  Loaded-api s names n acc c h e l = record {
    configs = l.configs;
    final = l.final;
    host = l.host;
    returns = rw (e, load_configs) l.returns;
    named = rw e l.named;
    counted = rw e l.counted;
    numbered = rw e l.numbered;
    frame = λ s' k new. l.frame s' k new.1;
    on_disk = l.on_disk;
    others = l.others;
  }

  Loaded-cons :
      (s : String) (names : List String) (n : ℕ) (acc : List AwsConfig) (c : Conf) (h : Host W)
      (sec : Section) (aws : AwsConfig)
      → (s == "api") ≡ false
      → lookup s c ≡ some sec
      → described s (ordered n sec) ≡ ok aws
      → aws.config_name ≡ s
      → aws.order ≡ str n
      → Lacks s names
      → Loaded names (n + 1) (acc ++ aws ∷ []) (after s n sec c) (saved s n sec c h)
      → Loaded (s ∷ names) n acc c h
  unfolding load_configs
  Loaded-cons s names n acc c h sec aws e there d named ordered new l = record {
    configs = aws ∷ l.configs;
    final = l.final;
    host = l.host;
    returns = ground (
      arith,
      number_config_lem s n sec c h aws there d,
      l.returns,
      append_assoc acc (aws ∷ []) l.configs,
    );
    named = rw e (cc (named, l.named));
    counted = rw e (cc (ordered, l.counted));
    numbered = rw e (l.frame s "order" new ∙ order-after s n sec c, l.numbered);
    frame = λ s' k new'. ground (arith, l.frame s' k new'.1, option-after s n sec c s' k);
    on_disk = l.on_disk;
    others = l.others;
  }

  load_configs_lem :
      (names : List String) (n : ℕ) (acc : List AwsConfig) (c : Conf) (h : Host W)
      → AllCredentials names c
      → AllNew names
      → SameOrders h.conf c
      → Loaded names n acc c h
  load_configs_lem [] n acc c h creds new same = Loaded-nil n acc c h same
  load_configs_lem (s ∷ names) n acc c h creds new same = elim (Bool-cases (s == "api")) [
    | inl e ↦ Loaded-api s names n acc c h e (load_configs_lem names n acc c h creds.1 new.1 same)
    | inr e ↦
        let (a, t, ha, ht) = creds.0 e in
        let (sec, there) = section_of s "accesskey" c a ha in
        let (aws, d, named, numbered) = described_ok s n sec c there (a, t, ha, ht) in
        Loaded-cons s names n acc c h sec aws e there d named numbered new.0 (
          load_configs_lem names (n + 1) (acc ++ aws ∷ []) (after s n sec c) (saved s n sec c h)
            (after-AllCredentials s n sec c names there creds.1) new.1 (SameOrders-after s n sec c))
  ]

-- Different numbers have different texts, so the texts counted from `n` are all new.
Lacks-numbers {ℓ} : {A : Type ℓ} (m n : ℕ) (xs : List A) → m < n → Lacks (str m) (numbers n xs)
Lacks-numbers m n [] h = tt
Lacks-numbers m n (x ∷ xs) h = (
  ground (arith, eq_iff (str n) (str m), λ (e : str n ≡ str m). str_injective n m e),
  Lacks-numbers m (n + 1) xs (omega arith),
)

pub AllNew-numbers {ℓ} : {A : Type ℓ} (n : ℕ) (xs : List A) → AllNew (numbers n xs)
AllNew-numbers n [] = tt
AllNew-numbers n (x ∷ xs) = (Lacks-numbers n (n + 1) xs (omega arith), AllNew-numbers (n + 1) xs)

-- The names of a dict are all new.
Lacks-keys {ℓ} : {V : Type ℓ} (s : String) (m : Dict V) → lookup s m ≡ none → Lacks s (keys m)
unfolding lookup
Lacks-keys s [] h = tt
Lacks-keys s ((j, v) ∷ m) h = (ground arith, Lacks-keys s m (ground arith))

AllNew-keys {ℓ} : {V : Type ℓ} (m : Dict V) → IsDistinct m → AllNew (keys m)
AllNew-keys [] h = tt
AllNew-keys ((j, v) ∷ m) h = (Lacks-keys j m h.0, AllNew-keys m h.1)

-- What ConfigLoader() has done when it returns.
pub record Constructed {W : Type 0} (h : Host W) (loader : ConfigLoader) (h' : Host W)
    : Type 0 where
  pub returns : new_loader h ≡ (ok loader, h')
  pub named :
      map (λ (a : AwsConfig). a.config_name) loader.all_aws_configs ≡ profiles (sections h.conf)
  pub counted :
      map (λ (a : AwsConfig). a.order) loader.all_aws_configs
      ≡ numbers 1 (profiles (sections h.conf))
  pub all_new : AllNew (map (λ (a : AwsConfig). a.order) loader.all_aws_configs)
  pub numbered : IsNumbered 1 (sections h.conf) loader.config
  pub on_disk : SameOrders h'.conf loader.config
  pub parsed : OnlyDefaults h.conf loader.config
  pub saved : OnlyDefaults h.conf h'.conf
  pub others : (h'.files ≡ h.files) × (h'.world ≡ h.world)

-- From a file whose names are distinct, whose `api` section is complete and whose other sections
-- have their two credentials, ConfigLoader() returns. It lists the other sections in the order of
-- the file with the orders "1", "2", …, so that no two have the same order; the parser and the file
-- have these orders too. In both, every other option that the file had has its value, and an option
-- that is new has the default of `load_aws_config`; no other file and nothing outside has changed.
pub new_loader_numbers :
    {W : Type 0} (h : Host W) (api : ApiConfig)
    → IsDistinct h.conf
    → (load_api_config h.conf).0 ≡ ok api
    → AllCredentials (sections h.conf) h.conf
    → (loader : ConfigLoader) × (h' : Host W) × Constructed h loader h'
unfolding new_loader load_all_aws_config
new_loader_numbers h api distinct loads creds =
    let l =
      load_configs_lem (sections h.conf) 1 [] h.conf h creds (AllNew-keys h.conf distinct)
        (λ s. refl) in
    let loader : ConfigLoader = record {
      config = l.final;
      api_config = api;
      all_aws_configs = l.configs;
    } in
    let returns : new_loader h ≡ (ok loader, l.host) =
      ground (arith, api_frame h.conf, l.returns) in
    let filled =
      (subst (Ensures (λ x h'. OnlyDefaults h.conf x.config × OnlyDefaults h.conf h'.conf)) returns
          (new_loader-Ensures (OnlyDefaults h.conf) (OnlyDefaults-IsStable h.conf) h
            (λ s k n. inl refl))).at
        loader refl in
    (
      loader,
      l.host,
      record {
        returns = returns;
        named = l.named;
        counted = l.counted;
        all_new = rw l.counted (AllNew-numbers 1 (profiles (sections h.conf)));
        numbered = l.numbered;
        on_disk = l.on_disk;
        parsed = filled.0;
        saved = filled.1;
        others = l.others;
      },
    )
