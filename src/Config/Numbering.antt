-- ===== src/Config/Numbering.antt =====
-- One round of `load_all_aws_config` of functions/main.py, and what the numbering of the sections means.
use aws_iprotate_python.Prelude.{
  ℕ, ◌+◌, String, ◌≡◌, refl, false, some, List, [], ◌∷◌, arith, ◌==◌, eq_iff, eq_refl, cond,
}
use aws_iprotate_python.Prelude.Dict.{lookup, insert, lookup-insert, insert-insert}
use aws_iprotate_python.Prelude.Text.{str}
use aws_iprotate_python.Py.{ok, ◌>>=◌}
use aws_iprotate_python.ConfigParser.{Section, Conf, option, set}
use aws_iprotate_python.ConfigParser.Laws.{option-insert, option-there}
use aws_iprotate_python.Host.{Host}
use aws_iprotate_python.Config.{
  AwsConfig, reset_aws_config_order, reorder_aws_config, number_config,
}
use aws_iprotate_python.Config.Defaults.{
  aws_config, described, with_defaults, parser-load_aws_config, result-load_aws_config,
  lookup-with_defaults,
}

-- the section that a round numbers, before the defaults
abbrev pub ordered : ℕ → Section → Section
ordered n sec = insert "order" (str n) sec

module _ {W : Type 0} (s : String) (n : ℕ) (sec : Section) (c : Conf) (h : Host W) where
  abbrev pub saved : Host W
  saved = record h { conf = insert s (ordered n sec) c }

  pub orders_lem :
      lookup s c ≡ some sec
      → (do c₁ ← reset_aws_config_order {W = W} s c; reorder_aws_config s n c₁) h
        ≡ (ok (insert s (ordered n sec) c), saved)
  unfolding reset_aws_config_order reorder_aws_config set
  orders_lem there = ground (
    arith,
    lookup-insert s s (insert "order" "" sec) c,
    eq_refl s,
    insert-insert s (insert "order" "" sec) (ordered n sec) c,
    insert-insert "order" "" (str n) sec,
  )

  pub number_config_lem :
      (aws : AwsConfig)
      → lookup s c ≡ some sec
      → described s (ordered n sec) ≡ ok aws
      → number_config s n c h ≡ (ok (aws, insert s (with_defaults (ordered n sec)) c), saved)
  unfolding number_config set reset_aws_config_order reorder_aws_config
  number_config_lem aws there d = ground (
    arith,
    orders_lem there,
    lookup-insert s s (ordered n sec) c,
    lookup-insert s s (insert "order" "" sec) c,
    eq_refl s,
    insert-insert s (insert "order" "" sec) (ordered n sec) c,
    insert-insert "order" "" (str n) sec,
    insert-insert s (ordered n sec) (with_defaults (ordered n sec)) c,
    result-load_aws_config s (insert s (ordered n sec) c) {sec = ordered n sec},
    parser-load_aws_config s (insert s (ordered n sec) c) {sec = ordered n sec},
  )

-- The names that are numbered, and the texts 'n', 'n + 1', … for a list of them.
abbrev pub profiles : List String → List String
profiles [] = []
profiles (s ∷ names) = cond (s == "api") (profiles names) (s ∷ profiles names)

abbrev pub numbers {ℓ} : {A : Type ℓ} → ℕ → List A → List String
numbers n [] = []
numbers n (_ ∷ xs) = str n ∷ numbers (n + 1) xs

-- Every profile of the list has the two credentials.
abbrev pub HasCredentials : Conf → String → Type 0
HasCredentials c s =
    (a t : String) × (option c s "accesskey" ≡ some a) × (option c s "secretkey" ≡ some t)

abbrev pub AllCredentials : List String → Conf → Type 0
AllCredentials [] c = Unit
AllCredentials (s ∷ names) c = ((s == "api") ≡ false → HasCredentials c s) × AllCredentials names c

-- No name of the list is `s`.
abbrev pub Lacks : String → List String → Type 0
Lacks s [] = Unit
Lacks s (t ∷ names) = ((t == s) ≡ false) × Lacks s names

abbrev pub AllNew : List String → Type 0
AllNew [] = Unit
AllNew (s ∷ names) = Lacks s names × AllNew names

-- The order of each profile is its place in the list, counted from `n`.
abbrev pub IsNumbered : ℕ → List String → Conf → Type 0
IsNumbered n [] c = Unit
IsNumbered n (s ∷ names) c =
    cond (s == "api") (IsNumbered n names c)
      ((option c s "order" ≡ some (str n)) × IsNumbered (n + 1) names c)

abbrev pub SameOrders : Conf → Conf → Type 0
SameOrders c d = (s : String) → option c s "order" ≡ option d s "order"

abbrev pub after : String → ℕ → Section → Conf → Conf
after s n sec c = insert s (with_defaults (ordered n sec)) c

-- one option after a round
pub option-after :
    (s : String) (n : ℕ) (sec : Section) (c : Conf) (s' k : String)
    → option (after s n sec c) s' k
      ≡ cond (s == s') (lookup k (with_defaults (ordered n sec))) (option c s' k)
option-after s n sec c s' k = option-insert s (with_defaults (ordered n sec)) c s' k

-- A round adds no name, and takes no credential away.
pub after-HasCredentials :
    (s : String) (n : ℕ) (sec : Section) (c : Conf) (s' : String)
    → lookup s c ≡ some sec
    → HasCredentials c s'
    → HasCredentials (after s n sec c) s'
after-HasCredentials s n sec c s' there (a, t, ha, ht) = (
  a,
  t,
  ground (
    arith,
    option-after s n sec c s' "accesskey",
    lookup-with_defaults "accesskey" (ordered n sec),
    lookup-insert "order" "accesskey" (str n) sec,
    option-there s c sec there "accesskey",
    eq_iff s s',
    ha,
  ),
  ground (
    arith,
    option-after s n sec c s' "secretkey",
    lookup-with_defaults "secretkey" (ordered n sec),
    lookup-insert "order" "secretkey" (str n) sec,
    option-there s c sec there "secretkey",
    eq_iff s s',
    ht,
  ),
)

pub after-AllCredentials :
    (s : String) (n : ℕ) (sec : Section) (c : Conf) (names : List String)
    → lookup s c ≡ some sec
    → AllCredentials names c
    → AllCredentials names (after s n sec c)
after-AllCredentials s n sec c [] there h = tt
after-AllCredentials s n sec c (t ∷ names) there h = (
  λ e. after-HasCredentials s n sec c t there (h.0 e),
  after-AllCredentials s n sec c names there h.1,
)

pub order-after :
    (s : String) (n : ℕ) (sec : Section) (c : Conf)
    → option (after s n sec c) s "order" ≡ some (str n)
order-after s n sec c = ground (
  arith,
  option-after s n sec c s "order",
  lookup-with_defaults "order" (ordered n sec),
  lookup-insert "order" "order" (str n) sec,
  eq_refl s,
)

-- The section of a profile that has an option.
pub section_of :
    (s k : String) (c : Conf) (v : String)
    → option c s k ≡ some v
    → (sec : Section) × (lookup s c ≡ some sec)
unfolding option
section_of s k c v h = ground arith

-- The file that a round writes has the orders that the parser then has.
pub SameOrders-after :
    (s : String) (n : ℕ) (sec : Section) (c : Conf)
    → SameOrders (insert s (ordered n sec) c) (after s n sec c)
SameOrders-after s n sec c s' = ground (
  arith,
  option-after s n sec c s' "order",
  lookup-with_defaults "order" (ordered n sec),
  lookup-insert "order" "order" (str n) sec,
  option-insert s (ordered n sec) c s' "order",
)

pub described_ok :
    (s : String) (n : ℕ) (sec : Section) (c : Conf)
    → lookup s c ≡ some sec
    → HasCredentials c s
    → (aws : AwsConfig) × (described s (ordered n sec) ≡ ok aws)
      × (aws.config_name ≡ s)
      × (aws.order ≡ str n)
described_ok s n sec c there (a, t, ha, ht) = (
  aws_config s (ordered n sec) (str n) a t,
  ground (
    arith,
    lookup-insert "order" "order" (str n) sec,
    lookup-insert "order" "accesskey" (str n) sec,
    lookup-insert "order" "secretkey" (str n) sec,
    option-there s c sec there "accesskey",
    option-there s c sec there "secretkey",
  ),
  refl,
  refl,
)
