-- ===== src/Profile/Ports.antt =====
-- The ports of the services of a profile, from functions/main.py.
use aws_iprotate_python.Prelude.{
  ℕ, ◌+◌, ◌<◌, zero, suc, String, ◌≡◌, ap, sym, ◌∙◌, Option, none, some, List, [], ◌∷◌, map, arith,
  some_injective,
}
use mathlib.Core.Option
use aws_iprotate_python.Prelude.Lists.{length}
use aws_iprotate_python.Prelude.Text.{int, int-str}
use aws_iprotate_python.ConfigParser.{sections}
use aws_iprotate_python.Host.{Host}
use aws_iprotate_python.Config.{
  AwsConfig, ConfigLoader, ss_base_port, wg_port_base, socks5_port_base, http_port_base,
}
use aws_iprotate_python.Config.Numbering.{numbers, profiles}
use aws_iprotate_python.Config.Orders.{Constructed}

-- the four services of a profile that listen
pub data Service : Type 0 where
  shadowsocks wireguard socks5 http : Service

abbrev pub base_of : Service → ℕ
base_of shadowsocks = ss_base_port
base_of wireguard = wg_port_base
base_of socks5 = socks5_port_base
base_of http = http_port_base

-- `self.xBasePort + int(order)`
abbrev pub port_of : Service → AwsConfig → Option ℕ
port_of service aws = Option.map (λ k. base_of service + k) (int aws.order)

abbrev pub get_elem? {ℓ} : {A : Type ℓ} → List A → ℕ → Option A
get_elem? [] i = none
get_elem? (x ∷ xs) zero = some x
get_elem? (x ∷ xs) (suc i) = get_elem? xs i

order_at :
    (configs : List AwsConfig) (names : List String) (n i : ℕ) (aws : AwsConfig)
    → map (λ (a : AwsConfig). a.order) configs ≡ numbers n names
    → get_elem? configs i ≡ some aws
    → (int aws.order ≡ some (n + i)) × (i < length configs)
order_at [] names n i aws counted there = absurd (ground arith)
order_at (a ∷ configs) [] n i aws counted there = absurd (ground arith)
order_at (a ∷ configs) (name ∷ names) n zero aws counted there =
    (ground (arith, int-str n), omega arith)
order_at (a ∷ configs) (name ∷ names) n (suc i) aws counted there =
    let (e, l) = order_at configs names (n + 1) i aws (ground arith) there in
    (e ∙ ap some (omega arith), omega arith)

ports_at :
    (m i j : ℕ) (s t : Service) (p : ℕ)
    → m < 5536
    → i < m
    → j < m
    → base_of s + (1 + i) ≡ p
    → base_of t + (1 + j) ≡ p
    → (p < 65536) × (s ≡ t) × (i ≡ j)
ports_at m i j s t p b hi hj e f = ground arith

-- With fewer than 5536 profiles, the ports of the profiles that ConfigLoader() has listed are numbers
-- of 16 bits, and two that are equal are the port of one service of one profile.
pub ports_distinct :
    {W : Type 0} {h h' : Host W} {loader : ConfigLoader} (i j : ℕ) (a b : AwsConfig) (s t : Service)
    (p : ℕ)
    → Constructed h loader h'
    → length loader.all_aws_configs < 5536
    → get_elem? loader.all_aws_configs i ≡ some a
    → get_elem? loader.all_aws_configs j ≡ some b
    → port_of s a ≡ some p
    → port_of t b ≡ some p
    → (p < 65536) × (s ≡ t) × (i ≡ j)
ports_distinct {W} {h} {h'} {loader} i j a b s t p made few at_i at_j port_a port_b =
    let (k, i_in) =
      order_at loader.all_aws_configs (profiles (sections h.conf)) 1 i a made.counted at_i in
    let (l, j_in) =
      order_at loader.all_aws_configs (profiles (sections h.conf)) 1 j b made.counted at_j in
    ports_at (length loader.all_aws_configs) i j s t p few i_in j_in
      (some_injective (ap (λ o. Option.map (λ n. base_of s + n) o) (sym k) ∙ port_a))
      (some_injective (ap (λ o. Option.map (λ n. base_of t + n) o) (sym l) ∙ port_b))
