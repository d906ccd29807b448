-- ===== src/Profile/Tunnel.antt =====
-- The two ends of the WireGuard tunnel: the file of `generate_profile_config` and that of
-- `generate_peer_config`, of functions/main.py.
use aws_iprotate_python.Prelude.{
  ℕ, String, ◌<>◌, ◌≡◌, refl, Bool-cases, inl, inr, none, some, ◌==◌, if◌then◌else◌,
}
use mathlib.Core.Option
use aws_iprotate_python.Prelude.Dict.{lookup}
use aws_iprotate_python.ConfigParser.{Conf, option}
use aws_iprotate_python.Config.{ApiConfig}
use aws_iprotate_python.Profile.{wg_config, peer_config}

-- The two ends as values of their files: the keys, the addresses and the endpoint fit.
abbrev pub Joined : ApiConfig → String → Conf → Conf → Type 0
Joined api newip near far =
    let here = option near in
    let there = option far in
    (here "Interface" "privatekey" ≡ some api.interface_wg_private_key)
    × (there "Peer" "publickey" ≡ some api.interface_wg_public_key)
    × (there "Interface" "privatekey" ≡ some api.peer_wg_private_key)
    × (here "Peer" "publickey" ≡ some api.peer_wg_public_key)
    × (here "Interface" "address" ≡ there "Peer" "allowedips")
    × (there "Interface" "address" ≡ here "Peer" "allowedips")
    × (here "Peer" "endpoint" ≡ (
        if newip == ""
        then none
        else Option.map (λ p. newip <> (":" <> p)) (there "Interface" "listenport")))

-- Each end has one key pair's private key and the other pair's public key; it lets through the
-- address that the other end has. Where the instance has an address, this end looks for the other
-- at that address, at the port where the other end listens.
pub tunnel_ends :
    (api : ApiConfig) (order name : String) (port : ℕ) (newip : String)
    → Joined api newip (wg_config api order name port newip) (peer_config api order)
unfolding wg_config peer_config option lookup
tunnel_ends api order name port newip = elim (Bool-cases (newip == "")) [
  | inl e ↦ rw e (refl, refl, refl, refl, refl, refl, refl)
  | inr e ↦ rw e (refl, refl, refl, refl, refl, refl, refl)
]
