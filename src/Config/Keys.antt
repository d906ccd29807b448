-- ===== src/Config/Keys.antt =====
-- The section of the web service, with the WireGuard keys, which `load_api_config` of
-- functions/main.py reads: it outlives ConfigLoader().
use aws_iprotate_python.Prelude.{◌≡◌, refl, some, arith}
use aws_iprotate_python.Py.{ok}
use aws_iprotate_python.Py.Ensures.{Ensures}
use aws_iprotate_python.ConfigParser.{Conf, get, get_option, option}
use aws_iprotate_python.Host.{Host}
use aws_iprotate_python.Config.{ApiConfig, load_api_config, new_loader}
use aws_iprotate_python.Config.Stable.{IsStable, value-IsStable, new_loader-Ensures}

-- the options behind an ApiConfig
abbrev HasApi : ApiConfig → Conf → Type 0
HasApi api c =
    (option c "api" "apikey" ≡ some api.apikey)
    × (option c "api" "port" ≡ some api.port)
    × (option c "api" "interfacewgprivatekey" ≡ some api.interface_wg_private_key)
    × (option c "api" "interfacewgpublickey" ≡ some api.interface_wg_public_key)
    × (option c "api" "peerwgpublickey" ≡ some api.peer_wg_public_key)
    × (option c "api" "peerwgprivatekey" ≡ some api.peer_wg_private_key)
    × (option c "api" "publicip" ≡ some api.publicip)
    × (option c "api" "sshkeypath" ≡ some api.ssh_key_path)

has_api : (api : ApiConfig) (c : Conf) → (load_api_config c).0 ≡ ok api → HasApi api c
unfolding load_api_config get get_option option
has_api api c e = ground arith

loads_api : (api : ApiConfig) (c : Conf) → HasApi api c → (load_api_config c).0 ≡ ok api
unfolding load_api_config get get_option option
loads_api api c h = ground arith

HasApi-IsStable : (api : ApiConfig) → IsStable (HasApi api)
HasApi-IsStable api = record {
  fill = λ s k x sec c there why (a, b, d, e, f, g, i, j). (
    (value-IsStable "api" "apikey" api.apikey refl).fill s k x sec c there why a,
    (value-IsStable "api" "port" api.port refl).fill s k x sec c there why b,
    (value-IsStable "api" "interfacewgprivatekey" api.interface_wg_private_key refl).fill s k x sec
        c there why d,
    (value-IsStable "api" "interfacewgpublickey" api.interface_wg_public_key refl).fill s k x sec c
        there why e,
    (value-IsStable "api" "peerwgpublickey" api.peer_wg_public_key refl).fill s k x sec c there why
        f,
    (value-IsStable "api" "peerwgprivatekey" api.peer_wg_private_key refl).fill s k x sec c there
        why g,
    (value-IsStable "api" "publicip" api.publicip refl).fill s k x sec c there why i,
    (value-IsStable "api" "sshkeypath" api.ssh_key_path refl).fill s k x sec c there why j,
  );
}

module _ {W : Type 0} (h : Host W) where
  -- the loader has the section of the file that it was made from
  pub new_loader-Loads :
      Ensures (λ loader _. (load_api_config h.conf).0 ≡ ok loader.api_config) (new_loader h)
  unfolding new_loader
  new_loader-Loads = record { at = λ loader e. ground (arith) }

  -- and the file has that section afterwards
  pub new_loader-Keys :
      Ensures
        (λ loader h'.
          ((load_api_config h.conf).0 ≡ ok loader.api_config)
          × ((load_api_config h'.conf).0 ≡ ok loader.api_config))
        (new_loader h)
  new_loader-Keys = record {
    at = λ loader e.
        let api = loader.api_config in
        let loads = new_loader-Loads.at loader e in
        let kept =
          (new_loader-Ensures (HasApi api) (HasApi-IsStable api) h (has_api api h.conf loads)).at
            loader e in
        (loads, loads_api api (new_loader h).1.conf kept.1);
  }
