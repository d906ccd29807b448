-- ===== src/Profile/Paths.antt =====
-- The paths of the files that functions/main.py and functions/connection.py write: which of them
-- differ from that of the tunnel's file.
use aws_iprotate_python.Prelude.{String, ◌<>◌, ◌≡◌, false, ◌==◌, refl, sym, subst, ap, ◌∙◌}
use aws_iprotate_python.Prelude.Prefix.{starts_apart, ends_apart}
use text.Mathlib.Text.{starts_with}
use text.Mathlib.TextLemmas.{append_assoc}
use aws_iprotate_python.Profile.{profile_name, interface_name}

abbrev pub tunnel_path : String → String → String
tunnel_path order name =
    "profile_config/" <> profile_name order name <> "/" <> interface_name order name <> ".conf"

-- the end of the tunnel that is sent to the instance
abbrev pub peer_path : String → String → String
peer_path order name =
    "/opt/cloud-iprotate/profile_config/" <> profile_name order name <> "/wg0.conf"

-- a file of another directory than the program's own
pub tunnel-elsewhere :
    (order name b v : String)
    → starts_with b "profile_config/" ≡ false
    → starts_with "profile_config/" b ≡ false
    → (b <> v == tunnel_path order name) ≡ false
tunnel-elsewhere order name b v n m = starts_apart b "profile_config/" v _ n m

-- a file of the profile's directory
pub tunnel-directory :
    (order name p file : String)
    → (("/opt/cloud-iprotate/profile_config/" <> p) <> file == tunnel_path order name) ≡ false
tunnel-directory order name p file =
    rw (append_assoc "/opt/cloud-iprotate/profile_config/" p file)
      (tunnel-elsewhere order name "/opt/cloud-iprotate/profile_config/" (p <> file) refl refl)

-- the proxy's file
pub tunnel-proxy :
    (order name : String)
    → ("profile_config/"
          <> profile_name order name
          <> "/proxy_"
          <> profile_name order name
          <> ".cfg"
        == tunnel_path order name)
      ≡ false
tunnel-proxy order name =
    let r : String = order <> "_" <> name in
    ends_apart "profile_config/" _ _ (
      ends_apart (profile_name order name) _ _ (
        subst (λ s. ("/proxy_" <> profile_name order name <> ".cfg" == s) ≡ false)
          (append_assoc "/" "ip_" (r <> ".conf")
            ∙ ap (λ s. "/" <> s) (sym (append_assoc "ip_" r ".conf")))
          (starts_apart "/proxy_" "/ip_" _ (r <> ".conf") refl refl)))
