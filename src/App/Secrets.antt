-- ===== src/App/Secrets.antt =====
-- What `/get_config` of app.py sends.
use aws_iprotate_python.Prelude.{String, ◌≡◌, none}
use aws_iprotate_python.Prelude.Dict.{Dict, lookup, lookup-insert, lookup-remove}
use aws_iprotate_python.Config.{AwsConfig}
use aws_iprotate_python.Tasks.{Profile}
use aws_iprotate_python.Replies.{Value, config_detail}

-- The object of `/get_config` never has the credentials of the account, nor the key of the profile,
-- whatever the response held before.
pub config_detail_hides :
    (response : Dict Value) (aws : AwsConfig) (p : Profile) (socks5 http : String)
    → let d = config_detail response aws p socks5 http in
      (lookup "accessKey" d ≡ none) × (lookup "secretKey" d ≡ none) × (lookup "apikey" d ≡ none)
unfolding config_detail
config_detail_hides response aws p socks5 http = (
  simp (lookup-insert, lookup-remove),
  simp (lookup-insert, lookup-remove),
  simp (lookup-insert, lookup-remove),
)
