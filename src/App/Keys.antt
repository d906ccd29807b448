-- ===== src/App/Keys.antt =====
-- Who may use the handlers of app.py.
use aws_iprotate_python.Prelude.{String, ◌≡◌, ◌↔◌, ◌⊎◌, true, Option, none, some, arith, eq_iff}
use aws_iprotate_python.Prelude.Dict.{lookup}
use aws_iprotate_python.ConfigParser.{Section}
use aws_iprotate_python.Py.{ok}
use aws_iprotate_python.Config.{ApiConfig, AwsConfig}
use aws_iprotate_python.Config.Defaults.{described}
use aws_iprotate_python.Replies.{authorised}

-- A request passes exactly if it has a key, and this is the service's or the profile's.
pub authorised_iff :
    (given : Option String) (api : ApiConfig) (aws : AwsConfig)
    → (authorised given api aws ≡ true) ↔ ((given ≡ some api.apikey) ⊎ (given ≡ some aws.apikey))
unfolding authorised
authorised_iff none api aws = (λ h. cc, λ h. ground arith)
authorised_iff (some key) api aws = ground (arith, eq_iff key api.apikey, eq_iff key aws.apikey)

-- A profile with no key of its own is open: its section has no `apikey`, so that the default is the
-- empty text, and any request with an empty `apikey` passes.
pub authorised_empty :
    (name : String) (sec : Section) (api : ApiConfig) (aws : AwsConfig)
    → lookup "apikey" sec ≡ none
    → described name sec ≡ ok aws
    → authorised (some "") api aws ≡ true
unfolding authorised
authorised_empty name sec api aws missing d = ground (arith, eq_iff "" aws.apikey)
