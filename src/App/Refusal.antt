-- ===== src/App/Refusal.antt =====
-- A request with a wrong key: the check that every handler of app.py begins with.
use aws_iprotate_python.Prelude.{
  some, String, ◌≡◌, refl, sym, ap, subst, ◌∙◌, false, arith, if◌then◌else◌,
}
use aws_iprotate_python.Py.{ok, Exec, pure}
use aws_iprotate_python.Py.Keeps.{bind_ok}
use aws_iprotate_python.Config.{ApiConfig, AwsConfig}
use aws_iprotate_python.Config.Frame.{new_loader-SameRest}
use aws_iprotate_python.Run.{World}
use aws_iprotate_python.Tasks.{Server}
use aws_iprotate_python.Replies.{Request, Response, says, authorised}
use aws_iprotate_python.App.{
  get_change_region, change_region_to, open_config, with_key, get_start_process, get_reset,
  get_change_auth, get_available_region, get_config_detail, change_whitelist,
}

-- `s'` has the profiles, the threads, the generated files and the outside world of `s`.
pub record Untouched {W : Type 0} (s s' : Server W) : Type 0 where
  profile : s'.profile ≡ s.profile
  threads : s'.threads ≡ s.threads
  files : s'.host.files ≡ s.host.files
  world : s'.host.world ≡ s.host.world

open_config-Untouched :
    {W : Type 0} (req : Request) (s : Server W) → Untouched s (open_config req s).1
unfolding open_config
open_config-Untouched req s = ground (arith, new_loader-SameRest s.host)

-- `m` sends the refusal and changes nothing else than the file of settings.
pub record Refuses {W : Type 0} (m : Exec (Server W) Response) (s : Server W) : Type 0 where
  answer : (m s).0 ≡ ok (says "Invalid API key")
  untouched : Untouched s (m s).1

module _ {W : Type 0} (req : Request) (s : Server W) {name : String} {api : ApiConfig}
    {aws : AwsConfig} (opened : (open_config req s).0 ≡ ok (name, api, aws))
    (wrong : authorised req.apikey api aws ≡ false) where
  with_key-Refuses :
      (rest : String → ApiConfig → AwsConfig → Exec (Server W) Response)
      → Refuses (with_key req rest) s
  with_key-Refuses rest =
      let s' : Server W = (open_config req s).1 in
      let e : with_key req rest s ≡ (ok (says "Invalid API key"), s') =
        bind_ok (open_config req)
          (λ x.
            if authorised req.apikey x.1 x.2
            then rest x.0 x.1 x.2
            else pure (says "Invalid API key"))
          s (ap (λ x. (x, s')) opened)
        ∙ rw (wrong) refl in
      record {
        answer = ap (λ x. x.0) e;
        untouched = subst (λ x. Untouched s x.1) (sym e) (open_config-Untouched req s);
      }

  -- A request whose config opens, and whose key is neither the service's nor the profile's, is refused
  -- by these six handlers: the answer is "Invalid API key", and no profile, no thread, no generated
  -- file and nothing outside the program has changed.
  pub wrong_key-Refuses :
      (world : World W)
      → Refuses (get_start_process world req) s
        × Refuses (get_reset world req) s
        × Refuses (get_change_auth world req) s
        × Refuses (get_available_region world req) s
        × Refuses (get_config_detail world req) s
        × Refuses (change_whitelist world req) s
  unfolding get_start_process get_reset get_change_auth get_available_region get_config_detail
      change_whitelist
  wrong_key-Refuses world = (
    with_key-Refuses _,
    with_key-Refuses _,
    with_key-Refuses _,
    with_key-Refuses _,
    with_key-Refuses _,
    with_key-Refuses _,
  )

  -- `/change_region` with a new region refuses such a request in the same way, before it looks at the
  -- region.
  pub get_change_region-Refuses :
      (world : World W) (region : String)
      → req.new_region ≡ some region
      → Refuses (get_change_region world req) s
  unfolding get_change_region change_region_to
  get_change_region-Refuses world region given =
      subst (λ o. Refuses (change_region_to world req o) s) (sym given) (with_key-Refuses _)
