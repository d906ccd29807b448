-- ===== src/Run/Region.antt =====
-- What `change_region` of functions/run.py has done where it answers, success or refusal.
use aws_iprotate_python.Run.Endpoint.{Moved, WithKeysOf}
use aws_iprotate_python.Prelude.Dict.{or_else}
use aws_iprotate_python.ConfigParser.{option}
use aws_iprotate_python.Prelude.{String, ◌≡◌, false, ◌⊎◌, none, some, ◌==◌}
use aws_iprotate_python.Py.Ensures.{Ensures}
use aws_iprotate_python.Host.{Host}
use aws_iprotate_python.Run
use aws_iprotate_python.Run.{
  World, Data, failure, notice, moved, rotated, Answer, succeeded, failed, Kwargs, RunTask,
  write_profile, serve_ip, settle_ip, change_ip, set_up_instance, serve_region, settle_region,
  prove_proxy,
}

module _ {W : Type 0} (world : World W) (self : RunTask) (kwargs : Kwargs) (h : Host W) where
  -- the region of the profile in config.conf, or the default
  abbrev pub RegionIs : String → Type 0
  RegionIs old = or_else (option h.conf kwargs.config_name "region") (some "us-east-1") ≡ some old

  -- the two answers of `change_region` that are no failure of a statement: the refusal of a request
  -- without a region, or with the region that the loader's section has; and the move
  abbrev pub Relocated : Answer → Host W → Type 0
  Relocated a h' =
      ((kwargs.new_region ≡ none) × (a ≡ failed (notice "New region is not provided")))
      ⊎ ((new : String) × (kwargs.new_region ≡ some new)
          × ((RegionIs new × (a ≡ failed (notice "New region is the same as the old region")))
              ⊎ ((old : String) × RegionIs old
                  × ((old == new) ≡ false)
                  × WithKeysOf h.conf (λ api. Moved api kwargs.config_name old new) a h')))
