-- ===== src/Aws/Reuse.antt =====
-- The search of `launch_instance` of functions/aws.py for an instance to use again.
use aws_iprotate_python.Prelude.{◌≡◌, ◌⊎◌, inl, inr, refl, none, List, [], ◌∷◌}
use aws_iprotate_python.Py.{ok, err, index_error, dict_hasattr}
use aws_iprotate_python.Outside.{Reservation}
use aws_iprotate_python.Aws.Launch.{find_reusable}

-- No instance is ever used again, not even one that is alive and has the role: the search finds
-- none, or raises at a reservation without instances, and changes nothing.
pub find_reusable-none :
    {S : Type 0} (rs : List Reservation) (s : S)
    → (find_reusable rs s ≡ (ok none, s)) ⊎ (find_reusable rs s ≡ (err index_error, s))
unfolding find_reusable dict_hasattr
find_reusable-none [] s = inl refl
find_reusable-none (r ∷ rs) s =
    elim r.instances
      as (λ is.
        (find_reusable (record r { instances = is } ∷ rs) s ≡ (ok none, s))
        ⊎ (find_reusable (record r { instances = is } ∷ rs) s ≡ (err index_error, s))) [
          | [] ↦ inr refl
          | i ∷ _ ↦ find_reusable-none rs s
        ]
