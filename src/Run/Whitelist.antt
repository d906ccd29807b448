-- ===== src/Run/Whitelist.antt =====
-- What `change_whitelist` of functions/run.py has done where it answers success: config.conf and
-- the firewall.
use aws_iprotate_python.Config.Sets.{set_loader_value-Ensures, write_changes-Ensures, HasValue}
use aws_iprotate_python.Run.Untouched.{renew_firewall_lem, set_whitelist-Leaves}
use aws_iprotate_python.Connection.Made.{registered, entries_of, IsFor, new_firewall-Ensures}
use aws_iprotate_python.Config.Frame.{new_loader-SameRest}
use aws_iprotate_python.Prelude.{
  ℕ, String, ◌≡◌, refl, sym, subst, ap, ◌∙◌, inl, inr, Option, some, List, ◌⊎◌, none,
  some_injective, [], ◌∷◌,
}
use aws_iprotate_python.Prelude.Text.{int, strip, split}
use aws_iprotate_python.Py.{ok, err, message, Result}
use aws_iprotate_python.Py.Ensures.{Ensures, Ensures-ok, Ensures-bind, Leaves}
use aws_iprotate_python.ConfigParser.{AllDistinct, option, as_read}
use aws_iprotate_python.Host.{Host}
use aws_iprotate_python.Outside.{Net}
use aws_iprotate_python.Config.{new_loader, set_loader_value, write_changes}
use aws_iprotate_python.Config.Stable.{distinct-IsStable, new_loader-Ensures}
use aws_iprotate_python.Connection.{Firewall, app_of, new_firewall, delete_rules}
use aws_iprotate_python.Connection.Rules.{IsUfw, keep, commands, run_all, delete_rules_lem}
use aws_iprotate_python.Run.{
  World, Answer, succeeded, whitelisted, Kwargs, answering, change_whitelist, set_whitelist,
  renew_firewall, failed, failure,
}

-- config.conf has the whitelist; the firewall has lost the rules that matched the profile of this
-- order, and then the commands of the whitelist have been run.
pub record Whitelisted {W : Type 0} (net : Net W) (rules : W → List String) (name : String)
    (asked : Option String) (v : W) (a : Answer) (h : Host W) : Type 0 where
  pub whitelist : String
  pub order : String
  pub number : ℕ
  pub left : W
  pub given : asked ≡ some whitelist
  pub answer : a ≡ succeeded (whitelisted (some whitelist))
  pub on_disk : option h.conf name "whitelist" ≡ some (strip whitelist)
  pub ordered : option h.conf name "order" ≡ some order
  pub numbered : int order ≡ some number
  pub kept : rules left ≡ keep (app_of number) (rules (registered net v))
  pub ran : h.world ≡ run_all net (commands net (app_of number) (entries_of (strip whitelist))) left

-- A text that stands in config.conf as one line, and that the parser does not interpolate.
abbrev pub IsPlain : String → Type 0
IsPlain w = (split b'\n' w ≡ w ∷ []) × (split b'\r' w ≡ w ∷ []) × (split b'%' w ≡ w ∷ [])

module _ {W : Type 0} (world : World W) (rules : W → List String) (ufw : IsUfw world.net rules)
    (kwargs : Kwargs) (v : W) where
  open world use {net}

  abbrev Holds : Answer → Host W → Type 0
  Holds = Whitelisted net rules kwargs.config_name kwargs.new_whitelist v

  ends :
      (w : String) (fw : Firewall) (h : Host W)
      → kwargs.new_whitelist ≡ some w
      → IsFor net kwargs.config_name (strip w) v fw h
      → Ensures Holds ((renew_firewall world kwargs) fw h)
  ends w fw h given f =
      let left : W = (delete_rules net fw h.world).1 in
      subst (Ensures Holds) (sym (renew_firewall_lem world rules ufw kwargs fw h)) (
        Ensures-ok _ _ (record {
          whitelist = w;
          order = f.order;
          number = fw.order;
          left = left;
          given = given;
          answer = ap (λ o. succeeded (whitelisted o)) given;
          on_disk = f.saved;
          ordered = f.on_disk;
          numbered = f.numbered;
          kept =
              (delete_rules_lem net rules ufw fw h.world).1
              ∙ ap (λ app. keep app (rules h.world)) f.app
              ∙ ap (λ u. keep (app_of fw.order) (rules u)) f.world;
          ran =
              ap (λ app. run_all net (commands net app fw.whitelist) left) f.app
              ∙ ap (λ es. run_all net (commands net (app_of fw.order) es) left) f.entries;
        }))

  -- a value that was read back
  read_back :
      (o : Option String) (u : String)
      → as_read o ≡ some u
      → (w : String) × (o ≡ some w) × (strip w ≡ u)
  read_back none u e = absurd (cc)
  read_back (some w) u e = (w, refl, some_injective e)

  set_whitelist-Ensures :
      (h : Host W) → h.world ≡ v → AllDistinct h.conf → Ensures Holds (set_whitelist world kwargs h)
  unfolding set_whitelist
  set_whitelist-Ensures h same distinct = Ensures-bind new_loader _ h loads_distinct λ loader h₁ k.
      Ensures-bind
        (set_loader_value kwargs.config_name "whitelist" (as_read kwargs.new_whitelist) loader) _ h₁
        (set_loader_value-Ensures kwargs.config_name "whitelist" (as_read kwargs.new_whitelist)
          loader h₁ k.0)
        λ l h₂ ((u, stored, s₀), same₂).
          let (w, given, stripped) = read_back kwargs.new_whitelist u stored in
          let s = subst (λ u. HasValue kwargs.config_name "whitelist" u l) (sym stripped) s₀ in
          Ensures-bind (write_changes kwargs.config_name l) _ h₂
            (write_changes-Ensures kwargs.config_name "whitelist" (strip w) l h₂ s)
            λ _ h₃ (saved, same₃).
              Ensures-bind (new_firewall net kwargs.config_name) (renew_firewall world kwargs) h₃
                (new_firewall-Ensures net kwargs.config_name (strip w) v h₃ saved
                  (same₃ ∙ ap (λ h. h.world) same₂ ∙ k.1))
                λ fw h₄ f. ends w fw h₄ given f
    where
      loads_distinct :
          Ensures (λ loader h'. AllDistinct loader.config × (h'.world ≡ v)) (new_loader h)
      loads_distinct = record {
        at = λ a e. (
          ((new_loader-Ensures AllDistinct distinct-IsStable h distinct).at a e).0,
          (new_loader-SameRest h).world ∙ same,
        );
      }

  -- The task fails with a text, and nothing outside the program has changed; or it has done all.
  abbrev pub AllOrNothing : Result Answer × Host W → Type 0
  AllOrNothing x =
      ((text : String) × (x.0 ≡ ok (failed (failure text))) × (x.1.world ≡ v))
      ⊎ ((a : Answer) × (x.0 ≡ ok a) × Holds a x.1)

  all_or_nothing :
      (x : Result Answer × Host W)
      → Ensures Holds x
      → Leaves (λ h. h.world ≡ v) x
      → AllOrNothing (answering (λ _. x) x.1)
  unfolding answering
  all_or_nothing (ok a, h) p q = inr (a, refl, p.at a refl)
  all_or_nothing (err e, h) p q = inl (message e, refl, q.at e refl)

  -- For a file in which no option stands twice and a whitelist of one line without `%`, where pyufw
  -- behaves as documented: `change_whitelist` always returns. Either it fails with a text, and the
  -- firewall and all else outside the program is as it was; or it succeeds, and then config.conf has
  -- the whitelist that was asked for, without the blanks at its ends, the rules that matched the
  -- profile of the order in the file are gone and all others stay in their order, and then the commands
  -- of that whitelist, and no others, have been run. One that is blank is none: everything is allowed.
  pub change_whitelist_lem :
      (h : Host W)
      → ((w : String) → kwargs.new_whitelist ≡ some w → IsPlain w)
      → h.world ≡ v
      → AllDistinct h.conf
      → AllOrNothing (change_whitelist world kwargs h)
  unfolding change_whitelist answering
  change_whitelist_lem h plain same distinct =
      all_or_nothing (set_whitelist world kwargs h) (set_whitelist-Ensures h same distinct)
        (set_whitelist-Leaves world rules ufw kwargs v h same)
