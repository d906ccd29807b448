-- ===== src/Connection/Rules.antt =====
-- What `delete_rules` and `apply_whitelist` of functions/connection.py do to the firewall.
use mathlib.Core.List.{reverse, reverse-append, append_assoc}
use aws_iprotate_python.Prelude.{
  ℕ, zero, suc, String, ◌<>◌, ◌≡◌, refl, List, [], ◌∷◌, ◌++◌, arith, if◌then◌else◌, ◌∙◌, ap, sym,
  Option, none, some, map,
}
use aws_iprotate_python.Prelude.Lists.{length}
use aws_iprotate_python.Py.{Result, ok, for_each, for_each-append}
use aws_iprotate_python.Outside.{Net}
use aws_iprotate_python.Connection.{
  Firewall, rule_matches, delete_matching, delete_rules, allow_address, apply_entries,
  apply_whitelist,
}
use aws_iprotate_python.Prelude.Text.{strip}

-- The rules that are not the profile's, in their order.
abbrev pub keep : String → List String → List String
keep app [] = []
keep app (r ∷ rs) = if rule_matches app r then keep app rs else r ∷ keep app rs

-- ufw numbers its rules from 1.
abbrev pub numbered : ℕ → List String → List (ℕ × String)
numbered n [] = []
numbered n (r ∷ rs) = (n, r) ∷ numbered (suc n) rs

-- the list without its n-th element, counted from 0
abbrev pub remove_at {ℓ} : {A : Type ℓ} → ℕ → List A → List A
remove_at n [] = []
remove_at zero (x ∷ xs) = xs
remove_at (suc n) (x ∷ xs) = x ∷ remove_at n xs

-- What is documented of pyufw: `status()` numbers the rules and changes nothing, and `delete(n)`
-- takes the n-th rule away, so that those behind it move up.
pub record IsUfw {W : Type 0} (net : Net W) (rules : W → List String) : Type 0 where
  pub status : (w : W) → net.ufw_rules w ≡ (ok (numbered 1 (rules w)), w)
  pub delete : (n : ℕ) (w : W) → (net.ufw_delete (suc n) w).0 ≡ ok tt
  pub deleted : (n : ℕ) (w : W) → rules (net.ufw_delete (suc n) w).1 ≡ remove_at n (rules w)

length-concat {ℓ} : {A : Type ℓ} (xs : List A) (x : A) → suc (length xs) ≡ length (xs ++ x ∷ [])
length-concat [] x = refl
length-concat (y ∷ xs) x = ap suc (length-concat xs x)

remove_at-append {ℓ} :
    {A : Type ℓ} (front : List A) (x : A) (rest : List A)
    → remove_at (length front) (front ++ x ∷ rest) ≡ front ++ rest
remove_at-append [] x rest = refl
remove_at-append (y ∷ front) x rest = ap (λ l. y ∷ l) (remove_at-append front x rest)

module _ {W : Type 0} (net : Net W) (rules : W → List String) (ufw : IsUfw net rules)
    (app : String) where
  -- one rule, behind `front`
  delete_one :
      (front rest : List String) (r : String) (w : W)
      → rules w ≡ front ++ r ∷ rest
      → let done = delete_matching net app (suc (length front), r) w in
        (done.0 ≡ ok tt) × (rules done.1 ≡ front ++ (if rule_matches app r then rest else r ∷ rest))
  unfolding delete_matching
  delete_one front rest r w h = ground (
    arith,
    ufw.delete (length front) w,
    ufw.deleted (length front) w,
    remove_at-append front r rest,
  )

  abbrev run : List (ℕ × String) → W → Result (Unit {0}) × W
  run l = for_each (reverse l) (delete_matching net app)

  run-cons :
      (x : ℕ × String) (l : List (ℕ × String)) (w : W)
      → (run l w).0 ≡ ok tt
      → (delete_matching net app x (run l w).1).0 ≡ ok tt
      → run (x ∷ l) w ≡ (ok tt, (delete_matching net app x (run l w).1).1)
  unfolding for_each
  run-cons x l w h k =
      rw (reverse-append (x ∷ []) l)
        (rw (for_each-append (reverse l) (x ∷ []) (delete_matching net app) w) (ground arith))

  -- The loop over the rules behind `front`, from the last to the first.
  loop :
      (front back : List String) (n : ℕ) (w : W)
      → n ≡ length front
      → rules w ≡ front ++ back
      → let done = run (numbered (suc n) back) w in
        (done.0 ≡ ok tt) × (rules done.1 ≡ front ++ keep app back)
  unfolding for_each
  loop front [] n w e h = (refl, h)
  loop front (r ∷ back) n w e h =
      let l = numbered (suc (suc n)) back in
      let (ran, left) =
        loop (front ++ r ∷ []) back (suc n) w (ap suc e ∙ length-concat front r)
          (h ∙ sym (append_assoc front (r ∷ []) back)) in
      let (deleted, rest) =
        delete_one front (keep app back) r (run l w).1
          (left ∙ append_assoc front (r ∷ []) (keep app back)) in
      rw (e) (
        let step = run-cons (suc (length front), r) l w ran deleted in
        ground (arith, step, e, deleted, rest))

-- Where pyufw behaves as documented, `delete_rules` returns and leaves exactly the rules that do not
-- match the profile, in their order: no index goes stale, since the loop starts from the last.
pub delete_rules_lem :
    {W : Type 0} (net : Net W) (rules : W → List String) (ufw : IsUfw net rules) (fw : Firewall)
    (w : W)
    → ((delete_rules net fw w).0 ≡ ok tt)
      × (rules (delete_rules net fw w).1 ≡ keep fw.app_name (rules w))
unfolding delete_rules
delete_rules_lem net rules ufw fw w =
    ground (arith, ufw.status w, loop net rules ufw fw.app_name [] (rules w) 0 w refl refl)

-- The commands, for the profile `app`.
abbrev pub allow_from : String → String → String
allow_from app ip = "ufw allow from " <> ip <> " to any app " <> app <> " > /dev/null 2>&1"

abbrev pub allow_all : String → String
allow_all app = "ufw allow from any to any app " <> app <> " > /dev/null 2>&1"

abbrev pub reject_all : String → String
reject_all app = "ufw reject from any to any app " <> app <> " > /dev/null 2>&1"

module _ {W : Type 0} (net : Net W) where
  -- The addresses that the standard library accepts, stripped, in their order.
  abbrev pub accepted : List String → List String
  accepted [] = []
  accepted (entry ∷ entries) =
      if net.ip_network (strip entry) then strip entry ∷ accepted entries else accepted entries

  -- the commands run one after another
  abbrev pub run_all : List String → W → W
  run_all [] w = w
  run_all (command ∷ commands) w = run_all commands (net.os_system command w)

  -- The commands of a whitelist: one for each accepted address, and at the end the refusal.
  abbrev pub commands : String → Option (List String) → List String
  commands app none = allow_all app ∷ []
  commands app (some entries) = map (allow_from app) (accepted entries) ++ reject_all app ∷ []

  allow_each :
      (app : String) (entries last : List String) (w : W)
      → run_all last (for_each entries (allow_address net app) w).1
        ≡ run_all (map (allow_from app) (accepted entries) ++ last) w
  unfolding for_each allow_address
  allow_each app [] last w = refl
  allow_each app (entry ∷ entries) last w = ground (
    arith,
    allow_each app entries last w,
    allow_each app entries last (allow_address net app entry w).1,
  )

  allow_each_ok :
      (app : String) (entries : List String) (w : W)
      → (for_each entries (allow_address net app) w).0 ≡ ok tt
  unfolding for_each allow_address
  allow_each_ok app [] w = refl
  allow_each_ok app (entry ∷ entries) w = ground (
    arith,
    allow_each_ok app entries w,
    allow_each_ok app entries (allow_address net app entry w).1,
  )

  apply_entries_lem :
      (app : String) (o : Option (List String)) (w : W)
      → apply_entries net app o w ≡ (ok tt, run_all (commands app o) w)
  unfolding apply_entries
  apply_entries_lem app none w = refl
  apply_entries_lem app (some entries) w =
      ground (arith, allow_each app entries (reject_all app ∷ []) w, allow_each_ok app entries w)

  -- `apply_whitelist` always returns, and has run: for a whitelist, one allow command for each
  -- entry that is an address once stripped, in the order of the list, and then the command that
  -- refuses all others; without one, the single command that allows all.
  pub apply_whitelist_lem :
      (fw : Firewall) (w : W)
      → apply_whitelist net fw w ≡ (ok tt, run_all (commands fw.app_name fw.whitelist) w)
  unfolding apply_whitelist
  apply_whitelist_lem fw w = apply_entries_lem fw.app_name fw.whitelist w
