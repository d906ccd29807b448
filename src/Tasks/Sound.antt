-- ===== src/Tasks/Sound.antt =====
-- The invariant of one profile of functions/task_manager.py, and insertions into the dict of profiles.
use aws_iprotate_python.Prelude.{
  String, ◌≡◌, refl, sym, subst, ◌∙◌, ◌⊎◌, inl, inr, Option, none, some, List, [], ◌∷◌, ◌++◌, arith,
  ◌==◌, eq_iff, Bool, true, false, cond, some_injective,
}
use aws_iprotate_python.Prelude.Dict.{Dict, lookup, insert, lookup-insert}
use aws_iprotate_python.Run.{Kwargs}
use aws_iprotate_python.Tasks.{Status, idle, busy, Profile}
use aws_iprotate_python.Tasks.Idles.{Idles, same, puts}
use aws_iprotate_python.Tasks.Threads.{System}

-- a status and the task that goes with it
abbrev pub Matches : Status → Option String → Type 0
Matches idle task = task ≡ none
Matches busy task = (t : String) × (task ≡ some t)

-- Every profile that is registered has a property, under its name.
abbrev pub Every : (String → Profile → Type 0) → Dict Profile → Type 0
Every P profiles = (name : String) (p : Profile) → lookup name profiles ≡ some p → P name p

pub Every-insert :
    (P : String → Profile → Type 0) (name : String) (q : Profile) (profiles : Dict Profile)
    → P name q
    → ((j : String) (p : Profile) → (name == j) ≡ false → lookup j profiles ≡ some p → P j p)
    → Every P (insert name q profiles)
Every-insert P name q profiles new old j p h =
    at_key (name == j) refl (sym (lookup-insert name j q profiles) ∙ h)
  where
    at_key : (b : Bool) → (name == j) ≡ b → cond b (some q) (lookup j profiles) ≡ some p → P j p
    at_key true is e =
        subst (λ x. P j x) (some_injective e) (subst (λ x. P x q) ((eq_iff name j).0 is) new)
    at_key false is e = old j p is e

-- One of the threads is on the profile `name`.
abbrev pub Held : String → List Kwargs → Type 0
Held name [] = ⊥
Held name (k ∷ ks) = (k.config_name ≡ name) ⊎ Held name ks

pub Held-split :
    (name : String) (before : List Kwargs) (k : Kwargs) (behind : List Kwargs)
    → Held name (before ++ k ∷ behind)
    → (k.config_name ≡ name) ⊎ Held name (before ++ behind)
Held-split name [] k behind h = h
Held-split name (b ∷ before) k behind (inl e) = inr (inl e)
Held-split name (b ∷ before) k behind (inr h) = elim (Held-split name before k behind h) [
  | inl e ↦ inl e
  | inr h' ↦ inr (inr h')
]

-- What a profile says of itself, and who makes it busy.
abbrev pub IsSound : (String → Type 0) → String → Profile → Type 0
IsSound H name p =
    (p.config_name ≡ name) × Matches p.status p.current_task × (p.status ≡ busy → H name)

pub idle-IsSound :
    (H : String → Type 0) (name : String) (q : Profile)
    → q.config_name ≡ name
    → q.status ≡ idle
    → q.current_task ≡ none
    → IsSound H name q
idle-IsSound H name q n s t =
    (n, subst (λ x. Matches x q.current_task) (sym s) t, λ e. absurd (ground arith))

pub Idles-Every :
    (H : String → Type 0) {name : String} {profiles profiles' : Dict Profile}
    → Idles name profiles profiles'
    → Every (IsSound H) profiles
    → Every (IsSound H) profiles'
Idles-Every H same all = all
Idles-Every H {name} {profiles} (puts q n s t) all =
    Every-insert (IsSound H) name q profiles (idle-IsSound H name q n s t) (λ j p _. all j p)

-- A busy profile has a thread that works on it, or one that died on it.
abbrev pub Worked : {W : Type 0} → System W → String → Type 0
Worked x name = Held name x.active ⊎ Held name x.dead

abbrev pub AllSound : {W : Type 0} → System W → Type 0
AllSound x = Every (IsSound (Worked x)) x.server.profile

-- who makes it busy may change, as long as it stays so
pub IsSound-map :
    (H K : String → Type 0) (name : String) (p : Profile)
    → (H name → K name)
    → IsSound H name p
    → IsSound K name p
IsSound-map H K name p f (n, m, b) = (n, m, λ e. f (b e))
