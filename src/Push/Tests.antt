-- ===== src/Push/Tests.antt =====
-- A git that adds the URL with the token "t" and then can change nothing more: its configuration is locked.
use text.Mathlib.TextLemmas.{append_inj, append_cancel_left, append_cancel_right}
use cdc_pipeline.Base.{
  String, ◌<>◌, ◌≡◌, refl, sym, ap, inl, inr, none, some, Option, true, false, [], ◌∷◌, str_eq,
  str_eq_iff, if◌then◌else◌, Bool-cases,
}
use cdc_pipeline.Push.{
  Completed, Shell, World, clean_remote, remove_command, add_command, remote_with_token,
  push_command, set_url_command, push_with,
}
use cdc_pipeline.Push.Clean.{Sets, IsGit, Origin, commands-push_with, origin-push_with}

abbrev with_t : String
with_t = remote_with_token "t"

abbrev locked : String → Option String → Completed × Option String
locked cmd s =
    if str_eq cmd (add_command with_t)
    then (record { returncode = 0; stdout = ""; stderr = "" }, some with_t)
    else (record { returncode = 1; stdout = ""; stderr = "could not lock config file" }, s)

abbrev git : Shell
git = record { State = Option String; run = locked }

add_command-inj : (a b : String) → add_command a ≡ add_command b → a ≡ b
add_command-inj a b e =
    append_cancel_right a b "\""
      (append_cancel_left "git remote add origin \"" (a <> "\"") (b <> "\"") e)

-- Texts of one length, the first a start of the command that sets a URL, the second of the one that adds.
abbrev set_url_head : String
set_url_head = "git remote set-url origin \""

abbrev add_head : String
add_head = "git remote add origin \"http"

set_url_is_no_add : (url : String) → str_eq (set_url_command url) (add_command with_t) ≡ false
set_url_is_no_add url = elim (Bool-cases (str_eq (set_url_command url) (add_command with_t))) [
  | inl same ↦
      let e : set_url_command url ≡ add_command with_t =
        (str_eq_iff (set_url_command url) (add_command with_t)).0 same in
      let heads =
        append_inj {s₁ = set_url_head} {s₂ = add_head} {t₁ = url <> "\""}
          {t₂ = "s://Anshu666666:t@github.com/Anshu666666/TransactFlow.git\""} e refl in
      let differ : true ≡ false = ap (λ t. str_eq t set_url_head) heads.0 in cc
  | inr other ↦ other
]

locked-add :
    (url : String) (s : Option String)
    → Sets (locked (add_command url) s).0 s (locked (add_command url) s).1 url
locked-add url s = elim (Bool-cases (str_eq (add_command url) (add_command with_t))) [
  | inl same ↦
      let e =
        add_command-inj url with_t ((str_eq_iff (add_command url) (add_command with_t)).0 same) in
      inl (rw same refl, rw same (ap some (sym e)))
  | inr other ↦ inr (rw other (λ h. cc), rw other refl)
]

locked-set_url :
    (url : String) (s : Option String)
    → Sets (locked (set_url_command url) s).0 s (locked (set_url_command url) s).1 url
locked-set_url url s = rw (set_url_is_no_add url) (inr ((λ h. cc), refl))

abbrev git-IsGit : IsGit git
git-IsGit = record { origin = λ s. s; add = locked-add; push = λ s. refl; set_url = locked-set_url }

abbrev fresh : World (Option String)
fresh = record { shell = none; out = []; commands = [] }

commands-push_with_example :
    (push_with git "t" fresh).commands
    ≡ remove_command
      ∷ add_command (remote_with_token "t")
      ∷ push_command
      ∷ set_url_command clean_remote
      ∷ []
commands-push_with_example = commands-push_with git "t" fresh

origin-push_with_example : Origin git git-IsGit "t" fresh (push_with git "t" fresh).shell
origin-push_with_example = origin-push_with git git-IsGit "t" fresh

-- The token is still there.
token_stays : (push_with git "t" fresh).shell ≡ some with_t
unfolding push_with
token_stays = refl
