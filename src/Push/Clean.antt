-- ===== src/Push/Clean.antt =====
-- Whether the token is in git's configuration afterwards.
use mathlib.Core.Path.{subst}
use mathlib.Core.List.{append_assoc}
use cdc_pipeline.Base.{
  String, ◌≡◌, ◌≢◌, refl, sym, ap, ◌∙◌, ◌⊎◌, inl, inr, Option, some, [], ◌∷◌, ◌++◌,
}
use cdc_pipeline.Push.{
  Completed, Shell, World, clean_remote, remote_with_token, remove_command, add_command,
  push_command, set_url_command, subprocess_run, run_cmd, push_with, print, print_some,
}

-- A command that exits with 0 has set the URL of `origin`; one that does not has left it alone.
abbrev pub Sets : Completed → Option String → Option String → String → Type 0
Sets res before after url =
    ((res.returncode ≡ 0) × (after ≡ some url)) ⊎ ((res.returncode ≢ 0) × (after ≡ before))

-- What the script relies on of git, as git documents it: the URL of `origin`, if there is one, changes by
-- the commands on remotes, each of which may fail, and not by a push.
pub record IsGit (G : Shell) : Type 0 where
  pub origin : G.State → Option String
  pub add :
      (url : String) (s : G.State)
      → Sets (G.run (add_command url) s).0 (origin s) (origin (G.run (add_command url) s).1) url
  pub push : (s : G.State) → origin (G.run push_command s).1 ≡ origin s
  pub set_url :
      (url : String) (s : G.State)
      → Sets
          (G.run (set_url_command url) s).0
          (origin s)
          (origin (G.run (set_url_command url) s).1)
          url

print_some_keeps :
    {S : Type 0} (text : String) (w : World S)
    → ((print_some text w).shell ≡ w.shell) × ((print_some text w).commands ≡ w.commands)
print_some_keeps String.[] w = (refl, refl)
print_some_keeps (String.◌∷◌ c s) w = (refl, refl)

module _ (G : Shell) where
  shell-run_cmd :
      (cmd : String) (w : World G.State) → (run_cmd G cmd w).1.shell ≡ (G.run cmd w.shell).1
  unfolding run_cmd
  shell-run_cmd cmd w =
      let (res, v) = subprocess_run G cmd w in
      (print_some_keeps res.stderr (print_some res.stdout v)).0 ∙ (print_some_keeps res.stdout v).0

  commands-run_cmd :
      (cmd : String) (w : World G.State) → (run_cmd G cmd w).1.commands ≡ w.commands ++ cmd ∷ []
  unfolding run_cmd
  commands-run_cmd cmd w =
      let (res, v) = subprocess_run G cmd w in
      (print_some_keeps res.stderr (print_some res.stdout v)).1 ∙ (print_some_keeps res.stdout v).1

  -- The shell before the second command, and the answers to the second and to the last.
  abbrev pub removed : World G.State → G.State
  removed w = (G.run remove_command w.shell).1

  abbrev pub added : String → World G.State → Completed × G.State
  added token w = G.run (add_command (remote_with_token token)) (removed w)

  abbrev pub sanitized : String → World G.State → Completed × G.State
  sanitized token w = G.run (set_url_command clean_remote) (G.run push_command (added token w).1).1

  shell-push_with :
      (token : String) (w : World G.State) → (push_with G token w).shell ≡ (sanitized token w).1
  unfolding push_with subprocess_run
  shell-push_with token w =
      let w1 = (subprocess_run G remove_command w).1 in
      let w2 = (run_cmd G (add_command (remote_with_token token)) w1).1 in
      let w3 = (run_cmd G push_command (print "Pushing to GitHub (main)..." w2)).1 in
      shell-run_cmd (set_url_command clean_remote) w3
      ∙ ap (λ s. (G.run (set_url_command clean_remote) s).1)
          (shell-run_cmd push_command (print "Pushing to GitHub (main)..." w2)
            ∙ ap (λ s. (G.run push_command s).1)
                (shell-run_cmd (add_command (remote_with_token token)) w1))

  -- The four commands run in this order, whatever the exit status of each.
  pub commands-push_with :
      (token : String) (w : World G.State)
      → (push_with G token w).commands
        ≡ w.commands
          ++ remove_command
            ∷ add_command (remote_with_token token)
            ∷ push_command
            ∷ set_url_command clean_remote
            ∷ []
  unfolding push_with
  commands-push_with token w =
      rw (commands-run_cmd, commands-run_cmd, commands-run_cmd) (simp append_assoc)

module _ (G : Shell) (I : IsGit G) where
  -- The URL without the token if the last command works; if not, the URL with the token where it was
  -- added, and else the one that the first command left.
  abbrev pub Origin : String → World G.State → Option String → Type 0
  Origin token w url =
      (((sanitized G token w).0.returncode ≡ 0) × (url ≡ some clean_remote))
      ⊎ (((sanitized G token w).0.returncode ≢ 0)
          × Sets (added G token w).0 (I.origin (removed G w)) url (remote_with_token token))

  Origin-sanitized :
      (token : String) (w : World G.State) → Origin token w (I.origin (sanitized G token w).1)
  Origin-sanitized token w =
      let before = I.push (added G token w).1 in
      elim (I.set_url clean_remote (G.run push_command (added G token w).1).1) [
        | inl clean ↦ inl clean
        | inr (code, same) ↦
            let e = same ∙ before in
            elim (I.add (remote_with_token token) (removed G w)) [
              | inl (works, there) ↦ inr (code, inl (works, e ∙ there))
              | inr (fails, left) ↦ inr (code, inr (fails, e ∙ left))
            ]
      ]

  -- After a run with a token the URL of `origin` is the one without it, if the last command exits with 0.
  -- If it does not, which the script does not look at, the token stays in the URL where the second
  -- command has put it, and else the URL is the one that the first command left.
  pub origin-push_with :
      (token : String) (w : World G.State) → Origin token w (I.origin (push_with G token w).shell)
  origin-push_with token w =
      subst (λ s. Origin token w (I.origin s)) (sym (shell-push_with G token w))
        (Origin-sanitized token w)
