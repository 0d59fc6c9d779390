-- ===== src/Push.antt =====
-- scripts/push_repo.py: push to GitHub with a token that must not stay in .git/config.
pub mod Clean
mod Tests
use cdc_pipeline.Base.{
  ℕ, String, ◌<>◌, Bool, true, false, Option, none, some, List, [], ◌∷◌, ◌++◌, ◌==◌, if◌then◌else◌,
}
use cdc_pipeline.Base.Text.{show}

pub record Completed : Type 0 where
  pub returncode : ℕ
  pub stdout : String
  pub stderr : String

-- The shell and the programs that it runs, git among them: a parameter of the script.
pub record Shell : Type 1 where
  pub State : Type 0
  pub run : String → State → Completed × State

pub record World (S : Type 0) : Type 0 where
  pub shell : S
  pub out : List String
  pub commands : List String

pub record Environ : Type 0 where
  pub github_token : Option String
  pub gh_token : Option String

abbrev pub clean_remote : String
clean_remote = "https://github.com/Anshu666666/TransactFlow.git"

abbrev pub remote_with_token : String → String
remote_with_token token =
    "https://Anshu666666:" <> (token <> "@github.com/Anshu666666/TransactFlow.git")

abbrev pub remove_command : String
remove_command = "git remote remove origin"

abbrev pub add_command : String → String
add_command url = "git remote add origin \"" <> (url <> "\"")

abbrev pub push_command : String
push_command = "git push -u origin main"

abbrev pub set_url_command : String → String
set_url_command url = "git remote set-url origin \"" <> (url <> "\"")

-- `a or b` of two values of `os.environ.get`, and `if not token`: an empty text is false.
abbrev pub or_else : Option String → Option String → Option String
or_else none b = b
or_else (some String.[]) b = b
or_else (some (String.◌∷◌ c s)) b = some (String.◌∷◌ c s)

module _ {S : Type 0} where
  abbrev pub print : String → World S → World S
  print line w = record w { out = w.out ++ line ∷ [] }

  -- `if text: print(text)`
  abbrev pub print_some : String → World S → World S
  print_some String.[] w = w
  print_some (String.◌∷◌ c s) w = print (String.◌∷◌ c s) w

module _ (G : Shell) where
  -- `subprocess.run(cmd, shell=True, …)`, which does not raise on a command that fails.
  unfoldable pub subprocess_run : String → World G.State → Completed × World G.State
  subprocess_run cmd w =
      let (done, s) = G.run cmd w.shell in
      (done, record w { shell = s; commands = w.commands ++ cmd ∷ [] })

  unfoldable pub run_cmd : String → World G.State → ℕ × World G.State
  unfolding subprocess_run
  run_cmd cmd w =
      let (res, w') = subprocess_run cmd w in
      (res.returncode, print_some res.stderr (print_some res.stdout w'))

  abbrev verdict : ℕ → String
  verdict code =
      if code == 0
      then "SUCCESS: Pushed to https://github.com/Anshu666666/TransactFlow"
      else "FAILED: git push exited with code " <> show code

  -- The part of `main` below the check of the token.
  unfoldable pub push_with : String → World G.State → World G.State
  unfolding subprocess_run run_cmd
  push_with token w =
      let (_, w) = subprocess_run remove_command w in
      let (_, w) = run_cmd (add_command (remote_with_token token)) w in
      let w = print "Pushing to GitHub (main)..." w in
      let (code, w) = run_cmd push_command w in
      let (_, w) = run_cmd (set_url_command clean_remote) w in print (verdict code) w

  unfoldable pub main : Environ → World G.State → World G.State
  unfolding push_with
  main env w = elim (or_else env.github_token (or_else env.gh_token none)) [
    | none ↦ print "Error: No GITHUB_TOKEN or GH_TOKEN found." w
    | some token ↦ push_with token w
  ]
