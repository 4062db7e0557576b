-- ===== src/Config.antt =====
-- internal/platform/config/config.go: what the settings are read with. The environment is a function
-- of the names; a name that is not set gives the empty text. godotenv, which may set more of them from
-- a file, has run before.
pub mod Sections
pub mod Others
pub mod Load
use bookstore_golang.Base.{
  Bool, true, false, [], ◌||◌, ◌==◌, Option, none, some, Action, pure, Result, ok, err,
  if◌then◌else◌,
}
use bookstore_golang.Base.Int.{ℤ, atoi}
use bookstore_golang.Base.Text.{Str, codes, str_eq}

abbrev pub Environment : Type 0
Environment = Str → Str

-- `log.Fatalf`, which ends the process, and `panic`.
pub data Stop : Type 0 where
  missing : Str → Stop
  panicked : Str → Stop

-- A reading of the settings.
abbrev pub Reading : Type 0 → Type 0
Reading A = Action Environment Stop A

unfoldable pub must_get_env : Str → Reading Str
must_get_env key env = let v = env key in if v == [] then (err (missing key), env) else (ok v, env)

abbrev or_default : {A : Type 0} → A → Option A → A
or_default def none = def
or_default def (some a) = a

unfoldable pub get_env_as_int : Str → ℤ → Reading ℤ
unfolding atoi
get_env_as_int key def env =
    let v = env key in (ok (if v == [] then def else or_default def (atoi v)), env)

-- `strconv.ParseBool`
unfoldable pub parse_bool : Str → Option Bool
parse_bool s =
    if s == codes "1"
      || (s == codes "t"
          || (s == codes "T" || (s == codes "TRUE" || (s == codes "true" || s == codes "True"))))
    then some true
    else if s == codes "0"
        || (s == codes "f"
            || (s == codes "F"
                || (s == codes "FALSE" || (s == codes "false" || s == codes "False"))))
    then some false
    else none

unfoldable pub get_env_as_bool : Str → Bool → Reading Bool
unfolding parse_bool
get_env_as_bool key def env =
    let v = env key in (ok (if v == [] then def else or_default def (parse_bool v)), env)
