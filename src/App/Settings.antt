-- ===== src/App/Settings.antt =====
-- src/config.rs: the settings of the server, from the environment and the file of the port. A file is
-- its text, if it is there.
use kehrkraft.Prelude.{
  ℕ, ◌^◌, Bool, false, ◌||◌, [], ◌∷◌, Option, none, some, Text, text_eq, ◌==◌, if◌then◌else◌,
}
use mathlib.Core.List.{reverse}
use kehrkraft.Models.Names.{chars, trim, non_empty}
use kehrkraft.Feed.{to_string}
use kehrkraft.Strings.Numbers.{parse_unsigned}
use kehrkraft.Db.Store.{lower}
use kehrkraft.Backup.Config.{Environment}

abbrev pub parse_port : Option Text → Option ℕ
parse_port none = none
parse_port (some val) = parse_unsigned (2 ^ 16) val

-- No port where the variable is not set or not a port: the system chooses one.
unfoldable pub port_from_env : Environment → Option ℕ
port_from_env env = parse_port (env (chars "KEHRKRAFT_PORT"))

unfoldable pub port_file_path : Environment → Text
port_file_path env = elim (env (chars "KEHRKRAFT_PORT_FILE")) [
  | some path ↦ path
  | none ↦ chars ".kehrkraft-port"
]

abbrev pub trimmed : Option Text → Option Text
trimmed none = none
trimmed (some s) = some (trim s)

unfoldable pub saved_dev_port : Option Text → Option ℕ
saved_dev_port file = parse_port (trimmed file)

-- The text that is written; a file that cannot be written is logged only.
unfoldable pub save_dev_port : ℕ → Option Text
save_dev_port port = some (to_string port)

abbrev pub both : Option Text → Option Text → Option (Text × Text)
both (some user) (some pass) = some (user, pass)
both _ _ = none

unfoldable pub admin_credentials_from_env : Environment → Option (Text × Text)
admin_credentials_from_env env =
    both (env (chars "KEHRKRAFT_ADMIN_USER")) (env (chars "KEHRKRAFT_ADMIN_PASS"))

abbrev pub is_on : Text → Bool
is_on s =
    text_eq s (chars "true")
    || text_eq s (chars "1")
    || text_eq s (chars "yes")
    || text_eq s (chars "on")

unfoldable pub demo_mode_from_env : Environment → Bool
demo_mode_from_env env = elim (env (chars "KEHRKRAFT_DEMO_MODE")) [
  | some val ↦ is_on (lower (trim val))
  | none ↦ false
]

unfoldable pub skip_slashes : Text → Text
skip_slashes [] = []
skip_slashes (c ∷ s) = if c == b'/' then skip_slashes s else c ∷ s

-- `trim_end_matches('/')`.
abbrev pub without_slashes : Option Text → Option Text
without_slashes none = none
without_slashes (some url) = some (reverse (skip_slashes (reverse url)))

unfoldable pub public_url_from_env : Environment → Option Text
public_url_from_env env = non_empty (without_slashes (env (chars "KEHRKRAFT_PUBLIC_URL")))
