-- ===== src/App/Tests.antt =====
-- The guards and the language switch at concrete requests.
use kehrkraft.Prelude.{
  ℕ, ◌-◌, ◌≡◌, refl, true, false, [], ◌∷◌, none, some, Text, text_eq, arith, min,
}
use kehrkraft.Models.Names.{chars, trim, trim_start, is_whitespace}
use kehrkraft.Feed.{digits}
use kehrkraft.Calendar.Gregorian.{digits_from}
use kehrkraft.Strings.Numbers.{parse_unsigned}
use kehrkraft.Db.Store.{lower}
use kehrkraft.Backup.Config.{Environment}
use kehrkraft.App.Settings.{
  port_from_env, saved_dev_port, save_dev_port, demo_mode_from_env, skip_slashes,
  public_url_from_env,
}
use kehrkraft.Strings.{strip_prefix, split_once}
use kehrkraft.I18n.{from_code}
use kehrkraft.App.{
  Headers, Body, redirect, path_of, language_redirect_target, language_switch, require_basic_auth,
  unauthorized, respond, split_body, insert_demo_banner,
}
use kehrkraft.App.Redirects.{
  IsSlashPath, language_redirect_target-IsSlashPath, language_redirect_target-tab,
}
use kehrkraft.App.RateLimit.{Hits, Arrival, hit_of, set_hit, rate_limit}
use kehrkraft.App.RateLimit.Window.{served, requested, window, served-requested}

abbrev from_referer : Text → Headers
from_referer s = record {
  cookie = none;
  accept_language = none;
  referer = some s;
  authorization = none;
}

targets :
    (language_redirect_target (from_referer (chars "https://host.example/admin/people"))
      ≡ chars "/admin/people")
    × (language_redirect_target (from_referer (chars "https://host.example")) ≡ chars "/")
    × (language_redirect_target (from_referer (chars "http://a//evil.example")) ≡ chars "/admin")
unfolding language_redirect_target path_of strip_prefix
targets = (refl, refl, refl)

language_redirect_target-IsSlashPath_example :
    IsSlashPath (language_redirect_target (from_referer (chars "http://a//evil.example")))
language_redirect_target-IsSlashPath_example =
    language_redirect_target-IsSlashPath (from_referer (chars "http://a//evil.example"))

unknown_language :
    (language_switch some (chars "fr") (from_referer [])).body
    ≡ Body.plain 404 (chars "Unknown language")
unfolding language_switch from_code text_eq
unknown_language = refl

-- Browsers drop the tab, and read the address of another site.
tab_kept :
    language_redirect_target (from_referer (b'/' ∷ 9 ∷ chars "/evil.example"))
    ≡ b'/' ∷ 9 ∷ chars "/evil.example"
tab_kept =
    language_redirect_target-tab (from_referer (b'/' ∷ 9 ∷ chars "/evil.example"))
      (chars "/evil.example") refl refl refl refl refl

-- An authorization that is decoded already.
abbrev authorized : Text → Headers
authorized s = record (from_referer []) { authorization = some s }

guarded :
    (require_basic_auth some
        (chars "u")
        (chars "p")
        (λ req. respond (redirect []))
        (authorized (chars "Basic u:p"))
      ≡ respond (redirect []))
    × (require_basic_auth some
          (chars "u")
          (chars "p")
          (λ req. respond (redirect []))
          (authorized (chars "Basic u:q"))
        ≡ unauthorized some)
unfolding require_basic_auth strip_prefix split_once text_eq
guarded = (refl, refl)

banner_after_body :
    insert_demo_banner (chars "<html><body class=x><p>") (chars "!")
    ≡ chars "<html><body class=x>!<p>"
unfolding insert_demo_banner split_body split_once strip_prefix
banner_after_body = refl

-- The client 7 has made 29 requests since 1000, and makes two more beside one of the client 8.
abbrev hits : Hits
hits = (7, window 1000 29) ∷ []

abbrev at : ℕ → ℕ → Arrival
at ip now = record { ip = some ip; now = now; later = now }

served-requested_example :
    served 7 hits (at 7 1010 ∷ at 8 1011 ∷ at 7 1012 ∷ [])
    ≡ min (30 - 29) (requested 7 (at 7 1010 ∷ at 8 1011 ∷ at 7 1012 ∷ []))
unfolding hit_of
served-requested_example =
    served-requested 7 1000 29 hits (at 7 1010 ∷ at 8 1011 ∷ at 7 1012 ∷ []) refl
      (λ e. omega arith, (λ e. omega arith, (λ e. omega arith, tt))) (omega arith)

one_of_two : served 7 hits (at 7 1010 ∷ at 8 1011 ∷ at 7 1012 ∷ []) ≡ 1
unfolding served rate_limit hit_of set_hit
one_of_two = refl

-- The settings of one variable.
abbrev setting : Text → Environment
setting value name = some value

port_is_saved : saved_dev_port (save_dev_port 54321) ≡ some 54321
unfolding saved_dev_port save_dev_port digits trim trim_start is_whitespace parse_unsigned
    digits_from
port_is_saved = refl

bad_ports :
    (port_from_env (setting (chars "65536")) ≡ none)
    × (port_from_env (setting (chars " 80")) ≡ none)
unfolding port_from_env parse_unsigned digits_from
bad_ports = (refl, refl)

demo_modes :
    (demo_mode_from_env (setting (chars " Yes ")) ≡ true)
    × (demo_mode_from_env (setting (chars "2")) ≡ false)
unfolding demo_mode_from_env lower trim trim_start is_whitespace text_eq
demo_modes = (refl, refl)

urls :
    (public_url_from_env (setting (chars "https://a.b//")) ≡ some (chars "https://a.b"))
    × (public_url_from_env (setting (chars "/")) ≡ none)
unfolding public_url_from_env skip_slashes
urls = (refl, refl)
