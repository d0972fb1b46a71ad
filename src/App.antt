-- ===== src/App.antt =====
-- src/app.rs: the language switch, the guards in front of the handlers and the demo banner. A request
-- is what the code reads of it, a response what the code makes it from; what runs behind a guard is
-- an argument.
pub mod Redirects
pub mod RateLimit
pub mod Settings
mod Tests
use kehrkraft.Prelude.{
  ℕ, ◌+◌, ◌-◌, ◌≤◌, Bool, true, false, not, ◌&&◌, ◌||◌, List, [], ◌∷◌, ◌++◌, Option, none, some,
  Text, text_eq, leb, ltb, ◌==◌, if◌then◌else◌, length, filter,
}
use kehrkraft.Models.Names.{chars}
use kehrkraft.Strings.{strip_prefix, starts_with, contains, split_once}
use kehrkraft.I18n.{Lang, lang_code, from_code, cookie_value, Weights, negotiate, msg}

-- The headers that the code reads, where they are set and `to_str` reads them.
pub record Headers : Type 0 where
  pub cookie : Option Text
  pub accept_language : Option Text
  pub referer : Option Text
  pub authorization : Option Text

-- A redirect, a text with a status, or a body of octets with its content type, each with the other
-- headers, the newest first.
pub data Body : Type 0 where
  redirect : Text → Body
  plain : ℕ → Text → Body
  content : Option Text → List ℕ → Body

pub record Response : Type 0 where
  pub body : Body
  pub headers : List (Text × Text)

abbrev pub respond : Body → Response
respond body = record { body = body; headers = [] }

-- `HeaderMap::insert`.
abbrev pub set_header : Text → Text → Response → Response
set_header name value res = record res {
  headers = (name, value) ∷ filter (λ h. not (text_eq h.0 name)) res.headers;
}

abbrev pub cookie_lang : Option Text → Option Text
cookie_lang none = none
cookie_lang (some header) = cookie_value header (chars "lang")

-- `FromRequestParts for Ui`.
unfoldable pub ui_lang : Weights → Headers → Lang
ui_lang w headers = negotiate w (cookie_lang headers.cookie) headers.accept_language

-- The text from its first '/' on, or "/".
unfoldable pub path_of : Text → Text
path_of [] = b'/' ∷ []
path_of (c ∷ s) = let rest = path_of s in if c == b'/' then c ∷ s else rest

abbrev pub or_strip : Text → Option Text → Option Text
or_strip raw none = strip_prefix (chars "https://") raw
or_strip raw (some rest) = some rest

abbrev pub path_in : Text → Option Text → Option Text
path_in raw (some rest) = some (path_of rest)
path_in raw none = if starts_with (chars "/") raw then some raw else none

abbrev pub is_unsafe : Text → Bool
is_unsafe path =
    starts_with (chars "//") path
    || contains b'\\' path
    || contains b'\r' path
    || contains b'\n' path
    || contains b' ' path

abbrev pub safe_or : Text → Option Text → Text
safe_or fallback none = fallback
safe_or fallback (some path) = if is_unsafe path then fallback else path

abbrev pub referred : Option Text → Option Text
referred none = none
referred (some raw) = path_in raw (or_strip raw (strip_prefix (chars "http://") raw))

unfoldable pub language_redirect_target : Headers → Text
language_redirect_target headers = safe_or (chars "/admin") (referred headers.referer)

-- `header_value` is `HeaderValue::from_str`.
module _ (header_value : Text → Option Text) where
  abbrev pub switched : Headers → Option Lang → Response
  switched headers none = respond (plain 404 (chars "Unknown language"))
  switched headers (some lang) =
      let res = respond (redirect (language_redirect_target headers)) in
      elim (header_value (
        chars "lang="
        ++ (lang_code lang ++ chars "; Path=/; Max-Age=31536000; SameSite=Lax; HttpOnly"))) [
          | some value ↦ set_header (chars "set-cookie") value res
          | none ↦ res
        ]

  unfoldable pub language_switch : Text → Headers → Response
  language_switch lang headers = switched headers (from_code lang)

-- The handler behind a guard.
abbrev pub Next : Type 0
Next = Headers → Response

-- `decode` is base64, then UTF-8.
module _ (decode : Text → Option Text) where
  abbrev pub credentials_in : Option Text → Option Text
  credentials_in none = none
  credentials_in (some auth) = elim (strip_prefix (chars "Basic ") auth) [
    | some b64 ↦ decode b64
    | none ↦ none
  ]

  abbrev pub matches : Text → Text → Option (Text × Text) → Bool
  matches expected_user expected_pass none = false
  matches expected_user expected_pass (some (user, pass)) =
      text_eq user expected_user && text_eq pass expected_pass

  abbrev pub split_credentials : Option Text → Option (Text × Text)
  split_credentials none = none
  split_credentials (some s) = split_once b':' s

  abbrev pub unauthorized : Response
  unauthorized =
      set_header (chars "www-authenticate") (chars "Basic realm=\"Admin\"")
        (respond (plain 401 (chars "Unauthorized")))

  unfoldable pub require_basic_auth : Text → Text → Next → Next
  require_basic_auth expected_user expected_pass next req =
      if matches expected_user expected_pass (split_credentials (credentials_in req.authorization))
      then next req
      else unauthorized

unfoldable pub security_headers : Next → Next
security_headers next req =
    set_header (chars "referrer-policy") (chars "strict-origin-when-cross-origin") (
      set_header (chars "x-frame-options") (chars "DENY")
        (set_header (chars "x-content-type-options") (chars "nosniff") (next req)))

-- The octets up to the first '>', with it, and those after it.
abbrev pub after_tag : List ℕ → Option (List ℕ × List ℕ)
after_tag body = elim (split_once b'>' body) [
  | some (before, after) ↦ some (before ++ (b'>' ∷ []), after)
  | none ↦ none
]

-- The position after the opening tag `<body`.
unfoldable pub split_body : List ℕ → Option (List ℕ × List ℕ)
split_body [] = none
split_body (b ∷ bs) =
    let rest = split_body bs in
    if starts_with (chars "<body") (b ∷ bs)
    then after_tag (b ∷ bs)
    else elim rest [ some (before, after) ↦ some (b ∷ before, after) | none ↦ none ]

unfoldable pub insert_demo_banner : List ℕ → List ℕ → List ℕ
insert_demo_banner body banner = elim (split_body body) [
  | some (before, after) ↦ before ++ (banner ++ after)
  | none ↦ body
]

-- `encode` is the UTF-8 of a text.
module _ (encode : Text → List ℕ) (w : Weights) where
  unfoldable pub demo_banner_html : Lang → List ℕ
  demo_banner_html lang =
      encode
        (chars "<div class=\"demo-banner\">" ++ (msg lang (chars "demo.banner") ++ chars "</div>"))

  abbrev pub is_html : Option Text → Bool
  is_html none = false
  is_html (some content_type) = starts_with (chars "text/html") content_type

  abbrev pub remove_header : Text → Response → Response
  remove_header name res = record res { headers = filter (λ h. not (text_eq h.0 name)) res.headers }

  abbrev pub rewritten : Option Text → List ℕ → List ℕ → Response → Response
  rewritten content_type bytes out res =
      if length out == length bytes
      then record res { body = content content_type out }
      else remove_header (chars "content-length") (record res { body = content content_type out })

  abbrev pub with_banner : List ℕ → Response → Body → Response
  with_banner banner res (content content_type bytes) =
      if is_html content_type
      then if leb (length bytes) 1000000
        then rewritten content_type bytes (insert_demo_banner bytes banner) res
        else respond (plain 500 (chars "Failed to buffer response"))
      else res
  with_banner banner res _ = res

  unfoldable pub demo_banner : Next → Next
  demo_banner next req = with_banner (demo_banner_html (ui_lang w req)) (next req) (next req).body
