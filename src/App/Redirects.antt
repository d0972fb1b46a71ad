-- ===== src/App/Redirects.antt =====
-- Where the language switch redirects to (src/app.rs).
use kehrkraft.Prelude.{
  ◌≡◌, refl, inl, inr, true, false, [], ◌∷◌, Option, none, some, Text, arith, Bool-cases, subst,
  some_injective,
}
use kehrkraft.Models.Names.{chars}
use kehrkraft.Strings.{strip_prefix, starts_with, contains}
use kehrkraft.App.{
  Headers, path_of, path_in, or_strip, referred, is_unsafe, safe_or, language_redirect_target,
}

-- A text that starts with one '/', and has no line break, space or backslash.
pub record IsSlashPath (path : Text) : Type 0 where
  pub rooted : starts_with (chars "/") path ≡ true
  pub one_slash : starts_with (chars "//") path ≡ false
  pub no_backslash : contains b'\\' path ≡ false
  pub no_return : contains b'\r' path ≡ false
  pub no_feed : contains b'\n' path ≡ false
  pub no_space : contains b' ' path ≡ false

path_of-rooted : (s : Text) → starts_with (chars "/") (path_of s) ≡ true
unfolding path_of strip_prefix
path_of-rooted [] = refl
path_of-rooted (c ∷ s) = ground (arith, path_of-rooted s)

path_in-rooted :
    (raw : Text) (o : Option Text) (path : Text)
    → path_in raw o ≡ some path
    → starts_with (chars "/") path ≡ true
path_in-rooted raw (some rest) path h =
    subst (λ p. starts_with (chars "/") p ≡ true) (some_injective (path_of rest) path h)
      (path_of-rooted rest)
path_in-rooted raw none path h = elim (Bool-cases (starts_with (chars "/") raw)) [
  | inl e ↦ subst (λ p. starts_with (chars "/") p ≡ true) (some_injective raw path (rw e at h)) e
  | inr e ↦ absurd (ground (arith, h, e))
]

referred-rooted :
    (referer : Option Text) (path : Text)
    → referred referer ≡ some path
    → starts_with (chars "/") path ≡ true
referred-rooted none path h = absurd (ground (arith, h))
referred-rooted (some raw) path h =
    path_in-rooted raw (or_strip raw (strip_prefix (chars "http://") raw)) path h

safe-IsSlashPath :
    (path : Text) → starts_with (chars "/") path ≡ true → is_unsafe path ≡ false → IsSlashPath path
safe-IsSlashPath path root safe = record {
  rooted = root;
  one_slash = ground (arith, safe);
  no_backslash = ground (arith, safe);
  no_return = ground (arith, safe);
  no_feed = ground (arith, safe);
  no_space = ground (arith, safe);
}

admin-IsSlashPath : IsSlashPath (chars "/admin")
unfolding strip_prefix
admin-IsSlashPath = safe-IsSlashPath (chars "/admin") refl refl

target-IsSlashPath :
    (o : Option Text)
    → ((path : Text) → o ≡ some path → starts_with (chars "/") path ≡ true)
    → IsSlashPath (safe_or (chars "/admin") o)
target-IsSlashPath none h = admin-IsSlashPath
target-IsSlashPath (some path) h = elim (Bool-cases (is_unsafe path)) [
  | inl e ↦ rw e admin-IsSlashPath
  | inr e ↦ rw e (safe-IsSlashPath path (h path refl) e)
]

-- Whatever the `Referer` is, the language switch redirects to a text that starts with '/' but not with
-- '//', and has no line break, space or backslash.
pub language_redirect_target-IsSlashPath :
    (headers : Headers) → IsSlashPath (language_redirect_target headers)
unfolding language_redirect_target
language_redirect_target-IsSlashPath headers =
    target-IsSlashPath (referred headers.referer) (referred-rooted headers.referer)

-- A `Referer` that starts with '/' and a tab, and is not unsafe to the code after that, is where the
-- language switch redirects to.
pub language_redirect_target-tab :
    (headers : Headers) (rest : Text)
    → headers.referer ≡ some (b'/' ∷ 9 ∷ rest)
    → contains b'\\' rest ≡ false
    → contains b'\r' rest ≡ false
    → contains b'\n' rest ≡ false
    → contains b' ' rest ≡ false
    → language_redirect_target headers ≡ b'/' ∷ 9 ∷ rest
unfolding language_redirect_target strip_prefix
language_redirect_target-tab headers rest is backslash return feed space =
    rw (is, backslash, return, feed, space) refl
