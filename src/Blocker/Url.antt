-- ===== src/Blocker/Url.antt =====
-- URLs and website patterns (daemon/blocker.py): `parse_rules_from_text`, `is_protected_url`, the
-- catch-all and `SiteBlocker.url_matches_pattern`. A URL is a list of ASCII code points.
use hypr_blocker.Base.{
  ℕ, Bool, true, false, not, ◌&&◌, ◌||◌, Option, none, some, List, [], ◌∷◌, ◌++◌, ◌==◌,
  if◌then◌else◌, map, keep, length,
}
use hypr_blocker.Base.Text.{
  Text, codes, text_eq, member, starts_with, ends_with, has_char, lower, strip, rstrip_slash,
  drop_last_char, before, after, drop_text, split_first, after_last, split_char,
}

abbrev pub protected_schemes : List Text
protected_schemes =
    codes "chrome"
    ∷ codes "chrome-extension"
    ∷ codes "about"
    ∷ codes "edge"
    ∷ codes "brave"
    ∷ codes "opera"
    ∷ codes "vivaldi"
    ∷ codes "moz-extension"
    ∷ codes "devtools"
    ∷ codes "view-source"
    ∷ []

abbrev pub loopback_hosts : List Text
loopback_hosts = codes "localhost" ∷ codes "127.0.0.1" ∷ codes "::1" ∷ codes "0.0.0.0" ∷ []

abbrev not_empty : Text → Bool
not_empty t = not (text_eq t [])

-- `None` and the empty text have no rules.
unfoldable pub parse_rules_from_text : Option Text → List Text
parse_rules_from_text none = []
parse_rules_from_text (some text) = keep not_empty (map strip (split_char b'\n' text))

unfoldable pub normalize_website_pattern : Text → Text
normalize_website_pattern pattern =
    let p = strip (lower pattern) in
    rstrip_slash (
      if starts_with (codes "https://") p
      then drop_text (codes "https://") p
      else if starts_with (codes "http://") p
      then drop_text (codes "http://") p
      else p)

unfoldable pub is_catch_all_pattern : Text → Bool
unfolding normalize_website_pattern
is_catch_all_pattern pattern = text_eq (normalize_website_pattern pattern) (codes "*")

-- `host.count(c)`.
count_char : ℕ → Text → ℕ
count_char c t = length (keep (λ d. c == d) t)

-- Without a closing bracket the text goes on to the port test.
strip_port : Text → Text
unfolding count_char
strip_port host = if count_char b':' host == 1 then before b':' host else host

bracketed : Text → Text → Text
unfolding strip_port
bracketed host rest = if has_char b']' rest then before b']' rest else strip_port host

unfoldable pub hostname_only : Text → Text
unfolding bracketed strip_port
hostname_only host_port =
    let host = lower host_port in
    if starts_with (codes "[") host
    then bracketed host (drop_text (codes "[") host)
    else strip_port host

unfoldable pub hostname_is_loopback : Text → Bool
hostname_is_loopback hostname =
    let host = lower hostname in
    let inner = before b']' (drop_text (codes "[") host) in
    member (if starts_with (codes "[") host && has_char b']' host then inner else host)
      loopback_hosts

-- `rest.split("/")[0].split("?")[0].split("#")[0]`.
abbrev authority : Text → Text
authority rest = before b'#' (before b'?' (before b'/' rest))

-- The scheme before `://`, if there is one, and what follows it.
abbrev scheme_of : Text → Option Text × Text
scheme_of raw = elim (split_first (codes "://") raw) [
  | none ↦ (none, raw)
  | some (scheme, rest) ↦ (some scheme, rest)
]

-- `chrome:settings`: a scheme of a browser page with no slashes.
abbrev bare_scheme : Text → Bool
bare_scheme raw =
    has_char b':' (before b'/' raw) && member (before b':' (lower raw)) protected_schemes

protected_by_scheme : Text → Option Text → Bool
protected_by_scheme raw none = bare_scheme raw
protected_by_scheme raw (some scheme) = member (lower scheme) protected_schemes

unfoldable pub is_protected_url : Text → Bool
unfolding hostname_only hostname_is_loopback protected_by_scheme
is_protected_url url =
    let raw = strip url in
    let (scheme, rest) = scheme_of raw in
    if text_eq raw []
    then true
    else if starts_with (codes "about:") (lower raw)
    then true
    else if protected_by_scheme raw scheme
    then true
    else hostname_is_loopback (hostname_only (authority rest))

refused_by_scheme : Text → Option Text → Bool
refused_by_scheme raw none = bare_scheme raw
refused_by_scheme raw (some scheme) =
    not (member (lower scheme) (codes "http" ∷ codes "https" ∷ []))

-- `_catch_all_matches`.
unfoldable pub catch_all_matches : Text → Bool
unfolding hostname_only hostname_is_loopback refused_by_scheme
catch_all_matches url =
    let raw = strip url in
    let (scheme, rest) = scheme_of raw in
    let host = hostname_only (authority rest) in
    if text_eq raw []
    then false
    else if starts_with (codes "about:") (lower raw)
    then false
    else if refused_by_scheme raw scheme
    then false
    else not (text_eq host [] || hostname_is_loopback host)

-- A host is a domain or one of its subdomains.
unfoldable pub in_domain : Text → Text → Bool
in_domain host domain = text_eq host domain || ends_with (b'.' ∷ domain) host

-- `/shorts` takes `/shorts`, `/shorts/…` and `/shorts?…`.
unfoldable pub path_matches : Text → Text → Bool
path_matches url_path pattern_path =
    text_eq url_path pattern_path
    || starts_with (pattern_path ++ codes "/") url_path
    || starts_with (pattern_path ++ codes "?") url_path

path_pattern_matches : Text → Text → Bool
unfolding in_domain path_matches
path_pattern_matches url pattern =
    let p = drop_last_char b'/' pattern in
    let u = drop_last_char b'/' url in
    in_domain (before b'/' u) (before b'/' p)
    && path_matches (b'/' ∷ after b'/' u) (b'/' ∷ after b'/' p)

domain_pattern_matches : Text → Text → Bool
unfolding in_domain
domain_pattern_matches url pattern =
    in_domain (before b'/' url) pattern || starts_with (pattern ++ codes "/") url

-- The part behind the last `://`, lowercased and stripped.
unfoldable pub bare_address : Text → Text
bare_address t = strip (lower (after_last (codes "://") t t))

unfoldable pub matches_address : Text → Text → Bool
unfolding in_domain path_pattern_matches domain_pattern_matches
matches_address url pattern =
    if starts_with (codes "*.") pattern
    then in_domain (before b'/' url) (drop_text (codes "*.") pattern)
    else if has_char b'/' pattern
    then path_pattern_matches url pattern
    else domain_pattern_matches url pattern

-- `SiteBlocker.url_matches_pattern`.
unfoldable pub url_matches_pattern : Text → Text → Bool
unfolding is_catch_all_pattern catch_all_matches bare_address matches_address
url_matches_pattern url pattern =
    if is_catch_all_pattern pattern
    then catch_all_matches url
    else matches_address (bare_address url) (bare_address pattern)
