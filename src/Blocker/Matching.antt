-- ===== src/Blocker/Matching.antt =====
-- What `url_matches_pattern` decides, kind of pattern by kind.
use hypr_blocker.Base.{
  ◌≡◌, ap, ◌↔◌, ◌⊎◌, inl, inr, true, false, ◌||◌, [], ◌∷◌, ◌++◌, arith, Bool-cases, and_iff, or_iff,
}
use hypr_blocker.Base.Text.{
  Text, codes, text_eq, text_eq_iff, starts_with, has_char, before, after, lower, strip,
  drop_last_char,
}
use hypr_blocker.Base.Text.Laws.{starts_with_iff, ends_with_iff, after_last-append}
use hypr_blocker.Blocker.Url.{
  is_catch_all_pattern, in_domain, path_matches, bare_address, matches_address, url_matches_pattern,
}

bare_address-append : (u v : Text) → bare_address (u ++ (codes "://" ++ v)) ≡ bare_address v
unfolding bare_address
bare_address-append u v =
    ap (λ (t : Text). strip (lower t)) (after_last-append u (u ++ (codes "://" ++ v)) v)

-- Whatever stands before a `://` of a URL has no say in the match: for every pattern but the
-- catch-all, `u://v` matches exactly when `v` does. So a scheme is ignored, and so is a whole address
-- in front of a `://` in a path or a query.
pub before_separator_ignored :
    (u v pattern : Text)
    → is_catch_all_pattern pattern ≡ false
    → url_matches_pattern (u ++ (codes "://" ++ v)) pattern ≡ url_matches_pattern v pattern
unfolding url_matches_pattern
before_separator_ignored u v pattern h = rw (h, bare_address-append u v)

-- A host is in a domain when it is the domain, or ends in a dot and the domain.
abbrev pub InDomain : Text → Text → Type 0
InDomain host domain = (host ≡ domain) ⊎ ((x : Text) × (host ≡ x ++ (b'.' ∷ domain)))

pub in_domain_iff : (host domain : Text) → (in_domain host domain ≡ true) ↔ InDomain host domain
unfolding in_domain
in_domain_iff host domain = (
  λ h. elim (Bool-cases (text_eq host domain)) [
    | inl e ↦ inl ((text_eq_iff host domain).0 e)
    | inr e ↦ inr ((ends_with_iff (b'.' ∷ domain) host).0 (rw e at h))
  ],
  λ h. elim h [
    | inl e ↦ ground (arith, text_eq_iff host domain)
    | inr p ↦ ground (arith, (ends_with_iff (b'.' ∷ domain) host).1 p)
  ],
)

before-of_starts_with :
    (d u : Text)
    → has_char b'/' d ≡ false
    → starts_with (d ++ codes "/") u ≡ true
    → before b'/' u ≡ d
before-of_starts_with [] [] n h = ground arith
before-of_starts_with [] (c ∷ u) n h = ground arith
before-of_starts_with (e ∷ d) [] n h = ground arith
before-of_starts_with (e ∷ d) (c ∷ u) n h = ground (arith, before-of_starts_with d u)

-- For a pattern with neither a path nor a wildcard only the host of the URL is looked at: the URL
-- matches exactly when its host is the pattern's domain or one of its subdomains.
pub domain_pattern_iff :
    (url pattern : Text)
    → starts_with (codes "*.") pattern ≡ false
    → has_char b'/' pattern ≡ false
    → (matches_address url pattern ≡ true) ↔ InDomain (before b'/' url) pattern
unfolding matches_address
domain_pattern_iff url pattern w n =
    rw (w, n)
      (
        λ h. elim (Bool-cases (in_domain (before b'/' url) pattern)) [
          | inl e ↦ (in_domain_iff (before b'/' url) pattern).0 e
          | inr e ↦ inl (before-of_starts_with pattern url n (rw e at h))
        ],
        λ h. let e = (in_domain_iff (before b'/' url) pattern).1 h in rw e,
      )

-- A path is the pattern's path, or goes on behind it with a slash or a question mark.
abbrev pub UnderPath : Text → Text → Type 0
UnderPath path pattern_path =
    (path ≡ pattern_path)
    ⊎ ((x : Text) × (path ≡ (pattern_path ++ codes "/") ++ x))
    ⊎ ((x : Text) × (path ≡ (pattern_path ++ codes "?") ++ x))

path_matches_iff : (path p : Text) → (path_matches path p ≡ true) ↔ UnderPath path p
unfolding path_matches
path_matches_iff path p =
    let same = text_eq path p in
    let slash = starts_with (p ++ codes "/") path in
    let query = starts_with (p ++ codes "?") path in
    (
      λ h. elim ((or_iff (same || slash) query).0 h) [
        | inl k ↦ elim ((or_iff same slash).0 k) [
          | inl e ↦ inl ((text_eq_iff path p).0 e)
          | inr e ↦ inr (inl ((starts_with_iff (p ++ codes "/") path).0 e))
        ]
        | inr e ↦ inr (inr ((starts_with_iff (p ++ codes "?") path).0 e))
      ],
      λ h. elim h [
        | inl e ↦ let b = (text_eq_iff path p).1 e in rw b
        | inr (inl e) ↦
            let b = (starts_with_iff (p ++ codes "/") path).1 e in
            (or_iff (same || slash) query).1 (inl ((or_iff same slash).1 (inr b)))
        | inr (inr e) ↦
            (or_iff (same || slash) query).1 (inr ((starts_with_iff (p ++ codes "?") path).1 e))
      ],
    )

-- For a pattern with a path that does not begin with `*.`, compared with an address without its scheme, a trailing slash on either side aside, the URL matches exactly when its
-- host is in the pattern's domain and its path is the pattern's path or goes on behind it with a
-- slash or a question mark.
pub path_pattern_iff :
    (url pattern : Text)
    → starts_with (codes "*.") pattern ≡ false
    → has_char b'/' pattern ≡ true
    → (matches_address url pattern ≡ true) ↔ (
        InDomain (before b'/' (drop_last_char b'/' url)) (before b'/' (drop_last_char b'/' pattern))
        × UnderPath
            (b'/' ∷ after b'/' (drop_last_char b'/' url))
            (b'/' ∷ after b'/' (drop_last_char b'/' pattern)))
unfolding matches_address
path_pattern_iff url pattern w n =
    let u = drop_last_char b'/' url in
    let p = drop_last_char b'/' pattern in
    let domain = in_domain_iff (before b'/' u) (before b'/' p) in
    let path = path_matches_iff (b'/' ∷ after b'/' u) (b'/' ∷ after b'/' p) in
    rw (w, n)
      (
        λ h.
            let both =
              (and_iff (in_domain (before b'/' u) (before b'/' p))
                  (path_matches (b'/' ∷ after b'/' u) (b'/' ∷ after b'/' p))).0
                h in
            (domain.0 both.0, path.0 both.1),
        λ h.
            (and_iff (in_domain (before b'/' u) (before b'/' p))
                (path_matches (b'/' ∷ after b'/' u) (b'/' ∷ after b'/' p))).1
              (domain.1 h.0, path.1 h.1),
      )
