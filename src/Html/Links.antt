-- ===== src/Html/Links.antt =====
-- src/html.rs: the tests of a link's destination, and the attributes it gets.
pub mod Safe
use blackfriday_2_rust.Base.{
  ℕ, zero, suc, ◌+◌, ◌-◌, Bool, true, false, not, ◌&&◌, ◌||◌, Option, none, some, List, [], ◌∷◌,
  ◌++◌, ◌==◌, ltb, leb, if◌then◌else◌, Bytes, codes, length, get_or, is_at, take, drop, starts_with,
  within, equal, ◌>>=◌,
}
use blackfriday_2_rust.Util.{is_alnum}
use blackfriday_2_rust.Flags.{
  FlagSet, intersects, skip_links, safelink, nofollow_links, noreferrer_links, noopener_links,
  href_target_blank,
}

-- `u8::to_ascii_lowercase`.
abbrev pub to_ascii_lowercase : ℕ → ℕ
to_ascii_lowercase b = if within b'A' b'Z' b then b + 32 else b

-- `a.eq_ignore_ascii_case(b)`.
unfoldable pub eq_ignore_ascii_case : Bytes → Bytes → Bool
eq_ignore_ascii_case [] [] = true
eq_ignore_ascii_case (x ∷ xs) (y ∷ ys) =
    to_ascii_lowercase x == to_ascii_lowercase y && eq_ignore_ascii_case xs ys
eq_ignore_ascii_case _ _ = false

-- One round of the loop over `VALID_PATHS`.
unfoldable pub is_path : Bytes → Bytes → Bool
unfolding starts_with
is_path path link =
    starts_with link path && (length link == length path || is_alnum (get_or link (length path) 0))

-- One round of the loop over `VALID_URIS`.
unfoldable pub is_uri : Bytes → Bytes → Bool
unfolding eq_ignore_ascii_case
is_uri prefix link =
    ltb (length prefix) (length link)
    && eq_ignore_ascii_case (take (length prefix) link) prefix
    && is_alnum (get_or link (length prefix) 0)

unfoldable pub is_safe_link : Bytes → Bool
unfolding is_path is_uri
is_safe_link link =
    is_path (codes "/") link
    || is_path (codes "./") link
    || is_path (codes "../") link
    || is_uri (codes "http://") link
    || is_uri (codes "https://") link
    || is_uri (codes "ftp://") link
    || is_uri (codes "mailto://") link

unfoldable pub is_mailto : Bytes → Bool
unfolding starts_with
is_mailto link = starts_with link (codes "mailto:")

unfoldable pub need_skip_link : FlagSet → Bytes → Bool
unfolding is_safe_link is_mailto intersects
need_skip_link flags dest =
    intersects flags skip_links
    || (intersects flags safelink && not (is_safe_link dest) && not (is_mailto dest))

-- `none` is the panic of `link[0]`.
unfoldable pub is_relative_link : Bytes → Option Bool
unfolding starts_with
is_relative_link [] = none
is_relative_link (c ∷ cs) = some (
    c == b'#'
    || (c == b'/' && leb 1 (length cs) && not (get_or cs 0 0 == b'/'))
    || (c == b'/' && length cs == 0)
    || starts_with (c ∷ cs) (codes "./")
    || starts_with (c ∷ cs) (codes "../"))

-- `val.join(" ")`.
unfoldable pub join : Bytes → List Bytes → Bytes
join sep [] = []
join sep (x ∷ []) = x
join sep (x ∷ y ∷ xs) = x ++ (sep ++ join sep (y ∷ xs))

abbrev push_if : Bool → Bytes → List Bytes → List Bytes
push_if c x xs = if c then xs ++ x ∷ [] else xs

unfoldable pub append_link_attrs : List Bytes → FlagSet → Bytes → Option (List Bytes)
unfolding is_relative_link join intersects
append_link_attrs attrs flags link = is_relative_link link >>= λ relative.
    (let val = push_if (intersects flags noopener_links) (codes "noopener") (
        push_if (intersects flags noreferrer_links) (codes "noreferrer")
          (push_if (intersects flags nofollow_links) (codes "nofollow") [])) in
      let attrs' = push_if (intersects flags href_target_blank) (codes "target=\"_blank\"") attrs in
      some (
        if relative
        then attrs
        else if length val == 0
        then attrs'
        else attrs' ++ (codes "rel=\"" ++ (join (codes " ") val ++ codes "\"")) ∷ []))
