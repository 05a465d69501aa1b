-- ===== src/Html/Links/Safe.antt =====
-- src/html.rs, `is_safe_link`: which links pass.
use blackfriday_2_rust.Base.{
  ℕ, ◌≡◌, ◌⊎◌, inl, inr, refl, Bool, true, not, ◌||◌, [], ◌∷◌, ◌++◌, ◌==◌, arith, Bytes, codes,
  length, get_or, take, starts_with, count_while, all,
}
use blackfriday_2_rust.Html.Links.{eq_ignore_ascii_case, is_path, is_uri, is_safe_link}

is_no_colon : ℕ → Bool
is_no_colon b = not (b == b':')

-- What stands before the first colon.
unfoldable pub scheme : Bytes → Bytes
unfolding count_while is_no_colon
scheme link = take (count_while is_no_colon link) link

scheme-prefix :
    (p link : Bytes)
    → all is_no_colon p ≡ true
    → eq_ignore_ascii_case (take (length (p ++ codes "://")) link) (p ++ codes "://") ≡ true
    → eq_ignore_ascii_case (scheme link) p ≡ true
unfolding scheme all eq_ignore_ascii_case is_no_colon
scheme-prefix [] [] h e = cc
scheme-prefix [] (c ∷ link) h e = ground arith
scheme-prefix (b ∷ p) [] h e = cc
scheme-prefix (b ∷ p) (c ∷ link) h e = ground (arith, scheme-prefix p link)

starts_with-first : (c : ℕ) (p link : Bytes) → starts_with link (c ∷ p) ≡ true → get_or link 0 0 ≡ c
unfolding starts_with
starts_with-first c p [] h = cc
starts_with-first c p (b ∷ link) h = ground arith

path-first : (c : ℕ) (p link : Bytes) → is_path (c ∷ p) link ≡ true → get_or link 0 0 ≡ c
unfolding is_path
path-first c p link h = ground (arith, starts_with-first c p link)

uri-scheme :
    (p link : Bytes)
    → all is_no_colon p ≡ true
    → is_uri (p ++ codes "://") link ≡ true
    → eq_ignore_ascii_case (scheme link) p ≡ true
unfolding is_uri
uri-scheme p link h e = scheme-prefix p link h (ground arith)

web :
    (link : Bytes)
    → is_uri (codes "http://") link ≡ true
    → eq_ignore_ascii_case (scheme link) (codes "http") ≡ true
unfolding all is_no_colon
web link = uri-scheme (codes "http") link refl

secure :
    (link : Bytes)
    → is_uri (codes "https://") link ≡ true
    → eq_ignore_ascii_case (scheme link) (codes "https") ≡ true
unfolding all is_no_colon
secure link = uri-scheme (codes "https") link refl

transfer :
    (link : Bytes)
    → is_uri (codes "ftp://") link ≡ true
    → eq_ignore_ascii_case (scheme link) (codes "ftp") ≡ true
unfolding all is_no_colon
transfer link = uri-scheme (codes "ftp") link refl

mail :
    (link : Bytes)
    → is_uri (codes "mailto://") link ≡ true
    → eq_ignore_ascii_case (scheme link) (codes "mailto") ≡ true
unfolding all is_no_colon
mail link = uri-scheme (codes "mailto") link refl

one_of_seven :
    (a b c d e f g : Bool)
    → (a || b || c || d || e || f || g) ≡ true
    → (a ≡ true)
      ⊎ ((b ≡ true) ⊎ ((c ≡ true) ⊎ ((d ≡ true) ⊎ ((e ≡ true) ⊎ ((f ≡ true) ⊎ (g ≡ true))))))
one_of_seven a b c d e f g h = ground arith

-- One of these schemes, up to the case of its letters.
abbrev pub HasScheme : Bytes → Bytes → Type 0
HasScheme link p = eq_ignore_ascii_case (scheme link) p ≡ true

-- A link that passes starts with `/` or `.`, or its scheme, up to the first colon, is one of four:
-- no other scheme, `javascript` or `data` say, is let through.
pub is_safe_link-scheme :
    (link : Bytes)
    → is_safe_link link ≡ true
    → ((get_or link 0 0 ≡ b'/') ⊎ (get_or link 0 0 ≡ b'.'))
      ⊎ (HasScheme link (codes "http")
          ⊎ (HasScheme link (codes "https")
              ⊎ (HasScheme link (codes "ftp") ⊎ HasScheme link (codes "mailto"))))
unfolding is_safe_link
is_safe_link-scheme link h = elim (one_of_seven _ _ _ _ _ _ _ h) [
  | inl root ↦ inl (inl (path-first b'/' [] link root))
  | inr (inl here) ↦ inl (inr (path-first b'.' (codes "/") link here))
  | inr (inr (inl up)) ↦ inl (inr (path-first b'.' (codes "./") link up))
  | inr (inr (inr (inl e))) ↦ inr (inl (web link e))
  | inr (inr (inr (inr (inl e)))) ↦ inr (inr (inl (secure link e)))
  | inr (inr (inr (inr (inr (inl e))))) ↦ inr (inr (inr (inl (transfer link e))))
  | inr (inr (inr (inr (inr (inr e))))) ↦ inr (inr (inr (inr (mail link e))))
]
