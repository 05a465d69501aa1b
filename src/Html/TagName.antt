-- ===== src/Html/TagName.antt =====
-- src/html.rs: the search for the end of a tag of a given name.
use blackfriday_2_rust.Base.{
  ℕ, ◌+◌, Bool, true, false, not, ◌&&◌, Option, none, some, [], ◌∷◌, ◌==◌, leb, if◌then◌else◌,
  Bytes, length, is_at, drop, skip_while, count_while, ℤ, pos, negsuc,
}
use blackfriday_2_rust.Util.{is_space}
use blackfriday_2_rust.Html.Links.{to_ascii_lowercase}

-- The loop at index `i`, where these bytes are left: the quotes that are open, and `start`.
unfoldable pub unquoted_loop :
    (ch start : ℕ) → Bytes → (i : ℕ) → (in_single in_double in_grave : Bool) → ℕ
unquoted_loop ch start [] i in_single in_double in_grave = start
unquoted_loop ch start (c ∷ cs) i in_single in_double in_grave =
    let rest =
      unquoted_loop ch start cs (i + 1) (if c == b'\'' then not in_single else in_single)
        (if c == b'"' then not in_double else in_double)
        (if c == b'`' then not in_grave else in_grave) in
    if c == ch && not in_single && not in_double && not in_grave then i else rest

unfoldable pub skip_until_char_ignore_quotes : Bytes → (start ch : ℕ) → ℕ
unfolding unquoted_loop
skip_until_char_ignore_quotes html start ch =
    unquoted_loop ch start (drop start html) start false false false

unfoldable pub skip_space : Bytes → ℕ → ℕ
unfolding skip_while count_while
skip_space tag i = skip_while is_space tag i

-- The loop over the name: `none` if a byte differs, or the index behind what was compared.
unfoldable pub match_name : Bytes → Bytes → ℕ → Option ℕ
match_name [] name i = some i
match_name (c ∷ cs) [] i = some i
match_name (c ∷ cs) (n ∷ name) i =
    if to_ascii_lowercase c == n then match_name cs name (i + 1) else none

unfoldable pub find_html_tag_pos : Bytes → Bytes → Bool × ℤ
unfolding skip_until_char_ignore_quotes skip_space match_name
find_html_tag_pos tag tagname =
    let i = skip_space tag 1 in
    let j = skip_space tag (if is_at tag i b'/' then i + 1 else i) in
    if not (length tag == 0) && not (is_at tag 0 b'<')
    then (false, negsuc 0)
    else elim (match_name (drop j tag) tagname j) [
      | none ↦ (false, negsuc 0)
      | some k ↦
          (let right_angle = skip_until_char_ignore_quotes tag k b'>' in
            if k == length tag
            then (false, negsuc 0)
            else if leb k right_angle
            then (true, pos right_angle)
            else (false, negsuc 0))
    ]

unfoldable pub is_html_tag : Bytes → Bytes → Bool
unfolding find_html_tag_pos
is_html_tag tag tagname = (find_html_tag_pos tag tagname).0
