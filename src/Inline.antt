-- ===== src/Inline.antt =====
-- src/inline.rs: the matchers that find the end of a tag or an autolink.
pub mod Emphasis
pub mod Tag
use blackfriday_2_rust.Base.{
  ℕ, zero, suc, ◌+◌, ◌-◌, ◌%◌, Bool, true, false, not, ◌&&◌, ◌||◌, Option, none, some, List, [],
  ◌∷◌, ◌++◌, ◌==◌, ltb, leb, if◌then◌else◌, Bytes, codes, length, get_or, is_at, drop, starts_with,
  within, skip_while, count_while,
}
use blackfriday_2_rust.Util.{is_alnum, is_space}

pub data AutolinkType : Type 0 where
  not_autolink normal_autolink email_autolink : AutolinkType

unfoldable pub strip_mailto : Bytes → Bytes
unfolding starts_with
strip_mailto link =
    if starts_with link (codes "mailto://")
    then drop 9 link
    else if starts_with link (codes "mailto:")
    then drop 7 link
    else link

-- The loop over the prefix; `u8::wrapping_add` is the sum modulo 256.
unfoldable pub has_prefix_case_insensitive : (s prefix : Bytes) → Bool
has_prefix_case_insensitive s [] = true
has_prefix_case_insensitive [] (b ∷ bs) = false
has_prefix_case_insensitive (c ∷ cs) (b ∷ bs) =
    (b == c || b == (c + (b'a' - b'A')) % 256) && has_prefix_case_insensitive cs bs

unfoldable pub is_end_of_link : ℕ → Bool
unfolding is_space
is_end_of_link c = is_space c || c == b'<'

-- The loop of `is_mailto_auto_link` at index `i`, with the `@` counted so far.
unfoldable pub mailto_loop : Bytes → ℕ → ℕ → ℕ
mailto_loop [] i nb = 0
mailto_loop (c ∷ cs) i nb =
    let rest = mailto_loop cs (i + 1) (if c == b'@' then nb + 1 else nb) in
    if is_alnum c || c == b'@' || c == b'-' || c == b'.' || c == b'_'
    then rest
    else if c == b'>'
    then (if nb == 1 then i + 1 else 0)
    else 0

unfoldable pub is_mailto_auto_link : Bytes → ℕ
unfolding mailto_loop
is_mailto_auto_link text = mailto_loop text 0 0

abbrev pub is_scheme_byte : ℕ → Bool
is_scheme_byte b = is_alnum b || b == b'.' || b == b'+' || b == b'-'

abbrev pub ends_link : ℕ → Bool
ends_link b = b == b'>' || b == b'\'' || b == b'"' || is_space b

-- The loop of the complete-autolink test at index `i`; `true` where the byte is passed by unseen,
-- since a backslash stands before it.
unfoldable pub link_loop : Bool → Bytes → ℕ → ℕ
link_loop escaped [] i = if escaped then i + 1 else i
link_loop true (c ∷ cs) i = link_loop false cs (i + 1)
link_loop false (c ∷ cs) i =
    let rest = link_loop (c == b'\\') cs (i + 1) in
    if c == b'\\' then rest else if ends_link c then i else rest

-- The search for `>` from `i` on, with its fallthrough where there is none.
unfoldable pub find_end : Bytes → ℕ → ℕ
unfolding skip_while
find_end text i =
    let k = skip_while (λ b. not (b == b'>')) text i in if ltb k (length text) then k + 1 else i

-- From the complete-autolink test on, where a scheme was found and `j` is behind its colon.
unfoldable pub link_end : Bytes → ℕ → AutolinkType × ℕ
unfolding link_loop find_end
link_end text j =
    let i = link_loop false (drop j text) j in
    if leb (length text) i
    then (normal_autolink, 0)
    else if ltb j i && is_at text i b'>'
    then (normal_autolink, i + 1)
    else (not_autolink, find_end text i)

-- Behind the scheme or host name, which ends at `i`.
unfoldable pub tag_from : Bytes → ℕ → AutolinkType × ℕ
unfolding is_mailto_auto_link link_end find_end
tag_from text i =
    let mail = is_mailto_auto_link (drop i text) in
    if ltb 1 i && is_at text i b'@' && not (mail == 0)
    then (email_autolink, i + mail)
    else if ltb 2 i && is_at text i b':'
    then (if leb (length text) (i + 1)
        then (not_autolink, find_end text (i + 1))
        else link_end text (i + 1))
    else (not_autolink, find_end text i)

unfoldable pub tag_length : Bytes → AutolinkType × ℕ
unfolding tag_from skip_while
tag_length text =
    let start = if is_at text 1 b'/' then 2 else 1 in
    if ltb (length text) 3
    then (not_autolink, 0)
    else if not (is_at text 0 b'<')
    then (not_autolink, 0)
    else if not (is_alnum (get_or text start 0))
    then (not_autolink, 0)
    else tag_from text (skip_while is_scheme_byte text start)
