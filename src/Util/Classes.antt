-- ===== src/Util/Classes.antt =====
-- src/util.rs: the byte classes.
use blackfriday_2_rust.Base.{ℕ, false, ◌||◌, ◌&&◌, ◌≡◌, arith, within}
use blackfriday_2_rust.Util.{is_punct, is_space, is_alnum}

-- The punctuation bytes are the four ranges of ASCII that hold neither letters, digits, blanks nor
-- control bytes: from `!` to `/`, from `:` to `@`, from `[` to the backquote, from `{` to `~`.
pub is_punct-ranges :
    (c : ℕ)
    → is_punct c
      ≡ (within b'!' b'/' c || within b':' b'@' c || within b'[' b'`' c || within b'{' b'~' c)
unfolding is_punct
is_punct-ranges c = ground arith

-- No byte is of two of the classes punctuation, letter or digit, and space.
pub classes_disjoint :
    (c : ℕ)
    → ((is_punct c && is_alnum c) ≡ false)
      × ((is_punct c && is_space c) ≡ false)
      × ((is_alnum c && is_space c) ≡ false)
unfolding is_alnum is_space
classes_disjoint c = ground (arith, is_punct-ranges c)
