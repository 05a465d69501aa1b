-- ===== src/Block/Blank.antt =====
-- src/block.rs: blank lines and backslashes.
use blackfriday_2_rust.Base.{
  at-length, ℕ, zero, suc, ◌+◌, ◌≤◌, ◌≡◌, refl, ap, Bool, not, ◌&&◌, ◌||◌, [], ◌∷◌, ◌==◌, arith,
  if◌then◌else◌, Bytes, length, is_at, count_while, count_while-le,
}
use blackfriday_2_rust.Block.{
  backslashes_before, is_odd, is_backslash_escaped, is_empty_loop, is_empty,
}

unfoldable pub is_blank : ℕ → Bool
is_blank b = b == b' ' || b == b'\t'

-- The length of a blank line by one count of its blanks: all there is, or a newline behind them.
unfoldable pub blank_line : Bytes → ℕ
blank_line text =
    let n = count_while is_blank text in
    if n == length text then n else if is_at text n b'\n' then n + 1 else 0

empty_loop-line :
    (text : Bytes) (i : ℕ)
    → is_empty_loop text i ≡ (
        let n = count_while is_blank text in
        if n == length text then i + n else if is_at text n b'\n' then i + n + 1 else 0)
unfolding is_empty_loop is_blank count_while
empty_loop-line [] i = ground arith
empty_loop-line (c ∷ cs) i = ground (arith, empty_loop-line cs (i + 1), count_while-le is_blank cs)

-- The loop with its early return gives the length of the blank line that starts the text, with its
-- newline if it has one, and 0 if the line is not blank.
pub is_empty-line : (text : Bytes) → is_empty text ≡ blank_line text
unfolding is_empty blank_line count_while
is_empty-line [] = refl
is_empty-line (c ∷ cs) = ground (arith, empty_loop-line (c ∷ cs) 0)

pub is_empty-length : (text : Bytes) → is_empty text ≤ length text
unfolding blank_line
is_empty-length text =
    let n = count_while is_blank text in
    ground (arith, is_empty-line text, count_while-le is_blank text, at-length text n b'\n')

odd-add : (text : Bytes) (i n : ℕ) → backslashes_before text i n ≡ backslashes_before text i 0 + n
unfolding backslashes_before
odd-add text zero n = omega arith
odd-add text (suc i) n = ground (arith, odd-add text i (n + 1), odd-add text i 1)

odd_next : (n : ℕ) → is_odd (n + 1) ≡ not (is_odd n)
unfolding is_odd
odd_next n = ap is_odd {x = n + 1} {y = suc n} (omega arith)

-- A position is escaped exactly where a backslash stands before it that is not escaped itself.
pub escaped-backslash :
    (text : Bytes) (i : ℕ)
    → is_backslash_escaped text (suc i) ≡ (is_at text i b'\\' && not (is_backslash_escaped text i))
unfolding is_backslash_escaped backslashes_before is_odd
escaped-backslash text i =
    ground (arith, ap is_odd (odd-add text i 1), odd_next (backslashes_before text i 0))
