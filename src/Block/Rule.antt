-- ===== src/Block/Rule.antt =====
-- src/block.rs: `is_hrule`, its panics and what it tells of a line.
use blackfriday_2_rust.Base.{
  ℕ, zero, suc, ◌+◌, ◌≡◌, refl, ◌∙◌, Bool, false, ◌&&◌, ◌||◌, none, some, [], ◌∷◌, ◌==◌, arith,
  if◌then◌else◌, Bytes, length, drop, length-drop, ltb, leb, all,
}
use blackfriday_2_rust.Block.{
  count_upto, leading_spaces, hrule_start, hrule_line, hrule_from, is_hrule,
}
use blackfriday_2_rust.Block.Counts.{count_upto-le}

-- The text up to its first newline.
unfoldable pub first_line : Bytes → Bytes
first_line [] = []
first_line (c ∷ cs) = if c == b'\n' then [] else c ∷ first_line cs

unfoldable pub occurrences : ℕ → Bytes → ℕ
occurrences c [] = 0
occurrences c (b ∷ bs) = if b == c then suc (occurrences c bs) else occurrences c bs

-- A line of one marker: that byte and spaces only, the byte at least three times.
unfoldable pub is_rule_of : ℕ → Bytes → Bool
is_rule_of c line = all (λ b. b == c || b == b' ') line && leb 3 (occurrences c line)

abbrev is_marker : ℕ → Bool
is_marker c = c == b'*' || c == b'-' || c == b'_'

unfoldable pub is_rule : Bytes → Bool
unfolding is_rule_of first_line
is_rule [] = false
is_rule (c ∷ cs) = is_marker c && is_rule_of c (first_line (c ∷ cs))

rule_line :
    (c : ℕ) (bs : Bytes) (n : ℕ)
    → hrule_line c bs n ≡ (
        all (λ b. b == c || b == b' ') (first_line bs) && leb 3 (n + occurrences c (first_line bs)))
unfolding hrule_line first_line occurrences all
rule_line c [] n = ground arith
rule_line c (b ∷ bs) n = ground (arith, rule_line c bs n, rule_line c bs (n + 1))

start_drop :
    (k : ℕ) (text : Bytes)
    → hrule_start k text ≡ (
        if leb k (count_upto k (λ b. b == b' ') text)
          || ltb (count_upto k (λ b. b == b' ') text) (length text)
        then some (drop (count_upto k (λ b. b == b' ') text) text)
        else none)
unfolding hrule_start count_upto
start_drop zero text = ground arith
start_drop (suc k) [] = ground arith
start_drop (suc k) (c ∷ cs) = ground (arith, start_drop k cs)

from-rule : (c : ℕ) (cs : Bytes) → hrule_from (c ∷ cs) ≡ some (is_rule (c ∷ cs))
unfolding hrule_from is_rule is_rule_of
from-rule c cs = ground (arith, rule_line c (c ∷ cs) 0)

hrule_from-rule :
    (text : Bytes) → hrule_from text ≡ (if length text == 0 then none else some (is_rule text))
unfolding hrule_from
hrule_from-rule [] = refl
hrule_from-rule (c ∷ cs) = from-rule c cs ∙ ground arith

-- It panics on a text of at most three bytes that are all spaces, and on no other. Else it tells
-- whether what stands behind the leading spaces, three at most, is a rule: up to its newline one
-- marker at least three times, and only spaces between.
pub is_hrule-rule :
    (text : Bytes)
    → is_hrule text ≡ (
        if leading_spaces text == length text
        then none
        else some (is_rule (drop (leading_spaces text) text)))
unfolding is_hrule leading_spaces
is_hrule-rule text =
    let i = leading_spaces text in
    rw (start_drop 3 text) (
      ground (
        arith,
        hrule_from-rule (drop i text),
        length-drop i text,
        count_upto-le (λ (b : ℕ). b == b' ') 3 text,
      ))
