-- ===== src/Smartypants/Quote.antt =====
-- src/smartypants.rs: `word_boundary`, `tolower` and `smart_quote_helper`, and the table of classes
-- that the sixteen arms of the latter stand for.
use blackfriday_2_rust.Base.{
  ℕ, ◌+◌, ◌-◌, ◌≡◌, refl, Bool, true, false, not, ◌&&◌, ◌||◌, [], ◌∷◌, ◌++◌, ◌==◌, arith,
  if◌then◌else◌, Bytes, codes, within,
}
use blackfriday_2_rust.Util.{is_punct, is_space}
use blackfriday_2_rust.Util.Classes.{classes_disjoint}

unfoldable pub word_boundary : ℕ → Bool
word_boundary c = c == 0 || is_space c || is_punct c

unfoldable pub tolower : ℕ → ℕ
tolower c = if within b'A' b'Z' c then c - b'A' + b'a' else c

-- The chain of tests: whether the quote is open behind it.
unfoldable pub opens : (previous_char next_char : ℕ) → Bool → Bool
opens p n is_open =
    if p == 0 && n == 0
    then not is_open
    else if is_space p && n == 0
    then true
    else if is_punct p && n == 0
    then false
    else if n == 0
    then false
    else if p == 0 && is_space n
    then false
    else if is_space p && is_space n
    then not is_open
    else if is_punct p && is_space n
    then false
    else if is_space n
    then false
    else if p == 0 && is_punct n
    then false
    else if is_space p && is_punct n
    then true
    else if is_punct p && is_punct n
    then not is_open
    else if is_punct n
    then false
    else if p == 0
    then true
    else if is_space p
    then true
    else if is_punct p
    then true
    else false

-- What is written, and the quote's new state. The source also returns `true` on every path.
unfoldable pub smart_quote_helper : (previous_char next_char quote : ℕ) → Bool → Bool → Bytes × Bool
unfolding opens
smart_quote_helper previous_char next_char quote is_open add_nbsp =
    let now = opens previous_char next_char is_open in
    let nbsp = codes "&nbsp;" in
    (
      (if add_nbsp && not now then nbsp else [])
          ++ (b'&' ∷ (if now then b'l' else b'r') ∷ quote ∷ codes "quo;")
          ++ (if add_nbsp && now then nbsp else []),
      now,
    )

-- What the helper looks at in a neighbour; NUL stands for the edge of the text.
pub data CharClass : Type 0 where
  edge space punct normal : CharClass

unfoldable pub class : ℕ → CharClass
class c =
    if c == 0 then edge else if is_space c then space else if is_punct c then punct else normal

abbrev same : CharClass → CharClass → Bool
same edge edge = true
same space space = true
same punct punct = true
same normal normal = true
same _ _ = false

abbrev is_space_class : CharClass → Bool
is_space_class space = true
is_space_class _ = false

abbrev is_normal : CharClass → Bool
is_normal normal = true
is_normal _ = false

-- Between neighbours of one class the quote toggles, but closes inside a word. Otherwise it opens
-- behind a space, and behind anything but a word if a word follows; else it closes.
abbrev pub rule : CharClass → CharClass → Bool → Bool
rule p n is_open =
    if same p n
    then not (is_normal p) && not is_open
    else is_space_class p || (is_normal n && not (is_normal p))

no_class_zero : (is_space 0 ≡ false) × (is_punct 0 ≡ false)
unfolding is_space is_punct
no_class_zero = (refl, refl)

-- The sixteen arms, taken in order, are this rule on the classes of the two neighbours.
pub opens-rule : (p n : ℕ) (is_open : Bool) → opens p n is_open ≡ rule (class p) (class n) is_open
unfolding opens class
opens-rule p n is_open =
    ground (arith, no_class_zero.0, no_class_zero.1, (classes_disjoint p).1, (classes_disjoint n).1)
