-- ===== src/Unescape/Numeric.antt =====
-- src/unescape.rs: the code points that numeric references stand for.
use blackfriday_2_rust.Base.{
  ℕ, zero, suc, ◌-◌, ◌≤◌, ◌<◌, ◌≡◌, refl, Bool, Bool-cases, inl, inr, true, false, not, ◌&&◌, List,
  [], ◌∷◌, arith, leb, length, within, get_or, all,
}
use blackfriday_2_rust.Unescape.{replacement_table, is_surrogate, numeric_char}

-- A Unicode scalar value, which is what `char` holds.
abbrev pub IsScalar : ℕ → Type 0
IsScalar c = (c ≤ 0x10ffff) × (is_surrogate c ≡ false)

is_scalar : ℕ → Bool
is_scalar c = leb 1 c && leb c 0x10ffff && not (is_surrogate c)

all-get_or :
    (p : ℕ → Bool) (xs : List ℕ) (i d : ℕ)
    → all p xs ≡ true
    → i < length xs
    → p (get_or xs i d) ≡ true
unfolding all
all-get_or p [] i d h lt = absurd (omega arith)
all-get_or p (x ∷ xs) zero d h lt = ground arith
all-get_or p (x ∷ xs) (suc i) d h lt = all-get_or p xs i d (ground arith) (omega arith)

table_scalar : all is_scalar replacement_table ≡ true
unfolding all is_scalar
table_scalar = refl

replacement-is_scalar :
    (x : ℕ) → within 0x80 0x9f x ≡ true → is_scalar (get_or replacement_table (x - 0x80) 0) ≡ true
replacement-is_scalar x h =
    all-get_or is_scalar replacement_table (x - 0x80) 0 table_scalar (ground arith)

is_scalar-IsScalar : (c : ℕ) → is_scalar c ≡ true → IsScalar c × (1 ≤ c)
unfolding is_scalar
is_scalar-IsScalar c h = ground arith

numeric_scalar : (x : ℕ) → is_scalar (numeric_char x) ≡ true
unfolding numeric_char
numeric_scalar x = elim (Bool-cases (within 0x80 0x9f x)) [
  | inl in_table ↦ rw in_table (replacement-is_scalar x in_table)
  | inr other ↦ rw other (unfold is_scalar in ground arith)
]

-- Whatever the digits were, overflow of the 32 bits included, the reference stands for a scalar
-- value and never for NUL.
pub numeric_char-IsScalar : (x : ℕ) → IsScalar (numeric_char x) × (1 ≤ numeric_char x)
numeric_char-IsScalar x = is_scalar-IsScalar (numeric_char x) (numeric_scalar x)
