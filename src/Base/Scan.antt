-- ===== src/Base/Scan.antt =====
-- Loops that advance an index while a test of the byte under it holds.
use Prim.Native.Nat.{ℕ, zero, suc, ◌+◌, ◌-◌, ◌≤◌, ◌<◌}
use mathlib.Core.Path.{◌≡◌, refl, ap, ◌∙◌}
use mathlib.Core.Bool.{Bool, true, false, ◌&&◌}
use mathlib.Core.Option.{some}
use mathlib.Core.List.{[], ◌∷◌, ◌++◌}
use native.Mathlib.Omega.{arith}
use blackfriday_2_rust.Base.Tests.{if◌then◌else◌}
use blackfriday_2_rust.Base.Lists.{Bytes, length, get_elem?, drop, length-drop, get_elem?-drop}

-- How many leading bytes pass the test.
unfoldable pub count_while : (ℕ → Bool) → Bytes → ℕ
count_while p [] = 0
count_while p (b ∷ bs) = if p b then suc (count_while p bs) else 0

-- `while i < data.len() && p(data[i]) { i += 1 }`.
unfoldable pub skip_while : (ℕ → Bool) → Bytes → ℕ → ℕ
skip_while p bs i = i + count_while p (drop i bs)

-- Whether every byte passes the test.
unfoldable pub all : (ℕ → Bool) → Bytes → Bool
all p [] = true
all p (b ∷ bs) = p b && all p bs

pub count_while-all :
    (p : ℕ → Bool) (xs : Bytes) (b : ℕ) (rest : Bytes)
    → all p xs ≡ true
    → p b ≡ false
    → count_while p (xs ++ b ∷ rest) ≡ length xs
unfolding count_while all
count_while-all p [] b rest h n = rw n refl
count_while-all p (x ∷ xs) b rest h n = ground (arith, count_while-all p xs b rest)

pub count_while-le : (p : ℕ → Bool) (bs : Bytes) → count_while p bs ≤ length bs
unfolding count_while
count_while-le p [] = omega arith
count_while-le p (b ∷ bs) = ground (arith, count_while-le p bs)

pub count_while-stop :
    (p : ℕ → Bool) (bs : Bytes) (b : ℕ) → get_elem? bs (count_while p bs) ≡ some b → p b ≡ false
unfolding count_while
count_while-stop p [] b h = cc
count_while-stop p (c ∷ bs) b h = ground (arith, count_while-stop p bs b)

pub count_while-run :
    (p : ℕ → Bool) (bs : Bytes) (j b : ℕ)
    → j < count_while p bs
    → get_elem? bs j ≡ some b
    → p b ≡ true
unfolding count_while
count_while-run p [] j b lt h = cc
count_while-run p (c ∷ bs) zero b lt h = ground arith
count_while-run p (c ∷ bs) (suc j) b lt h = ground (arith, count_while-run p bs j b)

module _ (p : ℕ → Bool) (bs : Bytes) (i : ℕ) where
  pub skip_while-ge : i ≤ skip_while p bs i
  unfolding skip_while
  skip_while-ge = omega arith

  pub skip_while-le : i ≤ length bs → skip_while p bs i ≤ length bs
  unfolding skip_while
  skip_while-le h = omega (arith, count_while-le p (drop i bs), length-drop i bs)

  pub skip_while-stop : (b : ℕ) → get_elem? bs (skip_while p bs i) ≡ some b → p b ≡ false
  unfolding skip_while
  skip_while-stop b h =
      count_while-stop p (drop i bs) b (get_elem?-drop i bs (count_while p (drop i bs)) ∙ h)

  pub skip_while-run :
      (j b : ℕ) → i ≤ j → j < skip_while p bs i → get_elem? bs j ≡ some b → p b ≡ true
  unfolding skip_while
  skip_while-run j b ge lt h =
      count_while-run p (drop i bs) (j - i) b (omega arith)
        (get_elem?-drop i bs (j - i) ∙ ap (get_elem? bs) e ∙ h)
    where
      e : i + (j - i) ≡ j
      e = omega arith
