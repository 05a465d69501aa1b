-- ===== src/Block/Counts.antt =====
-- src/block.rs: how far the scanners of a line go.
use blackfriday_2_rust.Base.{
  ℕ, zero, suc, ◌≤◌, ◌<◌, ◌≡◌, Bool, true, some, [], ◌∷◌, arith, Bytes, length, get_elem?,
}
use blackfriday_2_rust.Block.{count_upto}

module _ (p : ℕ → Bool) where
  pub count_upto-le :
      (k : ℕ) (bs : Bytes) → (count_upto k p bs ≤ k) × (count_upto k p bs ≤ length bs)
  unfolding count_upto
  count_upto-le zero bs = (omega arith, omega arith)
  count_upto-le (suc k) [] = (omega arith, omega arith)
  count_upto-le (suc k) (b ∷ bs) = ground (arith, count_upto-le k bs)

  -- Every byte that is counted passes the test.
  pub count_upto-run :
      (k : ℕ) (bs : Bytes) (j b : ℕ) → j < count_upto k p bs → get_elem? bs j ≡ some b → p b ≡ true
  unfolding count_upto
  count_upto-run zero bs j b lt h = absurd (omega arith)
  count_upto-run (suc k) [] j b lt h = cc
  count_upto-run (suc k) (c ∷ bs) zero b lt h = ground arith
  count_upto-run (suc k) (c ∷ bs) (suc j) b lt h = ground (arith, count_upto-run k bs j b)
