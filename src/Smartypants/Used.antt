-- ===== src/Smartypants/Used.antt =====
-- src/smartypants.rs: how much of the text a handler takes.
use blackfriday_2_rust.Base.{
  ℕ, suc, ◌+◌, ◌≤◌, ◌≢◌, refl, Bool, not, ◌∷◌, ◌==◌, arith, Bytes, codes, length,
  starts_with-length, skip_while, skip_while-le,
}
use blackfriday_2_rust.Util.{is_ascii_digit}
use blackfriday_2_rust.Smartypants.Handlers.{
  Quotes, smart_single_quote, smart_parens, smart_dash, smart_dash_latex, smart_amp_variant,
  smart_period, smart_backtick, smart_denominator, smart_number_generic, smart_number,
  smart_double_quote_variant, smart_left_angle,
}
use blackfriday_2_rust.Smartypants.{
  SmartCallback, double_quote, angled_double_quote, single_quote, parens, dash, dash_latex, period,
  number, number_generic, left_angle, backtick, amp, dispatch,
}

module _ (q : Quotes) (previous c : ℕ) (cs : Bytes) where
  single_quote-used : (smart_single_quote q previous (c ∷ cs)).used ≤ length cs
  unfolding smart_single_quote
  single_quote-used = ground arith

  parens-used : (smart_parens q (c ∷ cs)).used ≤ length cs
  unfolding smart_parens
  parens-used = ground arith

  dash-used : (smart_dash q previous (c ∷ cs)).used ≤ length cs
  unfolding smart_dash
  dash-used = ground arith

  dash_latex-used : (smart_dash_latex q (c ∷ cs)).used ≤ length cs
  unfolding smart_dash_latex
  dash_latex-used = ground arith

  amp-used :
      (quote : ℕ) (nbsp : Bool)
      → (smart_amp_variant q previous (c ∷ cs) quote nbsp).used ≤ length cs
  unfolding smart_amp_variant
  amp-used quote nbsp = ground (
    arith,
    starts_with-length (c ∷ cs) (codes "&quot;"),
    starts_with-length (c ∷ cs) (codes "&#0;"),
  )

  period-used : (smart_period q (c ∷ cs)).used ≤ length cs
  unfolding smart_period
  period-used = ground arith

  backtick-used : (smart_backtick q previous (c ∷ cs)).used ≤ length cs
  unfolding smart_backtick
  backtick-used = ground arith

  number-used : (smart_number q previous (c ∷ cs)).used ≤ length cs
  unfolding smart_number
  number-used = ground arith

  double_quote-used :
      (quote : ℕ) → (smart_double_quote_variant q previous (c ∷ cs) quote).used ≤ length cs
  unfolding smart_double_quote_variant
  double_quote-used quote = ground arith

  denominator-used :
      (num_end den_start : ℕ)
      → den_start ≤ suc (length cs)
      → (smart_denominator q (c ∷ cs) num_end den_start).used ≤ length cs
  unfolding smart_denominator
  denominator-used num_end den_start h =
      ground (arith, skip_while-le is_ascii_digit (c ∷ cs) den_start h)

  number_generic-used : (smart_number_generic q previous (c ∷ cs)).used ≤ length cs
  unfolding smart_number_generic
  number_generic-used =
      let n = skip_while is_ascii_digit (c ∷ cs) 0 in
      ground (arith, denominator-used n (n + 3), denominator-used n (n + 1))

  left_angle-used : (smart_left_angle q (c ∷ cs)).used ≤ suc (length cs)
  unfolding smart_left_angle
  left_angle-used = ground (arith, skip_while-le (λ (b : ℕ). not (b == b'>')) (c ∷ cs) 0)

within_text : {P : Type 0} (m n : ℕ) → m ≤ n → (m ≤ suc n) × (P → m ≤ n)
within_text m n h = (omega arith, λ x. h)

-- A handler takes no more than the text holds; only the one of `<` may also take the place behind
-- the end, on which the loop then stops.
pub dispatch-used :
    (action : SmartCallback) (q : Quotes) (previous c : ℕ) (cs : Bytes)
    → ((dispatch action q previous (c ∷ cs)).used ≤ suc (length cs))
      × (action ≢ left_angle → (dispatch action q previous (c ∷ cs)).used ≤ length cs)
unfolding dispatch
dispatch-used double_quote q p c cs = within_text _ _ (double_quote-used q p c cs b'd')
dispatch-used angled_double_quote q p c cs = within_text _ _ (double_quote-used q p c cs b'a')
dispatch-used single_quote q p c cs = within_text _ _ (single_quote-used q p c cs)
dispatch-used parens q p c cs = within_text _ _ (parens-used q p c cs)
dispatch-used dash q p c cs = within_text _ _ (dash-used q p c cs)
dispatch-used dash_latex q p c cs = within_text _ _ (dash_latex-used q p c cs)
dispatch-used period q p c cs = within_text _ _ (period-used q p c cs)
dispatch-used number q p c cs = within_text _ _ (number-used q p c cs)
dispatch-used number_generic q p c cs = within_text _ _ (number_generic-used q p c cs)
dispatch-used backtick q p c cs = within_text _ _ (backtick-used q p c cs)
dispatch-used (amp quote nbsp) q p c cs = within_text _ _ (amp-used q p c cs quote nbsp)
dispatch-used left_angle q p c cs = (left_angle-used q p c cs, λ ne. absurd (ne refl))
