-- ===== src/Smartypants.antt =====
-- src/smartypants.rs: the renderer's state, the table of handlers, and the loop of `process`.
pub mod Quote
pub mod Handlers
pub mod Used
pub mod Process
pub mod Text
use blackfriday_2_rust.Base.{
  ℕ, zero, suc, ◌+◌, Bool, true, false, not, ◌&&◌, ◌||◌, Option, none, some, List, [], ◌∷◌, ◌++◌,
  ◌==◌, ltb, if◌then◌else◌, Bytes, codes, length, slice, get_or, drop, within, ◌>>=◌,
}
use blackfriday_2_rust.Flags.{
  FlagSet, intersects, smartypants_fractions, smartypants_dashes, smartypants_latex_dashes,
  smartypants_angled_quotes, smartypants_quotes_nbsp,
}
use blackfriday_2_rust.Smartypants.Handlers.{
  Quotes, Handled, smart_single_quote, smart_parens, smart_dash, smart_dash_latex,
  smart_amp_variant, smart_period, smart_backtick, smart_number_generic, smart_number,
  smart_double_quote_variant, smart_left_angle,
}

pub data SmartCallback : Type 0 where
  double_quote angled_double_quote single_quote parens dash dash_latex : SmartCallback
  period number number_generic left_angle backtick : SmartCallback
  amp : (quote : ℕ) (add_nbsp : Bool) → SmartCallback

-- The array of 256 handlers is a function of the byte.
abbrev pub Callbacks : Type 0
Callbacks = ℕ → Option SmartCallback

pub record SpRenderer : Type 0 where
  pub quotes : Quotes
  pub callbacks : Callbacks

-- `callbacks[c] = v`.
abbrev pub assign : ℕ → Option SmartCallback → Callbacks → Callbacks
assign c v t d = if d == c then v else t d

-- `for ch in b'1'..=b'9'`.
abbrev pub assign_digits : SmartCallback → Callbacks → Callbacks
assign_digits v t d = if within b'1' b'9' d then some v else t d

abbrev pub assign_quotes : FlagSet → Callbacks → Callbacks
assign_quotes flags t d =
    let add_nbsp = intersects flags smartypants_quotes_nbsp in
    if not (intersects flags smartypants_angled_quotes)
    then assign b'&' (some (amp b'd' add_nbsp)) (assign b'"' (some double_quote) t) d
    else assign b'&' (some (amp b'a' add_nbsp)) (assign b'"' (some angled_double_quote) t) d

abbrev pub assign_dash : FlagSet → Callbacks → Callbacks
assign_dash flags t d =
    if intersects flags smartypants_dashes
    then assign b'-' (some (if intersects flags smartypants_latex_dashes then dash_latex else dash))
        t d
    else t d

abbrev pub assign_numbers : FlagSet → Callbacks → Callbacks
assign_numbers flags t d =
    if not (intersects flags smartypants_fractions)
    then assign b'3' (some number) (assign b'1' (some number) t) d
    else assign_digits number_generic t d

-- `SpRenderer::new`.
unfoldable pub new : FlagSet → SpRenderer
new flags = record {
  quotes = record { in_single_quote = false; in_double_quote = false };
  callbacks = assign b'`' (some backtick) (
      assign b'<' (some left_angle) (
        assign_numbers flags (
          assign b'.' (some period) (
            assign_dash flags (
              assign b'(' (some parens)
                (assign b'\'' (some single_quote) (assign_quotes flags (λ d. none))))))));
}

-- What a handler writes, how many bytes it takes beyond its own, and the quotes after it.
unfoldable pub dispatch : SmartCallback → Quotes → ℕ → Bytes → Handled
unfolding smart_single_quote smart_parens smart_dash smart_dash_latex smart_amp_variant smart_period
    smart_backtick smart_number_generic smart_number smart_double_quote_variant smart_left_angle
dispatch double_quote q previous_char s = smart_double_quote_variant q previous_char s b'd'
dispatch angled_double_quote q previous_char s = smart_double_quote_variant q previous_char s b'a'
dispatch (amp quote add_nbsp) q previous_char s = smart_amp_variant q previous_char s quote add_nbsp
dispatch single_quote q previous_char s = smart_single_quote q previous_char s
dispatch parens q previous_char s = smart_parens q s
dispatch dash q previous_char s = smart_dash q previous_char s
dispatch dash_latex q previous_char s = smart_dash_latex q s
dispatch period q previous_char s = smart_period q s
dispatch number q previous_char s = smart_number q previous_char s
dispatch number_generic q previous_char s = smart_number_generic q previous_char s
dispatch left_angle q previous_char s = smart_left_angle q s
dispatch backtick q previous_char s = smart_backtick q previous_char s

-- The bytes from `mark` to `i`, if there are any.
abbrev pub copy_run : Bytes → ℕ → ℕ → Bytes → Option Bytes
copy_run s mark i out =
    if ltb mark i then (slice s mark i >>= λ piece. some (out ++ piece)) else some out

abbrev pub before : Bytes → ℕ → ℕ
before s zero = 0
before s (suc i) = get_or s i 0

-- The loop of `process` on fuel: `rest` is `text[i..]`. `none` is a panic or the end of the fuel.
unfoldable pub process_loop :
    ℕ → Callbacks → Bytes → ℕ → ℕ → Bytes → Quotes → Bytes → Option (Bytes × Quotes)
process_loop zero t s mark i rest q out = none
process_loop (suc fuel) t s mark i [] q out =
    if ltb mark (length s)
    then (slice s mark (length s) >>= λ piece. some (out ++ piece, q))
    else some (out, q)
process_loop (suc fuel) t s mark i (c ∷ rest) q out = elim (t c) [
  | none ↦ process_loop fuel t s mark (i + 1) rest q out
  | some action ↦ copy_run s mark i out >>= λ out'.
      (let h = dispatch action q (before s i) (c ∷ rest) in
        process_loop fuel t s (i + h.used + 1) (i + h.used + 1) (drop h.used rest) h.quotes
          (out' ++ h.written))
]

unfoldable pub process : SpRenderer → Bytes → Bytes → Option (Bytes × SpRenderer)
unfolding process_loop dispatch slice
process r out s = process_loop (length s + 1) r.callbacks s 0 0 s r.quotes out >>= λ (out', q).
    some (out', record r { quotes = q })
