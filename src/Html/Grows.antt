-- ===== src/Html/Grows.antt =====
-- src/html.rs: what every way to write leaves alone: the output only grows, and the parameters stay.
use blackfriday_2_rust.Base.{
  ◌≡◌, refl, ap, sym, ◌∙◌, Bool, true, false, Option, some, List, [], ◌++◌, append-nil,
  append_assoc, if◌then◌else◌, Bytes, codes, ℤ, ◌>>=◌,
}
use blackfriday_2_rust.Html.{Sink, write, tag, out, cr}

-- The sink `s'` has at least the output of `s`, its parameters, and `d` for `disable_tags`.
abbrev pub GrowsTo : ℤ → Sink → Sink → Type 0
GrowsTo d s s' =
    ((t : Bytes) × (s'.written ≡ s.written ++ t))
    × (s'.renderer.params ≡ s.renderer.params)
    × (s'.renderer.disable_tags ≡ d)

abbrev pub Grows : Sink → Sink → Type 0
Grows s s' = GrowsTo s.renderer.disable_tags s s'

pub Grows-refl : (s : Sink) → Grows s s
Grows-refl s = (([], sym (append-nil s.written)), refl, refl)

pub Grows-trans : (d : ℤ) (s t u : Sink) → Grows s t → GrowsTo d t u → GrowsTo d s u
Grows-trans d s t u ((a, e), p, q) ((b, f), p', q') =
    ((a ++ b, f ∙ ap (λ w. w ++ b) e ∙ append_assoc s.written a b), p' ∙ p, q')

pub Grows-then : (s t u : Sink) → Grows s t → Grows t u → Grows s u
Grows-then s t u g h = Grows-trans _ s t u g (h.0, h.1, h.2 ∙ g.2)

pub write-Grows : (text : Bytes) (s : Sink) → Grows s (write text s)
write-Grows text s = ((text, refl), refl, refl)

pub out-Grows : (text : Bytes) (s : Sink) → Grows s (out text s)
unfolding out
out-Grows text s = ((_, refl), refl, refl)

pub tag-Grows : (name : Bytes) (attrs : List Bytes) (s : Sink) → Grows s (tag name attrs s)
unfolding tag
tag-Grows name attrs s = ((_, refl), refl, refl)

pub if-Grows : (c : Bool) (s a b : Sink) → Grows s a → Grows s b → Grows s (if c then a else b)
if-Grows true s a b g h = g
if-Grows false s a b g h = h

pub cr-Grows : (s : Sink) → Grows s (cr s)
unfolding cr
cr-Grows s = if-Grows _ s _ s (out-Grows (codes "\n") s) (Grows-refl s)

-- A step that gives a result, and that result.
abbrev pub YieldsTo : ℤ → Sink → Option Sink → Type 0
YieldsTo d s r = (s' : Sink) × (r ≡ some s') × GrowsTo d s s'

abbrev pub Yields : Sink → Option Sink → Type 0
Yields s r = YieldsTo s.renderer.disable_tags s r

pub Yields-some : (s t : Sink) → Grows s t → Yields s (some t)
Yields-some s t g = (t, refl, g)

pub Yields-bind :
    (s : Sink) (r : Option Sink) (f : Sink → Option Sink)
    → Yields s r
    → ((t : Sink) → Grows s t → Yields t (f t))
    → Yields s (r >>= f)
Yields-bind s r f (t, e, g) h =
    let (u, e', g') = h t g in (u, rw (e, ◌>>=◌) e', Grows-trans _ s t u g (g'.0, g'.1, g'.2 ∙ g.2))

pub Yields-after : (s t : Sink) (r : Option Sink) → Grows s t → Yields t r → Yields s r
Yields-after s t r g (u, e, h) = (u, e, Grows-trans _ s t u g (h.0, h.1, h.2 ∙ g.2))
