-- ===== src/HtmlEntities/Part08.antt =====
-- src/html_entities.rs: lines 1037 to 1179 of the table `ENTITY`.
use Prim.Native.String.{String}
use Prim.Native.Nat.{ℕ}
use mathlib.Core.List.{List, [], ◌∷◌}

unfoldable pub entity_08 : List (String × ℕ)
entity_08 =
    ("eqcirc;", 0x2256)
    ∷ ("eqcolon;", 0x2255)
    ∷ ("eqsim;", 0x2242)
    ∷ ("eqslantgtr;", 0x2a96)
    ∷ ("eqslantless;", 0x2a95)
    ∷ ("equals;", 0x3d)
    ∷ ("equest;", 0x225f)
    ∷ ("equiv;", 0x2261)
    ∷ ("equivDD;", 0x2a78)
    ∷ ("eqvparsl;", 0x29e5)
    ∷ ("erDot;", 0x2253)
    ∷ ("erarr;", 0x2971)
    ∷ ("escr;", 0x212f)
    ∷ ("esdot;", 0x2250)
    ∷ ("esim;", 0x2242)
    ∷ ("eta;", 0x3b7)
    ∷ ("eth", 0xf0)
    ∷ ("eth;", 0xf0)
    ∷ ("euml", 0xeb)
    ∷ ("euml;", 0xeb)
    ∷ ("euro;", 0x20ac)
    ∷ ("excl;", 0x21)
    ∷ ("exist;", 0x2203)
    ∷ ("expectation;", 0x2130)
    ∷ ("exponentiale;", 0x2147)
    ∷ ("fallingdotseq;", 0x2252)
    ∷ ("fcy;", 0x444)
    ∷ ("female;", 0x2640)
    ∷ ("ffilig;", 0xfb03)
    ∷ ("fflig;", 0xfb00)
    ∷ ("ffllig;", 0xfb04)
    ∷ ("ffr;", 0x1d523)
    ∷ ("filig;", 0xfb01)
    ∷ ("flat;", 0x266d)
    ∷ ("fllig;", 0xfb02)
    ∷ ("fltns;", 0x25b1)
    ∷ ("fnof;", 0x192)
    ∷ ("fopf;", 0x1d557)
    ∷ ("forall;", 0x2200)
    ∷ ("fork;", 0x22d4)
    ∷ ("forkv;", 0x2ad9)
    ∷ ("fpartint;", 0x2a0d)
    ∷ ("frac12", 0xbd)
    ∷ ("frac12;", 0xbd)
    ∷ ("frac13;", 0x2153)
    ∷ ("frac14", 0xbc)
    ∷ ("frac14;", 0xbc)
    ∷ ("frac15;", 0x2155)
    ∷ ("frac16;", 0x2159)
    ∷ ("frac18;", 0x215b)
    ∷ ("frac23;", 0x2154)
    ∷ ("frac25;", 0x2156)
    ∷ ("frac34", 0xbe)
    ∷ ("frac34;", 0xbe)
    ∷ ("frac35;", 0x2157)
    ∷ ("frac38;", 0x215c)
    ∷ ("frac45;", 0x2158)
    ∷ ("frac56;", 0x215a)
    ∷ ("frac58;", 0x215d)
    ∷ ("frac78;", 0x215e)
    ∷ ("frasl;", 0x2044)
    ∷ ("frown;", 0x2322)
    ∷ ("fscr;", 0x1d4bb)
    ∷ ("gE;", 0x2267)
    ∷ ("gEl;", 0x2a8c)
    ∷ ("gacute;", 0x1f5)
    ∷ ("gamma;", 0x3b3)
    ∷ ("gammad;", 0x3dd)
    ∷ ("gap;", 0x2a86)
    ∷ ("gbreve;", 0x11f)
    ∷ ("gcirc;", 0x11d)
    ∷ ("gcy;", 0x433)
    ∷ ("gdot;", 0x121)
    ∷ ("ge;", 0x2265)
    ∷ ("gel;", 0x22db)
    ∷ ("geq;", 0x2265)
    ∷ ("geqq;", 0x2267)
    ∷ ("geqslant;", 0x2a7e)
    ∷ ("ges;", 0x2a7e)
    ∷ ("gescc;", 0x2aa9)
    ∷ ("gesdot;", 0x2a80)
    ∷ ("gesdoto;", 0x2a82)
    ∷ ("gesdotol;", 0x2a84)
    ∷ ("gesles;", 0x2a94)
    ∷ ("gfr;", 0x1d524)
    ∷ ("gg;", 0x226b)
    ∷ ("ggg;", 0x22d9)
    ∷ ("gimel;", 0x2137)
    ∷ ("gjcy;", 0x453)
    ∷ ("gl;", 0x2277)
    ∷ ("glE;", 0x2a92)
    ∷ ("gla;", 0x2aa5)
    ∷ ("glj;", 0x2aa4)
    ∷ ("gnE;", 0x2269)
    ∷ ("gnap;", 0x2a8a)
    ∷ ("gnapprox;", 0x2a8a)
    ∷ ("gne;", 0x2a88)
    ∷ ("gneq;", 0x2a88)
    ∷ ("gneqq;", 0x2269)
    ∷ ("gnsim;", 0x22e7)
    ∷ ("gopf;", 0x1d558)
    ∷ ("grave;", 0x60)
    ∷ ("gscr;", 0x210a)
    ∷ ("gsim;", 0x2273)
    ∷ ("gsime;", 0x2a8e)
    ∷ ("gsiml;", 0x2a90)
    ∷ ("gt", 0x3e)
    ∷ ("gt;", 0x3e)
    ∷ ("gtcc;", 0x2aa7)
    ∷ ("gtcir;", 0x2a7a)
    ∷ ("gtdot;", 0x22d7)
    ∷ ("gtlPar;", 0x2995)
    ∷ ("gtquest;", 0x2a7c)
    ∷ ("gtrapprox;", 0x2a86)
    ∷ ("gtrarr;", 0x2978)
    ∷ ("gtrdot;", 0x22d7)
    ∷ ("gtreqless;", 0x22db)
    ∷ ("gtreqqless;", 0x2a8c)
    ∷ ("gtrless;", 0x2277)
    ∷ ("gtrsim;", 0x2273)
    ∷ ("hArr;", 0x21d4)
    ∷ ("hairsp;", 0x200a)
    ∷ ("half;", 0xbd)
    ∷ ("hamilt;", 0x210b)
    ∷ ("hardcy;", 0x44a)
    ∷ ("harr;", 0x2194)
    ∷ ("harrcir;", 0x2948)
    ∷ ("harrw;", 0x21ad)
    ∷ ("hbar;", 0x210f)
    ∷ ("hcirc;", 0x125)
    ∷ ("hearts;", 0x2665)
    ∷ ("heartsuit;", 0x2665)
    ∷ ("hellip;", 0x2026)
    ∷ ("hercon;", 0x22b9)
    ∷ ("hfr;", 0x1d525)
    ∷ ("hksearow;", 0x2925)
    ∷ ("hkswarow;", 0x2926)
    ∷ ("hoarr;", 0x21ff)
    ∷ ("homtht;", 0x223b)
    ∷ ("hookleftarrow;", 0x21a9)
    ∷ ("hookrightarrow;", 0x21aa)
    ∷ ("hopf;", 0x1d559)
    ∷ ("horbar;", 0x2015)
    ∷ []
