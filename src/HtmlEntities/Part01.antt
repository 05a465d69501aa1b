-- ===== src/HtmlEntities/Part01.antt =====
-- src/html_entities.rs: lines 36 to 178 of the table `ENTITY`.
use Prim.Native.String.{String}
use Prim.Native.Nat.{ℕ}
use mathlib.Core.List.{List, [], ◌∷◌}

unfoldable pub entity_01 : List (String × ℕ)
entity_01 =
    ("AElig", 0xc6)
    ∷ ("AElig;", 0xc6)
    ∷ ("AMP", 0x26)
    ∷ ("AMP;", 0x26)
    ∷ ("Aacute", 0xc1)
    ∷ ("Aacute;", 0xc1)
    ∷ ("Abreve;", 0x102)
    ∷ ("Acirc", 0xc2)
    ∷ ("Acirc;", 0xc2)
    ∷ ("Acy;", 0x410)
    ∷ ("Afr;", 0x1d504)
    ∷ ("Agrave", 0xc0)
    ∷ ("Agrave;", 0xc0)
    ∷ ("Alpha;", 0x391)
    ∷ ("Amacr;", 0x100)
    ∷ ("And;", 0x2a53)
    ∷ ("Aogon;", 0x104)
    ∷ ("Aopf;", 0x1d538)
    ∷ ("ApplyFunction;", 0x2061)
    ∷ ("Aring", 0xc5)
    ∷ ("Aring;", 0xc5)
    ∷ ("Ascr;", 0x1d49c)
    ∷ ("Assign;", 0x2254)
    ∷ ("Atilde", 0xc3)
    ∷ ("Atilde;", 0xc3)
    ∷ ("Auml", 0xc4)
    ∷ ("Auml;", 0xc4)
    ∷ ("Backslash;", 0x2216)
    ∷ ("Barv;", 0x2ae7)
    ∷ ("Barwed;", 0x2306)
    ∷ ("Bcy;", 0x411)
    ∷ ("Because;", 0x2235)
    ∷ ("Bernoullis;", 0x212c)
    ∷ ("Beta;", 0x392)
    ∷ ("Bfr;", 0x1d505)
    ∷ ("Bopf;", 0x1d539)
    ∷ ("Breve;", 0x2d8)
    ∷ ("Bscr;", 0x212c)
    ∷ ("Bumpeq;", 0x224e)
    ∷ ("CHcy;", 0x427)
    ∷ ("COPY", 0xa9)
    ∷ ("COPY;", 0xa9)
    ∷ ("Cacute;", 0x106)
    ∷ ("Cap;", 0x22d2)
    ∷ ("CapitalDifferentialD;", 0x2145)
    ∷ ("Cayleys;", 0x212d)
    ∷ ("Ccaron;", 0x10c)
    ∷ ("Ccedil", 0xc7)
    ∷ ("Ccedil;", 0xc7)
    ∷ ("Ccirc;", 0x108)
    ∷ ("Cconint;", 0x2230)
    ∷ ("Cdot;", 0x10a)
    ∷ ("Cedilla;", 0xb8)
    ∷ ("CenterDot;", 0xb7)
    ∷ ("Cfr;", 0x212d)
    ∷ ("Chi;", 0x3a7)
    ∷ ("CircleDot;", 0x2299)
    ∷ ("CircleMinus;", 0x2296)
    ∷ ("CirclePlus;", 0x2295)
    ∷ ("CircleTimes;", 0x2297)
    ∷ ("ClockwiseContourIntegral;", 0x2232)
    ∷ ("CloseCurlyDoubleQuote;", 0x201d)
    ∷ ("CloseCurlyQuote;", 0x2019)
    ∷ ("Colon;", 0x2237)
    ∷ ("Colone;", 0x2a74)
    ∷ ("Congruent;", 0x2261)
    ∷ ("Conint;", 0x222f)
    ∷ ("ContourIntegral;", 0x222e)
    ∷ ("Copf;", 0x2102)
    ∷ ("Coproduct;", 0x2210)
    ∷ ("CounterClockwiseContourIntegral;", 0x2233)
    ∷ ("Cross;", 0x2a2f)
    ∷ ("Cscr;", 0x1d49e)
    ∷ ("Cup;", 0x22d3)
    ∷ ("CupCap;", 0x224d)
    ∷ ("DD;", 0x2145)
    ∷ ("DDotrahd;", 0x2911)
    ∷ ("DJcy;", 0x402)
    ∷ ("DScy;", 0x405)
    ∷ ("DZcy;", 0x40f)
    ∷ ("Dagger;", 0x2021)
    ∷ ("Darr;", 0x21a1)
    ∷ ("Dashv;", 0x2ae4)
    ∷ ("Dcaron;", 0x10e)
    ∷ ("Dcy;", 0x414)
    ∷ ("Del;", 0x2207)
    ∷ ("Delta;", 0x394)
    ∷ ("Dfr;", 0x1d507)
    ∷ ("DiacriticalAcute;", 0xb4)
    ∷ ("DiacriticalDot;", 0x2d9)
    ∷ ("DiacriticalDoubleAcute;", 0x2dd)
    ∷ ("DiacriticalGrave;", 0x60)
    ∷ ("DiacriticalTilde;", 0x2dc)
    ∷ ("Diamond;", 0x22c4)
    ∷ ("DifferentialD;", 0x2146)
    ∷ ("Dopf;", 0x1d53b)
    ∷ ("Dot;", 0xa8)
    ∷ ("DotDot;", 0x20dc)
    ∷ ("DotEqual;", 0x2250)
    ∷ ("DoubleContourIntegral;", 0x222f)
    ∷ ("DoubleDot;", 0xa8)
    ∷ ("DoubleDownArrow;", 0x21d3)
    ∷ ("DoubleLeftArrow;", 0x21d0)
    ∷ ("DoubleLeftRightArrow;", 0x21d4)
    ∷ ("DoubleLeftTee;", 0x2ae4)
    ∷ ("DoubleLongLeftArrow;", 0x27f8)
    ∷ ("DoubleLongLeftRightArrow;", 0x27fa)
    ∷ ("DoubleLongRightArrow;", 0x27f9)
    ∷ ("DoubleRightArrow;", 0x21d2)
    ∷ ("DoubleRightTee;", 0x22a8)
    ∷ ("DoubleUpArrow;", 0x21d1)
    ∷ ("DoubleUpDownArrow;", 0x21d5)
    ∷ ("DoubleVerticalBar;", 0x2225)
    ∷ ("DownArrow;", 0x2193)
    ∷ ("DownArrowBar;", 0x2913)
    ∷ ("DownArrowUpArrow;", 0x21f5)
    ∷ ("DownBreve;", 0x311)
    ∷ ("DownLeftRightVector;", 0x2950)
    ∷ ("DownLeftTeeVector;", 0x295e)
    ∷ ("DownLeftVector;", 0x21bd)
    ∷ ("DownLeftVectorBar;", 0x2956)
    ∷ ("DownRightTeeVector;", 0x295f)
    ∷ ("DownRightVector;", 0x21c1)
    ∷ ("DownRightVectorBar;", 0x2957)
    ∷ ("DownTee;", 0x22a4)
    ∷ ("DownTeeArrow;", 0x21a7)
    ∷ ("Downarrow;", 0x21d3)
    ∷ ("Dscr;", 0x1d49f)
    ∷ ("Dstrok;", 0x110)
    ∷ ("ENG;", 0x14a)
    ∷ ("ETH", 0xd0)
    ∷ ("ETH;", 0xd0)
    ∷ ("Eacute", 0xc9)
    ∷ ("Eacute;", 0xc9)
    ∷ ("Ecaron;", 0x11a)
    ∷ ("Ecirc", 0xca)
    ∷ ("Ecirc;", 0xca)
    ∷ ("Ecy;", 0x42d)
    ∷ ("Edot;", 0x116)
    ∷ ("Efr;", 0x1d508)
    ∷ ("Egrave", 0xc8)
    ∷ ("Egrave;", 0xc8)
    ∷ ("Element;", 0x2208)
    ∷ []
