-- ===== src/HtmlEntities/Part02.antt =====
-- src/html_entities.rs: lines 179 to 321 of the table `ENTITY`.
use Prim.Native.String.{String}
use Prim.Native.Nat.{ℕ}
use mathlib.Core.List.{List, [], ◌∷◌}

unfoldable pub entity_02 : List (String × ℕ)
entity_02 =
    ("Emacr;", 0x112)
    ∷ ("EmptySmallSquare;", 0x25fb)
    ∷ ("EmptyVerySmallSquare;", 0x25ab)
    ∷ ("Eogon;", 0x118)
    ∷ ("Eopf;", 0x1d53c)
    ∷ ("Epsilon;", 0x395)
    ∷ ("Equal;", 0x2a75)
    ∷ ("EqualTilde;", 0x2242)
    ∷ ("Equilibrium;", 0x21cc)
    ∷ ("Escr;", 0x2130)
    ∷ ("Esim;", 0x2a73)
    ∷ ("Eta;", 0x397)
    ∷ ("Euml", 0xcb)
    ∷ ("Euml;", 0xcb)
    ∷ ("Exists;", 0x2203)
    ∷ ("ExponentialE;", 0x2147)
    ∷ ("Fcy;", 0x424)
    ∷ ("Ffr;", 0x1d509)
    ∷ ("FilledSmallSquare;", 0x25fc)
    ∷ ("FilledVerySmallSquare;", 0x25aa)
    ∷ ("Fopf;", 0x1d53d)
    ∷ ("ForAll;", 0x2200)
    ∷ ("Fouriertrf;", 0x2131)
    ∷ ("Fscr;", 0x2131)
    ∷ ("GJcy;", 0x403)
    ∷ ("GT", 0x3e)
    ∷ ("GT;", 0x3e)
    ∷ ("Gamma;", 0x393)
    ∷ ("Gammad;", 0x3dc)
    ∷ ("Gbreve;", 0x11e)
    ∷ ("Gcedil;", 0x122)
    ∷ ("Gcirc;", 0x11c)
    ∷ ("Gcy;", 0x413)
    ∷ ("Gdot;", 0x120)
    ∷ ("Gfr;", 0x1d50a)
    ∷ ("Gg;", 0x22d9)
    ∷ ("Gopf;", 0x1d53e)
    ∷ ("GreaterEqual;", 0x2265)
    ∷ ("GreaterEqualLess;", 0x22db)
    ∷ ("GreaterFullEqual;", 0x2267)
    ∷ ("GreaterGreater;", 0x2aa2)
    ∷ ("GreaterLess;", 0x2277)
    ∷ ("GreaterSlantEqual;", 0x2a7e)
    ∷ ("GreaterTilde;", 0x2273)
    ∷ ("Gscr;", 0x1d4a2)
    ∷ ("Gt;", 0x226b)
    ∷ ("HARDcy;", 0x42a)
    ∷ ("Hacek;", 0x2c7)
    ∷ ("Hat;", 0x5e)
    ∷ ("Hcirc;", 0x124)
    ∷ ("Hfr;", 0x210c)
    ∷ ("HilbertSpace;", 0x210b)
    ∷ ("Hopf;", 0x210d)
    ∷ ("HorizontalLine;", 0x2500)
    ∷ ("Hscr;", 0x210b)
    ∷ ("Hstrok;", 0x126)
    ∷ ("HumpDownHump;", 0x224e)
    ∷ ("HumpEqual;", 0x224f)
    ∷ ("IEcy;", 0x415)
    ∷ ("IJlig;", 0x132)
    ∷ ("IOcy;", 0x401)
    ∷ ("Iacute", 0xcd)
    ∷ ("Iacute;", 0xcd)
    ∷ ("Icirc", 0xce)
    ∷ ("Icirc;", 0xce)
    ∷ ("Icy;", 0x418)
    ∷ ("Idot;", 0x130)
    ∷ ("Ifr;", 0x2111)
    ∷ ("Igrave", 0xcc)
    ∷ ("Igrave;", 0xcc)
    ∷ ("Im;", 0x2111)
    ∷ ("Imacr;", 0x12a)
    ∷ ("ImaginaryI;", 0x2148)
    ∷ ("Implies;", 0x21d2)
    ∷ ("Int;", 0x222c)
    ∷ ("Integral;", 0x222b)
    ∷ ("Intersection;", 0x22c2)
    ∷ ("InvisibleComma;", 0x2063)
    ∷ ("InvisibleTimes;", 0x2062)
    ∷ ("Iogon;", 0x12e)
    ∷ ("Iopf;", 0x1d540)
    ∷ ("Iota;", 0x399)
    ∷ ("Iscr;", 0x2110)
    ∷ ("Itilde;", 0x128)
    ∷ ("Iukcy;", 0x406)
    ∷ ("Iuml", 0xcf)
    ∷ ("Iuml;", 0xcf)
    ∷ ("Jcirc;", 0x134)
    ∷ ("Jcy;", 0x419)
    ∷ ("Jfr;", 0x1d50d)
    ∷ ("Jopf;", 0x1d541)
    ∷ ("Jscr;", 0x1d4a5)
    ∷ ("Jsercy;", 0x408)
    ∷ ("Jukcy;", 0x404)
    ∷ ("KHcy;", 0x425)
    ∷ ("KJcy;", 0x40c)
    ∷ ("Kappa;", 0x39a)
    ∷ ("Kcedil;", 0x136)
    ∷ ("Kcy;", 0x41a)
    ∷ ("Kfr;", 0x1d50e)
    ∷ ("Kopf;", 0x1d542)
    ∷ ("Kscr;", 0x1d4a6)
    ∷ ("LJcy;", 0x409)
    ∷ ("LT", 0x3c)
    ∷ ("LT;", 0x3c)
    ∷ ("Lacute;", 0x139)
    ∷ ("Lambda;", 0x39b)
    ∷ ("Lang;", 0x27ea)
    ∷ ("Laplacetrf;", 0x2112)
    ∷ ("Larr;", 0x219e)
    ∷ ("Lcaron;", 0x13d)
    ∷ ("Lcedil;", 0x13b)
    ∷ ("Lcy;", 0x41b)
    ∷ ("LeftAngleBracket;", 0x27e8)
    ∷ ("LeftArrow;", 0x2190)
    ∷ ("LeftArrowBar;", 0x21e4)
    ∷ ("LeftArrowRightArrow;", 0x21c6)
    ∷ ("LeftCeiling;", 0x2308)
    ∷ ("LeftDoubleBracket;", 0x27e6)
    ∷ ("LeftDownTeeVector;", 0x2961)
    ∷ ("LeftDownVector;", 0x21c3)
    ∷ ("LeftDownVectorBar;", 0x2959)
    ∷ ("LeftFloor;", 0x230a)
    ∷ ("LeftRightArrow;", 0x2194)
    ∷ ("LeftRightVector;", 0x294e)
    ∷ ("LeftTee;", 0x22a3)
    ∷ ("LeftTeeArrow;", 0x21a4)
    ∷ ("LeftTeeVector;", 0x295a)
    ∷ ("LeftTriangle;", 0x22b2)
    ∷ ("LeftTriangleBar;", 0x29cf)
    ∷ ("LeftTriangleEqual;", 0x22b4)
    ∷ ("LeftUpDownVector;", 0x2951)
    ∷ ("LeftUpTeeVector;", 0x2960)
    ∷ ("LeftUpVector;", 0x21bf)
    ∷ ("LeftUpVectorBar;", 0x2958)
    ∷ ("LeftVector;", 0x21bc)
    ∷ ("LeftVectorBar;", 0x2952)
    ∷ ("Leftarrow;", 0x21d0)
    ∷ ("Leftrightarrow;", 0x21d4)
    ∷ ("LessEqualGreater;", 0x22da)
    ∷ ("LessFullEqual;", 0x2266)
    ∷ ("LessGreater;", 0x2276)
    ∷ ("LessLess;", 0x2aa1)
    ∷ []
