-- ===== src/HtmlEntities/Part03.antt =====
-- src/html_entities.rs: lines 322 to 464 of the table `ENTITY`.
use Prim.Native.String.{String}
use Prim.Native.Nat.{ℕ}
use mathlib.Core.List.{List, [], ◌∷◌}

unfoldable pub entity_03 : List (String × ℕ)
entity_03 =
    ("LessSlantEqual;", 0x2a7d)
    ∷ ("LessTilde;", 0x2272)
    ∷ ("Lfr;", 0x1d50f)
    ∷ ("Ll;", 0x22d8)
    ∷ ("Lleftarrow;", 0x21da)
    ∷ ("Lmidot;", 0x13f)
    ∷ ("LongLeftArrow;", 0x27f5)
    ∷ ("LongLeftRightArrow;", 0x27f7)
    ∷ ("LongRightArrow;", 0x27f6)
    ∷ ("Longleftarrow;", 0x27f8)
    ∷ ("Longleftrightarrow;", 0x27fa)
    ∷ ("Longrightarrow;", 0x27f9)
    ∷ ("Lopf;", 0x1d543)
    ∷ ("LowerLeftArrow;", 0x2199)
    ∷ ("LowerRightArrow;", 0x2198)
    ∷ ("Lscr;", 0x2112)
    ∷ ("Lsh;", 0x21b0)
    ∷ ("Lstrok;", 0x141)
    ∷ ("Lt;", 0x226a)
    ∷ ("Map;", 0x2905)
    ∷ ("Mcy;", 0x41c)
    ∷ ("MediumSpace;", 0x205f)
    ∷ ("Mellintrf;", 0x2133)
    ∷ ("Mfr;", 0x1d510)
    ∷ ("MinusPlus;", 0x2213)
    ∷ ("Mopf;", 0x1d544)
    ∷ ("Mscr;", 0x2133)
    ∷ ("Mu;", 0x39c)
    ∷ ("NJcy;", 0x40a)
    ∷ ("Nacute;", 0x143)
    ∷ ("Ncaron;", 0x147)
    ∷ ("Ncedil;", 0x145)
    ∷ ("Ncy;", 0x41d)
    ∷ ("NegativeMediumSpace;", 0x200b)
    ∷ ("NegativeThickSpace;", 0x200b)
    ∷ ("NegativeThinSpace;", 0x200b)
    ∷ ("NegativeVeryThinSpace;", 0x200b)
    ∷ ("NestedGreaterGreater;", 0x226b)
    ∷ ("NestedLessLess;", 0x226a)
    ∷ ("NewLine;", 0xa)
    ∷ ("Nfr;", 0x1d511)
    ∷ ("NoBreak;", 0x2060)
    ∷ ("NonBreakingSpace;", 0xa0)
    ∷ ("Nopf;", 0x2115)
    ∷ ("Not;", 0x2aec)
    ∷ ("NotCongruent;", 0x2262)
    ∷ ("NotCupCap;", 0x226d)
    ∷ ("NotDoubleVerticalBar;", 0x2226)
    ∷ ("NotElement;", 0x2209)
    ∷ ("NotEqual;", 0x2260)
    ∷ ("NotExists;", 0x2204)
    ∷ ("NotGreater;", 0x226f)
    ∷ ("NotGreaterEqual;", 0x2271)
    ∷ ("NotGreaterLess;", 0x2279)
    ∷ ("NotGreaterTilde;", 0x2275)
    ∷ ("NotLeftTriangle;", 0x22ea)
    ∷ ("NotLeftTriangleEqual;", 0x22ec)
    ∷ ("NotLess;", 0x226e)
    ∷ ("NotLessEqual;", 0x2270)
    ∷ ("NotLessGreater;", 0x2278)
    ∷ ("NotLessTilde;", 0x2274)
    ∷ ("NotPrecedes;", 0x2280)
    ∷ ("NotPrecedesSlantEqual;", 0x22e0)
    ∷ ("NotReverseElement;", 0x220c)
    ∷ ("NotRightTriangle;", 0x22eb)
    ∷ ("NotRightTriangleEqual;", 0x22ed)
    ∷ ("NotSquareSubsetEqual;", 0x22e2)
    ∷ ("NotSquareSupersetEqual;", 0x22e3)
    ∷ ("NotSubsetEqual;", 0x2288)
    ∷ ("NotSucceeds;", 0x2281)
    ∷ ("NotSucceedsSlantEqual;", 0x22e1)
    ∷ ("NotSupersetEqual;", 0x2289)
    ∷ ("NotTilde;", 0x2241)
    ∷ ("NotTildeEqual;", 0x2244)
    ∷ ("NotTildeFullEqual;", 0x2247)
    ∷ ("NotTildeTilde;", 0x2249)
    ∷ ("NotVerticalBar;", 0x2224)
    ∷ ("Nscr;", 0x1d4a9)
    ∷ ("Ntilde", 0xd1)
    ∷ ("Ntilde;", 0xd1)
    ∷ ("Nu;", 0x39d)
    ∷ ("OElig;", 0x152)
    ∷ ("Oacute", 0xd3)
    ∷ ("Oacute;", 0xd3)
    ∷ ("Ocirc", 0xd4)
    ∷ ("Ocirc;", 0xd4)
    ∷ ("Ocy;", 0x41e)
    ∷ ("Odblac;", 0x150)
    ∷ ("Ofr;", 0x1d512)
    ∷ ("Ograve", 0xd2)
    ∷ ("Ograve;", 0xd2)
    ∷ ("Omacr;", 0x14c)
    ∷ ("Omega;", 0x3a9)
    ∷ ("Omicron;", 0x39f)
    ∷ ("Oopf;", 0x1d546)
    ∷ ("OpenCurlyDoubleQuote;", 0x201c)
    ∷ ("OpenCurlyQuote;", 0x2018)
    ∷ ("Or;", 0x2a54)
    ∷ ("Oscr;", 0x1d4aa)
    ∷ ("Oslash", 0xd8)
    ∷ ("Oslash;", 0xd8)
    ∷ ("Otilde", 0xd5)
    ∷ ("Otilde;", 0xd5)
    ∷ ("Otimes;", 0x2a37)
    ∷ ("Ouml", 0xd6)
    ∷ ("Ouml;", 0xd6)
    ∷ ("OverBar;", 0x203e)
    ∷ ("OverBrace;", 0x23de)
    ∷ ("OverBracket;", 0x23b4)
    ∷ ("OverParenthesis;", 0x23dc)
    ∷ ("PartialD;", 0x2202)
    ∷ ("Pcy;", 0x41f)
    ∷ ("Pfr;", 0x1d513)
    ∷ ("Phi;", 0x3a6)
    ∷ ("Pi;", 0x3a0)
    ∷ ("PlusMinus;", 0xb1)
    ∷ ("Poincareplane;", 0x210c)
    ∷ ("Popf;", 0x2119)
    ∷ ("Pr;", 0x2abb)
    ∷ ("Precedes;", 0x227a)
    ∷ ("PrecedesEqual;", 0x2aaf)
    ∷ ("PrecedesSlantEqual;", 0x227c)
    ∷ ("PrecedesTilde;", 0x227e)
    ∷ ("Prime;", 0x2033)
    ∷ ("Product;", 0x220f)
    ∷ ("Proportion;", 0x2237)
    ∷ ("Proportional;", 0x221d)
    ∷ ("Pscr;", 0x1d4ab)
    ∷ ("Psi;", 0x3a8)
    ∷ ("QUOT", 0x22)
    ∷ ("QUOT;", 0x22)
    ∷ ("Qfr;", 0x1d514)
    ∷ ("Qopf;", 0x211a)
    ∷ ("Qscr;", 0x1d4ac)
    ∷ ("RBarr;", 0x2910)
    ∷ ("REG", 0xae)
    ∷ ("REG;", 0xae)
    ∷ ("Racute;", 0x154)
    ∷ ("Rang;", 0x27eb)
    ∷ ("Rarr;", 0x21a0)
    ∷ ("Rarrtl;", 0x2916)
    ∷ ("Rcaron;", 0x158)
    ∷ ("Rcedil;", 0x156)
    ∷ []
