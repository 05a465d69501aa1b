-- ===== src/HtmlEntities/Part04.antt =====
-- src/html_entities.rs: lines 465 to 607 of the table `ENTITY`.
use Prim.Native.String.{String}
use Prim.Native.Nat.{ℕ}
use mathlib.Core.List.{List, [], ◌∷◌}

unfoldable pub entity_04 : List (String × ℕ)
entity_04 =
    ("Rcy;", 0x420)
    ∷ ("Re;", 0x211c)
    ∷ ("ReverseElement;", 0x220b)
    ∷ ("ReverseEquilibrium;", 0x21cb)
    ∷ ("ReverseUpEquilibrium;", 0x296f)
    ∷ ("Rfr;", 0x211c)
    ∷ ("Rho;", 0x3a1)
    ∷ ("RightAngleBracket;", 0x27e9)
    ∷ ("RightArrow;", 0x2192)
    ∷ ("RightArrowBar;", 0x21e5)
    ∷ ("RightArrowLeftArrow;", 0x21c4)
    ∷ ("RightCeiling;", 0x2309)
    ∷ ("RightDoubleBracket;", 0x27e7)
    ∷ ("RightDownTeeVector;", 0x295d)
    ∷ ("RightDownVector;", 0x21c2)
    ∷ ("RightDownVectorBar;", 0x2955)
    ∷ ("RightFloor;", 0x230b)
    ∷ ("RightTee;", 0x22a2)
    ∷ ("RightTeeArrow;", 0x21a6)
    ∷ ("RightTeeVector;", 0x295b)
    ∷ ("RightTriangle;", 0x22b3)
    ∷ ("RightTriangleBar;", 0x29d0)
    ∷ ("RightTriangleEqual;", 0x22b5)
    ∷ ("RightUpDownVector;", 0x294f)
    ∷ ("RightUpTeeVector;", 0x295c)
    ∷ ("RightUpVector;", 0x21be)
    ∷ ("RightUpVectorBar;", 0x2954)
    ∷ ("RightVector;", 0x21c0)
    ∷ ("RightVectorBar;", 0x2953)
    ∷ ("Rightarrow;", 0x21d2)
    ∷ ("Ropf;", 0x211d)
    ∷ ("RoundImplies;", 0x2970)
    ∷ ("Rrightarrow;", 0x21db)
    ∷ ("Rscr;", 0x211b)
    ∷ ("Rsh;", 0x21b1)
    ∷ ("RuleDelayed;", 0x29f4)
    ∷ ("SHCHcy;", 0x429)
    ∷ ("SHcy;", 0x428)
    ∷ ("SOFTcy;", 0x42c)
    ∷ ("Sacute;", 0x15a)
    ∷ ("Sc;", 0x2abc)
    ∷ ("Scaron;", 0x160)
    ∷ ("Scedil;", 0x15e)
    ∷ ("Scirc;", 0x15c)
    ∷ ("Scy;", 0x421)
    ∷ ("Sfr;", 0x1d516)
    ∷ ("ShortDownArrow;", 0x2193)
    ∷ ("ShortLeftArrow;", 0x2190)
    ∷ ("ShortRightArrow;", 0x2192)
    ∷ ("ShortUpArrow;", 0x2191)
    ∷ ("Sigma;", 0x3a3)
    ∷ ("SmallCircle;", 0x2218)
    ∷ ("Sopf;", 0x1d54a)
    ∷ ("Sqrt;", 0x221a)
    ∷ ("Square;", 0x25a1)
    ∷ ("SquareIntersection;", 0x2293)
    ∷ ("SquareSubset;", 0x228f)
    ∷ ("SquareSubsetEqual;", 0x2291)
    ∷ ("SquareSuperset;", 0x2290)
    ∷ ("SquareSupersetEqual;", 0x2292)
    ∷ ("SquareUnion;", 0x2294)
    ∷ ("Sscr;", 0x1d4ae)
    ∷ ("Star;", 0x22c6)
    ∷ ("Sub;", 0x22d0)
    ∷ ("Subset;", 0x22d0)
    ∷ ("SubsetEqual;", 0x2286)
    ∷ ("Succeeds;", 0x227b)
    ∷ ("SucceedsEqual;", 0x2ab0)
    ∷ ("SucceedsSlantEqual;", 0x227d)
    ∷ ("SucceedsTilde;", 0x227f)
    ∷ ("SuchThat;", 0x220b)
    ∷ ("Sum;", 0x2211)
    ∷ ("Sup;", 0x22d1)
    ∷ ("Superset;", 0x2283)
    ∷ ("SupersetEqual;", 0x2287)
    ∷ ("Supset;", 0x22d1)
    ∷ ("THORN", 0xde)
    ∷ ("THORN;", 0xde)
    ∷ ("TRADE;", 0x2122)
    ∷ ("TSHcy;", 0x40b)
    ∷ ("TScy;", 0x426)
    ∷ ("Tab;", 0x9)
    ∷ ("Tau;", 0x3a4)
    ∷ ("Tcaron;", 0x164)
    ∷ ("Tcedil;", 0x162)
    ∷ ("Tcy;", 0x422)
    ∷ ("Tfr;", 0x1d517)
    ∷ ("Therefore;", 0x2234)
    ∷ ("Theta;", 0x398)
    ∷ ("ThinSpace;", 0x2009)
    ∷ ("Tilde;", 0x223c)
    ∷ ("TildeEqual;", 0x2243)
    ∷ ("TildeFullEqual;", 0x2245)
    ∷ ("TildeTilde;", 0x2248)
    ∷ ("Topf;", 0x1d54b)
    ∷ ("TripleDot;", 0x20db)
    ∷ ("Tscr;", 0x1d4af)
    ∷ ("Tstrok;", 0x166)
    ∷ ("Uacute", 0xda)
    ∷ ("Uacute;", 0xda)
    ∷ ("Uarr;", 0x219f)
    ∷ ("Uarrocir;", 0x2949)
    ∷ ("Ubrcy;", 0x40e)
    ∷ ("Ubreve;", 0x16c)
    ∷ ("Ucirc", 0xdb)
    ∷ ("Ucirc;", 0xdb)
    ∷ ("Ucy;", 0x423)
    ∷ ("Udblac;", 0x170)
    ∷ ("Ufr;", 0x1d518)
    ∷ ("Ugrave", 0xd9)
    ∷ ("Ugrave;", 0xd9)
    ∷ ("Umacr;", 0x16a)
    ∷ ("UnderBar;", 0x5f)
    ∷ ("UnderBrace;", 0x23df)
    ∷ ("UnderBracket;", 0x23b5)
    ∷ ("UnderParenthesis;", 0x23dd)
    ∷ ("Union;", 0x22c3)
    ∷ ("UnionPlus;", 0x228e)
    ∷ ("Uogon;", 0x172)
    ∷ ("Uopf;", 0x1d54c)
    ∷ ("UpArrow;", 0x2191)
    ∷ ("UpArrowBar;", 0x2912)
    ∷ ("UpArrowDownArrow;", 0x21c5)
    ∷ ("UpDownArrow;", 0x2195)
    ∷ ("UpEquilibrium;", 0x296e)
    ∷ ("UpTee;", 0x22a5)
    ∷ ("UpTeeArrow;", 0x21a5)
    ∷ ("Uparrow;", 0x21d1)
    ∷ ("Updownarrow;", 0x21d5)
    ∷ ("UpperLeftArrow;", 0x2196)
    ∷ ("UpperRightArrow;", 0x2197)
    ∷ ("Upsi;", 0x3d2)
    ∷ ("Upsilon;", 0x3a5)
    ∷ ("Uring;", 0x16e)
    ∷ ("Uscr;", 0x1d4b0)
    ∷ ("Utilde;", 0x168)
    ∷ ("Uuml", 0xdc)
    ∷ ("Uuml;", 0xdc)
    ∷ ("VDash;", 0x22ab)
    ∷ ("Vbar;", 0x2aeb)
    ∷ ("Vcy;", 0x412)
    ∷ ("Vdash;", 0x22a9)
    ∷ ("Vdashl;", 0x2ae6)
    ∷ []
