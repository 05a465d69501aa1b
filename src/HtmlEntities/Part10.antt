-- ===== src/HtmlEntities/Part10.antt =====
-- src/html_entities.rs: lines 1323 to 1465 of the table `ENTITY`.
use Prim.Native.String.{String}
use Prim.Native.Nat.{ℕ}
use mathlib.Core.List.{List, [], ◌∷◌}

unfoldable pub entity_10 : List (String × ℕ)
entity_10 =
    ("lesdot;", 0x2a7f)
    ∷ ("lesdoto;", 0x2a81)
    ∷ ("lesdotor;", 0x2a83)
    ∷ ("lesges;", 0x2a93)
    ∷ ("lessapprox;", 0x2a85)
    ∷ ("lessdot;", 0x22d6)
    ∷ ("lesseqgtr;", 0x22da)
    ∷ ("lesseqqgtr;", 0x2a8b)
    ∷ ("lessgtr;", 0x2276)
    ∷ ("lesssim;", 0x2272)
    ∷ ("lfisht;", 0x297c)
    ∷ ("lfloor;", 0x230a)
    ∷ ("lfr;", 0x1d529)
    ∷ ("lg;", 0x2276)
    ∷ ("lgE;", 0x2a91)
    ∷ ("lhard;", 0x21bd)
    ∷ ("lharu;", 0x21bc)
    ∷ ("lharul;", 0x296a)
    ∷ ("lhblk;", 0x2584)
    ∷ ("ljcy;", 0x459)
    ∷ ("ll;", 0x226a)
    ∷ ("llarr;", 0x21c7)
    ∷ ("llcorner;", 0x231e)
    ∷ ("llhard;", 0x296b)
    ∷ ("lltri;", 0x25fa)
    ∷ ("lmidot;", 0x140)
    ∷ ("lmoust;", 0x23b0)
    ∷ ("lmoustache;", 0x23b0)
    ∷ ("lnE;", 0x2268)
    ∷ ("lnap;", 0x2a89)
    ∷ ("lnapprox;", 0x2a89)
    ∷ ("lne;", 0x2a87)
    ∷ ("lneq;", 0x2a87)
    ∷ ("lneqq;", 0x2268)
    ∷ ("lnsim;", 0x22e6)
    ∷ ("loang;", 0x27ec)
    ∷ ("loarr;", 0x21fd)
    ∷ ("lobrk;", 0x27e6)
    ∷ ("longleftarrow;", 0x27f5)
    ∷ ("longleftrightarrow;", 0x27f7)
    ∷ ("longmapsto;", 0x27fc)
    ∷ ("longrightarrow;", 0x27f6)
    ∷ ("looparrowleft;", 0x21ab)
    ∷ ("looparrowright;", 0x21ac)
    ∷ ("lopar;", 0x2985)
    ∷ ("lopf;", 0x1d55d)
    ∷ ("loplus;", 0x2a2d)
    ∷ ("lotimes;", 0x2a34)
    ∷ ("lowast;", 0x2217)
    ∷ ("lowbar;", 0x5f)
    ∷ ("loz;", 0x25ca)
    ∷ ("lozenge;", 0x25ca)
    ∷ ("lozf;", 0x29eb)
    ∷ ("lpar;", 0x28)
    ∷ ("lparlt;", 0x2993)
    ∷ ("lrarr;", 0x21c6)
    ∷ ("lrcorner;", 0x231f)
    ∷ ("lrhar;", 0x21cb)
    ∷ ("lrhard;", 0x296d)
    ∷ ("lrm;", 0x200e)
    ∷ ("lrtri;", 0x22bf)
    ∷ ("lsaquo;", 0x2039)
    ∷ ("lscr;", 0x1d4c1)
    ∷ ("lsh;", 0x21b0)
    ∷ ("lsim;", 0x2272)
    ∷ ("lsime;", 0x2a8d)
    ∷ ("lsimg;", 0x2a8f)
    ∷ ("lsqb;", 0x5b)
    ∷ ("lsquo;", 0x2018)
    ∷ ("lsquor;", 0x201a)
    ∷ ("lstrok;", 0x142)
    ∷ ("lt", 0x3c)
    ∷ ("lt;", 0x3c)
    ∷ ("ltcc;", 0x2aa6)
    ∷ ("ltcir;", 0x2a79)
    ∷ ("ltdot;", 0x22d6)
    ∷ ("lthree;", 0x22cb)
    ∷ ("ltimes;", 0x22c9)
    ∷ ("ltlarr;", 0x2976)
    ∷ ("ltquest;", 0x2a7b)
    ∷ ("ltrPar;", 0x2996)
    ∷ ("ltri;", 0x25c3)
    ∷ ("ltrie;", 0x22b4)
    ∷ ("ltrif;", 0x25c2)
    ∷ ("lurdshar;", 0x294a)
    ∷ ("luruhar;", 0x2966)
    ∷ ("mDDot;", 0x223a)
    ∷ ("macr", 0xaf)
    ∷ ("macr;", 0xaf)
    ∷ ("male;", 0x2642)
    ∷ ("malt;", 0x2720)
    ∷ ("maltese;", 0x2720)
    ∷ ("map;", 0x21a6)
    ∷ ("mapsto;", 0x21a6)
    ∷ ("mapstodown;", 0x21a7)
    ∷ ("mapstoleft;", 0x21a4)
    ∷ ("mapstoup;", 0x21a5)
    ∷ ("marker;", 0x25ae)
    ∷ ("mcomma;", 0x2a29)
    ∷ ("mcy;", 0x43c)
    ∷ ("mdash;", 0x2014)
    ∷ ("measuredangle;", 0x2221)
    ∷ ("mfr;", 0x1d52a)
    ∷ ("mho;", 0x2127)
    ∷ ("micro", 0xb5)
    ∷ ("micro;", 0xb5)
    ∷ ("mid;", 0x2223)
    ∷ ("midast;", 0x2a)
    ∷ ("midcir;", 0x2af0)
    ∷ ("middot", 0xb7)
    ∷ ("middot;", 0xb7)
    ∷ ("minus;", 0x2212)
    ∷ ("minusb;", 0x229f)
    ∷ ("minusd;", 0x2238)
    ∷ ("minusdu;", 0x2a2a)
    ∷ ("mlcp;", 0x2adb)
    ∷ ("mldr;", 0x2026)
    ∷ ("mnplus;", 0x2213)
    ∷ ("models;", 0x22a7)
    ∷ ("mopf;", 0x1d55e)
    ∷ ("mp;", 0x2213)
    ∷ ("mscr;", 0x1d4c2)
    ∷ ("mstpos;", 0x223e)
    ∷ ("mu;", 0x3bc)
    ∷ ("multimap;", 0x22b8)
    ∷ ("mumap;", 0x22b8)
    ∷ ("nLeftarrow;", 0x21cd)
    ∷ ("nLeftrightarrow;", 0x21ce)
    ∷ ("nRightarrow;", 0x21cf)
    ∷ ("nVDash;", 0x22af)
    ∷ ("nVdash;", 0x22ae)
    ∷ ("nabla;", 0x2207)
    ∷ ("nacute;", 0x144)
    ∷ ("nap;", 0x2249)
    ∷ ("napos;", 0x149)
    ∷ ("napprox;", 0x2249)
    ∷ ("natur;", 0x266e)
    ∷ ("natural;", 0x266e)
    ∷ ("naturals;", 0x2115)
    ∷ ("nbsp", 0xa0)
    ∷ ("nbsp;", 0xa0)
    ∷ ("ncap;", 0x2a43)
    ∷ ("ncaron;", 0x148)
    ∷ []
