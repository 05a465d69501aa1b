-- ===== src/HtmlEntities/Part05.antt =====
-- src/html_entities.rs: lines 608 to 750 of the table `ENTITY`.
use Prim.Native.String.{String}
use Prim.Native.Nat.{ℕ}
use mathlib.Core.List.{List, [], ◌∷◌}

unfoldable pub entity_05 : List (String × ℕ)
entity_05 =
    ("Vee;", 0x22c1)
    ∷ ("Verbar;", 0x2016)
    ∷ ("Vert;", 0x2016)
    ∷ ("VerticalBar;", 0x2223)
    ∷ ("VerticalLine;", 0x7c)
    ∷ ("VerticalSeparator;", 0x2758)
    ∷ ("VerticalTilde;", 0x2240)
    ∷ ("VeryThinSpace;", 0x200a)
    ∷ ("Vfr;", 0x1d519)
    ∷ ("Vopf;", 0x1d54d)
    ∷ ("Vscr;", 0x1d4b1)
    ∷ ("Vvdash;", 0x22aa)
    ∷ ("Wcirc;", 0x174)
    ∷ ("Wedge;", 0x22c0)
    ∷ ("Wfr;", 0x1d51a)
    ∷ ("Wopf;", 0x1d54e)
    ∷ ("Wscr;", 0x1d4b2)
    ∷ ("Xfr;", 0x1d51b)
    ∷ ("Xi;", 0x39e)
    ∷ ("Xopf;", 0x1d54f)
    ∷ ("Xscr;", 0x1d4b3)
    ∷ ("YAcy;", 0x42f)
    ∷ ("YIcy;", 0x407)
    ∷ ("YUcy;", 0x42e)
    ∷ ("Yacute", 0xdd)
    ∷ ("Yacute;", 0xdd)
    ∷ ("Ycirc;", 0x176)
    ∷ ("Ycy;", 0x42b)
    ∷ ("Yfr;", 0x1d51c)
    ∷ ("Yopf;", 0x1d550)
    ∷ ("Yscr;", 0x1d4b4)
    ∷ ("Yuml;", 0x178)
    ∷ ("ZHcy;", 0x416)
    ∷ ("Zacute;", 0x179)
    ∷ ("Zcaron;", 0x17d)
    ∷ ("Zcy;", 0x417)
    ∷ ("Zdot;", 0x17b)
    ∷ ("ZeroWidthSpace;", 0x200b)
    ∷ ("Zeta;", 0x396)
    ∷ ("Zfr;", 0x2128)
    ∷ ("Zopf;", 0x2124)
    ∷ ("Zscr;", 0x1d4b5)
    ∷ ("aacute", 0xe1)
    ∷ ("aacute;", 0xe1)
    ∷ ("abreve;", 0x103)
    ∷ ("ac;", 0x223e)
    ∷ ("acd;", 0x223f)
    ∷ ("acirc", 0xe2)
    ∷ ("acirc;", 0xe2)
    ∷ ("acute", 0xb4)
    ∷ ("acute;", 0xb4)
    ∷ ("acy;", 0x430)
    ∷ ("aelig", 0xe6)
    ∷ ("aelig;", 0xe6)
    ∷ ("af;", 0x2061)
    ∷ ("afr;", 0x1d51e)
    ∷ ("agrave", 0xe0)
    ∷ ("agrave;", 0xe0)
    ∷ ("alefsym;", 0x2135)
    ∷ ("aleph;", 0x2135)
    ∷ ("alpha;", 0x3b1)
    ∷ ("amacr;", 0x101)
    ∷ ("amalg;", 0x2a3f)
    ∷ ("amp", 0x26)
    ∷ ("amp;", 0x26)
    ∷ ("and;", 0x2227)
    ∷ ("andand;", 0x2a55)
    ∷ ("andd;", 0x2a5c)
    ∷ ("andslope;", 0x2a58)
    ∷ ("andv;", 0x2a5a)
    ∷ ("ang;", 0x2220)
    ∷ ("ange;", 0x29a4)
    ∷ ("angle;", 0x2220)
    ∷ ("angmsd;", 0x2221)
    ∷ ("angmsdaa;", 0x29a8)
    ∷ ("angmsdab;", 0x29a9)
    ∷ ("angmsdac;", 0x29aa)
    ∷ ("angmsdad;", 0x29ab)
    ∷ ("angmsdae;", 0x29ac)
    ∷ ("angmsdaf;", 0x29ad)
    ∷ ("angmsdag;", 0x29ae)
    ∷ ("angmsdah;", 0x29af)
    ∷ ("angrt;", 0x221f)
    ∷ ("angrtvb;", 0x22be)
    ∷ ("angrtvbd;", 0x299d)
    ∷ ("angsph;", 0x2222)
    ∷ ("angst;", 0xc5)
    ∷ ("angzarr;", 0x237c)
    ∷ ("aogon;", 0x105)
    ∷ ("aopf;", 0x1d552)
    ∷ ("ap;", 0x2248)
    ∷ ("apE;", 0x2a70)
    ∷ ("apacir;", 0x2a6f)
    ∷ ("ape;", 0x224a)
    ∷ ("apid;", 0x224b)
    ∷ ("apos;", 0x27)
    ∷ ("approx;", 0x2248)
    ∷ ("approxeq;", 0x224a)
    ∷ ("aring", 0xe5)
    ∷ ("aring;", 0xe5)
    ∷ ("ascr;", 0x1d4b6)
    ∷ ("ast;", 0x2a)
    ∷ ("asymp;", 0x2248)
    ∷ ("asympeq;", 0x224d)
    ∷ ("atilde", 0xe3)
    ∷ ("atilde;", 0xe3)
    ∷ ("auml", 0xe4)
    ∷ ("auml;", 0xe4)
    ∷ ("awconint;", 0x2233)
    ∷ ("awint;", 0x2a11)
    ∷ ("bNot;", 0x2aed)
    ∷ ("backcong;", 0x224c)
    ∷ ("backepsilon;", 0x3f6)
    ∷ ("backprime;", 0x2035)
    ∷ ("backsim;", 0x223d)
    ∷ ("backsimeq;", 0x22cd)
    ∷ ("barvee;", 0x22bd)
    ∷ ("barwed;", 0x2305)
    ∷ ("barwedge;", 0x2305)
    ∷ ("bbrk;", 0x23b5)
    ∷ ("bbrktbrk;", 0x23b6)
    ∷ ("bcong;", 0x224c)
    ∷ ("bcy;", 0x431)
    ∷ ("bdquo;", 0x201e)
    ∷ ("becaus;", 0x2235)
    ∷ ("because;", 0x2235)
    ∷ ("bemptyv;", 0x29b0)
    ∷ ("bepsi;", 0x3f6)
    ∷ ("bernou;", 0x212c)
    ∷ ("beta;", 0x3b2)
    ∷ ("beth;", 0x2136)
    ∷ ("between;", 0x226c)
    ∷ ("bfr;", 0x1d51f)
    ∷ ("bigcap;", 0x22c2)
    ∷ ("bigcirc;", 0x25ef)
    ∷ ("bigcup;", 0x22c3)
    ∷ ("bigodot;", 0x2a00)
    ∷ ("bigoplus;", 0x2a01)
    ∷ ("bigotimes;", 0x2a02)
    ∷ ("bigsqcup;", 0x2a06)
    ∷ ("bigstar;", 0x2605)
    ∷ ("bigtriangledown;", 0x25bd)
    ∷ ("bigtriangleup;", 0x25b3)
    ∷ []
