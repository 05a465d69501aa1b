-- ===== src/HtmlEntities/Part07.antt =====
-- src/html_entities.rs: lines 894 to 1036 of the table `ENTITY`.
use Prim.Native.String.{String}
use Prim.Native.Nat.{ℕ}
use mathlib.Core.List.{List, [], ◌∷◌}

unfoldable pub entity_07 : List (String × ℕ)
entity_07 =
    ("crarr;", 0x21b5)
    ∷ ("cross;", 0x2717)
    ∷ ("cscr;", 0x1d4b8)
    ∷ ("csub;", 0x2acf)
    ∷ ("csube;", 0x2ad1)
    ∷ ("csup;", 0x2ad0)
    ∷ ("csupe;", 0x2ad2)
    ∷ ("ctdot;", 0x22ef)
    ∷ ("cudarrl;", 0x2938)
    ∷ ("cudarrr;", 0x2935)
    ∷ ("cuepr;", 0x22de)
    ∷ ("cuesc;", 0x22df)
    ∷ ("cularr;", 0x21b6)
    ∷ ("cularrp;", 0x293d)
    ∷ ("cup;", 0x222a)
    ∷ ("cupbrcap;", 0x2a48)
    ∷ ("cupcap;", 0x2a46)
    ∷ ("cupcup;", 0x2a4a)
    ∷ ("cupdot;", 0x228d)
    ∷ ("cupor;", 0x2a45)
    ∷ ("curarr;", 0x21b7)
    ∷ ("curarrm;", 0x293c)
    ∷ ("curlyeqprec;", 0x22de)
    ∷ ("curlyeqsucc;", 0x22df)
    ∷ ("curlyvee;", 0x22ce)
    ∷ ("curlywedge;", 0x22cf)
    ∷ ("curren", 0xa4)
    ∷ ("curren;", 0xa4)
    ∷ ("curvearrowleft;", 0x21b6)
    ∷ ("curvearrowright;", 0x21b7)
    ∷ ("cuvee;", 0x22ce)
    ∷ ("cuwed;", 0x22cf)
    ∷ ("cwconint;", 0x2232)
    ∷ ("cwint;", 0x2231)
    ∷ ("cylcty;", 0x232d)
    ∷ ("dArr;", 0x21d3)
    ∷ ("dHar;", 0x2965)
    ∷ ("dagger;", 0x2020)
    ∷ ("daleth;", 0x2138)
    ∷ ("darr;", 0x2193)
    ∷ ("dash;", 0x2010)
    ∷ ("dashv;", 0x22a3)
    ∷ ("dbkarow;", 0x290f)
    ∷ ("dblac;", 0x2dd)
    ∷ ("dcaron;", 0x10f)
    ∷ ("dcy;", 0x434)
    ∷ ("dd;", 0x2146)
    ∷ ("ddagger;", 0x2021)
    ∷ ("ddarr;", 0x21ca)
    ∷ ("ddotseq;", 0x2a77)
    ∷ ("deg", 0xb0)
    ∷ ("deg;", 0xb0)
    ∷ ("delta;", 0x3b4)
    ∷ ("demptyv;", 0x29b1)
    ∷ ("dfisht;", 0x297f)
    ∷ ("dfr;", 0x1d521)
    ∷ ("dharl;", 0x21c3)
    ∷ ("dharr;", 0x21c2)
    ∷ ("diam;", 0x22c4)
    ∷ ("diamond;", 0x22c4)
    ∷ ("diamondsuit;", 0x2666)
    ∷ ("diams;", 0x2666)
    ∷ ("die;", 0xa8)
    ∷ ("digamma;", 0x3dd)
    ∷ ("disin;", 0x22f2)
    ∷ ("div;", 0xf7)
    ∷ ("divide", 0xf7)
    ∷ ("divide;", 0xf7)
    ∷ ("divideontimes;", 0x22c7)
    ∷ ("divonx;", 0x22c7)
    ∷ ("djcy;", 0x452)
    ∷ ("dlcorn;", 0x231e)
    ∷ ("dlcrop;", 0x230d)
    ∷ ("dollar;", 0x24)
    ∷ ("dopf;", 0x1d555)
    ∷ ("dot;", 0x2d9)
    ∷ ("doteq;", 0x2250)
    ∷ ("doteqdot;", 0x2251)
    ∷ ("dotminus;", 0x2238)
    ∷ ("dotplus;", 0x2214)
    ∷ ("dotsquare;", 0x22a1)
    ∷ ("doublebarwedge;", 0x2306)
    ∷ ("downarrow;", 0x2193)
    ∷ ("downdownarrows;", 0x21ca)
    ∷ ("downharpoonleft;", 0x21c3)
    ∷ ("downharpoonright;", 0x21c2)
    ∷ ("drbkarow;", 0x2910)
    ∷ ("drcorn;", 0x231f)
    ∷ ("drcrop;", 0x230c)
    ∷ ("dscr;", 0x1d4b9)
    ∷ ("dscy;", 0x455)
    ∷ ("dsol;", 0x29f6)
    ∷ ("dstrok;", 0x111)
    ∷ ("dtdot;", 0x22f1)
    ∷ ("dtri;", 0x25bf)
    ∷ ("dtrif;", 0x25be)
    ∷ ("duarr;", 0x21f5)
    ∷ ("duhar;", 0x296f)
    ∷ ("dwangle;", 0x29a6)
    ∷ ("dzcy;", 0x45f)
    ∷ ("dzigrarr;", 0x27ff)
    ∷ ("eDDot;", 0x2a77)
    ∷ ("eDot;", 0x2251)
    ∷ ("eacute", 0xe9)
    ∷ ("eacute;", 0xe9)
    ∷ ("easter;", 0x2a6e)
    ∷ ("ecaron;", 0x11b)
    ∷ ("ecir;", 0x2256)
    ∷ ("ecirc", 0xea)
    ∷ ("ecirc;", 0xea)
    ∷ ("ecolon;", 0x2255)
    ∷ ("ecy;", 0x44d)
    ∷ ("edot;", 0x117)
    ∷ ("ee;", 0x2147)
    ∷ ("efDot;", 0x2252)
    ∷ ("efr;", 0x1d522)
    ∷ ("eg;", 0x2a9a)
    ∷ ("egrave", 0xe8)
    ∷ ("egrave;", 0xe8)
    ∷ ("egs;", 0x2a96)
    ∷ ("egsdot;", 0x2a98)
    ∷ ("el;", 0x2a99)
    ∷ ("elinters;", 0x23e7)
    ∷ ("ell;", 0x2113)
    ∷ ("els;", 0x2a95)
    ∷ ("elsdot;", 0x2a97)
    ∷ ("emacr;", 0x113)
    ∷ ("empty;", 0x2205)
    ∷ ("emptyset;", 0x2205)
    ∷ ("emptyv;", 0x2205)
    ∷ ("emsp13;", 0x2004)
    ∷ ("emsp14;", 0x2005)
    ∷ ("emsp;", 0x2003)
    ∷ ("eng;", 0x14b)
    ∷ ("ensp;", 0x2002)
    ∷ ("eogon;", 0x119)
    ∷ ("eopf;", 0x1d556)
    ∷ ("epar;", 0x22d5)
    ∷ ("eparsl;", 0x29e3)
    ∷ ("eplus;", 0x2a71)
    ∷ ("epsi;", 0x3b5)
    ∷ ("epsilon;", 0x3b5)
    ∷ ("epsiv;", 0x3f5)
    ∷ []
