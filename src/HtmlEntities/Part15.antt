-- ===== src/HtmlEntities/Part15.antt =====
-- src/html_entities.rs: lines 2038 to 2173 of the table `ENTITY`.
use Prim.Native.String.{String}
use Prim.Native.Nat.{ℕ}
use mathlib.Core.List.{List, [], ◌∷◌}

unfoldable pub entity_15 : List (String × ℕ)
entity_15 =
    ("udarr;", 0x21c5)
    ∷ ("udblac;", 0x171)
    ∷ ("udhar;", 0x296e)
    ∷ ("ufisht;", 0x297e)
    ∷ ("ufr;", 0x1d532)
    ∷ ("ugrave", 0xf9)
    ∷ ("ugrave;", 0xf9)
    ∷ ("uharl;", 0x21bf)
    ∷ ("uharr;", 0x21be)
    ∷ ("uhblk;", 0x2580)
    ∷ ("ulcorn;", 0x231c)
    ∷ ("ulcorner;", 0x231c)
    ∷ ("ulcrop;", 0x230f)
    ∷ ("ultri;", 0x25f8)
    ∷ ("umacr;", 0x16b)
    ∷ ("uml", 0xa8)
    ∷ ("uml;", 0xa8)
    ∷ ("uogon;", 0x173)
    ∷ ("uopf;", 0x1d566)
    ∷ ("uparrow;", 0x2191)
    ∷ ("updownarrow;", 0x2195)
    ∷ ("upharpoonleft;", 0x21bf)
    ∷ ("upharpoonright;", 0x21be)
    ∷ ("uplus;", 0x228e)
    ∷ ("upsi;", 0x3c5)
    ∷ ("upsih;", 0x3d2)
    ∷ ("upsilon;", 0x3c5)
    ∷ ("upuparrows;", 0x21c8)
    ∷ ("urcorn;", 0x231d)
    ∷ ("urcorner;", 0x231d)
    ∷ ("urcrop;", 0x230e)
    ∷ ("uring;", 0x16f)
    ∷ ("urtri;", 0x25f9)
    ∷ ("uscr;", 0x1d4ca)
    ∷ ("utdot;", 0x22f0)
    ∷ ("utilde;", 0x169)
    ∷ ("utri;", 0x25b5)
    ∷ ("utrif;", 0x25b4)
    ∷ ("uuarr;", 0x21c8)
    ∷ ("uuml", 0xfc)
    ∷ ("uuml;", 0xfc)
    ∷ ("uwangle;", 0x29a7)
    ∷ ("vArr;", 0x21d5)
    ∷ ("vBar;", 0x2ae8)
    ∷ ("vBarv;", 0x2ae9)
    ∷ ("vDash;", 0x22a8)
    ∷ ("vangrt;", 0x299c)
    ∷ ("varepsilon;", 0x3f5)
    ∷ ("varkappa;", 0x3f0)
    ∷ ("varnothing;", 0x2205)
    ∷ ("varphi;", 0x3d5)
    ∷ ("varpi;", 0x3d6)
    ∷ ("varpropto;", 0x221d)
    ∷ ("varr;", 0x2195)
    ∷ ("varrho;", 0x3f1)
    ∷ ("varsigma;", 0x3c2)
    ∷ ("vartheta;", 0x3d1)
    ∷ ("vartriangleleft;", 0x22b2)
    ∷ ("vartriangleright;", 0x22b3)
    ∷ ("vcy;", 0x432)
    ∷ ("vdash;", 0x22a2)
    ∷ ("vee;", 0x2228)
    ∷ ("veebar;", 0x22bb)
    ∷ ("veeeq;", 0x225a)
    ∷ ("vellip;", 0x22ee)
    ∷ ("verbar;", 0x7c)
    ∷ ("vert;", 0x7c)
    ∷ ("vfr;", 0x1d533)
    ∷ ("vltri;", 0x22b2)
    ∷ ("vopf;", 0x1d567)
    ∷ ("vprop;", 0x221d)
    ∷ ("vrtri;", 0x22b3)
    ∷ ("vscr;", 0x1d4cb)
    ∷ ("vzigzag;", 0x299a)
    ∷ ("wcirc;", 0x175)
    ∷ ("wedbar;", 0x2a5f)
    ∷ ("wedge;", 0x2227)
    ∷ ("wedgeq;", 0x2259)
    ∷ ("weierp;", 0x2118)
    ∷ ("wfr;", 0x1d534)
    ∷ ("wopf;", 0x1d568)
    ∷ ("wp;", 0x2118)
    ∷ ("wr;", 0x2240)
    ∷ ("wreath;", 0x2240)
    ∷ ("wscr;", 0x1d4cc)
    ∷ ("xcap;", 0x22c2)
    ∷ ("xcirc;", 0x25ef)
    ∷ ("xcup;", 0x22c3)
    ∷ ("xdtri;", 0x25bd)
    ∷ ("xfr;", 0x1d535)
    ∷ ("xhArr;", 0x27fa)
    ∷ ("xharr;", 0x27f7)
    ∷ ("xi;", 0x3be)
    ∷ ("xlArr;", 0x27f8)
    ∷ ("xlarr;", 0x27f5)
    ∷ ("xmap;", 0x27fc)
    ∷ ("xnis;", 0x22fb)
    ∷ ("xodot;", 0x2a00)
    ∷ ("xopf;", 0x1d569)
    ∷ ("xoplus;", 0x2a01)
    ∷ ("xotime;", 0x2a02)
    ∷ ("xrArr;", 0x27f9)
    ∷ ("xrarr;", 0x27f6)
    ∷ ("xscr;", 0x1d4cd)
    ∷ ("xsqcup;", 0x2a06)
    ∷ ("xuplus;", 0x2a04)
    ∷ ("xutri;", 0x25b3)
    ∷ ("xvee;", 0x22c1)
    ∷ ("xwedge;", 0x22c0)
    ∷ ("yacute", 0xfd)
    ∷ ("yacute;", 0xfd)
    ∷ ("yacy;", 0x44f)
    ∷ ("ycirc;", 0x177)
    ∷ ("ycy;", 0x44b)
    ∷ ("yen", 0xa5)
    ∷ ("yen;", 0xa5)
    ∷ ("yfr;", 0x1d536)
    ∷ ("yicy;", 0x457)
    ∷ ("yopf;", 0x1d56a)
    ∷ ("yscr;", 0x1d4ce)
    ∷ ("yucy;", 0x44e)
    ∷ ("yuml", 0xff)
    ∷ ("yuml;", 0xff)
    ∷ ("zacute;", 0x17a)
    ∷ ("zcaron;", 0x17e)
    ∷ ("zcy;", 0x437)
    ∷ ("zdot;", 0x17c)
    ∷ ("zeetrf;", 0x2128)
    ∷ ("zeta;", 0x3b6)
    ∷ ("zfr;", 0x1d537)
    ∷ ("zhcy;", 0x436)
    ∷ ("zigrarr;", 0x21dd)
    ∷ ("zopf;", 0x1d56b)
    ∷ ("zscr;", 0x1d4cf)
    ∷ ("zwj;", 0x200d)
    ∷ ("zwnj;", 0x200c)
    ∷ []
