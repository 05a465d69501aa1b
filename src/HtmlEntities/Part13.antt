-- ===== src/HtmlEntities/Part13.antt =====
-- src/html_entities.rs: lines 1752 to 1894 of the table `ENTITY`.
use Prim.Native.String.{String}
use Prim.Native.Nat.{ℕ}
use mathlib.Core.List.{List, [], ◌∷◌}

unfoldable pub entity_13 : List (String × ℕ)
entity_13 =
    ("rcy;", 0x440)
    ∷ ("rdca;", 0x2937)
    ∷ ("rdldhar;", 0x2969)
    ∷ ("rdquo;", 0x201d)
    ∷ ("rdquor;", 0x201d)
    ∷ ("rdsh;", 0x21b3)
    ∷ ("real;", 0x211c)
    ∷ ("realine;", 0x211b)
    ∷ ("realpart;", 0x211c)
    ∷ ("reals;", 0x211d)
    ∷ ("rect;", 0x25ad)
    ∷ ("reg", 0xae)
    ∷ ("reg;", 0xae)
    ∷ ("rfisht;", 0x297d)
    ∷ ("rfloor;", 0x230b)
    ∷ ("rfr;", 0x1d52f)
    ∷ ("rhard;", 0x21c1)
    ∷ ("rharu;", 0x21c0)
    ∷ ("rharul;", 0x296c)
    ∷ ("rho;", 0x3c1)
    ∷ ("rhov;", 0x3f1)
    ∷ ("rightarrow;", 0x2192)
    ∷ ("rightarrowtail;", 0x21a3)
    ∷ ("rightharpoondown;", 0x21c1)
    ∷ ("rightharpoonup;", 0x21c0)
    ∷ ("rightleftarrows;", 0x21c4)
    ∷ ("rightleftharpoons;", 0x21cc)
    ∷ ("rightrightarrows;", 0x21c9)
    ∷ ("rightsquigarrow;", 0x219d)
    ∷ ("rightthreetimes;", 0x22cc)
    ∷ ("ring;", 0x2da)
    ∷ ("risingdotseq;", 0x2253)
    ∷ ("rlarr;", 0x21c4)
    ∷ ("rlhar;", 0x21cc)
    ∷ ("rlm;", 0x200f)
    ∷ ("rmoust;", 0x23b1)
    ∷ ("rmoustache;", 0x23b1)
    ∷ ("rnmid;", 0x2aee)
    ∷ ("roang;", 0x27ed)
    ∷ ("roarr;", 0x21fe)
    ∷ ("robrk;", 0x27e7)
    ∷ ("ropar;", 0x2986)
    ∷ ("ropf;", 0x1d563)
    ∷ ("roplus;", 0x2a2e)
    ∷ ("rotimes;", 0x2a35)
    ∷ ("rpar;", 0x29)
    ∷ ("rpargt;", 0x2994)
    ∷ ("rppolint;", 0x2a12)
    ∷ ("rrarr;", 0x21c9)
    ∷ ("rsaquo;", 0x203a)
    ∷ ("rscr;", 0x1d4c7)
    ∷ ("rsh;", 0x21b1)
    ∷ ("rsqb;", 0x5d)
    ∷ ("rsquo;", 0x2019)
    ∷ ("rsquor;", 0x2019)
    ∷ ("rthree;", 0x22cc)
    ∷ ("rtimes;", 0x22ca)
    ∷ ("rtri;", 0x25b9)
    ∷ ("rtrie;", 0x22b5)
    ∷ ("rtrif;", 0x25b8)
    ∷ ("rtriltri;", 0x29ce)
    ∷ ("ruluhar;", 0x2968)
    ∷ ("rx;", 0x211e)
    ∷ ("sacute;", 0x15b)
    ∷ ("sbquo;", 0x201a)
    ∷ ("sc;", 0x227b)
    ∷ ("scE;", 0x2ab4)
    ∷ ("scap;", 0x2ab8)
    ∷ ("scaron;", 0x161)
    ∷ ("sccue;", 0x227d)
    ∷ ("sce;", 0x2ab0)
    ∷ ("scedil;", 0x15f)
    ∷ ("scirc;", 0x15d)
    ∷ ("scnE;", 0x2ab6)
    ∷ ("scnap;", 0x2aba)
    ∷ ("scnsim;", 0x22e9)
    ∷ ("scpolint;", 0x2a13)
    ∷ ("scsim;", 0x227f)
    ∷ ("scy;", 0x441)
    ∷ ("sdot;", 0x22c5)
    ∷ ("sdotb;", 0x22a1)
    ∷ ("sdote;", 0x2a66)
    ∷ ("seArr;", 0x21d8)
    ∷ ("searhk;", 0x2925)
    ∷ ("searr;", 0x2198)
    ∷ ("searrow;", 0x2198)
    ∷ ("sect", 0xa7)
    ∷ ("sect;", 0xa7)
    ∷ ("semi;", 0x3b)
    ∷ ("seswar;", 0x2929)
    ∷ ("setminus;", 0x2216)
    ∷ ("setmn;", 0x2216)
    ∷ ("sext;", 0x2736)
    ∷ ("sfr;", 0x1d530)
    ∷ ("sfrown;", 0x2322)
    ∷ ("sharp;", 0x266f)
    ∷ ("shchcy;", 0x449)
    ∷ ("shcy;", 0x448)
    ∷ ("shortmid;", 0x2223)
    ∷ ("shortparallel;", 0x2225)
    ∷ ("shy", 0xad)
    ∷ ("shy;", 0xad)
    ∷ ("sigma;", 0x3c3)
    ∷ ("sigmaf;", 0x3c2)
    ∷ ("sigmav;", 0x3c2)
    ∷ ("sim;", 0x223c)
    ∷ ("simdot;", 0x2a6a)
    ∷ ("sime;", 0x2243)
    ∷ ("simeq;", 0x2243)
    ∷ ("simg;", 0x2a9e)
    ∷ ("simgE;", 0x2aa0)
    ∷ ("siml;", 0x2a9d)
    ∷ ("simlE;", 0x2a9f)
    ∷ ("simne;", 0x2246)
    ∷ ("simplus;", 0x2a24)
    ∷ ("simrarr;", 0x2972)
    ∷ ("slarr;", 0x2190)
    ∷ ("smallsetminus;", 0x2216)
    ∷ ("smashp;", 0x2a33)
    ∷ ("smeparsl;", 0x29e4)
    ∷ ("smid;", 0x2223)
    ∷ ("smile;", 0x2323)
    ∷ ("smt;", 0x2aaa)
    ∷ ("smte;", 0x2aac)
    ∷ ("softcy;", 0x44c)
    ∷ ("sol;", 0x2f)
    ∷ ("solb;", 0x29c4)
    ∷ ("solbar;", 0x233f)
    ∷ ("sopf;", 0x1d564)
    ∷ ("spades;", 0x2660)
    ∷ ("spadesuit;", 0x2660)
    ∷ ("spar;", 0x2225)
    ∷ ("sqcap;", 0x2293)
    ∷ ("sqcup;", 0x2294)
    ∷ ("sqsub;", 0x228f)
    ∷ ("sqsube;", 0x2291)
    ∷ ("sqsubset;", 0x228f)
    ∷ ("sqsubseteq;", 0x2291)
    ∷ ("sqsup;", 0x2290)
    ∷ ("sqsupe;", 0x2292)
    ∷ ("sqsupset;", 0x2290)
    ∷ ("sqsupseteq;", 0x2292)
    ∷ ("squ;", 0x25a1)
    ∷ []
