-- ===== src/HtmlEntities/Part14.antt =====
-- src/html_entities.rs: lines 1895 to 2037 of the table `ENTITY`.
use Prim.Native.String.{String}
use Prim.Native.Nat.{ℕ}
use mathlib.Core.List.{List, [], ◌∷◌}

unfoldable pub entity_14 : List (String × ℕ)
entity_14 =
    ("square;", 0x25a1)
    ∷ ("squarf;", 0x25aa)
    ∷ ("squf;", 0x25aa)
    ∷ ("srarr;", 0x2192)
    ∷ ("sscr;", 0x1d4c8)
    ∷ ("ssetmn;", 0x2216)
    ∷ ("ssmile;", 0x2323)
    ∷ ("sstarf;", 0x22c6)
    ∷ ("star;", 0x2606)
    ∷ ("starf;", 0x2605)
    ∷ ("straightepsilon;", 0x3f5)
    ∷ ("straightphi;", 0x3d5)
    ∷ ("strns;", 0xaf)
    ∷ ("sub;", 0x2282)
    ∷ ("subE;", 0x2ac5)
    ∷ ("subdot;", 0x2abd)
    ∷ ("sube;", 0x2286)
    ∷ ("subedot;", 0x2ac3)
    ∷ ("submult;", 0x2ac1)
    ∷ ("subnE;", 0x2acb)
    ∷ ("subne;", 0x228a)
    ∷ ("subplus;", 0x2abf)
    ∷ ("subrarr;", 0x2979)
    ∷ ("subset;", 0x2282)
    ∷ ("subseteq;", 0x2286)
    ∷ ("subseteqq;", 0x2ac5)
    ∷ ("subsetneq;", 0x228a)
    ∷ ("subsetneqq;", 0x2acb)
    ∷ ("subsim;", 0x2ac7)
    ∷ ("subsub;", 0x2ad5)
    ∷ ("subsup;", 0x2ad3)
    ∷ ("succ;", 0x227b)
    ∷ ("succapprox;", 0x2ab8)
    ∷ ("succcurlyeq;", 0x227d)
    ∷ ("succeq;", 0x2ab0)
    ∷ ("succnapprox;", 0x2aba)
    ∷ ("succneqq;", 0x2ab6)
    ∷ ("succnsim;", 0x22e9)
    ∷ ("succsim;", 0x227f)
    ∷ ("sum;", 0x2211)
    ∷ ("sung;", 0x266a)
    ∷ ("sup1", 0xb9)
    ∷ ("sup1;", 0xb9)
    ∷ ("sup2", 0xb2)
    ∷ ("sup2;", 0xb2)
    ∷ ("sup3", 0xb3)
    ∷ ("sup3;", 0xb3)
    ∷ ("sup;", 0x2283)
    ∷ ("supE;", 0x2ac6)
    ∷ ("supdot;", 0x2abe)
    ∷ ("supdsub;", 0x2ad8)
    ∷ ("supe;", 0x2287)
    ∷ ("supedot;", 0x2ac4)
    ∷ ("suphsol;", 0x27c9)
    ∷ ("suphsub;", 0x2ad7)
    ∷ ("suplarr;", 0x297b)
    ∷ ("supmult;", 0x2ac2)
    ∷ ("supnE;", 0x2acc)
    ∷ ("supne;", 0x228b)
    ∷ ("supplus;", 0x2ac0)
    ∷ ("supset;", 0x2283)
    ∷ ("supseteq;", 0x2287)
    ∷ ("supseteqq;", 0x2ac6)
    ∷ ("supsetneq;", 0x228b)
    ∷ ("supsetneqq;", 0x2acc)
    ∷ ("supsim;", 0x2ac8)
    ∷ ("supsub;", 0x2ad4)
    ∷ ("supsup;", 0x2ad6)
    ∷ ("swArr;", 0x21d9)
    ∷ ("swarhk;", 0x2926)
    ∷ ("swarr;", 0x2199)
    ∷ ("swarrow;", 0x2199)
    ∷ ("swnwar;", 0x292a)
    ∷ ("szlig", 0xdf)
    ∷ ("szlig;", 0xdf)
    ∷ ("target;", 0x2316)
    ∷ ("tau;", 0x3c4)
    ∷ ("tbrk;", 0x23b4)
    ∷ ("tcaron;", 0x165)
    ∷ ("tcedil;", 0x163)
    ∷ ("tcy;", 0x442)
    ∷ ("tdot;", 0x20db)
    ∷ ("telrec;", 0x2315)
    ∷ ("tfr;", 0x1d531)
    ∷ ("there4;", 0x2234)
    ∷ ("therefore;", 0x2234)
    ∷ ("theta;", 0x3b8)
    ∷ ("thetasym;", 0x3d1)
    ∷ ("thetav;", 0x3d1)
    ∷ ("thickapprox;", 0x2248)
    ∷ ("thicksim;", 0x223c)
    ∷ ("thinsp;", 0x2009)
    ∷ ("thkap;", 0x2248)
    ∷ ("thksim;", 0x223c)
    ∷ ("thorn", 0xfe)
    ∷ ("thorn;", 0xfe)
    ∷ ("tilde;", 0x2dc)
    ∷ ("times", 0xd7)
    ∷ ("times;", 0xd7)
    ∷ ("timesb;", 0x22a0)
    ∷ ("timesbar;", 0x2a31)
    ∷ ("timesd;", 0x2a30)
    ∷ ("tint;", 0x222d)
    ∷ ("toea;", 0x2928)
    ∷ ("top;", 0x22a4)
    ∷ ("topbot;", 0x2336)
    ∷ ("topcir;", 0x2af1)
    ∷ ("topf;", 0x1d565)
    ∷ ("topfork;", 0x2ada)
    ∷ ("tosa;", 0x2929)
    ∷ ("tprime;", 0x2034)
    ∷ ("trade;", 0x2122)
    ∷ ("triangle;", 0x25b5)
    ∷ ("triangledown;", 0x25bf)
    ∷ ("triangleleft;", 0x25c3)
    ∷ ("trianglelefteq;", 0x22b4)
    ∷ ("triangleq;", 0x225c)
    ∷ ("triangleright;", 0x25b9)
    ∷ ("trianglerighteq;", 0x22b5)
    ∷ ("tridot;", 0x25ec)
    ∷ ("trie;", 0x225c)
    ∷ ("triminus;", 0x2a3a)
    ∷ ("triplus;", 0x2a39)
    ∷ ("trisb;", 0x29cd)
    ∷ ("tritime;", 0x2a3b)
    ∷ ("trpezium;", 0x23e2)
    ∷ ("tscr;", 0x1d4c9)
    ∷ ("tscy;", 0x446)
    ∷ ("tshcy;", 0x45b)
    ∷ ("tstrok;", 0x167)
    ∷ ("twixt;", 0x226c)
    ∷ ("twoheadleftarrow;", 0x219e)
    ∷ ("twoheadrightarrow;", 0x21a0)
    ∷ ("uArr;", 0x21d1)
    ∷ ("uHar;", 0x2963)
    ∷ ("uacute", 0xfa)
    ∷ ("uacute;", 0xfa)
    ∷ ("uarr;", 0x2191)
    ∷ ("ubrcy;", 0x45e)
    ∷ ("ubreve;", 0x16d)
    ∷ ("ucirc", 0xfb)
    ∷ ("ucirc;", 0xfb)
    ∷ ("ucy;", 0x443)
    ∷ []
