-- ===== src/HtmlEntities/Part06.antt =====
-- src/html_entities.rs: lines 751 to 893 of the table `ENTITY`.
use Prim.Native.String.{String}
use Prim.Native.Nat.{ℕ}
use mathlib.Core.List.{List, [], ◌∷◌}

unfoldable pub entity_06 : List (String × ℕ)
entity_06 =
    ("biguplus;", 0x2a04)
    ∷ ("bigvee;", 0x22c1)
    ∷ ("bigwedge;", 0x22c0)
    ∷ ("bkarow;", 0x290d)
    ∷ ("blacklozenge;", 0x29eb)
    ∷ ("blacksquare;", 0x25aa)
    ∷ ("blacktriangle;", 0x25b4)
    ∷ ("blacktriangledown;", 0x25be)
    ∷ ("blacktriangleleft;", 0x25c2)
    ∷ ("blacktriangleright;", 0x25b8)
    ∷ ("blank;", 0x2423)
    ∷ ("blk12;", 0x2592)
    ∷ ("blk14;", 0x2591)
    ∷ ("blk34;", 0x2593)
    ∷ ("block;", 0x2588)
    ∷ ("bnot;", 0x2310)
    ∷ ("bopf;", 0x1d553)
    ∷ ("bot;", 0x22a5)
    ∷ ("bottom;", 0x22a5)
    ∷ ("bowtie;", 0x22c8)
    ∷ ("boxDL;", 0x2557)
    ∷ ("boxDR;", 0x2554)
    ∷ ("boxDl;", 0x2556)
    ∷ ("boxDr;", 0x2553)
    ∷ ("boxH;", 0x2550)
    ∷ ("boxHD;", 0x2566)
    ∷ ("boxHU;", 0x2569)
    ∷ ("boxHd;", 0x2564)
    ∷ ("boxHu;", 0x2567)
    ∷ ("boxUL;", 0x255d)
    ∷ ("boxUR;", 0x255a)
    ∷ ("boxUl;", 0x255c)
    ∷ ("boxUr;", 0x2559)
    ∷ ("boxV;", 0x2551)
    ∷ ("boxVH;", 0x256c)
    ∷ ("boxVL;", 0x2563)
    ∷ ("boxVR;", 0x2560)
    ∷ ("boxVh;", 0x256b)
    ∷ ("boxVl;", 0x2562)
    ∷ ("boxVr;", 0x255f)
    ∷ ("boxbox;", 0x29c9)
    ∷ ("boxdL;", 0x2555)
    ∷ ("boxdR;", 0x2552)
    ∷ ("boxdl;", 0x2510)
    ∷ ("boxdr;", 0x250c)
    ∷ ("boxh;", 0x2500)
    ∷ ("boxhD;", 0x2565)
    ∷ ("boxhU;", 0x2568)
    ∷ ("boxhd;", 0x252c)
    ∷ ("boxhu;", 0x2534)
    ∷ ("boxminus;", 0x229f)
    ∷ ("boxplus;", 0x229e)
    ∷ ("boxtimes;", 0x22a0)
    ∷ ("boxuL;", 0x255b)
    ∷ ("boxuR;", 0x2558)
    ∷ ("boxul;", 0x2518)
    ∷ ("boxur;", 0x2514)
    ∷ ("boxv;", 0x2502)
    ∷ ("boxvH;", 0x256a)
    ∷ ("boxvL;", 0x2561)
    ∷ ("boxvR;", 0x255e)
    ∷ ("boxvh;", 0x253c)
    ∷ ("boxvl;", 0x2524)
    ∷ ("boxvr;", 0x251c)
    ∷ ("bprime;", 0x2035)
    ∷ ("breve;", 0x2d8)
    ∷ ("brvbar", 0xa6)
    ∷ ("brvbar;", 0xa6)
    ∷ ("bscr;", 0x1d4b7)
    ∷ ("bsemi;", 0x204f)
    ∷ ("bsim;", 0x223d)
    ∷ ("bsime;", 0x22cd)
    ∷ ("bsol;", 0x5c)
    ∷ ("bsolb;", 0x29c5)
    ∷ ("bsolhsub;", 0x27c8)
    ∷ ("bull;", 0x2022)
    ∷ ("bullet;", 0x2022)
    ∷ ("bump;", 0x224e)
    ∷ ("bumpE;", 0x2aae)
    ∷ ("bumpe;", 0x224f)
    ∷ ("bumpeq;", 0x224f)
    ∷ ("cacute;", 0x107)
    ∷ ("cap;", 0x2229)
    ∷ ("capand;", 0x2a44)
    ∷ ("capbrcup;", 0x2a49)
    ∷ ("capcap;", 0x2a4b)
    ∷ ("capcup;", 0x2a47)
    ∷ ("capdot;", 0x2a40)
    ∷ ("caret;", 0x2041)
    ∷ ("caron;", 0x2c7)
    ∷ ("ccaps;", 0x2a4d)
    ∷ ("ccaron;", 0x10d)
    ∷ ("ccedil", 0xe7)
    ∷ ("ccedil;", 0xe7)
    ∷ ("ccirc;", 0x109)
    ∷ ("ccups;", 0x2a4c)
    ∷ ("ccupssm;", 0x2a50)
    ∷ ("cdot;", 0x10b)
    ∷ ("cedil", 0xb8)
    ∷ ("cedil;", 0xb8)
    ∷ ("cemptyv;", 0x29b2)
    ∷ ("cent", 0xa2)
    ∷ ("cent;", 0xa2)
    ∷ ("centerdot;", 0xb7)
    ∷ ("cfr;", 0x1d520)
    ∷ ("chcy;", 0x447)
    ∷ ("check;", 0x2713)
    ∷ ("checkmark;", 0x2713)
    ∷ ("chi;", 0x3c7)
    ∷ ("cir;", 0x25cb)
    ∷ ("cirE;", 0x29c3)
    ∷ ("circ;", 0x2c6)
    ∷ ("circeq;", 0x2257)
    ∷ ("circlearrowleft;", 0x21ba)
    ∷ ("circlearrowright;", 0x21bb)
    ∷ ("circledR;", 0xae)
    ∷ ("circledS;", 0x24c8)
    ∷ ("circledast;", 0x229b)
    ∷ ("circledcirc;", 0x229a)
    ∷ ("circleddash;", 0x229d)
    ∷ ("cire;", 0x2257)
    ∷ ("cirfnint;", 0x2a10)
    ∷ ("cirmid;", 0x2aef)
    ∷ ("cirscir;", 0x29c2)
    ∷ ("clubs;", 0x2663)
    ∷ ("clubsuit;", 0x2663)
    ∷ ("colon;", 0x3a)
    ∷ ("colone;", 0x2254)
    ∷ ("coloneq;", 0x2254)
    ∷ ("comma;", 0x2c)
    ∷ ("commat;", 0x40)
    ∷ ("comp;", 0x2201)
    ∷ ("compfn;", 0x2218)
    ∷ ("complement;", 0x2201)
    ∷ ("complexes;", 0x2102)
    ∷ ("cong;", 0x2245)
    ∷ ("congdot;", 0x2a6d)
    ∷ ("conint;", 0x222e)
    ∷ ("copf;", 0x1d554)
    ∷ ("coprod;", 0x2210)
    ∷ ("copy", 0xa9)
    ∷ ("copy;", 0xa9)
    ∷ ("copysr;", 0x2117)
    ∷ []
