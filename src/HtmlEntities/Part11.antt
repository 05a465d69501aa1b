-- ===== src/HtmlEntities/Part11.antt =====
-- src/html_entities.rs: lines 1466 to 1608 of the table `ENTITY`.
use Prim.Native.String.{String}
use Prim.Native.Nat.{ℕ}
use mathlib.Core.List.{List, [], ◌∷◌}

unfoldable pub entity_11 : List (String × ℕ)
entity_11 =
    ("ncedil;", 0x146)
    ∷ ("ncong;", 0x2247)
    ∷ ("ncup;", 0x2a42)
    ∷ ("ncy;", 0x43d)
    ∷ ("ndash;", 0x2013)
    ∷ ("ne;", 0x2260)
    ∷ ("neArr;", 0x21d7)
    ∷ ("nearhk;", 0x2924)
    ∷ ("nearr;", 0x2197)
    ∷ ("nearrow;", 0x2197)
    ∷ ("nequiv;", 0x2262)
    ∷ ("nesear;", 0x2928)
    ∷ ("nexist;", 0x2204)
    ∷ ("nexists;", 0x2204)
    ∷ ("nfr;", 0x1d52b)
    ∷ ("nge;", 0x2271)
    ∷ ("ngeq;", 0x2271)
    ∷ ("ngsim;", 0x2275)
    ∷ ("ngt;", 0x226f)
    ∷ ("ngtr;", 0x226f)
    ∷ ("nhArr;", 0x21ce)
    ∷ ("nharr;", 0x21ae)
    ∷ ("nhpar;", 0x2af2)
    ∷ ("ni;", 0x220b)
    ∷ ("nis;", 0x22fc)
    ∷ ("nisd;", 0x22fa)
    ∷ ("niv;", 0x220b)
    ∷ ("njcy;", 0x45a)
    ∷ ("nlArr;", 0x21cd)
    ∷ ("nlarr;", 0x219a)
    ∷ ("nldr;", 0x2025)
    ∷ ("nle;", 0x2270)
    ∷ ("nleftarrow;", 0x219a)
    ∷ ("nleftrightarrow;", 0x21ae)
    ∷ ("nleq;", 0x2270)
    ∷ ("nless;", 0x226e)
    ∷ ("nlsim;", 0x2274)
    ∷ ("nlt;", 0x226e)
    ∷ ("nltri;", 0x22ea)
    ∷ ("nltrie;", 0x22ec)
    ∷ ("nmid;", 0x2224)
    ∷ ("nopf;", 0x1d55f)
    ∷ ("not", 0xac)
    ∷ ("not;", 0xac)
    ∷ ("notin;", 0x2209)
    ∷ ("notinva;", 0x2209)
    ∷ ("notinvb;", 0x22f7)
    ∷ ("notinvc;", 0x22f6)
    ∷ ("notni;", 0x220c)
    ∷ ("notniva;", 0x220c)
    ∷ ("notnivb;", 0x22fe)
    ∷ ("notnivc;", 0x22fd)
    ∷ ("npar;", 0x2226)
    ∷ ("nparallel;", 0x2226)
    ∷ ("npolint;", 0x2a14)
    ∷ ("npr;", 0x2280)
    ∷ ("nprcue;", 0x22e0)
    ∷ ("nprec;", 0x2280)
    ∷ ("nrArr;", 0x21cf)
    ∷ ("nrarr;", 0x219b)
    ∷ ("nrightarrow;", 0x219b)
    ∷ ("nrtri;", 0x22eb)
    ∷ ("nrtrie;", 0x22ed)
    ∷ ("nsc;", 0x2281)
    ∷ ("nsccue;", 0x22e1)
    ∷ ("nscr;", 0x1d4c3)
    ∷ ("nshortmid;", 0x2224)
    ∷ ("nshortparallel;", 0x2226)
    ∷ ("nsim;", 0x2241)
    ∷ ("nsime;", 0x2244)
    ∷ ("nsimeq;", 0x2244)
    ∷ ("nsmid;", 0x2224)
    ∷ ("nspar;", 0x2226)
    ∷ ("nsqsube;", 0x22e2)
    ∷ ("nsqsupe;", 0x22e3)
    ∷ ("nsub;", 0x2284)
    ∷ ("nsube;", 0x2288)
    ∷ ("nsubseteq;", 0x2288)
    ∷ ("nsucc;", 0x2281)
    ∷ ("nsup;", 0x2285)
    ∷ ("nsupe;", 0x2289)
    ∷ ("nsupseteq;", 0x2289)
    ∷ ("ntgl;", 0x2279)
    ∷ ("ntilde", 0xf1)
    ∷ ("ntilde;", 0xf1)
    ∷ ("ntlg;", 0x2278)
    ∷ ("ntriangleleft;", 0x22ea)
    ∷ ("ntrianglelefteq;", 0x22ec)
    ∷ ("ntriangleright;", 0x22eb)
    ∷ ("ntrianglerighteq;", 0x22ed)
    ∷ ("nu;", 0x3bd)
    ∷ ("num;", 0x23)
    ∷ ("numero;", 0x2116)
    ∷ ("numsp;", 0x2007)
    ∷ ("nvDash;", 0x22ad)
    ∷ ("nvHarr;", 0x2904)
    ∷ ("nvdash;", 0x22ac)
    ∷ ("nvinfin;", 0x29de)
    ∷ ("nvlArr;", 0x2902)
    ∷ ("nvrArr;", 0x2903)
    ∷ ("nwArr;", 0x21d6)
    ∷ ("nwarhk;", 0x2923)
    ∷ ("nwarr;", 0x2196)
    ∷ ("nwarrow;", 0x2196)
    ∷ ("nwnear;", 0x2927)
    ∷ ("oS;", 0x24c8)
    ∷ ("oacute", 0xf3)
    ∷ ("oacute;", 0xf3)
    ∷ ("oast;", 0x229b)
    ∷ ("ocir;", 0x229a)
    ∷ ("ocirc", 0xf4)
    ∷ ("ocirc;", 0xf4)
    ∷ ("ocy;", 0x43e)
    ∷ ("odash;", 0x229d)
    ∷ ("odblac;", 0x151)
    ∷ ("odiv;", 0x2a38)
    ∷ ("odot;", 0x2299)
    ∷ ("odsold;", 0x29bc)
    ∷ ("oelig;", 0x153)
    ∷ ("ofcir;", 0x29bf)
    ∷ ("ofr;", 0x1d52c)
    ∷ ("ogon;", 0x2db)
    ∷ ("ograve", 0xf2)
    ∷ ("ograve;", 0xf2)
    ∷ ("ogt;", 0x29c1)
    ∷ ("ohbar;", 0x29b5)
    ∷ ("ohm;", 0x3a9)
    ∷ ("oint;", 0x222e)
    ∷ ("olarr;", 0x21ba)
    ∷ ("olcir;", 0x29be)
    ∷ ("olcross;", 0x29bb)
    ∷ ("oline;", 0x203e)
    ∷ ("olt;", 0x29c0)
    ∷ ("omacr;", 0x14d)
    ∷ ("omega;", 0x3c9)
    ∷ ("omicron;", 0x3bf)
    ∷ ("omid;", 0x29b6)
    ∷ ("ominus;", 0x2296)
    ∷ ("oopf;", 0x1d560)
    ∷ ("opar;", 0x29b7)
    ∷ ("operp;", 0x29b9)
    ∷ ("oplus;", 0x2295)
    ∷ ("or;", 0x2228)
    ∷ []
