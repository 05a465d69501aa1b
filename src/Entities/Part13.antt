-- ===== src/Entities/Part13.antt =====
-- src/entities.rs: lines 1820 to 1968 of the table `ENTITIES`.
use Prim.Native.String.{String}
use mathlib.Core.List.{List, [], ◌∷◌}

unfoldable pub part_13 : List String
part_13 =
    "&rbrack;" ∷ "&rbrke;" ∷ "&rbrksld;" ∷ "&rbrkslu;" ∷ "&rcaron;" ∷ "&rcedil;" ∷ "&rceil;"
    ∷ "&rcub;" ∷ "&rcy;" ∷ "&rdca;" ∷ "&rdldhar;" ∷ "&rdquo;" ∷ "&rdquor;" ∷ "&rdsh;" ∷ "&real;"
    ∷ "&realine;" ∷ "&realpart;" ∷ "&reals;" ∷ "&rect;" ∷ "&reg" ∷ "&reg;" ∷ "&rfisht;" ∷ "&rfloor;"
    ∷ "&rfr;" ∷ "&rhard;" ∷ "&rharu;" ∷ "&rharul;" ∷ "&rho;" ∷ "&rhov;" ∷ "&rightarrow;"
    ∷ "&rightarrowtail;" ∷ "&rightharpoondown;" ∷ "&rightharpoonup;" ∷ "&rightleftarrows;"
    ∷ "&rightleftharpoons;" ∷ "&rightrightarrows;" ∷ "&rightsquigarrow;" ∷ "&rightthreetimes;"
    ∷ "&ring;" ∷ "&risingdotseq;" ∷ "&rlarr;" ∷ "&rlhar;" ∷ "&rlm;" ∷ "&rmoust;" ∷ "&rmoustache;"
    ∷ "&rnmid;" ∷ "&roang;" ∷ "&roarr;" ∷ "&robrk;" ∷ "&ropar;" ∷ "&ropf;" ∷ "&roplus;"
    ∷ "&rotimes;" ∷ "&rpar;" ∷ "&rpargt;" ∷ "&rppolint;" ∷ "&rrarr;" ∷ "&rsaquo;" ∷ "&rscr;"
    ∷ "&rsh;" ∷ "&rsqb;" ∷ "&rsquo;" ∷ "&rsquor;" ∷ "&rthree;" ∷ "&rtimes;" ∷ "&rtri;" ∷ "&rtrie;"
    ∷ "&rtrif;" ∷ "&rtriltri;" ∷ "&ruluhar;" ∷ "&rx;" ∷ "&sacute;" ∷ "&sbquo;" ∷ "&sc;" ∷ "&scE;"
    ∷ "&scap;" ∷ "&scaron;" ∷ "&sccue;" ∷ "&sce;" ∷ "&scedil;" ∷ "&scirc;" ∷ "&scnE;" ∷ "&scnap;"
    ∷ "&scnsim;" ∷ "&scpolint;" ∷ "&scsim;" ∷ "&scy;" ∷ "&sdot;" ∷ "&sdotb;" ∷ "&sdote;" ∷ "&seArr;"
    ∷ "&searhk;" ∷ "&searr;" ∷ "&searrow;" ∷ "&sect" ∷ "&sect;" ∷ "&semi;" ∷ "&seswar;"
    ∷ "&setminus;" ∷ "&setmn;" ∷ "&sext;" ∷ "&sfr;" ∷ "&sfrown;" ∷ "&sharp;" ∷ "&shchcy;" ∷ "&shcy;"
    ∷ "&shortmid;" ∷ "&shortparallel;" ∷ "&shy" ∷ "&shy;" ∷ "&sigma;" ∷ "&sigmaf;" ∷ "&sigmav;"
    ∷ "&sim;" ∷ "&simdot;" ∷ "&sime;" ∷ "&simeq;" ∷ "&simg;" ∷ "&simgE;" ∷ "&siml;" ∷ "&simlE;"
    ∷ "&simne;" ∷ "&simplus;" ∷ "&simrarr;" ∷ "&slarr;" ∷ "&smallsetminus;" ∷ "&smashp;"
    ∷ "&smeparsl;" ∷ "&smid;" ∷ "&smile;" ∷ "&smt;" ∷ "&smte;" ∷ "&smtes;" ∷ "&softcy;" ∷ "&sol;"
    ∷ "&solb;" ∷ "&solbar;" ∷ "&sopf;" ∷ "&spades;" ∷ "&spadesuit;" ∷ "&spar;" ∷ "&sqcap;"
    ∷ "&sqcaps;" ∷ "&sqcup;" ∷ "&sqcups;" ∷ "&sqsub;" ∷ "&sqsube;" ∷ "&sqsubset;" ∷ "&sqsubseteq;"
    ∷ []
