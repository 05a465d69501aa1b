-- ===== src/Entities/Part05.antt =====
-- src/entities.rs: lines 628 to 776 of the table `ENTITIES`.
use Prim.Native.String.{String}
use mathlib.Core.List.{List, [], ◌∷◌}

unfoldable pub part_05 : List String
part_05 =
    "&VerticalLine;" ∷ "&VerticalSeparator;" ∷ "&VerticalTilde;" ∷ "&VeryThinSpace;" ∷ "&Vfr;"
    ∷ "&Vopf;" ∷ "&Vscr;" ∷ "&Vvdash;" ∷ "&Wcirc;" ∷ "&Wedge;" ∷ "&Wfr;" ∷ "&Wopf;" ∷ "&Wscr;"
    ∷ "&Xfr;" ∷ "&Xi;" ∷ "&Xopf;" ∷ "&Xscr;" ∷ "&YAcy;" ∷ "&YIcy;" ∷ "&YUcy;" ∷ "&Yacute"
    ∷ "&Yacute;" ∷ "&Ycirc;" ∷ "&Ycy;" ∷ "&Yfr;" ∷ "&Yopf;" ∷ "&Yscr;" ∷ "&Yuml;" ∷ "&ZHcy;"
    ∷ "&Zacute;" ∷ "&Zcaron;" ∷ "&Zcy;" ∷ "&Zdot;" ∷ "&ZeroWidthSpace;" ∷ "&Zeta;" ∷ "&Zfr;"
    ∷ "&Zopf;" ∷ "&Zscr;" ∷ "&aacute" ∷ "&aacute;" ∷ "&abreve;" ∷ "&ac;" ∷ "&acE;" ∷ "&acd;"
    ∷ "&acirc" ∷ "&acirc;" ∷ "&acute" ∷ "&acute;" ∷ "&acy;" ∷ "&aelig" ∷ "&aelig;" ∷ "&af;"
    ∷ "&afr;" ∷ "&agrave" ∷ "&agrave;" ∷ "&alefsym;" ∷ "&aleph;" ∷ "&alpha;" ∷ "&amacr;" ∷ "&amalg;"
    ∷ "&amp" ∷ "&amp;" ∷ "&and;" ∷ "&andand;" ∷ "&andd;" ∷ "&andslope;" ∷ "&andv;" ∷ "&ang;"
    ∷ "&ange;" ∷ "&angle;" ∷ "&angmsd;" ∷ "&angmsdaa;" ∷ "&angmsdab;" ∷ "&angmsdac;" ∷ "&angmsdad;"
    ∷ "&angmsdae;" ∷ "&angmsdaf;" ∷ "&angmsdag;" ∷ "&angmsdah;" ∷ "&angrt;" ∷ "&angrtvb;"
    ∷ "&angrtvbd;" ∷ "&angsph;" ∷ "&angst;" ∷ "&angzarr;" ∷ "&aogon;" ∷ "&aopf;" ∷ "&ap;" ∷ "&apE;"
    ∷ "&apacir;" ∷ "&ape;" ∷ "&apid;" ∷ "&apos;" ∷ "&approx;" ∷ "&approxeq;" ∷ "&aring" ∷ "&aring;"
    ∷ "&ascr;" ∷ "&ast;" ∷ "&asymp;" ∷ "&asympeq;" ∷ "&atilde" ∷ "&atilde;" ∷ "&auml" ∷ "&auml;"
    ∷ "&awconint;" ∷ "&awint;" ∷ "&bNot;" ∷ "&backcong;" ∷ "&backepsilon;" ∷ "&backprime;"
    ∷ "&backsim;" ∷ "&backsimeq;" ∷ "&barvee;" ∷ "&barwed;" ∷ "&barwedge;" ∷ "&bbrk;" ∷ "&bbrktbrk;"
    ∷ "&bcong;" ∷ "&bcy;" ∷ "&bdquo;" ∷ "&becaus;" ∷ "&because;" ∷ "&bemptyv;" ∷ "&bepsi;"
    ∷ "&bernou;" ∷ "&beta;" ∷ "&beth;" ∷ "&between;" ∷ "&bfr;" ∷ "&bigcap;" ∷ "&bigcirc;"
    ∷ "&bigcup;" ∷ "&bigodot;" ∷ "&bigoplus;" ∷ "&bigotimes;" ∷ "&bigsqcup;" ∷ "&bigstar;"
    ∷ "&bigtriangledown;" ∷ "&bigtriangleup;" ∷ "&biguplus;" ∷ "&bigvee;" ∷ "&bigwedge;"
    ∷ "&bkarow;" ∷ "&blacklozenge;" ∷ "&blacksquare;" ∷ "&blacktriangle;" ∷ "&blacktriangledown;"
    ∷ "&blacktriangleleft;" ∷ []
