-- ===== src/Entities/Part10.antt =====
-- src/entities.rs: lines 1373 to 1521 of the table `ENTITIES`.
use Prim.Native.String.{String}
use mathlib.Core.List.{List, [], ◌∷◌}

unfoldable pub part_10 : List String
part_10 =
    "&llhard;" ∷ "&lltri;" ∷ "&lmidot;" ∷ "&lmoust;" ∷ "&lmoustache;" ∷ "&lnE;" ∷ "&lnap;"
    ∷ "&lnapprox;" ∷ "&lne;" ∷ "&lneq;" ∷ "&lneqq;" ∷ "&lnsim;" ∷ "&loang;" ∷ "&loarr;" ∷ "&lobrk;"
    ∷ "&longleftarrow;" ∷ "&longleftrightarrow;" ∷ "&longmapsto;" ∷ "&longrightarrow;"
    ∷ "&looparrowleft;" ∷ "&looparrowright;" ∷ "&lopar;" ∷ "&lopf;" ∷ "&loplus;" ∷ "&lotimes;"
    ∷ "&lowast;" ∷ "&lowbar;" ∷ "&loz;" ∷ "&lozenge;" ∷ "&lozf;" ∷ "&lpar;" ∷ "&lparlt;" ∷ "&lrarr;"
    ∷ "&lrcorner;" ∷ "&lrhar;" ∷ "&lrhard;" ∷ "&lrm;" ∷ "&lrtri;" ∷ "&lsaquo;" ∷ "&lscr;" ∷ "&lsh;"
    ∷ "&lsim;" ∷ "&lsime;" ∷ "&lsimg;" ∷ "&lsqb;" ∷ "&lsquo;" ∷ "&lsquor;" ∷ "&lstrok;" ∷ "&lt"
    ∷ "&lt;" ∷ "&ltcc;" ∷ "&ltcir;" ∷ "&ltdot;" ∷ "&lthree;" ∷ "&ltimes;" ∷ "&ltlarr;" ∷ "&ltquest;"
    ∷ "&ltrPar;" ∷ "&ltri;" ∷ "&ltrie;" ∷ "&ltrif;" ∷ "&lurdshar;" ∷ "&luruhar;" ∷ "&lvertneqq;"
    ∷ "&lvnE;" ∷ "&mDDot;" ∷ "&macr" ∷ "&macr;" ∷ "&male;" ∷ "&malt;" ∷ "&maltese;" ∷ "&map;"
    ∷ "&mapsto;" ∷ "&mapstodown;" ∷ "&mapstoleft;" ∷ "&mapstoup;" ∷ "&marker;" ∷ "&mcomma;"
    ∷ "&mcy;" ∷ "&mdash;" ∷ "&measuredangle;" ∷ "&mfr;" ∷ "&mho;" ∷ "&micro" ∷ "&micro;" ∷ "&mid;"
    ∷ "&midast;" ∷ "&midcir;" ∷ "&middot" ∷ "&middot;" ∷ "&minus;" ∷ "&minusb;" ∷ "&minusd;"
    ∷ "&minusdu;" ∷ "&mlcp;" ∷ "&mldr;" ∷ "&mnplus;" ∷ "&models;" ∷ "&mopf;" ∷ "&mp;" ∷ "&mscr;"
    ∷ "&mstpos;" ∷ "&mu;" ∷ "&multimap;" ∷ "&mumap;" ∷ "&nGg;" ∷ "&nGt;" ∷ "&nGtv;" ∷ "&nLeftarrow;"
    ∷ "&nLeftrightarrow;" ∷ "&nLl;" ∷ "&nLt;" ∷ "&nLtv;" ∷ "&nRightarrow;" ∷ "&nVDash;" ∷ "&nVdash;"
    ∷ "&nabla;" ∷ "&nacute;" ∷ "&nang;" ∷ "&nap;" ∷ "&napE;" ∷ "&napid;" ∷ "&napos;" ∷ "&napprox;"
    ∷ "&natur;" ∷ "&natural;" ∷ "&naturals;" ∷ "&nbsp" ∷ "&nbsp;" ∷ "&nbump;" ∷ "&nbumpe;"
    ∷ "&ncap;" ∷ "&ncaron;" ∷ "&ncedil;" ∷ "&ncong;" ∷ "&ncongdot;" ∷ "&ncup;" ∷ "&ncy;" ∷ "&ndash;"
    ∷ "&ne;" ∷ "&neArr;" ∷ "&nearhk;" ∷ "&nearr;" ∷ "&nearrow;" ∷ "&nedot;" ∷ "&nequiv;"
    ∷ "&nesear;" ∷ "&nesim;" ∷ "&nexist;" ∷ []
