-- ===== src/Entities/Part08.antt =====
-- src/entities.rs: lines 1075 to 1223 of the table `ENTITIES`.
use Prim.Native.String.{String}
use mathlib.Core.List.{List, [], ◌∷◌}

unfoldable pub part_08 : List String
part_08 =
    "&eth;" ∷ "&euml" ∷ "&euml;" ∷ "&euro;" ∷ "&excl;" ∷ "&exist;" ∷ "&expectation;"
    ∷ "&exponentiale;" ∷ "&fallingdotseq;" ∷ "&fcy;" ∷ "&female;" ∷ "&ffilig;" ∷ "&fflig;"
    ∷ "&ffllig;" ∷ "&ffr;" ∷ "&filig;" ∷ "&fjlig;" ∷ "&flat;" ∷ "&fllig;" ∷ "&fltns;" ∷ "&fnof;"
    ∷ "&fopf;" ∷ "&forall;" ∷ "&fork;" ∷ "&forkv;" ∷ "&fpartint;" ∷ "&frac12" ∷ "&frac12;"
    ∷ "&frac13;" ∷ "&frac14" ∷ "&frac14;" ∷ "&frac15;" ∷ "&frac16;" ∷ "&frac18;" ∷ "&frac23;"
    ∷ "&frac25;" ∷ "&frac34" ∷ "&frac34;" ∷ "&frac35;" ∷ "&frac38;" ∷ "&frac45;" ∷ "&frac56;"
    ∷ "&frac58;" ∷ "&frac78;" ∷ "&frasl;" ∷ "&frown;" ∷ "&fscr;" ∷ "&gE;" ∷ "&gEl;" ∷ "&gacute;"
    ∷ "&gamma;" ∷ "&gammad;" ∷ "&gap;" ∷ "&gbreve;" ∷ "&gcirc;" ∷ "&gcy;" ∷ "&gdot;" ∷ "&ge;"
    ∷ "&gel;" ∷ "&geq;" ∷ "&geqq;" ∷ "&geqslant;" ∷ "&ges;" ∷ "&gescc;" ∷ "&gesdot;" ∷ "&gesdoto;"
    ∷ "&gesdotol;" ∷ "&gesl;" ∷ "&gesles;" ∷ "&gfr;" ∷ "&gg;" ∷ "&ggg;" ∷ "&gimel;" ∷ "&gjcy;"
    ∷ "&gl;" ∷ "&glE;" ∷ "&gla;" ∷ "&glj;" ∷ "&gnE;" ∷ "&gnap;" ∷ "&gnapprox;" ∷ "&gne;" ∷ "&gneq;"
    ∷ "&gneqq;" ∷ "&gnsim;" ∷ "&gopf;" ∷ "&grave;" ∷ "&gscr;" ∷ "&gsim;" ∷ "&gsime;" ∷ "&gsiml;"
    ∷ "&gt" ∷ "&gt;" ∷ "&gtcc;" ∷ "&gtcir;" ∷ "&gtdot;" ∷ "&gtlPar;" ∷ "&gtquest;" ∷ "&gtrapprox;"
    ∷ "&gtrarr;" ∷ "&gtrdot;" ∷ "&gtreqless;" ∷ "&gtreqqless;" ∷ "&gtrless;" ∷ "&gtrsim;"
    ∷ "&gvertneqq;" ∷ "&gvnE;" ∷ "&hArr;" ∷ "&hairsp;" ∷ "&half;" ∷ "&hamilt;" ∷ "&hardcy;"
    ∷ "&harr;" ∷ "&harrcir;" ∷ "&harrw;" ∷ "&hbar;" ∷ "&hcirc;" ∷ "&hearts;" ∷ "&heartsuit;"
    ∷ "&hellip;" ∷ "&hercon;" ∷ "&hfr;" ∷ "&hksearow;" ∷ "&hkswarow;" ∷ "&hoarr;" ∷ "&homtht;"
    ∷ "&hookleftarrow;" ∷ "&hookrightarrow;" ∷ "&hopf;" ∷ "&horbar;" ∷ "&hscr;" ∷ "&hslash;"
    ∷ "&hstrok;" ∷ "&hybull;" ∷ "&hyphen;" ∷ "&iacute" ∷ "&iacute;" ∷ "&ic;" ∷ "&icirc" ∷ "&icirc;"
    ∷ "&icy;" ∷ "&iecy;" ∷ "&iexcl" ∷ "&iexcl;" ∷ "&iff;" ∷ "&ifr;" ∷ "&igrave" ∷ "&igrave;"
    ∷ "&ii;" ∷ []
