-- ===== src/Entities/Part01.antt =====
-- src/entities.rs: lines 32 to 180 of the table `ENTITIES`.
use Prim.Native.String.{String}
use mathlib.Core.List.{List, [], ◌∷◌}

unfoldable pub part_01 : List String
part_01 =
    "&AElig" ∷ "&AElig;" ∷ "&AMP" ∷ "&AMP;" ∷ "&Aacute" ∷ "&Aacute;" ∷ "&Abreve;" ∷ "&Acirc"
    ∷ "&Acirc;" ∷ "&Acy;" ∷ "&Afr;" ∷ "&Agrave" ∷ "&Agrave;" ∷ "&Alpha;" ∷ "&Amacr;" ∷ "&And;"
    ∷ "&Aogon;" ∷ "&Aopf;" ∷ "&ApplyFunction;" ∷ "&Aring" ∷ "&Aring;" ∷ "&Ascr;" ∷ "&Assign;"
    ∷ "&Atilde" ∷ "&Atilde;" ∷ "&Auml" ∷ "&Auml;" ∷ "&Backslash;" ∷ "&Barv;" ∷ "&Barwed;" ∷ "&Bcy;"
    ∷ "&Because;" ∷ "&Bernoullis;" ∷ "&Beta;" ∷ "&Bfr;" ∷ "&Bopf;" ∷ "&Breve;" ∷ "&Bscr;"
    ∷ "&Bumpeq;" ∷ "&CHcy;" ∷ "&COPY" ∷ "&COPY;" ∷ "&Cacute;" ∷ "&Cap;" ∷ "&CapitalDifferentialD;"
    ∷ "&Cayleys;" ∷ "&Ccaron;" ∷ "&Ccedil" ∷ "&Ccedil;" ∷ "&Ccirc;" ∷ "&Cconint;" ∷ "&Cdot;"
    ∷ "&Cedilla;" ∷ "&CenterDot;" ∷ "&Cfr;" ∷ "&Chi;" ∷ "&CircleDot;" ∷ "&CircleMinus;"
    ∷ "&CirclePlus;" ∷ "&CircleTimes;" ∷ "&ClockwiseContourIntegral;" ∷ "&CloseCurlyDoubleQuote;"
    ∷ "&CloseCurlyQuote;" ∷ "&Colon;" ∷ "&Colone;" ∷ "&Congruent;" ∷ "&Conint;"
    ∷ "&ContourIntegral;" ∷ "&Copf;" ∷ "&Coproduct;" ∷ "&CounterClockwiseContourIntegral;"
    ∷ "&Cross;" ∷ "&Cscr;" ∷ "&Cup;" ∷ "&CupCap;" ∷ "&DD;" ∷ "&DDotrahd;" ∷ "&DJcy;" ∷ "&DScy;"
    ∷ "&DZcy;" ∷ "&Dagger;" ∷ "&Darr;" ∷ "&Dashv;" ∷ "&Dcaron;" ∷ "&Dcy;" ∷ "&Del;" ∷ "&Delta;"
    ∷ "&Dfr;" ∷ "&DiacriticalAcute;" ∷ "&DiacriticalDot;" ∷ "&DiacriticalDoubleAcute;"
    ∷ "&DiacriticalGrave;" ∷ "&DiacriticalTilde;" ∷ "&Diamond;" ∷ "&DifferentialD;" ∷ "&Dopf;"
    ∷ "&Dot;" ∷ "&DotDot;" ∷ "&DotEqual;" ∷ "&DoubleContourIntegral;" ∷ "&DoubleDot;"
    ∷ "&DoubleDownArrow;" ∷ "&DoubleLeftArrow;" ∷ "&DoubleLeftRightArrow;" ∷ "&DoubleLeftTee;"
    ∷ "&DoubleLongLeftArrow;" ∷ "&DoubleLongLeftRightArrow;" ∷ "&DoubleLongRightArrow;"
    ∷ "&DoubleRightArrow;" ∷ "&DoubleRightTee;" ∷ "&DoubleUpArrow;" ∷ "&DoubleUpDownArrow;"
    ∷ "&DoubleVerticalBar;" ∷ "&DownArrow;" ∷ "&DownArrowBar;" ∷ "&DownArrowUpArrow;"
    ∷ "&DownBreve;" ∷ "&DownLeftRightVector;" ∷ "&DownLeftTeeVector;" ∷ "&DownLeftVector;"
    ∷ "&DownLeftVectorBar;" ∷ "&DownRightTeeVector;" ∷ "&DownRightVector;" ∷ "&DownRightVectorBar;"
    ∷ "&DownTee;" ∷ "&DownTeeArrow;" ∷ "&Downarrow;" ∷ "&Dscr;" ∷ "&Dstrok;" ∷ "&ENG;" ∷ "&ETH"
    ∷ "&ETH;" ∷ "&Eacute" ∷ "&Eacute;" ∷ "&Ecaron;" ∷ "&Ecirc" ∷ "&Ecirc;" ∷ "&Ecy;" ∷ "&Edot;"
    ∷ "&Efr;" ∷ "&Egrave" ∷ "&Egrave;" ∷ "&Element;" ∷ "&Emacr;" ∷ "&EmptySmallSquare;"
    ∷ "&EmptyVerySmallSquare;" ∷ "&Eogon;" ∷ "&Eopf;" ∷ "&Epsilon;" ∷ []
