-- ===== src/Entities/Part11.antt =====
-- src/entities.rs: lines 1522 to 1670 of the table `ENTITIES`.
use Prim.Native.String.{String}
use mathlib.Core.List.{List, [], ◌∷◌}

unfoldable pub part_11 : List String
part_11 =
    "&nexists;" ∷ "&nfr;" ∷ "&ngE;" ∷ "&nge;" ∷ "&ngeq;" ∷ "&ngeqq;" ∷ "&ngeqslant;" ∷ "&nges;"
    ∷ "&ngsim;" ∷ "&ngt;" ∷ "&ngtr;" ∷ "&nhArr;" ∷ "&nharr;" ∷ "&nhpar;" ∷ "&ni;" ∷ "&nis;"
    ∷ "&nisd;" ∷ "&niv;" ∷ "&njcy;" ∷ "&nlArr;" ∷ "&nlE;" ∷ "&nlarr;" ∷ "&nldr;" ∷ "&nle;"
    ∷ "&nleftarrow;" ∷ "&nleftrightarrow;" ∷ "&nleq;" ∷ "&nleqq;" ∷ "&nleqslant;" ∷ "&nles;"
    ∷ "&nless;" ∷ "&nlsim;" ∷ "&nlt;" ∷ "&nltri;" ∷ "&nltrie;" ∷ "&nmid;" ∷ "&nopf;" ∷ "&not"
    ∷ "&not;" ∷ "&notin;" ∷ "&notinE;" ∷ "&notindot;" ∷ "&notinva;" ∷ "&notinvb;" ∷ "&notinvc;"
    ∷ "&notni;" ∷ "&notniva;" ∷ "&notnivb;" ∷ "&notnivc;" ∷ "&npar;" ∷ "&nparallel;" ∷ "&nparsl;"
    ∷ "&npart;" ∷ "&npolint;" ∷ "&npr;" ∷ "&nprcue;" ∷ "&npre;" ∷ "&nprec;" ∷ "&npreceq;"
    ∷ "&nrArr;" ∷ "&nrarr;" ∷ "&nrarrc;" ∷ "&nrarrw;" ∷ "&nrightarrow;" ∷ "&nrtri;" ∷ "&nrtrie;"
    ∷ "&nsc;" ∷ "&nsccue;" ∷ "&nsce;" ∷ "&nscr;" ∷ "&nshortmid;" ∷ "&nshortparallel;" ∷ "&nsim;"
    ∷ "&nsime;" ∷ "&nsimeq;" ∷ "&nsmid;" ∷ "&nspar;" ∷ "&nsqsube;" ∷ "&nsqsupe;" ∷ "&nsub;"
    ∷ "&nsubE;" ∷ "&nsube;" ∷ "&nsubset;" ∷ "&nsubseteq;" ∷ "&nsubseteqq;" ∷ "&nsucc;" ∷ "&nsucceq;"
    ∷ "&nsup;" ∷ "&nsupE;" ∷ "&nsupe;" ∷ "&nsupset;" ∷ "&nsupseteq;" ∷ "&nsupseteqq;" ∷ "&ntgl;"
    ∷ "&ntilde" ∷ "&ntilde;" ∷ "&ntlg;" ∷ "&ntriangleleft;" ∷ "&ntrianglelefteq;"
    ∷ "&ntriangleright;" ∷ "&ntrianglerighteq;" ∷ "&nu;" ∷ "&num;" ∷ "&numero;" ∷ "&numsp;"
    ∷ "&nvDash;" ∷ "&nvHarr;" ∷ "&nvap;" ∷ "&nvdash;" ∷ "&nvge;" ∷ "&nvgt;" ∷ "&nvinfin;"
    ∷ "&nvlArr;" ∷ "&nvle;" ∷ "&nvlt;" ∷ "&nvltrie;" ∷ "&nvrArr;" ∷ "&nvrtrie;" ∷ "&nvsim;"
    ∷ "&nwArr;" ∷ "&nwarhk;" ∷ "&nwarr;" ∷ "&nwarrow;" ∷ "&nwnear;" ∷ "&oS;" ∷ "&oacute"
    ∷ "&oacute;" ∷ "&oast;" ∷ "&ocir;" ∷ "&ocirc" ∷ "&ocirc;" ∷ "&ocy;" ∷ "&odash;" ∷ "&odblac;"
    ∷ "&odiv;" ∷ "&odot;" ∷ "&odsold;" ∷ "&oelig;" ∷ "&ofcir;" ∷ "&ofr;" ∷ "&ogon;" ∷ "&ograve"
    ∷ "&ograve;" ∷ "&ogt;" ∷ "&ohbar;" ∷ "&ohm;" ∷ "&oint;" ∷ "&olarr;" ∷ "&olcir;" ∷ []
