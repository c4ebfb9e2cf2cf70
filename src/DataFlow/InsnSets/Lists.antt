-- ===== src/DataFlow/InsnSets/Lists.antt =====
-- The instruction sets of src/data_flow/PpcInstructionUD.cpp, as lists of forms.
use ppc2cpp.Prelude.{List, [], ◌∷◌}
use ppc2cpp.DataFlow.Form.{Form}

unfoldable pub fixed_point_insn : List Form
fixed_point_insn =
    Form.add ∷ Form.add_ ∷ Form.addc ∷ Form.addc_ ∷ Form.addco ∷ Form.addco_ ∷ Form.adde
    ∷ Form.adde_ ∷ Form.addeo ∷ Form.addeo_ ∷ Form.addi ∷ Form.addic ∷ Form.addic_ ∷ Form.addis
    ∷ Form.addme ∷ Form.addme_ ∷ Form.addmeo ∷ Form.addmeo_ ∷ Form.addo ∷ Form.addo_ ∷ Form.addze
    ∷ Form.addze_ ∷ Form.addzeo ∷ Form.addzeo_ ∷ Form.and ∷ Form.and_ ∷ Form.andc ∷ Form.andc_
    ∷ Form.andi_ ∷ Form.andis_ ∷ Form.cmp ∷ Form.cmpi ∷ Form.cmpl ∷ Form.cmpli ∷ Form.cntlzw
    ∷ Form.cntlzw_ ∷ Form.crand ∷ Form.crandc ∷ Form.creqv ∷ Form.crnand ∷ Form.crnor ∷ Form.cror
    ∷ Form.crorc ∷ Form.crxor ∷ Form.eqv ∷ Form.eqv_ ∷ Form.extsb ∷ Form.extsb_ ∷ Form.extsh
    ∷ Form.extsh_ ∷ Form.divw ∷ Form.divw_ ∷ Form.divwo ∷ Form.divwo_ ∷ Form.divwu ∷ Form.divwu_
    ∷ Form.divwuo ∷ Form.divwuo_ ∷ Form.mcrf ∷ Form.mfspr ∷ Form.mtspr ∷ Form.mulhw ∷ Form.mulhw_
    ∷ Form.mulhwu ∷ Form.mulhwu_ ∷ Form.mulli ∷ Form.mullw ∷ Form.mullw_ ∷ Form.mullwo
    ∷ Form.mullwo_ ∷ Form.nand ∷ Form.nand_ ∷ Form.neg ∷ Form.neg_ ∷ Form.nego ∷ Form.nego_
    ∷ Form.nor ∷ Form.nor_ ∷ Form.or ∷ Form.or_ ∷ Form.orc ∷ Form.orc_ ∷ Form.ori ∷ Form.oris
    ∷ Form.rlwimi ∷ Form.rlwimi_ ∷ Form.rlwinm ∷ Form.rlwinm_ ∷ Form.rlwnm ∷ Form.rlwnm_ ∷ Form.slw
    ∷ Form.slw_ ∷ Form.sraw ∷ Form.sraw_ ∷ Form.srawi ∷ Form.srawi_ ∷ Form.srw ∷ Form.srw_
    ∷ Form.subf ∷ Form.subf_ ∷ Form.subfc ∷ Form.subfc_ ∷ Form.subfco ∷ Form.subfco_ ∷ Form.subfe
    ∷ Form.subfe_ ∷ Form.subfeo ∷ Form.subfeo_ ∷ Form.subfic ∷ Form.subfme ∷ Form.subfme_
    ∷ Form.subfmeo ∷ Form.subfmeo_ ∷ Form.subfo ∷ Form.subfo_ ∷ Form.subfze ∷ Form.subfze_
    ∷ Form.subfzeo ∷ Form.subfzeo_ ∷ Form.xor ∷ Form.xor_ ∷ Form.xori ∷ Form.xoris ∷ []

unfoldable pub float_insn : List Form
float_insn =
    Form.fabs_ ∷ Form.fabs ∷ Form.fadd_ ∷ Form.fadd ∷ Form.fadds_ ∷ Form.fadds ∷ Form.fcmpo
    ∷ Form.fcmpu ∷ Form.fctiw_ ∷ Form.fctiw ∷ Form.fctiwz_ ∷ Form.fctiwz ∷ Form.fdiv_ ∷ Form.fdiv
    ∷ Form.fdivs_ ∷ Form.fdivs ∷ Form.fmadd_ ∷ Form.fmadd ∷ Form.fmadds_ ∷ Form.fmadds ∷ Form.fmr_
    ∷ Form.fmr ∷ Form.fmsub_ ∷ Form.fmsub ∷ Form.fmsubs_ ∷ Form.fmsubs ∷ Form.fmul_ ∷ Form.fmul
    ∷ Form.fmuls_ ∷ Form.fmuls ∷ Form.fnabs_ ∷ Form.fnabs ∷ Form.fneg_ ∷ Form.fneg ∷ Form.fnmadd_
    ∷ Form.fnmadd ∷ Form.fnmadds_ ∷ Form.fnmadds ∷ Form.fnmsub_ ∷ Form.fnmsub ∷ Form.fnmsubs_
    ∷ Form.fnmsubs ∷ Form.fres_ ∷ Form.fres ∷ Form.frsp_ ∷ Form.frsp ∷ Form.frsqrte_ ∷ Form.frsqrte
    ∷ Form.fsel_ ∷ Form.fsel ∷ Form.fsqrt_ ∷ Form.fsqrt ∷ Form.fsqrts_ ∷ Form.fsqrts ∷ Form.fsub_
    ∷ Form.fsub ∷ Form.fsubs_ ∷ Form.fsubs ∷ []

unfoldable pub load_insn : List Form
load_insn =
    Form.lbz ∷ Form.lbzu ∷ Form.lbzux ∷ Form.lbzx ∷ Form.lfd ∷ Form.lfdu ∷ Form.lfdux ∷ Form.lfdx
    ∷ Form.lfs ∷ Form.lfsu ∷ Form.lfsux ∷ Form.lfsx ∷ Form.lha ∷ Form.lhau ∷ Form.lhaux ∷ Form.lhax
    ∷ Form.lhbrx ∷ Form.lhz ∷ Form.lhzu ∷ Form.lhzux ∷ Form.lhzx ∷ Form.lswi ∷ Form.lswx
    ∷ Form.lwbrx ∷ Form.lwz ∷ Form.lwzu ∷ Form.lwzux ∷ Form.lwzx ∷ Form.psq_l ∷ []

unfoldable pub store_insn : List Form
store_insn =
    Form.stb ∷ Form.stbu ∷ Form.stbux ∷ Form.stbx ∷ Form.stfd ∷ Form.stfdu ∷ Form.stfdux
    ∷ Form.stfdx ∷ Form.stfiwx ∷ Form.stfs ∷ Form.stfsu ∷ Form.stfsux ∷ Form.stfsx ∷ Form.sth
    ∷ Form.sthbrx ∷ Form.sthu ∷ Form.sthux ∷ Form.sthx ∷ Form.stswi ∷ Form.stswx ∷ Form.stw
    ∷ Form.stwbrx ∷ Form.stwu ∷ Form.stwux ∷ Form.stwx ∷ Form.psq_st ∷ []

unfoldable pub branch_insn : List Form
branch_insn =
    Form.b ∷ Form.ba ∷ Form.bc ∷ Form.bca ∷ Form.bcctr ∷ Form.bcctrl ∷ Form.bcl ∷ Form.bcla
    ∷ Form.bclr ∷ Form.bclrl ∷ Form.bl ∷ Form.bla ∷ []

unfoldable pub sets_cr0 : List Form
sets_cr0 =
    Form.add_ ∷ Form.addc_ ∷ Form.addco_ ∷ Form.adde_ ∷ Form.addeo_ ∷ Form.addic_ ∷ Form.addme_
    ∷ Form.addmeo_ ∷ Form.addo_ ∷ Form.addze_ ∷ Form.addzeo_ ∷ Form.and_ ∷ Form.andc_ ∷ Form.andi_
    ∷ Form.andis_ ∷ Form.cntlzw_ ∷ Form.divw_ ∷ Form.divwo_ ∷ Form.divwu_ ∷ Form.divwuo_ ∷ Form.eqv_
    ∷ Form.extsb_ ∷ Form.extsh_ ∷ Form.mulhw_ ∷ Form.mulhwu_ ∷ Form.mullw_ ∷ Form.mullwo_
    ∷ Form.nand_ ∷ Form.neg_ ∷ Form.nego_ ∷ Form.nor_ ∷ Form.or_ ∷ Form.orc_ ∷ Form.rlwimi_
    ∷ Form.rlwinm_ ∷ Form.rlwnm_ ∷ Form.slw_ ∷ Form.sraw_ ∷ Form.srawi_ ∷ Form.srw_ ∷ Form.subf_
    ∷ Form.subfc_ ∷ Form.subfco_ ∷ Form.subfe_ ∷ Form.subfeo_ ∷ Form.subfme_ ∷ Form.subfmeo_
    ∷ Form.subfo_ ∷ Form.subfze_ ∷ Form.subfzeo_ ∷ Form.xor_ ∷ []

unfoldable pub sets_cr1 : List Form
sets_cr1 =
    Form.fabs_ ∷ Form.fadd_ ∷ Form.fadds_ ∷ Form.fctiw_ ∷ Form.fctiwz_ ∷ Form.fdiv_ ∷ Form.fdivs_
    ∷ Form.fmadd_ ∷ Form.fmadds_ ∷ Form.fmr_ ∷ Form.fmsub_ ∷ Form.fmsubs_ ∷ Form.fmul_ ∷ Form.fmuls_
    ∷ Form.fnabs_ ∷ Form.fneg_ ∷ Form.fnmadd_ ∷ Form.fnmadds_ ∷ Form.fnmsub_ ∷ Form.fnmsubs_
    ∷ Form.fres_ ∷ Form.frsp_ ∷ Form.frsqrte_ ∷ Form.fsel_ ∷ Form.fsqrt_ ∷ Form.fsqrts_ ∷ Form.fsub_
    ∷ Form.fsubs_ ∷ []

unfoldable pub can_have_reloc_start : List Form
can_have_reloc_start = Form.addis ∷ Form.addi ∷ Form.addic ∷ Form.addic_ ∷ Form.ori ∷ []
