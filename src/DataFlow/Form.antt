-- ===== src/DataFlow/Form.antt =====
-- The `PPC_FORM_…` and `PPCPS_FORM_…` constants that src/data_flow/PpcInstructionUD.cpp names. Their
-- values are ppcdisasm's, and are a parameter of the model.
use ppc2cpp.Prelude.{ℕ}

pub data Form : Type 0 where
  add add_ addc addc_ addco addco_ adde adde_ addeo addeo_ addi addic addic_ addis addme : Form
  addme_ addmeo addmeo_ addo addo_ addze addze_ addzeo addzeo_ and and_ andc andc_ andi_ : Form
  andis_ cmp cmpi cmpl cmpli cntlzw cntlzw_ crand crandc creqv crnand crnor cror crorc : Form
  crxor eqv eqv_ extsb extsb_ extsh extsh_ divw divw_ divwo divwo_ divwu divwu_ divwuo : Form
  divwuo_ mcrf mfspr mtspr mulhw mulhw_ mulhwu mulhwu_ mulli mullw mullw_ mullwo mullwo_ : Form
  nand nand_ neg neg_ nego nego_ nor nor_ or or_ orc orc_ ori oris rlwimi rlwimi_ rlwinm : Form
  rlwinm_ rlwnm rlwnm_ slw slw_ sraw sraw_ srawi srawi_ srw srw_ subf subf_ subfc subfc_ : Form
  subfco subfco_ subfe subfe_ subfeo subfeo_ subfic subfme subfme_ subfmeo subfmeo_ subfo : Form
  subfo_ subfze subfze_ subfzeo subfzeo_ xor xor_ xori xoris fabs_ fabs fadd_ fadd fadds_ : Form
  fadds fcmpo fcmpu fctiw_ fctiw fctiwz_ fctiwz fdiv_ fdiv fdivs_ fdivs fmadd_ fmadd : Form
  fmadds_ fmadds fmr_ fmr fmsub_ fmsub fmsubs_ fmsubs fmul_ fmul fmuls_ fmuls fnabs_ fnabs : Form
  fneg_ fneg fnmadd_ fnmadd fnmadds_ fnmadds fnmsub_ fnmsub fnmsubs_ fnmsubs fres_ fres : Form
  frsp_ frsp frsqrte_ frsqrte fsel_ fsel fsqrt_ fsqrt fsqrts_ fsqrts fsub_ fsub fsubs_ : Form
  fsubs lbz lbzu lbzux lbzx lfd lfdu lfdux lfdx lfs lfsu lfsux lfsx lha lhau lhaux lhax : Form
  lhbrx lhz lhzu lhzux lhzx lswi lswx lwbrx lwz lwzu lwzux lwzx psq_l stb stbu stbux stbx : Form
  stfd stfdu stfdux stfdx stfiwx stfs stfsu stfsux stfsx sth sthbrx sthu sthux sthx stswi : Form
  stswx stw stwbrx stwu stwux stwx psq_st b ba bc bca bcctr bcctrl bcl bcla bclr bclrl bl : Form
  bla : Form

-- A number for each form, by which the lists below are compared.
abbrev pub index : Form → ℕ
index add = 0
index add_ = 1
index addc = 2
index addc_ = 3
index addco = 4
index addco_ = 5
index adde = 6
index adde_ = 7
index addeo = 8
index addeo_ = 9
index addi = 10
index addic = 11
index addic_ = 12
index addis = 13
index addme = 14
index addme_ = 15
index addmeo = 16
index addmeo_ = 17
index addo = 18
index addo_ = 19
index addze = 20
index addze_ = 21
index addzeo = 22
index addzeo_ = 23
index and = 24
index and_ = 25
index andc = 26
index andc_ = 27
index andi_ = 28
index andis_ = 29
index cmp = 30
index cmpi = 31
index cmpl = 32
index cmpli = 33
index cntlzw = 34
index cntlzw_ = 35
index crand = 36
index crandc = 37
index creqv = 38
index crnand = 39
index crnor = 40
index cror = 41
index crorc = 42
index crxor = 43
index eqv = 44
index eqv_ = 45
index extsb = 46
index extsb_ = 47
index extsh = 48
index extsh_ = 49
index divw = 50
index divw_ = 51
index divwo = 52
index divwo_ = 53
index divwu = 54
index divwu_ = 55
index divwuo = 56
index divwuo_ = 57
index mcrf = 58
index mfspr = 59
index mtspr = 60
index mulhw = 61
index mulhw_ = 62
index mulhwu = 63
index mulhwu_ = 64
index mulli = 65
index mullw = 66
index mullw_ = 67
index mullwo = 68
index mullwo_ = 69
index nand = 70
index nand_ = 71
index neg = 72
index neg_ = 73
index nego = 74
index nego_ = 75
index nor = 76
index nor_ = 77
index or = 78
index or_ = 79
index orc = 80
index orc_ = 81
index ori = 82
index oris = 83
index rlwimi = 84
index rlwimi_ = 85
index rlwinm = 86
index rlwinm_ = 87
index rlwnm = 88
index rlwnm_ = 89
index slw = 90
index slw_ = 91
index sraw = 92
index sraw_ = 93
index srawi = 94
index srawi_ = 95
index srw = 96
index srw_ = 97
index subf = 98
index subf_ = 99
index subfc = 100
index subfc_ = 101
index subfco = 102
index subfco_ = 103
index subfe = 104
index subfe_ = 105
index subfeo = 106
index subfeo_ = 107
index subfic = 108
index subfme = 109
index subfme_ = 110
index subfmeo = 111
index subfmeo_ = 112
index subfo = 113
index subfo_ = 114
index subfze = 115
index subfze_ = 116
index subfzeo = 117
index subfzeo_ = 118
index xor = 119
index xor_ = 120
index xori = 121
index xoris = 122
index fabs_ = 123
index fabs = 124
index fadd_ = 125
index fadd = 126
index fadds_ = 127
index fadds = 128
index fcmpo = 129
index fcmpu = 130
index fctiw_ = 131
index fctiw = 132
index fctiwz_ = 133
index fctiwz = 134
index fdiv_ = 135
index fdiv = 136
index fdivs_ = 137
index fdivs = 138
index fmadd_ = 139
index fmadd = 140
index fmadds_ = 141
index fmadds = 142
index fmr_ = 143
index fmr = 144
index fmsub_ = 145
index fmsub = 146
index fmsubs_ = 147
index fmsubs = 148
index fmul_ = 149
index fmul = 150
index fmuls_ = 151
index fmuls = 152
index fnabs_ = 153
index fnabs = 154
index fneg_ = 155
index fneg = 156
index fnmadd_ = 157
index fnmadd = 158
index fnmadds_ = 159
index fnmadds = 160
index fnmsub_ = 161
index fnmsub = 162
index fnmsubs_ = 163
index fnmsubs = 164
index fres_ = 165
index fres = 166
index frsp_ = 167
index frsp = 168
index frsqrte_ = 169
index frsqrte = 170
index fsel_ = 171
index fsel = 172
index fsqrt_ = 173
index fsqrt = 174
index fsqrts_ = 175
index fsqrts = 176
index fsub_ = 177
index fsub = 178
index fsubs_ = 179
index fsubs = 180
index lbz = 181
index lbzu = 182
index lbzux = 183
index lbzx = 184
index lfd = 185
index lfdu = 186
index lfdux = 187
index lfdx = 188
index lfs = 189
index lfsu = 190
index lfsux = 191
index lfsx = 192
index lha = 193
index lhau = 194
index lhaux = 195
index lhax = 196
index lhbrx = 197
index lhz = 198
index lhzu = 199
index lhzux = 200
index lhzx = 201
index lswi = 202
index lswx = 203
index lwbrx = 204
index lwz = 205
index lwzu = 206
index lwzux = 207
index lwzx = 208
index psq_l = 209
index stb = 210
index stbu = 211
index stbux = 212
index stbx = 213
index stfd = 214
index stfdu = 215
index stfdux = 216
index stfdx = 217
index stfiwx = 218
index stfs = 219
index stfsu = 220
index stfsux = 221
index stfsx = 222
index sth = 223
index sthbrx = 224
index sthu = 225
index sthux = 226
index sthx = 227
index stswi = 228
index stswx = 229
index stw = 230
index stwbrx = 231
index stwu = 232
index stwux = 233
index stwx = 234
index psq_st = 235
index b = 236
index ba = 237
index bc = 238
index bca = 239
index bcctr = 240
index bcctrl = 241
index bcl = 242
index bcla = 243
index bclr = 244
index bclrl = 245
index bl = 246
index bla = 247
