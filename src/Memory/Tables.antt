-- ===== src/Memory/Tables.antt =====
-- The address tables of memory.c. C fills the arrays with zeros behind the last entry, 0xFFFF, at
-- which the loops over them stop.
use epsolar_tracer_client.Base.{ℕ, List, [], ◌∷◌}

-- `RegList`
abbrev pub reg_list : List ℕ
reg_list =
    0x3000 ∷ 0x3001 ∷ 0x3002 ∷ 0x3003 ∷ 0x3004 ∷ 0x3005 ∷ 0x3006 ∷ 0x3007 ∷ 0x3008 ∷ 0x300E ∷ 0x3100
    ∷ 0x3101 ∷ 0x3102 ∷ 0x3103 ∷ 0x3104 ∷ 0x3105 ∷ 0x3106 ∷ 0x3107 ∷ 0x3108 ∷ 0x3109 ∷ 0x310A
    ∷ 0x310B ∷ 0x310C ∷ 0x310D ∷ 0x310E ∷ 0x310F ∷ 0x3110 ∷ 0x3111 ∷ 0x3112 ∷ 0x3113 ∷ 0x311A
    ∷ 0x311B ∷ 0x311D ∷ 0x3200 ∷ 0x3201 ∷ 0x3202 ∷ 0x3300 ∷ 0x3301 ∷ 0x3302 ∷ 0x3303 ∷ 0x3304
    ∷ 0x3305 ∷ 0x3306 ∷ 0x3307 ∷ 0x3308 ∷ 0x3309 ∷ 0x330A ∷ 0x330B ∷ 0x330C ∷ 0x330D ∷ 0x330E
    ∷ 0x330F ∷ 0x3310 ∷ 0x3311 ∷ 0x3312 ∷ 0x3313 ∷ 0x3314 ∷ 0x3315 ∷ 0x3316 ∷ 0x3317 ∷ 0x3318
    ∷ 0x3319 ∷ 0x331A ∷ 0x331B ∷ 0x331C ∷ 0x331D ∷ 0x331E ∷ 0x3330 ∷ 0x3331 ∷ 0x3332 ∷ 0x3333
    ∷ 0x3334 ∷ 0x3335 ∷ 0x3336 ∷ 0x3337 ∷ 0x9000 ∷ 0x9001 ∷ 0x9002 ∷ 0x9003 ∷ 0x9004 ∷ 0x9005
    ∷ 0x9006 ∷ 0x9007 ∷ 0x9008 ∷ 0x9009 ∷ 0x900A ∷ 0x900B ∷ 0x900C ∷ 0x900D ∷ 0x900E ∷ 0x9013
    ∷ 0x9014 ∷ 0x9015 ∷ 0x9016 ∷ 0x9017 ∷ 0x9018 ∷ 0x9019 ∷ 0x901A ∷ 0x901B ∷ 0x901C ∷ 0x901D
    ∷ 0x901E ∷ 0x901F ∷ 0x9020 ∷ 0x9021 ∷ 0x903D ∷ 0x903E ∷ 0x903F ∷ 0x9042 ∷ 0x9043 ∷ 0x9044
    ∷ 0x9045 ∷ 0x9046 ∷ 0x9047 ∷ 0x9048 ∷ 0x9049 ∷ 0x904A ∷ 0x904B ∷ 0x904C ∷ 0x904D ∷ 0x9063
    ∷ 0x9065 ∷ 0x9066 ∷ 0x9067 ∷ 0x906A ∷ 0x906B ∷ 0x906C ∷ 0x906D ∷ 0x906E ∷ 0x906F ∷ 0x9070
    ∷ 0xFFFF ∷ []

abbrev pub discrete_input_list : List ℕ
discrete_input_list = 0x2000 ∷ 0x200C ∷ 0xFFFF ∷ []

abbrev pub coil_list : List ℕ
coil_list = 0x0000 ∷ 0x0001 ∷ 0x0002 ∷ 0x0003 ∷ 0x0005 ∷ 0x0006 ∷ 0x0013 ∷ 0x0014 ∷ 0xFFFF ∷ []
