-- ===== src/Memory/Properties.antt =====
-- memory.c: `AddRegisterProperties`, the names, units and multipliers of the registers.
use Prim.Native.String.{String}
use epsolar_tracer_client.Base.{ℕ, List, [], ◌∷◌, ◌++◌, ◌==◌, if◌then◌else◌, Option, none, some}
use epsolar_tracer_client.Memory.State.{Register}

-- A branch of the function: the address that it tests, and what it assigns. `none` is a member that
-- the branch does not assign.
pub record Row : Type 0 where
  pub adress : ℕ
  pub reg_name : String
  pub description : Option String
  pub unit : Option String
  pub multiplier : ℕ

abbrev row : ℕ → String → Option String → Option String → ℕ → Row
row adress reg_name description unit multiplier = record {
  adress = adress;
  reg_name = reg_name;
  description = description;
  unit = unit;
  multiplier = multiplier;
}

-- the branches from 0x3000 to 0x310D
abbrev rows_from_3000 : List Row
rows_from_3000 =
    row 0x3000 "Charging equipment rated input voltage" none none 100
    ∷ row 0x3001 "Charging equipment rated input current"
        (some "Charging equipment rated input current") (some "A") 100
    ∷ row 0x3002 "Charging equipment rated input power L"
        (some "Charging equipment rated input power") (some "W") 100
    ∷ row 0x3003 "Charging equipment rated input power H"
        (some "Charging equipment rated input power") (some "W") 100
    ∷ row 0x3004 "Charging equipment rated output voltage"
        (some "Charging equipment rated output voltage") (some "V") 100
    ∷ row 0x3005 "Charging equipment rated output current"
        (some "Charging equipment rated output current") (some "A") 100
    ∷ row 0x3006 "Charging equipment rated output power L"
        (some "Charging equipment rated output power") (some "W") 100
    ∷ row 0x3007 "Charging equipment rated output power H"
        (some "Charging equipment rated output power") (some "W") 100
    ∷ row 0x3008 "Charging mode" (some "Charging mode") (some "") 1
    ∷ row 0x300E "Rated output current of load" (some "Rated output current of load") (some "A") 100
    ∷ row 0x3100 "Charging equipment input voltage" (some "Charging equipment input voltage")
        (some "V") 100
    ∷ row 0x3101 "Charging equipment input current" (some "Charging equipment input current")
        (some "A") 100
    ∷ row 0x3102 "Charging equipment input power L" (some "Charging equipment input power")
        (some "W") 100
    ∷ row 0x3103 "Charging equipment input power H" (some "Charging equipment input power")
        (some "W") 100
    ∷ row 0x3104 "Charging equipment output voltage" (some "Charging equipment output voltage")
        (some "V") 100
    ∷ row 0x3105 "Charging equipment output current" (some "Charging equipment output current")
        (some "A") 100
    ∷ row 0x3106 "Charging equipment output power L" (some "Charging equipment output power")
        (some "W") 100
    ∷ row 0x3107 "Charging equipment output power H" (some "Charging equipment output power")
        (some "W") 100
    ∷ row 0x310C "Disharging equipment output voltage" (some "Disharging equipment output voltage")
        (some "V") 100
    ∷ row 0x310D "Disharging equipment output current" (some "Disharging equipment output current")
        (some "A") 100
    ∷ []

-- the branches from 0x310E to 0x3309
abbrev rows_from_310e : List Row
rows_from_310e =
    row 0x310E "Disharging equipment output power L" (some "Disharging equipment output power")
      (some "W") 100
    ∷ row 0x310F "Disharging equipment output power H" (some "Disharging equipment output power")
        (some "W") 100
    ∷ row 0x3110 "Battery Temperature" (some "Battery Temperature") (some "C") 100
    ∷ row 0x3111 "Temperature inside equipment" (some "Temperature inside equipment") (some "C") 100
    ∷ row 0x3112 "Power components temperature" (some "Power components temperature") (some "C") 100
    ∷ row 0x311A "Batterie SOC" (some "Batterie SOC") (some "") 1
    ∷ row 0x311B "Remote battery temperature" (some "Remote battery temperature") (some "C") 100
    ∷ row 0x311D "Battery real rated power" (some "Battery real rated power") (some "V") 100
    ∷ row 0x3200 "Battery status" (some "Battery status") (some "") 1
    ∷ row 0x3201 "Charging equipment status" (some "Charging equipment status") (some "") 1
    ∷ row 0x3300 "Maximum input volt (PV) today" (some "Maximum input volt (PV) today") (some "V")
        100
    ∷ row 0x3301 "Minimum input volt (PV) today" (some "Minimum input volt (PV) today") (some "V")
        100
    ∷ row 0x3302 "Maximum battery volt today" (some "Maximum battery volt today") (some "V") 100
    ∷ row 0x3303 "Minimum battery volt today" (some "Minimum battery volt today") (some "V") 100
    ∷ row 0x3304 "Consumed energy today L" (some "Consumed energy today") (some "KWH") 100
    ∷ row 0x3305 "Consumed energy today H" (some "Consumed energy today") (some "KWH") 100
    ∷ row 0x3306 "Consumed energy this month L" (some "Consumed energy this month") (some "KWH") 100
    ∷ row 0x3307 "Consumed energy this month H" (some "Consumed energy this month") (some "KWH") 100
    ∷ row 0x3308 "Consumed energy this year L" (some "Consumed energy this year") (some "KWH") 100
    ∷ row 0x3309 "Consumed energy this year H" (some "Consumed energy this year") (some "KWH") 100
    ∷ []

-- the branches from 0x330A to 0x3333
abbrev rows_from_330a : List Row
rows_from_330a =
    row 0x330A "Total consumed energy L" (some "Total consumed energy") (some "KWH") 100
    ∷ row 0x330B "Total consumed energy H" (some "Total consumed energy") (some "KWH") 100
    ∷ row 0x330C "Generated energy today L" (some "Generated energy today") (some "KWH") 100
    ∷ row 0x330D "Generated energy today H" (some "Generated energy today") (some "KWH") 100
    ∷ row 0x330E "Generated energy this month L" (some "Generated energy this month") (some "KWH")
        100
    ∷ row 0x330F "Generated energy this month H" (some "Generated energy this month") (some "KWH")
        100
    ∷ row 0x3310 "Generated energy this year L" (some "Generated energy this year") (some "KWH") 100
    ∷ row 0x3311 "Generated energy this year H" (some "Generated energy this year") (some "KWH") 100
    ∷ row 0x3312 "Total generated energy L" (some "Total generated energy") (some "KWH") 100
    ∷ row 0x3313 "Total generated energy H" (some "Total generated energy") (some "KWH") 100
    ∷ row 0x3314 "Carbon dioxide reduction L" (some "Carbon dioxide reduction") (some "Ton") 100
    ∷ row 0x3315 "Carbon dioxide reduction H" (some "Carbon dioxide reduction") (some "Ton") 100
    ∷ row 0x331B "Battery Net Current L" (some "Battery Net Current") (some "A") 100
    ∷ row 0x331C "Battery Net Current H" (some "Battery Net Current") (some "A") 100
    ∷ row 0x331D "Battery Temp" (some "Battery Temp") (some "C") 100
    ∷ row 0x331E "Ambient Temp" (some "Ambient Temp") (some "C") 100
    ∷ row 0x3330 "Last Update Day" (some "Last Update Day") (some "") 1
    ∷ row 0x3331 "Last Update Month" (some "Last Update Month") (some "") 1
    ∷ row 0x3332 "Last Update Year" (some "Last Update Year") (some "") 1
    ∷ row 0x3333 "Last Update Hour" (some "Last Update Hour") (some "") 1
    ∷ []

-- the branches from 0x3334 to 0x901D
abbrev rows_from_3334 : List Row
rows_from_3334 =
    row 0x3334 "Last Update minute" (some "Last Update minute") (some "") 1
    ∷ row 0x3335 "Last Update second" (some "Last Update second") (some "") 1
    ∷ row 0x3336 "Last Update Unix Timestamp L" (some "Last Update Unix Timestamp L") (some "") 1
    ∷ row 0x3337 "Last Update Unix Timestamp H" (some "Last Update Unix Timestamp H") (some "") 1
    ∷ row 0x900A "Low voltage reconnect" (some "Low voltage reconnect") (some "V") 100
    ∷ row 0x900B "Under voltage recover" (some "Under voltage recover") (some "V") 100
    ∷ row 0x900C "Under voltage warning" (some "Under voltage warning") (some "V") 100
    ∷ row 0x900D "Low voltage reconect" (some "Low voltage reconect") (some "V") 100
    ∷ row 0x900E "Discharging limit voltage" (some "Discharging limit voltage") (some "V") 100
    ∷ row 0x9013 "Real time clock" (some "Real time clock") (some "") 100
    ∷ row 0x9014 "Real time clock" (some "Real time clock") (some "") 100
    ∷ row 0x9015 "Real time clock" (some "Real time clock") (some "") 100
    ∷ row 0x9016 "Equalization charging cycle" (some "Equalization charging cycle") (some "") 1
    ∷ row 0x9017 "Battery temperature warning upper limit"
        (some "Battery temperature warning upper limit") (some "C") 100
    ∷ row 0x9018 "Battery temperature warning lower limit"
        (some "Battery temperature warning lower limit") (some "C") 100
    ∷ row 0x9019 "Controller inner temperature upper limit"
        (some "Controller inner temperature upper limit") (some "C") 100
    ∷ row 0x901A "Controller inner temperature upper limit recover"
        (some "Controller inner temperature upper limit recover") (some "C") 100
    ∷ row 0x901B "Power component temperature upper limit"
        (some "Power component temperature upper limit") (some "C") 100
    ∷ row 0x901C "Power component temperature upper limit recover"
        (some "Power component temperature upper limit recover") (some "C") 100
    ∷ row 0x901D "Line Impedance" (some "Line Impedance") (some "miliohm") 100
    ∷ []

-- the branches from 0x901F to 0x9065
abbrev rows_from_901f : List Row
rows_from_901f =
    row 0x901F "" (some "") (some "V") 100
    ∷ row 0x901F "Light signal startup (night) delay time"
        (some "Light signal startup (night) delay time") (some "min") 1
    ∷ row 0x9020 "Day Time Threshold Volt.(DTTV)" (some "Day Time Threshold Volt.(DTTV)") (some "V")
        100
    ∷ row 0x9021 "Light signal turn off(day) delay time"
        (some "Light signal turn off(day) delay time") (some "min") 1
    ∷ row 0x903D "Load controling modes" (some "Load controling modes") (some "") 1
    ∷ row 0x903E "Working time length 1" (some "Working time length 1") (some "") 1
    ∷ row 0x903F "Working time length 2" (some "Working time length 2") (some "") 1
    ∷ row 0x9042 "Turn on timing 1" (some "Turn on timing 1") (some "sec") 1
    ∷ row 0x9043 "Turn on timing 1" (some "Turn on timing 1") (some "min") 1
    ∷ row 0x9044 "Turn on timing 1" (some "Turn on timing 1") (some "hour") 1
    ∷ row 0x9045 "Turn off timing 1" (some "Turn off timing 1") (some "sec") 1
    ∷ row 0x9046 "Turn off timing 1" (some "Turn off timing 1") (some "min") 1
    ∷ row 0x9047 "Turn off timing 1" (some "Turn off timing 1") (some "hour") 1
    ∷ row 0x9048 "Turn on timing 2" (some "Turn on timing 2") (some "sec") 1
    ∷ row 0x9049 "Turn on timing 2" (some "Turn on timing 2") (some "min") 1
    ∷ row 0x904A "Turn on timing 2" (some "Turn on timing 2") (some "hour") 1
    ∷ row 0x904B "Turn off timing 2" (some "Turn off timing 2") (some "sec") 1
    ∷ row 0x904C "Turn off timing 2" (some "Turn off timing 2") (some "min") 1
    ∷ row 0x904D "Turn off timing 2" (some "Turn off timing 2") (some "hour") 1
    ∷ row 0x9065 "Lenght of night" (some "Lenght of night") (some "") 1
    ∷ []

-- the branches from 0x9067 to 0x9070
abbrev rows_from_9067 : List Row
rows_from_9067 =
    row 0x9067 "Battery rated voltage code" (some "Battery rated voltage code") (some "") 1
    ∷ row 0x9069 "Load timing control selection" (some "Load timing control selection") (some "") 1
    ∷ row 0x906A "Default Load On/Off in manual mode" (some "Default Load On/Off in manual mode")
        (some "") 1
    ∷ row 0x906B "Equalize duration" (some "Equalize duration") (some "min") 1
    ∷ row 0x906C "Boost duration" (some "Boost duration") (some "min") 1
    ∷ row 0x906D "Discharging percentage" (some "Discharging percentage") (some "%") 1
    ∷ row 0x906E "Charging percentage" (some "Charging percentage") (some "%") 1
    ∷ row 0x9070 "Management modes of battery charging and discharging"
        (some "Management modes of battery charging and discharging") (some "") 1
    ∷ []

abbrev pub property_rows : List Row
property_rows =
    rows_from_3000
    ++ (rows_from_310e
        ++ (rows_from_330a ++ (rows_from_3334 ++ (rows_from_901f ++ (rows_from_9067)))))

abbrev assigned : String → Option String → String
assigned old none = old
assigned old (some new) = new

abbrev pub describe : Row → Register → Register
describe p r = record r {
  reg_name = p.reg_name;
  description = assigned r.description p.description;
  unit = assigned r.unit p.unit;
  multiplier = p.multiplier;
}

-- The `else if` ladder: the first branch whose address is the register's.
unfoldable pub describe_first : List Row → Register → Register
describe_first [] r = r
describe_first (p ∷ ps) r = if r.adress == p.adress then describe p r else describe_first ps r

-- `AddRegisterProperties`, which stops at the first register with the address 0xFFFF
unfoldable pub add_register_properties : List Register → List Register
add_register_properties [] = []
add_register_properties (r ∷ rs) =
    if r.adress == 0xFFFF
    then r ∷ rs
    else describe_first property_rows r ∷ add_register_properties rs
