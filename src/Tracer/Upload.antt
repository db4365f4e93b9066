-- ===== src/Tracer/Upload.antt =====
-- tracerclient.c: `SendMem`, which puts a part of the memory into a message for the server.
pub mod Sent
pub mod Mirror
use epsolar_tracer_client.Base.{
  ℕ, zero, suc, ◌+◌, ◌-◌, ◌*◌, ℤ, pos, negsuc, pos_part, failure, Bool, true, false, ◌&&◌, ◌||◌,
  List, [], ◌∷◌, ◌++◌, ◌==◌, length, take, ltb, leb, if◌then◌else◌, u16, int16_bytes, Option, none,
  some,
}
use epsolar_tracer_client.Common.{
  e_all, e_dev_info1, e_dev_info2, e_reg, e_coil, e_disc_inp, e_header, e_user, e_user_reg,
  e_user_coil, e_put,
}
use epsolar_tracer_client.Mttp.State.{Mttp}
use epsolar_tracer_client.Mttp.Encode.{init_buffer, add_command, get_buffer}
use epsolar_tracer_client.Mttp.Encode.Framing.{add_commands}
use epsolar_tracer_client.Mttp.Message.{Command}
use epsolar_tracer_client.Memory.State.{
  Memory, max_reg, max_coils, max_discrete_inputs, max_header_size, max_dev_info_lenght,
}
use epsolar_tracer_client.Memory.Lookup.{get_reg_start_index, get_register_adress}
use epsolar_tracer_client.Memory.Read.{
  Found, get_register, get_register_bytes, get_coil, get_disc_inp, get_header, get_header_at,
  get_device_info, get_user_register, get_user_coil, register_have_alternate_value,
}
use epsolar_tracer_client.Memory.Cells.{◌>>=◌}
use epsolar_tracer_client.Memory.Cells.Written.{word_bytes}
use epsolar_tracer_client.Client.{Client, max_send_buffer, sendmessage}

abbrev pub data_command : ℕ → ℕ → List ℕ → Command
data_command memtype adress payload = record {
  memtype = memtype;
  adress = adress;
  payload = payload;
}

-- what `AddCommand` takes of an array: nothing where the length is negative
abbrev pub counted_bytes : ℤ × List ℕ → List ℕ
counted_bytes (pos n, values) = take n values
counted_bytes (negsuc n, values) = []

-- `if (num > 0) MTTP.AddCommand(...)`
abbrev pub if_any : ℤ → Command → List Command
if_any (pos (suc n)) c = c ∷ []
if_any (pos zero) c = []
if_any (negsuc n) c = []

-- `case eDevInfo1` and `case eDevInfo2`: a command is added also where there is no device info
unfoldable pub device_info_commands : ℕ → ℕ → Memory → Option (List Command)
device_info_commands memtype type mem = do
  info ← get_device_info type max_dev_info_lenght mem
  some (data_command memtype type (counted_bytes info) ∷ [])

-- `case eReg`
unfoldable pub register_commands : ℕ → ℕ → Memory → List Command
register_commands from to mem =
    let (numreg, reg) = get_register from to max_reg false mem in
    if_any numreg (data_command e_reg from (word_bytes (counted_bytes (numreg, reg))))

-- `case eCoil`
unfoldable pub coil_commands : ℕ → ℕ → Memory → List Command
coil_commands from to mem =
    let (numcoils, coil) = get_coil from to max_coils mem in
    if_any numcoils (data_command e_coil from (counted_bytes (numcoils, coil)))

-- `case eDiscInp`
unfoldable pub input_commands : ℕ → ℕ → Memory → List Command
input_commands from to mem =
    let (numdiscinp, discinp) = get_disc_inp from to max_discrete_inputs mem in
    if_any numdiscinp (data_command e_disc_inp from (counted_bytes (numdiscinp, discinp)))

-- `case eHeader` for `eAll`, from the index `n` on with `left` rounds to go; a header without an
-- address ends the loop.
unfoldable pub all_headers : ℕ → ℕ → Memory → Option (List Command)
all_headers zero n mem = some []
all_headers (suc left) n mem = do
  header ← get_header_at n max_header_size mem
  rest ← all_headers left (n + 1) mem
  some (elim header.0 [
    | negsuc k ↦ rest
    | pos zero ↦ rest
    | pos (suc k) ↦
        if get_register_adress n mem == 0
        then []
        else data_command e_header (get_register_adress n mem) (counted_bytes header) ∷ rest
  ])

-- `case eHeader`
unfoldable pub header_commands : ℕ → ℕ → Memory → Option (List Command)
header_commands memtype from mem = if memtype == e_all then all_headers max_reg 0 mem else (do
  header ← get_header from max_header_size mem
  some (if_any header.0 (data_command e_header from (counted_bytes header))))

-- The loop of `case eUser`, from the index `n` on with `left` rounds to go. `reg` is the array of
-- two bytes, which `GetRegister` fills from its first cell on.
unfoldable pub user_loop : ℕ → ℕ → ℕ → List ℕ → Memory → Option (List Command)
user_loop zero n to reg mem = some []
user_loop (suc left) n to reg mem =
    let adress = get_register_adress n mem in
    let with_value = (do
      got ← get_register_bytes adress adress 2 true mem
      let reg' = take 2 (got.1 ++ reg)
      later ← user_loop left (n + 1) to reg' mem
      some (data_command e_user adress reg' ∷ later)) in
    let without = user_loop left (n + 1) to reg mem in
    if ltb to adress
    then some []
    else if register_have_alternate_value adress mem
    then with_value
    else without

-- `case eUser`. A start index of -1 is an access outside the array. `stale` is what the
-- uninitialised array `reg` holds.
unfoldable pub user_commands : ℕ → ℕ → List ℕ → Memory → Option (List Command)
user_commands from to stale mem = elim (get_reg_start_index from mem.registers) [
  | negsuc k ↦ none
  | pos startidx ↦ user_loop (max_reg - startidx) startidx to stale mem
]

-- `case eUserReg` and `case eUserCoil`: with values there is a first address
unfoldable pub found_commands : ℕ → (List ℕ → List ℕ) → Found → List Command
found_commands memtype bytes f = elim f.firstadress [
  | none ↦ []
  | some firstadress ↦
      if_any f.ret (data_command memtype firstadress (bytes (counted_bytes (f.ret, f.values))))
]

-- a case of the `switch`: `eAll` runs through all of them
abbrev pub in_case : ℕ → ℕ → Option (List Command) → Option (List Command)
in_case memtype label commands =
    if (memtype == e_all) || (memtype == label) then commands else some []

-- the `switch`: the commands that it adds, in their order
unfoldable pub upload_commands : ℕ → ℕ → ℕ → List ℕ → Memory → Option (List Command)
upload_commands memtype from to stale mem = do
  info1 ← in_case memtype e_dev_info1 (device_info_commands e_dev_info1 1 mem)
  info2 ← in_case memtype e_dev_info2 (device_info_commands e_dev_info2 2 mem)
  registers ← in_case memtype e_reg (some (register_commands from to mem))
  coils ← in_case memtype e_coil (some (coil_commands from to mem))
  inputs ← in_case memtype e_disc_inp (some (input_commands from to mem))
  headers ← in_case memtype e_header (header_commands memtype from mem)
  users ← in_case memtype e_user (user_commands from to stale mem)
  user_registers ←
      in_case memtype e_user_reg
        (some (found_commands e_user_reg word_bytes (get_user_register from to max_reg mem)))
  user_coils ←
      in_case memtype e_user_coil
        (some (found_commands e_user_coil (λ bs. bs) (get_user_coil from to max_coils mem)))
  some (
      info1
      ++ (info2
          ++ (registers
              ++ (coils ++ (inputs ++ (headers ++ (users ++ (user_registers ++ user_coils))))))))

-- `if (send)`: the message goes to the send queue, whatever `GetBuffer` returns, and a new one
-- begins.
unfoldable pub hand_over : Mttp → Client → ℤ × Mttp × Client
hand_over mttp client =
    let (sendbufferlen, sendbuffer, mttp') = get_buffer max_send_buffer mttp in
    let (ret, client') = sendmessage sendbuffer sendbufferlen client in
    ((elim ret [ negsuc n ↦ failure | pos n ↦ pos 1 ]), init_buffer e_put mttp', client')

-- `SendMem`: its result, the static object `MTTP` and the client
unfoldable pub send_mem :
    ℕ → ℕ → ℕ → Bool → List ℕ → Memory → Mttp → Client → Option (ℤ × Mttp × Client)
send_mem memtype from to send stale mem mttp client = do
  commands ← upload_commands memtype from to stale mem
  let mttp' = add_commands commands mttp
  if send then some (hand_over mttp' client) else some (pos 1, mttp', client)
