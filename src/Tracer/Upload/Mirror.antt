-- ===== src/Tracer/Upload/Mirror.antt =====
-- Tracer/Upload: the registers of the server after a message of the client.
use epsolar_tracer_client.Base.{
  ℕ, zero, suc, ◌+◌, ◌*◌, ◌-◌, ◌≤◌, ◌<◌, ◌^◌, ◌≡◌, refl, ap, ◌∙◌, pos, true, false, List, [], ◌∷◌,
  ◌++◌, inl, inr, Bool-cases, ◌==◌, high_byte, low_byte, replicate, length-append, length, take,
  All, some, arith,
}
use epsolar_tracer_client.Common.{e_reg, e_put}
use epsolar_tracer_client.Mttp.State.{dle, ecd, etx, Mttp, Slot, command_size}
use epsolar_tracer_client.Mttp.Message.{
  Command, escape, escape_all, encode_command, encode_commands, message,
}
use epsolar_tracer_client.Mttp.Decode.Overlay.{Fits}
use epsolar_tracer_client.Memory.State.{Memory, max_reg}
use epsolar_tracer_client.Memory.Cells.Written.{word_bytes, IsWord}
use epsolar_tracer_client.Memory.Invariant.{IsValid}
use epsolar_tracer_client.Memory.Lookup.{get_reg_start_index}
use epsolar_tracer_client.Memory.Read.{get_register, get_register_bytes}
use epsolar_tracer_client.Memory.Read.Counted.{get_register-counted}
use epsolar_tracer_client.Memory.SaveData.Roundtrip.{get_register_bytes-save_data}
use epsolar_tracer_client.Server.{on_received, save_command}
use epsolar_tracer_client.Server.Commands.{IsIdle, save_all, emptied}
use epsolar_tracer_client.Server.Delivery.{on_received-message}
use epsolar_tracer_client.ModbusServer.Answer.{length-word_bytes}
use epsolar_tracer_client.Client.{Client, max_send_queue}
use epsolar_tracer_client.Tracer.Upload.{data_command, register_commands, upload_commands, send_mem}
use epsolar_tracer_client.Tracer.Upload.Sent.{pending, posted, send_mem-pending}

take-length_eq : (n : ℕ) (l : List ℕ) → n ≡ length l → take n l ≡ l
take-length_eq zero [] h = refl
take-length_eq (suc n) [] h = absurd (omega arith)
take-length_eq zero (x ∷ l) h = absurd (omega arith)
take-length_eq (suc n) (x ∷ l) h = ap (λ z. x ∷ z) (take-length_eq n l (omega arith))

-- What `SendMem` sends of the registers that `GetRegister` has read.
upload_commands-registers :
    (from to k : ℕ) (values stale : List ℕ) (mem : Memory)
    → get_register from to max_reg false mem ≡ (pos (suc k), values)
    → upload_commands e_reg from to stale mem
      ≡ some (data_command e_reg from (word_bytes values) ∷ [])
unfolding upload_commands register_commands
upload_commands-registers from to k values stale mem h =
    let (count, fits) = get_register-counted to max_reg false from (suc k) mem values h in
    rw (h, take-length_eq (suc k) values count) refl

length-escape_all : (l : List ℕ) → length (escape_all l) ≤ 2 * length l
length-escape_all [] = omega arith
length-escape_all (b ∷ l) = elim (Bool-cases (b == dle)) [
  | inl e ↦ rw e (omega (arith, length-escape_all l))
  | inr e ↦ rw e (omega (arith, length-escape_all l))
]

length-escape : (b : ℕ) → length (escape b) ≤ 2
length-escape b = elim (Bool-cases (b == dle)) [
  | inl e ↦ rw e (omega arith)
  | inr e ↦ rw e (omega arith)
]

-- escaping at most doubles the bytes
length-message : (c : Command) → length (message e_put (c ∷ [])) ≤ 16 + 2 * length c.payload
length-message c =
    let h =
      length-append (escape (high_byte c.adress))
        (escape (low_byte c.adress) ++ (escape_all c.payload ++ dle ∷ ecd ∷ [])) in
    let l = length-append (escape (low_byte c.adress)) (escape_all c.payload ++ dle ∷ ecd ∷ []) in
    let p = length-append (escape_all c.payload) (dle ∷ ecd ∷ []) in
    let e = length-append (encode_commands (c ∷ [])) (dle ∷ etx ∷ []) in
    let n = length-append (encode_command c) [] in
    omega (
      arith,
      h,
      l,
      p,
      e,
      n,
      length-escape (high_byte c.adress),
      length-escape (low_byte c.adress),
      length-escape_all c.payload,
    )

-- The command of registers, saved by the server.
save_all-registers :
    (from endadress limit i : ℕ) (values old : List ℕ) (mem : Memory)
    → IsValid mem
    → get_reg_start_index from mem.registers ≡ pos i
    → All IsWord values
    → 1 ≤ length values
    → get_register_bytes from endadress limit false mem ≡ some (pos (2 * length values), old)
    → (mem' : Memory) × (save_all (data_command e_reg from (word_bytes values) ∷ []) mem
        ≡ some mem')
      × (get_register_bytes from endadress limit false mem'
          ≡ some (pos (2 * length values), word_bytes values))
unfolding save_all save_command
save_all-registers from endadress limit i values old mem valid at words many h =
    let (mem', (saved, back)) =
      get_register_bytes-save_data from endadress limit i values
        (replicate (command_size - length (word_bytes values)) 0) old mem valid at words h in
    let n = length-word_bytes values in
    let some_bytes : (2 * length values == 0) ≡ false = ground arith in
    (mem', rw (n, some_bytes, rw n at saved) refl, back)

-- What `SendMem(eReg, from, to)` sends of the client's registers, the server has afterwards.
-- Where `GetRegister` of the client reads `values`, 16-bit words, from a start address of 16
-- bits, a message joins the send queue, which is not longer than MAXSENDQUEUE; an idle server
-- with a valid memory that receives this message at once, and whose own `GetRegister` from that
-- address reads as many registers, takes it without an access outside an array, and its
-- `GetRegister` then gives exactly the client's values, high byte first.
pub send_mem-on_received :
    (from to k endadress limit i : ℕ) (values old stale : List ℕ) (mem smem : Memory)
    (slots : List Slot) (client : Client) (server : Mttp)
    → get_register from to max_reg false mem ≡ (pos (suc k), values)
    → All IsWord values
    → from < 2 ^ 16
    → length client.send_queue ≤ max_send_queue
    → IsIdle server
    → IsValid smem
    → get_reg_start_index from smem.registers ≡ pos i
    → get_register_bytes from endadress limit false smem ≡ some (pos (2 * length values), old)
    → (sent : List ℕ) × (send_mem e_reg from to true stale mem (pending [] slots) client
        ≡ some
            (pos 1, pending [] slots, record client { send_queue = posted sent client.send_queue }))
      × (after : Mttp × Memory) × (on_received sent (length sent) server smem ≡ some after)
      × (get_register_bytes from endadress limit false after.1
          ≡ some (pos (2 * length values), word_bytes values))
send_mem-on_received from to k endadress limit i values old stale mem smem slots client server h
      words adress short idle valid at room =
    let (count, most) = get_register-counted to max_reg false from (suc k) mem values h in
    let c : Command = data_command e_reg from (word_bytes values) in
    let n = length-word_bytes values in
    let long : length (message e_put (c ∷ [])) ≤ 8192 =
      omega (arith, length-message c, n, count, most) in
    let (smem', saved, back) =
      save_all-registers from endadress limit i values old smem valid at words
        (omega (arith, count)) room in
    let fits : All Fits (c ∷ []) = ((ground arith, adress, omega (arith, n, count, most)), tt) in
    (
      message e_put (c ∷ []),
      send_mem-pending e_reg from to true stale mem client [] (c ∷ []) slots
          (upload_commands-registers from to k values stale mem h) long short,
      (record server { decoded_commands = emptied (c ∷ []) server.decoded_commands }, smem'),
      on_received-message e_put (c ∷ []) server smem fits (omega arith) idle ∙ rw saved refl,
      back,
    )
