-- ===== src/Translator/Units/Calls.antt =====
-- Where the calls in the code for OUT and IN lead, which BinaryTranslator-main/src/translation.cpp emits.
use best_practices.Base.{
  ℕ, ◌+◌, ◌-◌, ◌%◌, ◌^◌, ◌≤◌, ◌<◌, ◌≡◌, refl, u32, List, [], ◌∷◌, ◌++◌, arith,
}
use best_practices.Base.Lists.{length}
use best_practices.Translator.Commands.{Command}
use best_practices.Translator.Opcodes
use best_practices.Translator.Parser.Encoding.{little_endian}
use best_practices.Translator.Units
use best_practices.Translator.Units.{
  Write, write_cmd, write_ptr, sub_uint64, printf_len, translate_out, translate_in,
}
use best_practices.Translator.Buffer.Writes.{bytes_of_all, bytes_of}

-- In this code, which stands at address `ip`, is a call that leads to `target`.
abbrev pub CallsTo : ℕ → List Write → ℕ → Type 0
CallsTo ip code target =
    (earlier later : List Write) × (rel : ℕ) × (code
      ≡ earlier ++ (write_cmd Opcodes.call_op 1 ∷ write_ptr rel ∷ later))
    × ((ip + length (bytes_of_all earlier) + 5 + rel) % 2 ^ 32 ≡ target)

-- A difference of 64 bits, cut to 32 bits
distance :
    (k ip m n : ℕ)
    → ip + m + n ≤ k
    → k < 2 ^ 32
    → sub_uint64 (sub_uint64 (sub_uint64 k ip) m) n ≡ k - ip - m - n
distance k ip m n h g = omega arith

-- For a command that lies with the 41 or 18 bytes of its code below the end of all the code, the call
-- in the code of OUT leads to that end, and the call in the code of IN 219 bytes above it.
pub translate_out-CallsTo :
    (k : ℕ) (c : Command) → c.x86_ip + 41 ≤ k → k < 2 ^ 32 → CallsTo c.x86_ip (translate_out k c) k
unfolding translate_out bytes_of_all bytes_of little_endian
translate_out-CallsTo k c h g =
    let rel = u32 (sub_uint64 (sub_uint64 (sub_uint64 k c.x86_ip) 27) 4) in
    let value = distance k c.x86_ip 27 4 (omega arith) g in
    (
      Units.mov_xmm0_stack
          ∷ write_cmd Opcodes.cvtsd2si_rsi_xmm0 5
          ∷ write_cmd Opcodes.push_rsi 1
          ∷ write_cmd Opcodes.pop_reg 1
          ∷ write_cmd Opcodes.push_all 6
          ∷ write_cmd Opcodes.mov_rbp_rsp 3
          ∷ write_cmd Opcodes.and_rsp_ff 4
          ∷ [],
      _,
      rel,
      refl,
      omega (arith, value),
    )

pub translate_in-CallsTo :
    (k : ℕ) (c : Command)
    → c.x86_ip + 18 ≤ k
    → k + 219 < 2 ^ 32
    → CallsTo c.x86_ip (translate_in k c) (k + 219)
unfolding translate_in bytes_of_all bytes_of little_endian
translate_in-CallsTo k c h g =
    let rel = u32 (sub_uint64 (sub_uint64 (sub_uint64 k c.x86_ip) 7) 4 + printf_len) in
    let value = distance k c.x86_ip 7 4 (omega arith) (omega arith) in
    (write_cmd Opcodes.push_all 6 ∷ [], _, rel, refl, omega (arith, value))
