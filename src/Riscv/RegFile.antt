-- ===== src/Riscv/RegFile.antt =====
-- riscv-pipelined-cpu-sim/modules/regfile.h: the 32 registers, one write port and two read ports.
pub mod Ports
use best_practices.Base.{ℕ, Bool, ◌&&◌, not, ltb, ◌==◌, if◌then◌else◌, Outcome, done, raise, ◌>>=◌}
use best_practices.Riscv.Exceptions.{Exception, out_of_range}

-- `RegFile`. The array `regs` is a function, read below `number_of_regs` only.
pub record RegFile : Type 0 where
  pub address1 : ℕ
  pub address2 : ℕ
  pub address3 : ℕ
  pub write_enable3 : Bool
  pub write_data3 : ℕ
  pub regs : ℕ → ℕ
  pub read_data1 : ℕ
  pub read_data2 : ℕ

abbrev pub number_of_regs : ℕ
number_of_regs = 32

-- `array[i] = v`
unfoldable pub update : (ℕ → ℕ) → ℕ → ℕ → ℕ → ℕ
update array i v j = if j == i then v else array j

-- `regs.at(i)`, in the statements that follow it
unfoldable pub at_index : ℕ → RegFile → (RegFile → RegFile) → Outcome Exception RegFile
at_index i r k = if ltb i number_of_regs then done (k r) else raise out_of_range r

-- `RegFile::setNewSignals`
unfoldable pub set_new_signals : ℕ → ℕ → ℕ → Bool → ℕ → RegFile → RegFile
set_new_signals addr1 addr2 addr3 we3 wd3 r = record r {
  address1 = addr1;
  address2 = addr2;
  address3 = addr3;
  write_enable3 = we3;
  write_data3 = wd3;
}

-- The write of `RegFile::tick`: register 0 is never written.
unfoldable pub write_port : RegFile → Outcome Exception RegFile
unfolding at_index update
write_port r =
    if r.write_enable3 && not (r.address3 == 0)
    then at_index r.address3 r (λ s. record s { regs = update s.regs s.address3 s.write_data3 })
    else done r

-- `RegFile::tick`: the write comes before both reads.
unfoldable pub reg_file_tick : RegFile → Outcome Exception RegFile
unfolding write_port at_index
reg_file_tick r = do
  r₁ ← write_port r
  r₂ ← at_index r₁.address1 r₁ (λ s. record s { read_data1 = s.regs s.address1 })
  at_index r₂.address2 r₂ (λ s. record s { read_data2 = s.regs s.address2 })
