-- ===== src/Translator/Elf.antt =====
-- BinaryTranslator-main/src/write_in_elf.cpp: the code of printf and scanf is appended to the x86 code,
-- and the headers of the executable are written before it.
pub mod Appended
use best_practices.Base.{ℕ, ◌+◌, ◌==◌, leb, if◌then◌else◌, ◌&&◌, Option, none, some, List, [], ◌∷◌}
use best_practices.Base.Lists.{length}
use best_practices.Translator.Buffer.{Buffer, capacity}

-- The bytes after `memcpy`
unfoldable pub copied : List ℕ → ℕ → (ℕ → ℕ) → ℕ → ℕ
copied [] at_len content j = content j
copied (x ∷ xs) at_len content j = if j == at_len then x else copied xs (at_len + 1) content j

-- `AppendBinFunc`, of the bytes of the file. What does not fit `bin_buffer` or the code's buffer is
-- written past its end.
unfoldable pub append_bin_func : List ℕ → Buffer → Option Buffer
unfolding copied
append_bin_func bytes b =
    if leb (length bytes) 1000 && leb (b.len + length bytes) capacity
    then some (record { content = copied bytes b.len b.content; len = b.len + length bytes })
    else none

-- The fields of the ELF header that `writeELFHeader` sets to addresses in the file and in memory
pub record ElfHeader : Type 0 where
  pub e_entry : ℕ
  pub e_phoff : ℕ
  pub e_ehsize : ℕ
  pub e_phnum : ℕ

-- The sizes of `Elf64_Ehdr` and `Elf64_Phdr`, and `BASE_ADDRESS`
abbrev pub ehdr_size : ℕ
ehdr_size = 64

abbrev pub phdr_size : ℕ
phdr_size = 56

abbrev pub base_address : ℕ
base_address = 0x400000

-- `writeELFHeader`
unfoldable pub write_elf_header : ElfHeader
write_elf_header = record {
  e_entry = base_address + phdr_size + ehdr_size;
  e_phoff = ehdr_size;
  e_ehsize = ehdr_size;
  e_phnum = 1;
}

-- The segment that `writeTextSection` describes
pub record TextSection : Type 0 where
  pub p_offset : ℕ
  pub p_vaddr : ℕ
  pub p_filesz : ℕ
  pub p_memsz : ℕ

-- `writeTextSection`: `MEMORY_SIZE` is 4096.
unfoldable pub write_text_section : Buffer → TextSection
write_text_section b = record {
  p_offset = 0;
  p_vaddr = base_address;
  p_filesz = 4096 + b.len;
  p_memsz = 4096 + b.len;
}

-- What `WriteInelf` writes: the two headers, and then the whole buffer.
pub record Executable : Type 0 where
  pub header : ElfHeader
  pub text_section : TextSection
  pub code : Buffer

-- `WriteInelf`, of the bytes of the two files
unfoldable pub write_in_elf : List ℕ → List ℕ → Buffer → Option Executable
unfolding append_bin_func write_elf_header write_text_section
write_in_elf printf_bin scanf_bin b = elim (append_bin_func printf_bin b) [
  | none ↦ none
  | some b1 ↦ elim (append_bin_func scanf_bin b1) [
    | none ↦ none
    | some b2 ↦
        some (record { header = write_elf_header; text_section = write_text_section b; code = b2 })
  ]
]
