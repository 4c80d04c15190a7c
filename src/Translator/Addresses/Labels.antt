-- ===== src/Translator/Addresses/Labels.antt =====
-- The search for the target of a jump in BinaryTranslator-main/src/parser.cpp.
use best_practices.Base.{
  ℕ, ◌+◌, ◌≤◌, ◌<◌, ◌≡◌, ◌≢◌, ◌⊎◌, inl, inr, refl, sym, subst, ◌∙◌, true, false, ◌==◌, List, [],
  ◌∷◌, arith, Bool-cases,
}
use best_practices.Base.Int.{pos}
use best_practices.Base.Lists.{All}
use best_practices.Translator.Commands.{Command}
use best_practices.Translator.Addresses.{Filled, fill_from, fill_cmd_ip, find_jump_ip}
use best_practices.Translator.Addresses.Layout.{fill_from_skipped, fill_from_command}

-- As the parser and the optimizer leave a command: it has no address yet, and some bytes.
abbrev pub IsUnplaced : Command → Type 0
IsUnplaced c = (c.native_ip ≡ 0) × (0 < c.native_size)

-- A search in `all` for the native address of the command finds its x86 address.
abbrev pub IsFound : List Command → Command → Type 0
IsFound all c = (c.is_skip ≡ true) ⊎ (find_jump_ip (pos c.native_ip) all ≡ pos c.x86_ip)

-- The same, and the native address is not below `n`.
abbrev FoundFrom : ℕ → List Command → Command → Type 0
FoundFrom n all c =
    (c.is_skip ≡ true) ⊎ ((n ≤ c.native_ip) × (find_jump_ip (pos c.native_ip) all ≡ pos c.x86_ip))

-- A command at another address in front does not change what is found.
find_jump_ip-other :
    (n : ℕ) (c : Command) (cs : List Command)
    → c.native_ip ≢ n
    → find_jump_ip (pos n) (c ∷ cs) ≡ find_jump_ip (pos n) cs
unfolding find_jump_ip
find_jump_ip-other n c cs h =
    let differs : (c.native_ip == n) ≡ false = ground arith in rw (find_jump_ip, differs) refl

find_jump_ip-here :
    (c : Command) (cs : List Command) → find_jump_ip (pos c.native_ip) (c ∷ cs) ≡ pos c.x86_ip
unfolding find_jump_ip
find_jump_ip-here c cs =
    let same : (c.native_ip == c.native_ip) ≡ true = ground arith in rw (find_jump_ip, same) refl

FoundFrom-other :
    (m n : ℕ) (c : Command) (cs xs : List Command)
    → c.native_ip < m
    → n ≤ m
    → All (FoundFrom m cs) xs
    → All (FoundFrom n (c ∷ cs)) xs
FoundFrom-other m n c cs [] h k found = tt
FoundFrom-other m n c cs (x ∷ xs) h k found = (
  elim found.0 [
    | inl e ↦ inl e
    | inr p ↦
        inr (
          omega (arith, p.0),
          find_jump_ip-other x.native_ip c cs (λ e. omega (arith, e, p.0)) ∙ p.1,
        )
  ],
  FoundFrom-other m n c cs xs h k found.1,
)

fill_from-FoundFrom :
    (n x : ℕ) (cs : List Command)
    → 0 < n
    → All IsUnplaced cs
    → let all = (fill_from n x cs).cmds_array in All (FoundFrom n all) all
unfolding fill_from
fill_from-FoundFrom n x [] h fresh = tt
fill_from-FoundFrom n x (c ∷ cs) h fresh = elim (Bool-cases c.is_skip) [
  | inl e ↦
      let rest = (fill_from n x cs).cmds_array in
      let found = fill_from-FoundFrom n x cs h fresh.1 in
      subst (λ (f : Filled). All (FoundFrom n f.cmds_array) f.cmds_array)
        (sym (fill_from_skipped n x c cs e))
        (inl e, FoundFrom-other n n c rest rest (omega (arith, fresh.0.0)) (omega arith) found)
  | inr e ↦
      let rest = (fill_from (n + c.native_size) (x + c.x86_size) cs).cmds_array in
      let found =
        fill_from-FoundFrom (n + c.native_size) (x + c.x86_size) cs (omega arith) fresh.1 in
      let placed : Command = record c { native_ip = n; x86_ip = x } in
      subst (λ (f : Filled). All (FoundFrom n f.cmds_array) f.cmds_array)
        (sym (fill_from_command n x c cs e))
        (
          inr (omega arith, find_jump_ip-here placed rest),
          FoundFrom-other (n + c.native_size) n placed rest rest (omega (arith, fresh.0.1))
              (omega arith) found,
        )
]

FoundFrom-IsFound :
    (n : ℕ) (all xs : List Command) → All (FoundFrom n all) xs → All (IsFound all) xs
FoundFrom-IsFound n all [] found = tt
FoundFrom-IsFound n all (x ∷ xs) found =
    (elim found.0 [ inl e ↦ inl e | inr p ↦ inr p.1 ], FoundFrom-IsFound n all xs found.1)

-- When no command has an address yet and each has some bytes, then after the addresses are filled, the
-- search for the native address of any command that is not skipped finds the x86 address of just that
-- command, whatever was skipped before it.
pub fill_cmd_ip-IsFound :
    (cs : List Command)
    → All IsUnplaced cs
    → All (IsFound (fill_cmd_ip cs).cmds_array) (fill_cmd_ip cs).cmds_array
unfolding fill_cmd_ip
fill_cmd_ip-IsFound cs fresh =
    let all = (fill_from 8 0 cs).cmds_array in
    FoundFrom-IsFound 8 all all (fill_from-FoundFrom 8 0 cs (omega arith) fresh)
