-- ===== src/Leech/Images/RoundTrip.antt =====
-- leechVM-master/src/leechfile/leechfile.cc: whole files, written and read back.
use mathlib.Core.List.{append_assoc, append-nil}
use best_practices.Base.{
  ℕ, suc, ◌^◌, ◌<◌, ◌≡◌, refl, ap, ◌∙◌, false, List, [], ◌∷◌, ◌++◌, none, arith,
}
use best_practices.Base.Lists.{length, All}
use best_practices.Leech.Values.{Name, value}
use best_practices.Leech.Objects.{lookup, has_name}
use best_practices.Leech.Machine.{FuncMeta, LeechFile}
use best_practices.Leech.Streams.{Bytes, ◌>>=◌, serialize_num, deserialize_many, serialize_many}
use best_practices.Leech.Streams.RoundTrip.{
  deserialize_num-serialize_num, deserialize_many-serialize_many,
}
use best_practices.Leech.File.{serialize_func}
use best_practices.Leech.File.RoundTrip.{IsStorableFunc, deserialize_func-serialize_func}
use best_practices.Leech.Images.{
  read_entries, deserialize_meta, serialize_meta, serialize_inst, deserialize_inst, the_leech,
  serialize_file, deserialize_contents, deserialize_file,
}
use best_practices.Leech.Images.Instructions.{IsStorableInst, deserialize_inst-serialize_inst}
use best_practices.Leech.Images.Copies.{
  forget_arg_num, forget_arg_nums, HaveStorable, copy_funcs-forget_arg_nums, lookup-append_none,
  assign_entry-none,
}

-- Functions that a file can hold, no two of one name; `seen` are the names before them.
abbrev pub AreStorableFuncs : ℕ → List Name → List (Name × FuncMeta) → Type 0
AreStorableFuncs d seen [] = Unit
AreStorableFuncs d seen ((name, fm) ∷ rest) =
    IsStorableFunc d name fm × (has_name name seen ≡ false) × AreStorableFuncs d (name ∷ seen) rest

HaveStorable_lem :
    (d : ℕ) (seen : List Name) (funcs : List (Name × FuncMeta))
    → AreStorableFuncs d seen funcs
    → HaveStorable d funcs
HaveStorable_lem d seen [] h = tt
HaveStorable_lem d seen ((name, fm) ∷ rest) h =
    (h.0.constants_fit, HaveStorable_lem d (name ∷ seen) rest h.2)

-- A name that has not been seen is not in the map.
abbrev AreFrom : List (Name × FuncMeta) → List Name → Type 0
AreFrom funcs seen = (name : Name) → has_name name seen ≡ false → lookup name funcs ≡ none

AreFrom-append :
    (funcs : List (Name × FuncMeta)) (seen : List Name) (key : Name) (fm : FuncMeta)
    → AreFrom funcs seen
    → AreFrom (funcs ++ (key, fm) ∷ []) (key ∷ seen)
unfolding has_name
AreFrom-append funcs seen key fm h name new =
    lookup-append_none name key fm funcs (h name (ground arith)) (ground arith)

-- The loop puts the functions behind those that it has, in their order.
read_entries-serialize_many :
    (d : ℕ) (seen : List Name) (funcs : List (Name × FuncMeta))
    → AreStorableFuncs d seen funcs
    → (bs : Bytes) × (serialize_many serialize_func funcs ≡ value bs)
      × ((old : List (Name × FuncMeta)) (rest : Bytes)
          → AreFrom old seen
          → read_entries (suc d) (length funcs) old (bs ++ rest)
            ≡ value (old ++ forget_arg_nums funcs, rest))
unfolding serialize_many read_entries
read_entries-serialize_many d seen [] h = ([], refl, λ old rest new. rw (append-nil old) refl)
read_entries-serialize_many d seen ((name, fm) ∷ funcs) h =
    let (bs, w, r) = deserialize_func-serialize_func d name fm h.0 in
    let (cs, ws, rs) = read_entries-serialize_many d (name ∷ seen) funcs h.2 in
    (
      bs ++ cs,
      rw (serialize_many, w, ws) refl,
      λ old rest new.
          let added = old ++ (name, forget_arg_num fm) ∷ [] in
          let later = rs added rest (AreFrom-append old seen name (forget_arg_num fm) new) in
          rw
            (
              append_assoc,
              read_entries,
              r (cs ++ rest),
              assign_entry-none d name fm old h.0.constants_fit (new name h.1),
              later,
              append_assoc,
            )
            refl,
    )

deserialize_meta-append :
    (d : ℕ) (funcs : List (Name × FuncMeta)) (bs rest : Bytes)
    → length funcs < 2 ^ 64
    → HaveStorable d funcs
    → read_entries (suc d) (length funcs) [] (bs ++ rest) ≡ value (forget_arg_nums funcs, rest)
    → deserialize_meta (suc d) (serialize_num 8 (length funcs) ++ (bs ++ rest))
      ≡ value (forget_arg_nums funcs, rest)
unfolding deserialize_meta
deserialize_meta-append d funcs bs rest h constants read =
    rw
      (
        ◌>>=◌,
        deserialize_num-serialize_num 8 (length funcs) (bs ++ rest) h,
        read,
        copy_funcs-forget_arg_nums d funcs constants,
      )
      refl

serialize_meta_lem :
    (d : ℕ) (funcs : List (Name × FuncMeta))
    → length funcs < 2 ^ 64
    → AreStorableFuncs d [] funcs
    → (bs : Bytes) × (serialize_meta funcs ≡ value bs)
      × ((rest : Bytes)
          → deserialize_meta (suc d) (bs ++ rest) ≡ value (forget_arg_nums funcs, rest))
unfolding serialize_meta lookup
serialize_meta_lem d funcs few h =
    let (bs, w, r) = read_entries-serialize_many d [] funcs h in
    (
      serialize_num 8 (length funcs) ++ bs,
      rw (serialize_meta, w) refl,
      λ rest.
          ap (deserialize_meta (suc d)) (append_assoc (serialize_num 8 (length funcs)) bs rest)
          ∙ deserialize_meta-append d funcs bs rest few (HaveStorable_lem d [] funcs h)
              (r [] rest (λ name new. refl)),
    )

-- A file whose functions and instructions can be written.
pub record IsStorableFile (d : ℕ) (f : LeechFile) : Type 0 where
  pub func_num_fits : length f.funcs < 2 ^ 64
  pub inst_num_fits : length f.code < 2 ^ 64
  pub funcs_fit : AreStorableFuncs d [] f.funcs
  pub code_fits : All IsStorableInst f.code

-- What is left of a file that is written and read back.
abbrev pub reread : LeechFile → LeechFile
reread f = record f { funcs = forget_arg_nums f.funcs }

deserialize_file-the_leech :
    (fuel : ℕ) (rest : Bytes)
    → deserialize_file fuel (the_leech ++ rest) ≡ deserialize_contents fuel rest
unfolding deserialize_file
deserialize_file-the_leech fuel rest = refl

deserialize_contents-append :
    (d : ℕ) (f : LeechFile) (meta code rest : Bytes)
    → IsStorableFile d f
    → ((rest : Bytes)
        → deserialize_meta (suc d) (meta ++ rest) ≡ value (forget_arg_nums f.funcs, rest))
    → ((rest : Bytes)
        → deserialize_many deserialize_inst (length f.code) (code ++ rest) ≡ value (f.code, rest))
    → deserialize_contents (suc d) (meta ++ (serialize_num 8 (length f.code) ++ (code ++ rest)))
      ≡ value (reread f, rest)
unfolding deserialize_contents
deserialize_contents-append d f meta code rest h rm rc =
    let later = serialize_num 8 (length f.code) ++ (code ++ rest) in
    rw
      (
        ◌>>=◌,
        rm later,
        deserialize_num-serialize_num 8 (length f.code) (code ++ rest) h.inst_num_fits,
        rc rest,
        copy_funcs-forget_arg_nums d f.funcs (HaveStorable_lem d [] f.funcs h.funcs_fit),
      )
      refl

file_assoc :
    (meta size code rest : Bytes)
    → (the_leech ++ meta ++ size ++ code) ++ rest ≡ the_leech ++ (meta ++ (size ++ (code ++ rest)))
file_assoc meta size code rest = simp append_assoc

-- A file whose functions have different names, whose constants are integers, floats, strings and
-- tuples of such, nested at most `d` deep, and whose sizes and arguments fit their fields is written
-- without an error; from the bytes, whatever follows them, it is read back with the same functions and
-- the same code, but with 0 as the number of arguments of every function.
pub deserialize_file-serialize_file :
    (d : ℕ) (f : LeechFile)
    → IsStorableFile d f
    → (bs : Bytes) × (serialize_file f ≡ value bs)
      × ((rest : Bytes) → deserialize_file (suc d) (bs ++ rest) ≡ value (reread f, rest))
unfolding serialize_file
deserialize_file-serialize_file d f h =
    let (meta, wm, rm) = serialize_meta_lem d f.funcs h.func_num_fits h.funcs_fit in
    let (code, wc, rc) =
      deserialize_many-serialize_many {P = IsStorableInst} serialize_inst deserialize_inst
        deserialize_inst-serialize_inst f.code h.code_fits in
    (
      the_leech ++ meta ++ serialize_num 8 (length f.code) ++ code,
      rw (serialize_file, wm, wc) refl,
      λ rest.
          ap (deserialize_file (suc d))
            (file_assoc meta (serialize_num 8 (length f.code)) code rest)
          ∙ deserialize_file-the_leech (suc d) _
          ∙ deserialize_contents-append d f meta code rest h rm rc,
    )
