-- ===== src/Jit/Dsu.antt =====
-- JIT-AOT-Compilers-master/analysis/DSU.h and DSU.cpp: the disjoint sets with which dominators are
-- found. A block is its id, and a null pointer is `none`.
pub mod Compression
pub mod Find
pub mod Unite
use best_practices.Base.{
  Bool, true, false, ℕ, zero, suc, ltb, ◌==◌, if◌then◌else◌, Option, none, some,
}

-- What a call gives: `failed` where an ASSERT fails, `running` where the fuel of the model ends.
pub data Result {ℓ} (A : Type ℓ) : Type ℓ where
  done : A → Result A
  failed running : Result A

infixl 5 ◌>>=◌
abbrev pub ◌>>=◌ {ℓ κ} : {A : Type ℓ} {B : Type κ} → Result A → (A → Result B) → Result B
done a >>= f = f a
failed >>= f = failed
running >>= f = running

abbrev pub assert {ℓ} : {A : Type ℓ} → Bool → A → Result A
assert true a = done a
assert false a = failed

-- What a `DSU` refers to and never changes: the number of blocks, and `sdoms`.
pub record Config : Type 0 where
  pub size : ℕ
  pub sdom_count : ℕ
  pub sdoms : ℕ → ℕ

-- `DSU`, with the labels that it shares with its user
pub record Dsu : Type 0 where
  pub universum : ℕ → Option ℕ
  pub labels : ℕ → Option ℕ

-- `DSU::DSU`
unfoldable pub dsu_init : (ℕ → Option ℕ) → Dsu
dsu_init labels = record { universum = λ _. none; labels = labels }

-- `values[id] = v`
abbrev pub assign : ℕ → Option ℕ → (ℕ → Option ℕ) → ℕ → Option ℕ
assign id v values = λ i. if i == id then v else values i

-- `getUniversum`
unfoldable pub get_universum : Config → ℕ → Dsu → Result (Option ℕ)
get_universum c id d = assert (ltb id c.size) (d.universum id)

-- `setUniversum`
unfoldable pub set_universum : Config → ℕ → Option ℕ → Dsu → Result Dsu
set_universum c id block d =
    assert (ltb id c.size) (record d { universum = assign id block d.universum })

-- `getLabel`
unfoldable pub get_label : Config → ℕ → Dsu → Result (Option ℕ)
get_label c block d = assert (ltb block c.size) (d.labels block)

-- `setLabel`
unfoldable pub set_label : Config → ℕ → Option ℕ → Dsu → Result Dsu
set_label c block none d = failed
set_label c block (some label) d =
    assert (ltb block c.size) (record d { labels = assign block (some label) d.labels })

-- `getSemiDominator`
unfoldable pub get_semi_dominator : Config → Option ℕ → Result ℕ
get_semi_dominator c none = failed
get_semi_dominator c (some block) = assert (ltb block c.sdom_count) (c.sdoms block)

-- `Unite`
unfoldable pub unite : Config → ℕ → Option ℕ → Dsu → Result Dsu
unfolding set_universum
unite c target parent d = set_universum c target parent d

-- The update of the label in `compressUniversum`.
unfoldable pub update_label : Config → ℕ → Option ℕ → ℕ → ℕ → Dsu → Result Dsu
unfolding set_label
update_label c block for_anc anc_sdom block_sdom d =
    if ltb anc_sdom block_sdom then set_label c block for_anc d else done d

-- `compressUniversum`, after the call of itself
unfoldable pub link : Config → ℕ → ℕ → Dsu → Result Dsu
unfolding get_label get_semi_dominator update_label get_universum set_universum
link c block anc d = do
  for_block ← get_label c block d
  for_anc ← get_label c anc d
  anc_sdom ← get_semi_dominator c for_anc
  block_sdom ← get_semi_dominator c for_block
  d' ← update_label c block for_anc anc_sdom block_sdom d
  root ← get_universum c anc d'
  set_universum c block root d'

-- `compressUniversum`, for a chain of at most `fuel` blocks
unfoldable pub compress_universum : ℕ → Config → ℕ → Dsu → Result Dsu
unfolding get_universum link
compress_universum zero c block d = running
compress_universum (suc fuel) c block d = get_universum c block d >>= λ parent. elim parent [
  | none ↦ failed
  | some anc ↦ get_universum c anc d >>= λ above. elim above [
    | none ↦ done d
    | some _ ↦ compress_universum fuel c anc d >>= link c block anc
  ]
]

-- `Find`
unfoldable pub find : ℕ → Config → ℕ → Dsu → Result (Option ℕ × Dsu)
unfolding get_universum compress_universum get_label
find fuel c block d = get_universum c block d >>= λ parent. elim parent [
  | none ↦ done (some block, d)
  | some _ ↦ do
    d' ← compress_universum fuel c block d
    label ← get_label c block d'
    done (label, d')
]
