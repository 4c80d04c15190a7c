-- ===== src/Jit/Dsu/Find.antt =====
-- JIT-AOT-Compilers-master/analysis/DSU.cpp: what `Find` returns.
use best_practices.Base.{
  ℕ, ◌≤◌, ◌<◌, ◌≡◌, refl, sym, subst, ◌≢◌, ◌⊎◌, inl, inr, ltb, Bool-cases, List, [], ◌∷◌, none,
  some, arith,
}
use best_practices.Base.Lists.{length, All}
use best_practices.Jit.Dsu.{done, ◌>>=◌, Config, Dsu, get_label, compress_universum, find}
use best_practices.Jit.Dsu.Compression.{
  Chain, best, compress_universum-Compressed, get_universum-in_range, in_range_of, parent,
}

-- `m` is the label of one of the blocks.
abbrev pub IsLabel : (ℕ → ℕ) → ℕ → List ℕ → Type 0
IsLabel lab m [] = ⊥
IsLabel lab m (x ∷ blocks) = (m ≡ lab x) ⊎ IsLabel lab m blocks

-- No label of the blocks has a lesser semi-dominator.
abbrev pub IsLeast : Config → (ℕ → ℕ) → ℕ → List ℕ → Type 0
IsLeast c lab m blocks = All (λ z. c.sdoms m ≤ c.sdoms (lab z)) blocks

module _ (c : Config) (lab : ℕ → ℕ) where
  IsLeast-trans :
      (m n : ℕ) (blocks : List ℕ)
      → c.sdoms m ≤ c.sdoms n
      → IsLeast c lab n blocks
      → IsLeast c lab m blocks
  IsLeast-trans m n [] le h = tt
  IsLeast-trans m n (x ∷ blocks) le h = (omega (arith, h.0), IsLeast-trans m n blocks le h.1)

  best-IsLeast : (x : ℕ) (up : List ℕ) → IsLeast c lab (best c lab x up) (x ∷ up)
  best-IsLeast x [] = (omega arith, tt)
  best-IsLeast x (a ∷ up) = elim (Bool-cases (ltb (c.sdoms (best c lab a up)) (c.sdoms (lab x)))) [
    | inl e ↦
        let above : best c lab x (a ∷ up) ≡ best c lab a up = rw e refl in
        subst (λ m. IsLeast c lab m (x ∷ a ∷ up)) (sym above) (ground (arith, e), best-IsLeast a up)
    | inr e ↦
        let own : best c lab x (a ∷ up) ≡ lab x = rw e refl in
        subst (λ m. IsLeast c lab m (x ∷ a ∷ up)) (sym own)
          (
            omega arith,
            IsLeast-trans (lab x) (best c lab a up) (a ∷ up) (ground (arith, e))
                (best-IsLeast a up),
          )
  ]

  best-IsLabel : (x : ℕ) (up : List ℕ) → IsLabel lab (best c lab x up) (x ∷ up)
  best-IsLabel x [] = inl refl
  best-IsLabel x (a ∷ up) = elim (Bool-cases (ltb (c.sdoms (best c lab a up)) (c.sdoms (lab x)))) [
    | inl e ↦
        let above : best c lab x (a ∷ up) ≡ best c lab a up = rw e refl in
        subst (λ m. IsLabel lab m (x ∷ a ∷ up)) (sym above) (inr (best-IsLabel a up))
    | inr e ↦ inl (rw e refl)
  ]

  pub root_in_range :
      (d : Dsu) (x : ℕ) (up : List ℕ) (r : ℕ)
      → Chain c lab d x up r
      → (r < c.size) × (d.universum r ≡ none)
  root_in_range d x [] r h = (h.2, h.3)
  root_in_range d x (a ∷ up) r h = root_in_range d a up r h.3

  find_root :
      (fuel : ℕ) (d : Dsu) (r : ℕ)
      → r < c.size
      → d.universum r ≡ none
      → find fuel c r d ≡ done (some r, d)
  unfolding find
  find_root fuel d r h p = rw (◌>>=◌, get_universum-in_range c lab r d h, p) refl

  find_block :
      (fuel : ℕ) (d d' : Dsu) (x a m : ℕ)
      → x < c.size
      → d.universum x ≡ some a
      → compress_universum fuel c x d ≡ done d'
      → d'.labels x ≡ some m
      → find fuel c x d ≡ done (some m, d')
  unfolding find get_label
  find_block fuel d d' x a m h p e q =
      rw (◌>>=◌, get_universum-in_range c lab x d h, p, e) (ground (arith, q))

-- If the pointers go from a block of the sets, in range and with labels in range, through different
-- blocks to a root, and the fuel is more than the blocks between, then `Find` returns a label of the
-- chain without its root, one of the least semi-dominator; the block then points to the root, and the
-- blocks outside of the chain keep their pointers and labels. `Find` of the root is the root.
pub find-IsLeast :
    (c : Config) (lab : ℕ → ℕ) (fuel : ℕ) (d : Dsu) (x : ℕ) (up : List ℕ) (r y : ℕ)
    → length up < fuel
    → Chain c lab d x up r
    → All (λ z. z ≢ y) (x ∷ up)
    → (m : ℕ) × (d' : Dsu) × (find fuel c x d ≡ done (some m, d'))
      × IsLabel lab m (x ∷ up)
      × IsLeast c lab m (x ∷ up)
      × (d'.universum x ≡ some r)
      × (d'.universum y ≡ d.universum y)
      × (d'.labels y ≡ d.labels y)
      × (find fuel c r d ≡ done (some r, d))
find-IsLeast c lab fuel d x up r y few h apart =
    let (d', e, k) = compress_universum-Compressed c lab fuel d x up r few h in
    let (a, p) = parent c lab d x up r h in
    let root = root_in_range c lab d x up r h in
    (
      best c lab x up,
      d',
      find_block c lab fuel d d' x a (best c lab x up) (in_range_of c lab d x up r h) p e
          k.labelled,
      best-IsLabel c lab x up,
      best-IsLeast c lab x up,
      k.rooted,
      k.other_parents y apart,
      k.other_labels y apart,
      find_root c lab fuel d r root.0 root.1,
    )
