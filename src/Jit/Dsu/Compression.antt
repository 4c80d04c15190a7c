-- ===== src/Jit/Dsu/Compression.antt =====
-- JIT-AOT-Compilers-master/analysis/DSU.cpp: what `Find` returns, and what compression changes.
use best_practices.Base.{
  ℕ, zero, suc, ◌<◌, ◌≡◌, refl, ◌∙◌, ◌≢◌, inl, inr, ltb, if◌then◌else◌, Bool-cases, List, [], ◌∷◌,
  none, some, arith,
}
use best_practices.Base.Lists.{length, All}
use best_practices.Jit.Dsu.{
  done, ◌>>=◌, Config, Dsu, assign, get_universum, link, compress_universum,
}

module _ (c : Config) (lab : ℕ → ℕ) where
  -- The block is in range, and its label is the block `lab x`, in range too.
  pub record IsBlock (d : Dsu) (x : ℕ) : Type 0 where
    pub in_range : x < c.size
    pub labelled : d.labels x ≡ some (lab x)
    pub label_in_range : lab x < c.sdom_count

  -- From `x` the pointers go through the blocks `up` to the root `r`, and never to a block again.
  abbrev pub Chain : Dsu → ℕ → List ℕ → ℕ → Type 0
  Chain d x [] r = IsBlock d x × (d.universum x ≡ some r) × (r < c.size) × (d.universum r ≡ none)
  Chain d x (a ∷ up) r =
      IsBlock d x × (d.universum x ≡ some a) × All (λ y. y ≢ x) (a ∷ up) × Chain d a up r

  -- The label of least semi-dominator on a chain, the first of equals.
  abbrev pub best : ℕ → List ℕ → ℕ
  best x [] = lab x
  best x (a ∷ up) = let m = best a up in if ltb (c.sdoms m) (c.sdoms (lab x)) then m else lab x

  pub parent :
      (d : Dsu) (x : ℕ) (up : List ℕ) (r : ℕ) → Chain d x up r → (b : ℕ) × (d.universum x ≡ some b)
  parent d x [] r h = (r, h.1)
  parent d x (a ∷ up) r h = (a, h.1)

  best-lt : (d : Dsu) (x : ℕ) (up : List ℕ) (r : ℕ) → Chain d x up r → best x up < c.sdom_count
  best-lt d x [] r h = h.0.label_in_range
  best-lt d x (a ∷ up) r h = elim (Bool-cases (ltb (c.sdoms (best a up)) (c.sdoms (lab x)))) [
    | inl e ↦ rw e (best-lt d a up r h.3)
    | inr e ↦ rw e h.0.label_in_range
  ]

  pub in_range_of : (d : Dsu) (x : ℕ) (up : List ℕ) (r : ℕ) → Chain d x up r → x < c.size
  in_range_of d x [] r h = h.0.in_range
  in_range_of d x (a ∷ up) r h = h.0.in_range

  -- What compression makes of the blocks `x` and `up` and leaves of the others.
  pub record Compressed (d d' : Dsu) (x : ℕ) (up : List ℕ) (r : ℕ) : Type 0 where
    pub rooted : d'.universum x ≡ some r
    pub labelled : d'.labels x ≡ some (best x up)
    pub other_parents : (y : ℕ) → All (λ z. z ≢ y) (x ∷ up) → d'.universum y ≡ d.universum y
    pub other_labels : (y : ℕ) → All (λ z. z ≢ y) (x ∷ up) → d'.labels y ≡ d.labels y

  pub get_universum-in_range :
      (x : ℕ) (d : Dsu) → x < c.size → get_universum c x d ≡ done (d.universum x)
  unfolding get_universum
  get_universum-in_range x d h = ground arith

  -- The state after `link`.
  abbrev linked : ℕ → ℕ → ℕ → ℕ → Dsu → Dsu
  linked x l m r d = record d {
    universum = assign x (some r) d.universum;
    labels = if ltb (c.sdoms m) (c.sdoms l) then assign x (some m) d.labels else d.labels;
  }

  link_lem :
      (x a l m r : ℕ) (d : Dsu)
      → x < c.size
      → a < c.size
      → l < c.sdom_count
      → m < c.sdom_count
      → d.labels x ≡ some l
      → d.labels a ≡ some m
      → d.universum a ≡ some r
      → link c x a d ≡ done (linked x l m r d)
  unfolding link
  link_lem x a l m r d hx ha hl hm px pa pr = ground arith

  root_stays :
      (fuel : ℕ) (d : Dsu) (x r : ℕ) → Chain d x [] r → compress_universum (suc fuel) c x d ≡ done d
  unfolding compress_universum
  root_stays fuel d x r h =
      rw (◌>>=◌, get_universum-in_range x d h.0.in_range, h.1, get_universum-in_range r d h.2, h.3)
        refl

  compress_above :
      (fuel : ℕ) (d d1 d2 : Dsu) (x a b : ℕ)
      → x < c.size
      → a < c.size
      → d.universum x ≡ some a
      → d.universum a ≡ some b
      → compress_universum fuel c a d ≡ done d1
      → link c x a d1 ≡ done d2
      → compress_universum (suc fuel) c x d ≡ done d2
  unfolding compress_universum
  compress_above fuel d d1 d2 x a b hx ha px pa e l =
      rw (◌>>=◌, get_universum-in_range x d hx, px, get_universum-in_range a d ha, pa, e, l) refl

  linked-Compressed :
      (d d1 : Dsu) (x a : ℕ) (up : List ℕ) (r : ℕ)
      → d1.labels x ≡ some (lab x)
      → Compressed d d1 a up r
      → Compressed d (linked x (lab x) (best a up) r d1) x (a ∷ up) r
  linked-Compressed d d1 x a up r px k = record {
    rooted = ground arith;
    labelled = ground (arith, px);
    other_parents = λ y h. ground (arith, h.0, k.other_parents y h.1);
    other_labels = λ y h. ground (arith, h.0, k.other_labels y h.1);
  }

  pub compress_universum-Compressed :
      (fuel : ℕ) (d : Dsu) (x : ℕ) (up : List ℕ) (r : ℕ)
      → length up < fuel
      → Chain d x up r
      → (d' : Dsu) × (compress_universum fuel c x d ≡ done d') × Compressed d d' x up r
  compress_universum-Compressed zero d x up r few h = absurd (omega arith)
  compress_universum-Compressed (suc fuel) d x [] r few h = (
    d,
    root_stays fuel d x r h,
    record {
      rooted = h.1;
      labelled = h.0.labelled;
      other_parents = λ y apart. refl;
      other_labels = λ y apart. refl;
    },
  )
  compress_universum-Compressed (suc fuel) d x (a ∷ up) r few h =
      let (d1, e, k) = compress_universum-Compressed fuel d a up r (omega arith) h.3 in
      let (b, pa) = parent d a up r h.3 in
      let px = k.other_labels x h.2 ∙ h.0.labelled in
      let ha = in_range_of d a up r h.3 in
      let l =
        link_lem x a (lab x) (best a up) r d1 h.0.in_range ha h.0.label_in_range
          (best-lt d a up r h.3) px k.labelled k.rooted in
      (
        linked x (lab x) (best a up) r d1,
        compress_above fuel d d1 _ x a b h.0.in_range ha h.1 pa e l,
        linked-Compressed d d1 x a up r px k,
      )
