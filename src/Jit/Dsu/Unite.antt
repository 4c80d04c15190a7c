-- ===== src/Jit/Dsu/Unite.antt =====
-- JIT-AOT-Compilers-master/analysis/DSU.h: `Unite`, and `Find` after it.
use best_practices.Base.{ℕ, ◌+◌, ◌<◌, ◌≡◌, sym, ◌≢◌, List, [], ◌∷◌, ◌++◌, none, some, arith}
use best_practices.Base.Lists.{length, All}
use best_practices.Jit.Dsu.{done, Config, Dsu, assign, unite, find}
use best_practices.Jit.Dsu.Compression.{IsBlock, Chain}
use best_practices.Jit.Dsu.Find.{IsLabel, IsLeast, root_in_range, find-IsLeast}

All-append {ℓ κ} :
    {A : Type ℓ} (P : A → Type κ) (xs : List A) (y : A) → All P xs → P y → All P (xs ++ y ∷ [])
All-append P [] y h p = (p, tt)
All-append P (x ∷ xs) y h p = (h.0, All-append P xs y h.1 p)

length-append_one {ℓ} : {A : Type ℓ} (xs : List A) (y : A) → length (xs ++ y ∷ []) ≡ length xs + 1
length-append_one [] y = omega arith
length-append_one (x ∷ xs) y = omega (arith, length-append_one xs y)

module _ (c : Config) (lab : ℕ → ℕ) (d : Dsu) where
  -- A root is on no chain, before its end.
  root-ne :
      (x : ℕ) (up : List ℕ) (r p : ℕ)
      → Chain c lab d x up r
      → d.universum p ≡ none
      → All (λ z. z ≢ p) (x ∷ up)
  root-ne x [] r p h e = (λ q. cc (h.1), tt)
  root-ne x (a ∷ up) r p h e = (λ q. cc (h.1), root-ne a up r p h.3 e)

  module _ (r p : ℕ) (own : IsBlock c lab d r) (p_in : p < c.size) (p_root : d.universum p ≡ none)
      (apart : p ≢ r) where
    abbrev united : Dsu
    united = record d { universum = assign r (some p) d.universum }

    IsBlock-united : (x : ℕ) → IsBlock c lab d x → IsBlock c lab united x
    IsBlock-united x h = record {
      in_range = h.in_range;
      labelled = h.labelled;
      label_in_range = h.label_in_range;
    }

    universum-united :
        (x : ℕ) (a : ℕ) → x ≢ r → d.universum x ≡ some a → united.universum x ≡ some a
    universum-united x a ne h = ground (arith, h)

    Chain-united :
        (x : ℕ) (up : List ℕ) → Chain c lab d x up r → Chain c lab united x (up ++ r ∷ []) p
    Chain-united x [] h =
        let ne = (root-ne x [] r r h h.3).0 in
        (
          IsBlock-united x h.0,
          universum-united x r ne h.1,
          (λ q. ne (sym q), tt),
          (IsBlock-united r own, ground arith, p_in, ground (arith, p_root)),
        )
    Chain-united x (a ∷ up) h =
        let ne = (root-ne x (a ∷ up) r r h (root_in_range c lab d x (a ∷ up) r h).1).0 in
        (
          IsBlock-united x h.0,
          universum-united x a ne h.1,
          All-append (λ z. z ≢ x) (a ∷ up) r h.2 (λ q. ne (sym q)),
          Chain-united a up h.3,
        )

-- If the pointers go from a block through a chain to a root as for `Find`, the root's label is in range
-- too, and `p` is another root, then `Unite` of the root with `p` returns, and `Find` of the block, with
-- fuel for one block more, returns a label of least semi-dominator of the chain and of the old root;
-- the block then points to `p`.
pub find-unite :
    (c : Config) (lab : ℕ → ℕ) (fuel : ℕ) (d : Dsu) (x : ℕ) (up : List ℕ) (r p : ℕ)
    → length up + 1 < fuel
    → Chain c lab d x up r
    → IsBlock c lab d r
    → p < c.size
    → d.universum p ≡ none
    → p ≢ r
    → (m : ℕ) × (d1 : Dsu) × (d2 : Dsu) × (unite c r (some p) d ≡ done d1)
      × (find fuel c x d1 ≡ done (some m, d2))
      × IsLabel lab m (x ∷ up ++ r ∷ [])
      × IsLeast c lab m (x ∷ up ++ r ∷ [])
      × (d2.universum x ≡ some p)
unfolding unite
find-unite c lab fuel d x up r p few h own p_in p_root apart =
    let d1 = united c lab d r p own p_in p_root apart in
    let chain = Chain-united c lab d r p own p_in p_root apart x up h in
    let off =
      All-append (λ z. z ≢ p) (x ∷ up) r (root-ne c lab d x up r p h p_root) (λ q. apart (sym q)) in
    let (m, d2, e, one, least, rooted, _, _, _) =
      find-IsLeast c lab fuel d1 x (up ++ r ∷ []) p p (omega (arith, length-append_one up r)) chain
        off in
    (m, d1, d2, ground arith, e, one, least, rooted)
