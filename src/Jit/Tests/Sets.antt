-- ===== src/Jit/Tests/Sets.antt =====
-- The theorems about disjoint sets at concrete inputs.
use best_practices.Base.{ℕ, ◌≡◌, refl, ◌==◌, if◌then◌else◌, [], ◌∷◌, none, some, arith}
use best_practices.Jit.Dsu.{done, Config, Dsu, find, unite}
use best_practices.Jit.Dsu.Compression.{Chain}
use best_practices.Jit.Dsu.Find.{IsLabel, IsLeast, find-IsLeast}
use best_practices.Jit.Dsu.Unite.{find-unite}

-- Block 3 points to 2 and 2 to the root 1; 0 is a root by itself.
abbrev four : Config
four = record { size = 4; sdom_count = 4; sdoms = λ i. if i == 2 then 0 else 7 }

abbrev same : ℕ → ℕ
same x = x

abbrev sets : Dsu
sets = record {
  universum = λ i. if i == 3 then some 2 else if i == 2 then some 1 else none;
  labels = λ i. some i;
}

-- `Find` of 3 returns the label 2 and lets 3 point to 1.
finds :
    find 9 four 3 sets
    ≡ done (
      some 2,
      record {
        universum = λ i. if i == 3 then some 1 else sets.universum i;
        labels = λ i. if i == 3 then some 2 else some i;
      },
    )
unfolding find
finds = refl

chain : Chain four same sets 3 (2 ∷ []) 1
chain = (
  record { in_range = omega arith; labelled = refl; label_in_range = omega arith },
  refl,
  omega arith,
  (
    record { in_range = omega arith; labelled = refl; label_in_range = omega arith },
    refl,
    omega arith,
    refl,
  ),
)

find-IsLeast_example :
    (m : ℕ) × (d' : Dsu) × (find 9 four 3 sets ≡ done (some m, d'))
    × IsLabel same m (3 ∷ 2 ∷ [])
    × IsLeast four same m (3 ∷ 2 ∷ [])
    × (d'.universum 3 ≡ some 1)
    × (d'.universum 0 ≡ sets.universum 0)
    × (d'.labels 0 ≡ sets.labels 0)
    × (find 9 four 1 sets ≡ done (some 1, sets))
find-IsLeast_example =
    find-IsLeast four same 9 sets 3 (2 ∷ []) 1 0 (omega arith) chain (omega arith)

find-unite_example :
    (m : ℕ) × (d1 : Dsu) × (d2 : Dsu) × (unite four 1 (some 0) sets ≡ done d1)
    × (find 9 four 3 d1 ≡ done (some m, d2))
    × IsLabel same m (3 ∷ 2 ∷ 1 ∷ [])
    × IsLeast four same m (3 ∷ 2 ∷ 1 ∷ [])
    × (d2.universum 3 ≡ some 0)
find-unite_example =
    find-unite four same 9 sets 3 (2 ∷ []) 1 0 (omega arith) chain
      (record { in_range = omega arith; labelled = refl; label_in_range = omega arith })
      (omega arith) refl (omega arith)
