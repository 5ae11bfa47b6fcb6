-- ===== src/Http/Request/Headers.antt =====
-- std::unordered_map of strings: find, and insert, which keeps the value of a key that is there.
use flux_a_high_performance.Prelude.{
  ℕ, Bool, true, false, List, [], ◌∷◌, Option, some, none, ◌≡◌, if◌then◌else◌, eq_bytes,
  eq_bytes_iff, arith,
}

abbrev pub Table : Type 0
Table = List (List ℕ × List ℕ)

unfoldable pub find_entry : List ℕ → Table → Option (List ℕ)
find_entry k [] = none
find_entry k ((j, v) ∷ t) = if eq_bytes j k then some v else find_entry k t

unfoldable pub insert : List ℕ → List ℕ → Table → Table
unfolding find_entry
insert k v t = elim (find_entry k t) [ none ↦ (k, v) ∷ t | some w ↦ t ]

unfoldable pub has : List ℕ → Table → Bool
unfolding find_entry
has k t = elim (find_entry k t) [ none ↦ false | some v ↦ true ]

-- The value of a key, or the empty string.
unfoldable pub get : List ℕ → Table → List ℕ
unfolding find_entry
get k t = elim (find_entry k t) [ none ↦ [] | some v ↦ v ]

-- After an insertion every key has its old value; only a new key has the inserted one.
pub find_entry-insert :
    (k j v : List ℕ) (t : Table)
    → find_entry j (insert k v t)
      ≡ elim (find_entry j t) [ some w ↦ some w | none ↦ if eq_bytes k j then some v else none ]
unfolding find_entry insert
find_entry-insert k j v t = ground (arith, eq_bytes_iff k j)
