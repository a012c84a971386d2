-- ===== src/TextMap.antt =====
-- A map with text keys: the `BTreeMap<String, _>` and `HashMap<String, _>` of the services, which
-- look up and insert and never depend on an order. No file of the repository is modelled here.
use text.Mathlib.Text.{◌==◌}
use vocastock.Prelude.{
  String, ◌≡◌, refl, Option, none, some, List, [], ◌∷◌, arith, eq_iff, if◌then◌else◌,
}

module _ {ℓ} {V : Type ℓ} where
  unfoldable pub lookup : String → List (String × V) → Option V
  lookup k [] = none
  lookup k ((key, value) ∷ entries) =
      let later = lookup k entries in if key == k then some value else later

  -- A key has one entry, which a second insertion replaces.
  unfoldable pub insert : String → V → List (String × V) → List (String × V)
  insert k v [] = (k, v) ∷ []
  insert k v ((j, w) ∷ entries) =
      let later = insert k v entries in if j == k then (k, v) ∷ entries else (j, w) ∷ later

  pub lookup-insert :
      (k j : String) (v : V) (entries : List (String × V))
      → lookup j (insert k v entries) ≡ (if k == j then some v else lookup j entries)
  unfolding lookup insert
  lookup-insert k j v [] = refl
  lookup-insert k j v ((i, w) ∷ entries) =
      ground (arith, eq_iff k j, eq_iff i k, eq_iff i j, lookup-insert k j v entries)
