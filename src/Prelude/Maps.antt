-- ===== src/Prelude/Maps.antt =====
-- A `Map` with text keys, as an association list in insertion order.
use Prim.Native.String.{String}
use mathlib.Core.Path.{◌≡◌, refl}
use mathlib.Core.Option.{Option, none, some}
use mathlib.Core.List.{List, [], ◌∷◌}
use native.Mathlib.Omega.{arith}
use text.Mathlib.TextEquality.{eq_iff}
use text.Mathlib.TextPositions.{eq_refl}
use reinforcement_learning_c.Prelude.Tests.{◌==◌, string_eq, if◌then◌else◌}

module _ {ℓ} {V : Type ℓ} where
  -- `map.set(name, value)`: an old entry keeps its place.
  unfoldable pub insert : (name : String) → V → (entries : List (String × V)) → List (String × V)
  insert name value [] = (name, value) ∷ []
  insert name value ((old, kept) ∷ rest) =
      if old == name then (old, value) ∷ rest else (old, kept) ∷ insert name value rest

  -- `map.get(name)`.
  unfoldable pub lookup : (name : String) → (entries : List (String × V)) → Option V
  lookup name [] = none
  lookup name ((old, kept) ∷ rest) = if old == name then some kept else lookup name rest

  -- `map.delete(name)`.
  unfoldable pub remove : (name : String) → (entries : List (String × V)) → List (String × V)
  remove name [] = []
  remove name ((old, kept) ∷ rest) =
      let others = remove name rest in if old == name then others else (old, kept) ∷ others

  pub lookup-insert :
      (name other : String) (value : V) (entries : List (String × V))
      → lookup other (insert name value entries)
        ≡ (if name == other then some value else lookup other entries)
  unfolding lookup insert
  lookup-insert name other value [] = refl
  lookup-insert name other value ((old, kept) ∷ rest) =
      let later = lookup-insert name other value rest in
      ground (arith, later, eq_iff old other, eq_iff name other, eq_iff old name)

  -- A new key leaves the other entries.
  pub lookup-insert_new :
      (k j : String) (v w : V) (m : List (String × V))
      → lookup k m ≡ none
      → lookup j m ≡ some w
      → lookup j (insert k v m) ≡ some w
  lookup-insert_new k j v w m new h = rw (lookup-insert k j v m) (ground (arith, eq_iff k j))

  pub lookup-insert_self :
      (name : String) (value : V) (entries : List (String × V))
      → lookup name (insert name value entries) ≡ some value
  lookup-insert_self name value entries =
      rw (lookup-insert name name value entries) (ground (arith, eq_refl name))
