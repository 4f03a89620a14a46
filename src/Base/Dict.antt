-- ===== src/Base/Dict.antt =====
-- Python's `dict` with text keys: the entries in the order of insertion. An assignment to a key
-- that is present keeps its place.
pub mod Entries
use Prim.Native.String.{String}
use mathlib.Core.Path.{◌≡◌, refl}
use mathlib.Core.Bool.{◌&&◌}
use mathlib.Core.Option.{Option, none, some}
use mathlib.Core.List.{List, [], ◌∷◌}
use native.Mathlib.Omega.{arith}
use text.Mathlib.TextEquality.{eq_iff}
use rev_pilot_ai.Base.Tests.{if◌then◌else◌}
use rev_pilot_ai.Base.Text.{str_eq}

abbrev pub Dict {ℓ} : Type ℓ → Type ℓ
Dict V = List (String × V)

module _ {ℓ} {V : Type ℓ} where
  -- `d.get(k)`
  unfoldable pub lookup : String → Dict V → Option V
  lookup k [] = none
  lookup k ((j, v) ∷ d) = if str_eq j k then some v else lookup k d

  -- `d[k] = v`
  unfoldable pub insert : String → V → Dict V → Dict V
  insert k v [] = (k, v) ∷ []
  insert k v ((j, w) ∷ d) = if str_eq j k then (j, v) ∷ d else (j, w) ∷ insert k v d

  -- `d.values()`
  unfoldable pub values : Dict V → List V
  values [] = []
  values ((k, v) ∷ d) = v ∷ values d

  pub lookup-insert :
      (k j : String) (v : V) (d : Dict V)
      → lookup j (insert k v d) ≡ (if str_eq k j then some v else lookup j d)
  unfolding lookup insert
  lookup-insert k j v [] = refl
  lookup-insert k j v ((i, w) ∷ d) =
      ground (arith, eq_iff k j, eq_iff i k, eq_iff i j, lookup-insert k j v d)

  pub lookup-insert-same : (k : String) (v : V) (d : Dict V) → lookup k (insert k v d) ≡ some v
  lookup-insert-same k v d = ground (arith, lookup-insert k k v d, eq_iff k k)

  pub insert-insert : (k : String) (v w : V) (d : Dict V) → insert k v (insert k w d) ≡ insert k v d
  unfolding insert
  insert-insert k v w [] = ground (arith, eq_iff k k)
  insert-insert k v w ((j, x) ∷ d) = ground (arith, eq_iff j k, eq_iff k k, insert-insert k v w d)

-- A dict of dicts, by tenant and then by identifier: what the in-memory repositories keep.
abbrev pub Nested {ℓ} : Type ℓ → Type ℓ
Nested V = Dict (Dict V)

module _ {ℓ} {V : Type ℓ} where
  -- `s.get(t, {})`
  unfoldable pub inner : String → Nested V → Dict V
  inner t s = elim (lookup t s) [ none ↦ [] | some d ↦ d ]

  -- `s.get(t, {}).get(a)`
  unfoldable pub find : String → String → Nested V → Option V
  unfolding inner
  find t a s = lookup a (inner t s)

  -- `if t not in s: s[t] = {}`, then `s[t][a] = v`
  unfoldable pub store : String → String → V → Nested V → Nested V
  unfolding inner
  store t a v s = insert t (insert a v (inner t s)) s

  pub inner-store :
      (t : String) (a : String) (v : V) (u : String) (s : Nested V)
      → inner u (store t a v s) ≡ (if str_eq t u then insert a v (inner t s) else inner u s)
  unfolding inner store
  inner-store t a v u s = ground (arith, lookup-insert t u (insert a v (inner t s)) s)

  pub find-store :
      (t a : String) (v : V) (u b : String) (s : Nested V)
      → find u b (store t a v s) ≡ (if str_eq t u && str_eq a b then some v else find u b s)
  unfolding find
  find-store t a v u b s =
      ground (arith, inner-store t a v u s, eq_iff t u, lookup-insert a b v (inner t s))
