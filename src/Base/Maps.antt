-- ===== src/Base/Maps.antt =====
-- Go's maps: lists of keys with their values, of which the first entry of a key counts. A loop over a
-- map goes through such a list, in whatever order it has them.
use Prim.Native.Nat.{ℕ, ◌+◌}
use mathlib.Core.Path.{◌≡◌, refl}
use mathlib.Core.Logic.{◌↔◌, inl, inr}
use mathlib.Core.Bool.{Bool, true}
use mathlib.Core.Option.{Option, none, some}
use mathlib.Core.List.{List, [], ◌∷◌}
use native.Mathlib.Omega.{arith}
use df_ai.Base.Tests.{if◌then◌else◌, ◌==◌, ==_iff, Bool-cases}
use df_ai.Base.Lists.{All}
use df_ai.Base.Strings.{String, same, same_refl, same_sound}

-- The types that a map may have for its keys.
pub record Key {ℓ} (K : Type ℓ) : Type ℓ where
  pub same_key : K → K → Bool
  pub same_key_iff : (a b : K) → (same_key a b ≡ true) ↔ (a ≡ b)

abbrev pub nat_same : ℕ → ℕ → Bool
nat_same a b = a == b

pub same_iff : (s t : String) → (same s t ≡ true) ↔ (s ≡ t)
same_iff s t = (same_sound s t, λ e. rw e (same_refl t))

instance abbrev pub nat_key : Key ℕ
nat_key = record { same_key = nat_same; same_key_iff = ==_iff }

instance abbrev pub string_key : Key String
string_key = record { same_key = same; same_key_iff = same_iff }

-- The same for at most one value.
abbrev pub one_if {ℓ} : {V : Type ℓ} → (V → Bool) → Option V → ℕ
one_if p none = 0
one_if p (some v) = if p v then 1 else 0

module _ {ℓ κ} {K : Type ℓ} {V : Type κ} ⦃key : Key K⦄ where
  -- `m[k]`, with none where Go's second value is false.
  unfoldable pub lookup : K → List (K × V) → Option V
  lookup k [] = none
  lookup k ((j, v) ∷ m) = if key.same_key j k then some v else lookup k m

  -- `m[k] = v`
  unfoldable pub insert : K → V → List (K × V) → List (K × V)
  insert k v [] = (k, v) ∷ []
  insert k v ((j, w) ∷ m) =
      let rest = insert k v m in if key.same_key j k then (k, v) ∷ m else (j, w) ∷ rest

  -- `delete(m, k)`
  unfoldable pub remove : K → List (K × V) → List (K × V)
  remove k [] = []
  remove k ((j, w) ∷ m) = let rest = remove k m in if key.same_key j k then rest else (j, w) ∷ rest

  pub lookup-insert :
      (k j : K) (v : V) (m : List (K × V))
      → lookup j (insert k v m) ≡ (if key.same_key k j then some v else lookup j m)
  unfolding lookup insert
  lookup-insert k j v [] = refl
  lookup-insert k j v ((i, w) ∷ m) = ground (
    arith,
    key.same_key_iff k j,
    key.same_key_iff i k,
    key.same_key_iff i j,
    lookup-insert k j v m,
  )

  pub lookup-remove :
      (k j : K) (m : List (K × V))
      → lookup j (remove k m) ≡ (if key.same_key k j then none else lookup j m)
  unfolding lookup remove
  lookup-remove k j [] = ground arith
  lookup-remove k j ((i, w) ∷ m) =
      ground (
        arith,
        key.same_key_iff k j,
        key.same_key_iff i k,
        key.same_key_iff i j,
        lookup-remove k j m,
      )

  -- No key has two entries.
  abbrev pub IsKeyed : List (K × V) → Type κ
  IsKeyed [] = Unit
  IsKeyed ((k, v) ∷ m) = (lookup k m ≡ none) × IsKeyed m

  pub insert-IsKeyed : (k : K) (v : V) (m : List (K × V)) → IsKeyed m → IsKeyed (insert k v m)
  unfolding lookup insert
  insert-IsKeyed k v [] h = (refl, tt)
  insert-IsKeyed k v ((j, w) ∷ m) h = elim (Bool-cases (key.same_key j k)) [
    | inl e ↦ rw e (rw (← (key.same_key_iff j k).0 e) h.0, h.1)
    | inr e ↦ rw e (
      ground (arith, lookup-insert k j v m, key.same_key_iff k j, key.same_key_iff j k, h.0),
      insert-IsKeyed k v m h.1,
    )
  ]

  pub remove-IsKeyed : (k : K) (m : List (K × V)) → IsKeyed m → IsKeyed (remove k m)
  unfolding remove
  remove-IsKeyed k [] h = tt
  remove-IsKeyed k ((j, w) ∷ m) h = elim (Bool-cases (key.same_key j k)) [
    | inl e ↦ rw e (remove-IsKeyed k m h.1)
    | inr e ↦ rw e (ground (arith, lookup-remove k j m, h.0), remove-IsKeyed k m h.1)
  ]

  -- How many entries have a value that passes a test.
  unfoldable pub tally : (V → Bool) → List (K × V) → ℕ
  tally p [] = 0
  tally p ((k, v) ∷ m) = (if p v then 1 else 0) + tally p m

  pub tally-insert :
      (p : V → Bool) (k : K) (v : V) (m : List (K × V))
      → tally p (insert k v m) + one_if p (lookup k m) ≡ tally p m + one_if p (some v)
  unfolding lookup insert tally
  tally-insert p k v [] = omega arith
  tally-insert p k v ((j, w) ∷ m) = ground (arith, tally-insert p k v m)

  pub tally-remove :
      (p : V → Bool) (k : K) (m : List (K × V))
      → IsKeyed m
      → tally p (remove k m) + one_if p (lookup k m) ≡ tally p m
  unfolding lookup remove tally
  tally-remove p k [] h = refl
  tally-remove p k ((j, w) ∷ m) h = elim (Bool-cases (key.same_key j k)) [
    | inl e ↦
        let free : lookup k m ≡ none = rw (← (key.same_key_iff j k).0 e) h.0 in
        ground (arith, tally-remove p k m h.1, free)
    | inr e ↦ ground (arith, tally-remove p k m h.1)
  ]

  -- What holds of all that `lookup` finds holds of all entries.
  pub IsKeyed-All {μ} :
      (Q : K → V → Type μ) (m : List (K × V))
      → IsKeyed m
      → ((k : K) (v : V) → lookup k m ≡ some v → Q k v)
      → All (λ (entry : K × V). Q entry.0 entry.1) m
  unfolding lookup
  IsKeyed-All Q [] h f = tt
  IsKeyed-All Q ((k, v) ∷ m) h f = (
    f k v (rw ((key.same_key_iff k k).1 refl) refl),
    IsKeyed-All Q m h.1 (λ j w e. f j w (ground (arith, key.same_key_iff k j, h.0))),
  )
