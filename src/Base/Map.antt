-- ===== src/Base/Map.antt =====
-- A Go map with number keys, as an association list; the list order stands for an iteration order.
use Prim.Native.Nat.{ℕ}
use mathlib.Core.Path.{◌≡◌, refl}
use mathlib.Core.Logic.{◌≢◌, inl, inr}
use mathlib.Core.Option.{Option, none, some}
use mathlib.Core.List.{List, [], ◌∷◌}
use native.Mathlib.Omega.{arith}
use money_miner.Base.Tests.{◌==◌, if◌then◌else◌, Bool-cases}
use money_miner.Base.Lists.{All}

module _ {ℓ} {V : Type ℓ} where
  abbrev pub lookup : ℕ → List (ℕ × V) → Option V
  lookup k [] = none
  lookup k ((j, v) ∷ m) = if j == k then some v else lookup k m

  -- `m[k] = v`
  abbrev pub insert : ℕ → V → List (ℕ × V) → List (ℕ × V)
  insert k v [] = (k, v) ∷ []
  insert k v ((j, w) ∷ m) = if j == k then (k, v) ∷ m else (j, w) ∷ insert k v m

  -- `delete(m, k)`
  abbrev pub erase : ℕ → List (ℕ × V) → List (ℕ × V)
  erase k [] = []
  erase k ((j, v) ∷ m) = if j == k then erase k m else (j, v) ∷ erase k m

  -- A change of the entry under a key, if there is one.
  abbrev pub modify : ℕ → (V → V) → List (ℕ × V) → List (ℕ × V)
  modify k f [] = []
  modify k f ((j, v) ∷ m) = if j == k then (j, f v) ∷ m else (j, v) ∷ modify k f m

  pub lookup-insert :
      (k j : ℕ) (v : V) (m : List (ℕ × V))
      → lookup j (insert k v m) ≡ (if k == j then some v else lookup j m)
  lookup-insert k j v [] = refl
  lookup-insert k j v ((i, w) ∷ m) = ground (arith, lookup-insert k j v m)

  pub lookup-erase :
      (k j : ℕ) (m : List (ℕ × V)) → lookup j (erase k m) ≡ (if k == j then none else lookup j m)
  lookup-erase k j [] = ground arith
  lookup-erase k j ((i, w) ∷ m) = ground (arith, lookup-erase k j m)

  pub lookup-modify_ne :
      (k j : ℕ) (f : V → V) (m : List (ℕ × V)) → k ≢ j → lookup j (modify k f m) ≡ lookup j m
  lookup-modify_ne k j f [] h = refl
  lookup-modify_ne k j f ((i, w) ∷ m) h = ground (arith, lookup-modify_ne k j f m h)

  pub lookup-modify_self :
      (k : ℕ) (f : V → V) (m : List (ℕ × V)) (v : V)
      → lookup k m ≡ some v
      → lookup k (modify k f m) ≡ some (f v)
  lookup-modify_self k f [] v e = cc
  lookup-modify_self k f ((i, w) ∷ m) v e = ground (arith, lookup-modify_self k f m v)

  -- What holds of every entry still does when an entry that has it comes in.
  pub insert-All {κ} :
      (P : ℕ × V → Type κ) (k : ℕ) (v : V) (m : List (ℕ × V))
      → P (k, v)
      → All P m
      → All P (insert k v m)
  insert-All P k v [] new a = (new, tt)
  insert-All P k v ((j, w) ∷ m) new (h, a) = elim (Bool-cases (j == k)) [
    | inl same ↦ rw same (new, a)
    | inr other ↦ rw other (h, insert-All P k v m new a)
  ]

  pub erase-All {κ} : (P : ℕ × V → Type κ) (k : ℕ) (m : List (ℕ × V)) → All P m → All P (erase k m)
  erase-All P k [] a = tt
  erase-All P k ((j, w) ∷ m) (h, a) = elim (Bool-cases (j == k)) [
    | inl same ↦ rw same (erase-All P k m a)
    | inr other ↦ rw other (h, erase-All P k m a)
  ]

  pub modify-All {κ} :
      (P : ℕ × V → Type κ) (k : ℕ) (f : V → V) (m : List (ℕ × V))
      → ((j : ℕ) (v : V) → P (j, v) → P (j, f v))
      → All P m
      → All P (modify k f m)
  modify-All P k f [] kept a = tt
  modify-All P k f ((j, w) ∷ m) kept (h, a) = elim (Bool-cases (j == k)) [
    | inl same ↦ rw same (kept j w h, a)
    | inr other ↦ rw other (h, modify-All P k f m kept a)
  ]
