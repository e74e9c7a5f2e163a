-- ===== src/Base/Maps.antt =====
-- Go's maps. A map that is only read at keys is a function; one that is counted or iterated is an
-- association list without repeated keys.
use Prim.Native.Nat.{ℕ, ◌+◌}
use mathlib.Core.Path.{◌≡◌, refl}
use mathlib.Core.Logic.{◌↔◌}
use mathlib.Core.Bool.{Bool, true, false}
use mathlib.Core.Option.{Option, none, some}
use mathlib.Core.List.{List, [], ◌∷◌}
use native.Mathlib.Omega.{arith}
use banyan.Base.Tests.{◌==◌, if◌then◌else◌, ==_iff, is_some}
use banyan.Base.Lists.{length}

-- `m[k] = v` on a map that is read at keys.
abbrev pub update {ℓ} : {V : Type ℓ} → (ℕ → V) → ℕ → V → ℕ → V
update m k v j = if k == j then v else m j

pub record Eq {ℓ} (K : Type ℓ) : Type ℓ where
  pub beq : K → K → Bool
  pub beq_iff : (j k : K) → (beq j k ≡ true) ↔ (j ≡ k)

instance abbrev pub nat_eq : Eq ℕ
nat_eq = record { beq = ◌==◌; beq_iff = ==_iff }

module _ {ℓ} {A : Type ℓ} (e : Eq A) where
  unfoldable pub list_beq : List A → List A → Bool
  list_beq [] [] = true
  list_beq (a ∷ r) (b ∷ s) = let rest = list_beq r s in if e.beq a b then rest else false
  list_beq _ _ = false

  pub list_beq_iff : (r s : List A) → (list_beq r s ≡ true) ↔ (r ≡ s)
  unfolding list_beq
  list_beq_iff [] [] = (λ _. refl, λ _. refl)
  list_beq_iff [] (b ∷ s) = (λ h. cc, λ h. cc)
  list_beq_iff (a ∷ r) [] = (λ h. cc, λ h. cc)
  list_beq_iff (a ∷ r) (b ∷ s) = ground (arith, e.beq_iff a b, list_beq_iff r s)

-- Texts as their bytes.
abbrev pub Bytes : Type 0
Bytes = List ℕ

instance abbrev pub bytes_eq : Eq Bytes
bytes_eq = record { beq = list_beq nat_eq; beq_iff = list_beq_iff nat_eq }

module _ {ℓ κ} {K : Type ℓ} {V : Type κ} ⦃e : Eq K⦄ where
  unfoldable pub lookup : K → List (K × V) → Option V
  lookup k [] = none
  lookup k ((j, v) ∷ m) = if e.beq j k then some v else lookup k m

  unfoldable pub insert : K → V → List (K × V) → List (K × V)
  insert k v [] = (k, v) ∷ []
  insert k v ((j, w) ∷ m) = if e.beq j k then (k, v) ∷ m else (j, w) ∷ insert k v m

  pub lookup-insert :
      (k j : K) (v : V) (m : List (K × V))
      → lookup j (insert k v m) ≡ (if e.beq k j then some v else lookup j m)
  unfolding lookup insert
  lookup-insert k j v [] = refl
  lookup-insert k j v ((i, w) ∷ m) =
      ground (arith, e.beq_iff k j, e.beq_iff i k, e.beq_iff i j, lookup-insert k j v m)

  -- The number of entries grows exactly when the key is new.
  pub length-insert :
      (k : K) (v : V) (m : List (K × V))
      → length (insert k v m) ≡ (if is_some (lookup k m) then length m else length m + 1)
  unfolding lookup insert
  length-insert k v [] = omega arith
  length-insert k v ((i, w) ∷ m) = ground (arith, length-insert k v m)
