-- ===== src/Prelude/Maps.antt =====
-- The library's maps with string keys (std::map, std::unordered_map), as association lists in the
-- order of iteration.
use Prim.Native.String.{String}
use mathlib.Core.Path.{◌≡◌, refl, ◌∙◌, subst}
use mathlib.Core.Bool.{false}
use mathlib.Core.Logic.{inl, inr}
use mathlib.Core.Option.{Option, none, some}
use mathlib.Core.List.{List, [], ◌∷◌}
use native.Mathlib.Omega.{arith}
use text.Mathlib.Text.{◌==◌ as str_eq}
use text.Mathlib.TextEquality.{eq_iff}
use text.Mathlib.TextPositions.{eq_refl}
use rtc_egress.Prelude.Tests.{if◌then◌else◌, Bool-cases}
use rtc_egress.Prelude.Lists.{All, is_empty}

-- An entry is a key and its value.
abbrev pub Dict {ℓ} : Type ℓ → Type ℓ
Dict V = List (String × V)

module _ {ℓ} {V : Type ℓ} where
  -- m[k] = v: the entry is written in place, or is new.
  unfoldable pub insert : String → V → Dict V → Dict V
  insert k v [] = (k, v) ∷ []
  insert k v ((here, w) ∷ rest) =
      if str_eq here k then (k, v) ∷ rest else (here, w) ∷ insert k v rest

  -- m.erase(k)
  unfoldable pub erase : String → Dict V → Dict V
  erase k [] = []
  erase k ((j, w) ∷ m) = if str_eq j k then erase k m else (j, w) ∷ erase k m

  -- m.find(k)
  unfoldable pub lookup : String → Dict V → Option V
  lookup k [] = none
  lookup k ((here, w) ∷ rest) = if str_eq here k then some w else lookup k rest

  pub lookup-insert :
      (k other : String) (v : V) (m : Dict V)
      → lookup other (insert k v m) ≡ (if str_eq k other then some v else lookup other m)
  unfolding lookup insert
  lookup-insert k other v [] = refl
  lookup-insert k other v ((i, w) ∷ rest) =
      ground (arith, eq_iff k other, eq_iff i k, eq_iff i other, lookup-insert k other v rest)

  pub lookup-erase :
      (k j : String) (m : Dict V) → lookup j (erase k m) ≡ (if str_eq k j then none else lookup j m)
  unfolding lookup erase
  lookup-erase k j [] = ground arith
  lookup-erase k j ((i, w) ∷ m) =
      ground (arith, eq_iff k j, eq_iff i k, eq_iff i j, lookup-erase k j m)

  -- A second write to a key replaces the first, and an erased key's last write does not matter.
  pub insert-insert : (k : String) (v w : V) (m : Dict V) → insert k w (insert k v m) ≡ insert k w m
  unfolding insert
  insert-insert k v w [] = ground (arith, eq_iff k k)
  insert-insert k v w ((i, u) ∷ m) = ground (arith, eq_iff i k, eq_iff k k, insert-insert k v w m)

  pub erase-insert : (k : String) (v : V) (m : Dict V) → erase k (insert k v m) ≡ erase k m
  unfolding insert erase
  erase-insert k v [] = ground (arith, eq_iff k k)
  erase-insert k v ((i, u) ∷ m) = ground (arith, eq_iff i k, eq_iff k k, erase-insert k v m)

  pub erase-erase : (k : String) (m : Dict V) → erase k (erase k m) ≡ erase k m
  unfolding erase
  erase-erase k [] = refl
  erase-erase k ((i, u) ∷ m) = ground (arith, erase-erase k m)

  pub lookup-insert_self : (k : String) (v : V) (m : Dict V) → lookup k (insert k v m) ≡ some v
  lookup-insert_self k v m = lookup-insert k k v m ∙ rw (eq_refl k)

  pub insert-nonempty : (k : String) (v : V) (m : Dict V) → is_empty (insert k v m) ≡ false
  unfolding insert
  insert-nonempty k v [] = refl
  insert-nonempty k v ((i, u) ∷ m) = ground arith

module _ {ℓ κ} {V : Type ℓ} (P : String × V → Type κ) where
  pub All-insert : (k : String) (v : V) (m : Dict V) → P (k, v) → All P m → All P (insert k v m)
  unfolding insert
  All-insert k v [] p h = (p, tt)
  All-insert k v ((j, w) ∷ m) p h = ground (arith, All-insert k v m p h.1)

  pub All-erase : (k : String) (m : Dict V) → All P m → All P (erase k m)
  unfolding erase
  All-erase k [] h = tt
  All-erase k ((j, w) ∷ m) h = ground (arith, All-erase k m h.1)

  pub All-lookup : (k : String) {v : V} (m : Dict V) → All P m → lookup k m ≡ some v → P (k, v)
  unfolding lookup
  All-lookup k [] h e = cc
  All-lookup k {v} ((j, w) ∷ m) h e = elim (Bool-cases (str_eq j k)) [
    | inl t ↦ let same : (j, w) ≡ (k, v) = ground (arith, eq_iff j k) in subst P same h.0
    | inr f ↦ All-lookup k m h.1 (ground arith)
  ]
