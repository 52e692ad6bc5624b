-- ===== src/Base/Dict.antt =====
-- A Go map with string keys: its entries, in the order in which `range` visits them.
use mathlib.Core.Path.{◌≡◌, refl, subst}
use mathlib.Core.Logic.{inl, inr}
use mathlib.Core.Bool.{true}
use mathlib.Core.Option.{Option, none, some}
use mathlib.Core.List.{List, [], ◌∷◌}
use native.Mathlib.Omega.{arith}
use nats_jwt_callout.Base.Tests.{if◌then◌else◌, Bool-cases}
use nats_jwt_callout.Base.Lists.{All}
use nats_jwt_callout.Base.Text.{Str, is_some, ◌==◌, ==_iff, ==_refl}

abbrev pub Dict {ℓ} : Type ℓ → Type ℓ
Dict V = List (Str × V)

module _ {ℓ} {V : Type ℓ} where
  unfoldable pub lookup : Str → Dict V → Option V
  unfolding ◌==◌
  lookup key [] = none
  lookup key (entry ∷ rest) =
      let later = lookup key rest in if entry.0 == key then some entry.1 else later

  -- m[key] = value
  unfoldable pub insert : Str → V → Dict V → Dict V
  unfolding ◌==◌
  insert key value [] = (key, value) ∷ []
  insert key value (entry ∷ rest) =
      let later = insert key value rest in
      if entry.0 == key then (key, value) ∷ rest else entry ∷ later

module _ {ℓ} {V : Type ℓ} where
  pub lookup-insert :
      (key other : Str) (value : V) (d : Dict V)
      → lookup other (insert key value d) ≡ (if key == other then some value else lookup other d)
  unfolding insert lookup
  lookup-insert key other value [] = refl
  lookup-insert key other value ((k, v) ∷ d) =
      let induction = lookup-insert key other value d in
      ground (arith, induction, ==_iff k other, ==_iff key other, ==_iff k key)

pub insert-found {ℓ} :
    {V : Type ℓ} (d : Dict V) (key : Str) (value : V) → lookup key (insert key value d) ≡ some value
insert-found d key value = rw (lookup-insert key key value d, ==_refl key) refl

-- What holds of each key of a map holds of every key that is found in it.
pub keys_induction {ℓ κ} :
    {V : Type ℓ} (P : Str → Type κ) (m : Dict V)
    → All (λ e. P e.0) m
    → (k : Str) → is_some (lookup k m) ≡ true
    → P k
unfolding lookup
keys_induction P [] h k found = absurd (cc)
keys_induction P ((j, v) ∷ m) h k found = elim (Bool-cases (j == k)) [
  | inl here ↦ subst P ((==_iff j k).0 here) h.0
  | inr other ↦ keys_induction P m h.1 k (rw (other, lookup) at found)
]
