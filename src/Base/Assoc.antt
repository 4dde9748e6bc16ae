-- ===== src/Base/Assoc.antt =====
-- `std::map` with text keys, as an association list without an order.
use mathlib.Core.List.{List, [], ◌∷◌}
use mathlib.Core.Option.{Option, none, some}
use mathlib.Core.Path.{◌≡◌, refl}
use mathlib.Core.Logic.{◌≢◌}
use native.Mathlib.Omega.{arith}
use jubatus.Base.Tests.{if◌then◌else◌}
use jubatus.Base.Text.{Text, text_eq, text_eq_iff, text_eq_refl}

module _ {A : Type 0} where
  abbrev pub lookup : Text → List (Text × A) → Option A
  lookup k [] = none
  lookup k (e ∷ m) = let rest = lookup k m in if text_eq e.0 k then some e.1 else rest

  abbrev pub put : Text → A → List (Text × A) → List (Text × A)
  put k a [] = (k, a) ∷ []
  put k a (e ∷ m) = let rest = put k a m in if text_eq e.0 k then (k, a) ∷ m else e ∷ rest

  abbrev pub erase : Text → List (Text × A) → List (Text × A)
  erase k [] = []
  erase k (e ∷ m) = let rest = erase k m in if text_eq e.0 k then rest else e ∷ rest

  pub lookup-put : (k : Text) (a : A) (m : List (Text × A)) → lookup k (put k a m) ≡ some a
  lookup-put k a [] = ground (arith, text_eq_refl k)
  lookup-put k a (e ∷ m) = ground (arith, text_eq_refl k, lookup-put k a m)

  pub lookup-put_ne :
      (k l : Text) (a : A) (m : List (Text × A)) → l ≢ k → lookup l (put k a m) ≡ lookup l m
  lookup-put_ne k l a [] h = ground (arith, text_eq_iff k l)
  lookup-put_ne k l a (e ∷ m) h =
      ground (arith, text_eq_iff k l, text_eq_iff e.0 k, text_eq_iff e.0 l, lookup-put_ne k l a m h)

  pub lookup-erase : (k : Text) (m : List (Text × A)) → lookup k (erase k m) ≡ none
  lookup-erase k [] = refl
  lookup-erase k (e ∷ m) = ground (arith, lookup-erase k m)

  pub lookup-erase_ne :
      (k l : Text) (m : List (Text × A)) → l ≢ k → lookup l (erase k m) ≡ lookup l m
  lookup-erase_ne k l [] h = refl
  lookup-erase_ne k l (e ∷ m) h =
      ground (arith, text_eq_iff e.0 k, text_eq_iff e.0 l, lookup-erase_ne k l m h)
