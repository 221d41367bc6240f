-- ===== src/Base/Members.antt =====
-- Tests on lists that hold the same elements.
use mathlib.Core.Path.{◌≡◌, refl, sym, ◌∙◌}
use mathlib.Core.Bool.{Bool, true, ◌&&◌}
use mathlib.Core.List.{List, [], ◌∷◌}
use mathlib.Core.Logic.{inl, inr}
use native.Mathlib.Omega.{arith}
use bundle_controller.Base.Equality.{Eq, ◌==◌, ==_iff, ==_refl, Bool-cases}
use bundle_controller.Base.Lists.{any, contains}

module _ {A : Type 0} ⦃e : Eq A⦄ where
  -- An element that passes is enough.
  pub any-contained :
      (P : A → Bool) (x : A) (l : List A) → contains l x ≡ true → P x ≡ true → any P l ≡ true
  any-contained P x [] there passes = absurd (ground arith)
  any-contained P x (y ∷ l) there passes = elim (Bool-cases (y == x)) [
    | inl same ↦ rw ((==_iff y x).0 same, passes) refl
    | inr other ↦ ground (arith, any-contained P x l (rw other at there) passes)
  ]

  -- An element that passes, where there is one.
  pub passing :
      (P : A → Bool) (l : List A) → any P l ≡ true → (x : A) × (contains l x ≡ true) × (P x ≡ true)
  passing P [] some_pass = absurd (ground arith)
  passing P (y ∷ l) some_pass = elim (Bool-cases (P y)) [
    | inl passes ↦ (y, rw (==_refl y) refl, passes)
    | inr fails ↦
        let (x, there, passes) = passing P l (rw fails at some_pass) in
        (x, ground (arith, there), passes)
  ]

  -- A test on the elements of another list that pass one more test.
  pub any-members :
      (P Q : A → Bool) (l l' : List A)
      → ((x : A) → contains l x ≡ (contains l' x && Q x))
      → any P l ≡ any (λ x. P x && Q x) l'
  any-members P Q l l' members = elim (Bool-cases (any P l)) [
    | inl some_pass ↦
        let (x, there, passes) = passing P l some_pass in
        some_pass
        ∙ sym (
            any-contained (λ y. P y && Q y) x l' (ground (arith, members x))
              (ground (arith, members x)))
    | inr none_pass ↦ elim (Bool-cases (any (λ x. P x && Q x) l')) [
      | inr neither ↦ none_pass ∙ sym neither
      | inl other ↦
          let (x, there, passes) = passing (λ y. P y && Q y) l' other in
          absurd (ground (arith, any-contained P x l (ground (arith, members x)) (ground arith)))
    ]
  ]
