-- ===== src/Base/Lists.antt =====
-- Lists and dictionaries, with keys compared by Go's `==`.
use Prim.Native.Nat.{ℕ, suc, ◌+◌}
use mathlib.Core.Path.{◌≡◌, refl, ◌∙◌}
use mathlib.Core.Logic.{∥∥₁_elim}
use mathlib.Core.Bool.{Bool, true, false, ◌&&◌, ◌||◌, Bool-set}
use mathlib.Core.Option.{Option, none, some}
use mathlib.Core.List.{List, [], ◌∷◌, ◌++◌, Perm, Permᴰ}
use native.Mathlib.Omega.{arith}
use bundle_controller.Base.Equality.{Eq, ◌==◌, ==_iff, if◌then◌else◌}

module _ {ℓ} {A : Type ℓ} where
  abbrev pub length : List A → ℕ
  length [] = 0
  length (x ∷ xs) = suc (length xs)

  abbrev pub is_empty : List A → Bool
  is_empty [] = true
  is_empty (x ∷ xs) = false

  -- Some element passes the test.
  abbrev pub any : (A → Bool) → List A → Bool
  any p [] = false
  any p (x ∷ xs) = p x || any p xs

  -- Every element passes the test.
  abbrev pub all : (A → Bool) → List A → Bool
  all p [] = true
  all p (x ∷ xs) = p x && all p xs

  -- A predicate at each element.
  abbrev pub All {κ} : (A → Type κ) → List A → Type κ
  All P [] = Unit
  All P (x ∷ xs) = P x × All P xs

  pub length-append : (xs ys : List A) → length (xs ++ ys) ≡ length xs + length ys
  length-append [] ys = omega arith
  length-append (x ∷ xs) ys = omega (arith, length-append xs ys)

  pub any-append : (p : A → Bool) (xs ys : List A) → any p (xs ++ ys) ≡ (any p xs || any p ys)
  any-append p [] ys = refl
  any-append p (x ∷ xs) ys = ground (arith, any-append p xs ys)

  pub all-append : (p : A → Bool) (xs ys : List A) → all p (xs ++ ys) ≡ (all p xs && all p ys)
  all-append p [] ys = refl
  all-append p (x ∷ xs) ys = ground (arith, all-append p xs ys)

  any-permᴰ : (p : A → Bool) {xs ys : List A} → Permᴰ xs ys → any p xs ≡ any p ys
  any-permᴰ p Permᴰ.nil = refl
  any-permᴰ p (Permᴰ.cons e h) = rw (e, any-permᴰ p h)
  any-permᴰ p (Permᴰ.swap e f) = rw (e, f) (ground arith)
  any-permᴰ p (Permᴰ.trans h k) = any-permᴰ p h ∙ any-permᴰ p k

  pub any-perm : (p : A → Bool) {xs ys : List A} → Perm xs ys → any p xs ≡ any p ys
  any-perm p h = ∥∥₁_elim h (Bool-set _ _) (λ d. any-permᴰ p d)

  all-permᴰ : (p : A → Bool) {xs ys : List A} → Permᴰ xs ys → all p xs ≡ all p ys
  all-permᴰ p Permᴰ.nil = refl
  all-permᴰ p (Permᴰ.cons e h) = rw (e, all-permᴰ p h)
  all-permᴰ p (Permᴰ.swap e f) = rw (e, f) (ground arith)
  all-permᴰ p (Permᴰ.trans h k) = all-permᴰ p h ∙ all-permᴰ p k

  pub all-perm : (p : A → Bool) {xs ys : List A} → Perm xs ys → all p xs ≡ all p ys
  all-perm p h = ∥∥₁_elim h (Bool-set _ _) (λ d. all-permᴰ p d)

  pub All-append {κ} :
      (Good : A → Type κ) (xs ys : List A) → All Good xs → All Good ys → All Good (xs ++ ys)
  All-append Good [] ys _ later = later
  All-append Good (x ∷ xs) ys (now, before) later = (now, All-append Good xs ys before later)

module _ {ℓ} {A : Type ℓ} ⦃e : Eq A⦄ where
  abbrev pub contains : List A → A → Bool
  contains [] a = false
  contains (x ∷ xs) a = x == a || contains xs a

  pub contains-append :
      (xs ys : List A) (a : A) → contains (xs ++ ys) a ≡ (contains xs a || contains ys a)
  contains-append [] ys a = refl
  contains-append (x ∷ xs) ys a = ground (arith, contains-append xs ys a)

  contains-any : (xs : List A) (a : A) → contains xs a ≡ any (λ x. x == a) xs
  contains-any [] a = refl
  contains-any (x ∷ xs) a = rw (contains-any xs a)

  pub contains-perm : {xs ys : List A} (a : A) → Perm xs ys → contains xs a ≡ contains ys a
  contains-perm {xs} {ys} a h = rw (contains-any xs a, contains-any ys a) (any-perm (λ x. x == a) h)

-- A Go map: a list of entries with one entry for each key.
abbrev pub Dict {ℓ κ} : Type ℓ → Type κ → Type (ℓ ⊔ κ)
Dict K V = List (K × V)

module _ {ℓ κ} {K : Type ℓ} {V : Type κ} ⦃e : Eq K⦄ where
  -- m[k], with the second value of `v, ok := m[k]` as the option.
  unfoldable pub lookup : K → Dict K V → Option V
  lookup k [] = none
  lookup k ((j, v) ∷ m) = if j == k then some v else lookup k m

  -- m[k] = v
  unfoldable pub insert : K → V → Dict K V → Dict K V
  insert k v [] = (k, v) ∷ []
  insert k v ((j, w) ∷ m) = if j == k then (j, v) ∷ m else (j, w) ∷ insert k v m

  pub lookup-insert :
      (k other : K) (v : V) (m : Dict K V)
      → lookup other (insert k v m) ≡ (if k == other then some v else lookup other m)
  unfolding insert lookup
  lookup-insert k other v [] = refl
  lookup-insert k other v ((i, w) ∷ rest) =
      ground (arith, lookup-insert k other v rest, ==_iff i other, ==_iff k other, ==_iff i k)

  pub lookup-nil : (k : K) → lookup k [] ≡ none
  unfolding lookup
  lookup-nil k = refl
