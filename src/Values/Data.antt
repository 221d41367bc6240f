-- ===== src/Values/Data.antt =====
-- The dynamic values that JSON and YAML decode into, and maps of them.
use bundle_controller.Base.{
  String, ℕ, Bool, true, false, Option, none, some, List, [], ◌∷◌, ◌≡◌, refl, arith, ◌==◌, ==_iff,
  string_eq, if◌then◌else◌, suc, Bool-cases, inl, inr,
}

mutual
  -- A number is its Go type and its digits: the code only compares numbers.
  pub data Value : Type 0 where
    null : Value
    bool : Bool → Value
    number : String → String → Value
    text : String → Value
    array : Items → Value
    object : Fields → Value

  pub data Items : Type 0 where
    nil : Items
    cons : Value → Items → Items

  -- A Go map from strings, in one order of iteration.
  pub data Fields : Type 0 where
    end : Fields
    field : String → Value → Fields → Fields

-- m[k], with the second value of `v, ok := m[k]` as the option.
unfoldable pub get : String → Fields → Option Value
get k end = none
get k (field j v m) = if j == k then some v else get k m

-- m[k] = v
unfoldable pub put : String → Value → Fields → Fields
put k v end = field k v end
put k v (field j w m) = if j == k then field j v m else field j w (put k v m)

-- len(m)
abbrev pub size : Fields → ℕ
size end = 0
size (field k v m) = suc (size m)

abbrev pub is_end : Fields → Bool
is_end end = true
is_end (field k v m) = false

pub get-put :
    (k j : String) (v : Value) (m : Fields)
    → get j (put k v m) ≡ (if k == j then some v else get j m)
unfolding get put
get-put k j v end = refl
get-put k j v (field i w m) = ground (arith, ==_iff k j, ==_iff i k, ==_iff i j, get-put k j v m)

-- Each key stands once, in the map and in the maps that it holds as values.
abbrev mutual
  pub HasUniqueKeys : Value → Type 0
  HasUniqueKeys null = Unit
  HasUniqueKeys (bool b) = Unit
  HasUniqueKeys (number t d) = Unit
  HasUniqueKeys (text s) = Unit
  HasUniqueKeys (array xs) = HasUniqueKeysItems xs
  HasUniqueKeys (object m) = IsMap m

  pub HasUniqueKeysItems : Items → Type 0
  HasUniqueKeysItems nil = Unit
  HasUniqueKeysItems (cons x xs) = HasUniqueKeys x × HasUniqueKeysItems xs

  pub IsMap : Fields → Type 0
  IsMap end = Unit
  IsMap (field k v m) = (get k m ≡ none) × HasUniqueKeys v × IsMap m

-- The value at the end of a path of keys.
unfoldable pub get_path : List String → Option Value → Option Value
get_path [] o = o
get_path (k ∷ path) (some (object m)) = get_path path (get k m)
get_path (k ∷ path) o = none

pub get_path-none : (path : List String) → get_path path none ≡ none
unfolding get_path
get_path-none [] = refl
get_path-none (k ∷ path) = refl

abbrev pub HasUniqueKeysAt : Option Value → Type 0
HasUniqueKeysAt none = Unit
HasUniqueKeysAt (some v) = HasUniqueKeys v

abbrev pub is_object : Value → Bool
is_object (object m) = true
is_object _ = false

pub get-HasUniqueKeys : (k : String) (m : Fields) → IsMap m → HasUniqueKeysAt (get k m)
unfolding get
get-HasUniqueKeys k end h = tt
get-HasUniqueKeys k (field j w m) (fresh, hw, hm) = elim (Bool-cases (j == k)) [
  | inl same ↦ rw same hw
  | inr other ↦ rw other (get-HasUniqueKeys k m hm)
]

pub put-IsMap :
    (k : String) (v : Value) (m : Fields) → HasUniqueKeys v → IsMap m → IsMap (put k v m)
unfolding put get
put-IsMap k v end hv h = (refl, hv, tt)
put-IsMap k v (field j w m) hv (fresh, hw, hm) = elim (Bool-cases (j == k)) [
  | inl same ↦ rw same (fresh, hv, hm)
  | inr other ↦
      rw other (ground (arith, get-put k j v m, ==_iff k j, ==_iff j k), hw, put-IsMap k v m hv hm)
]
