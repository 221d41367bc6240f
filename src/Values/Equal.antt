-- ===== src/Values/Equal.antt =====
-- `EqualMapValues` over `reflect.DeepEqual`.
use bundle_controller.Base.{
  String, ℕ, Bool, true, false, ◌&&◌, ◌||◌, Option, none, some, ◌≡◌, refl, arith, ◌==◌, ==_iff,
  ==_refl, string_eq, nat_eq, Bool-cases, inl, inr, Option-cases, List, [], ◌∷◌, ap,
}
use bundle_controller.Values.Data.{
  Value, null, bool, number, text, array, object, Items, nil, cons, Fields, end, field, get, IsMap,
  HasUniqueKeys, HasUniqueKeysItems, size, get_path, get_path-none,
}

abbrev bool_equal : Bool → Bool → Bool
bool_equal true b = b
bool_equal false true = false
bool_equal false false = true

-- `reflect.DeepEqual` of two dynamic values. Maps are equal if they are equally long and each key
-- of the first has an equal value in the second.
unfoldable mutual
  pub deep_equal : Value → Value → Bool
  deep_equal null null = true
  deep_equal (bool a) (bool b) = bool_equal a b
  deep_equal (number t d) (number u e) = t == u && d == e
  deep_equal (text a) (text b) = a == b
  deep_equal (array xs) (array ys) = deep_equal_items xs ys
  deep_equal (object m) (object n) = size m == size n && deep_equal_fields m n
  deep_equal _ _ = false

  pub deep_equal_items : Items → Items → Bool
  deep_equal_items nil nil = true
  deep_equal_items nil (cons y ys) = false
  deep_equal_items (cons x xs) nil = false
  deep_equal_items (cons x xs) (cons y ys) = deep_equal x y && deep_equal_items xs ys

  -- Each entry of the first map has its equal in the second.
  pub deep_equal_fields : Fields → Fields → Bool
  deep_equal_fields end n = true
  deep_equal_fields (field k v m) n =
      elim (get k n) [ none ↦ false | some w ↦ deep_equal v w ] && deep_equal_fields m n

-- The length of a map that may be nil.
abbrev pub len : Option Fields → ℕ
len none = 0
len (some m) = size m

-- `reflect.DeepEqual` of two maps, where nil differs from an empty map.
deep_equal_maps : Option Fields → Option Fields → Bool
deep_equal_maps none none = true
deep_equal_maps none (some n) = false
deep_equal_maps (some m) none = false
deep_equal_maps (some m) (some n) = deep_equal (object m) (object n)

unfoldable pub equal_map_values : Option Fields → Option Fields → Bool
unfolding deep_equal_maps
equal_map_values a b = len a == 0 && len b == 0 || deep_equal_maps a b

-- A map of which every entry stands in `n` is equal to it, entry by entry.
abbrev AreIn : Fields → Fields → Type 0
AreIn end n = Unit
AreIn (field k v m) n = (get k n ≡ some v) × AreIn m n

AreIn-field :
    (m n : Fields) (k : String) (v : Value) → get k m ≡ none → AreIn m n → AreIn m (field k v n)
unfolding get
AreIn-field end n k v fresh h = tt
AreIn-field (field j w m) n k v fresh (e, h) =
    (ground (arith, ==_iff j k, ==_iff k j), AreIn-field m n k v (ground arith) h)

AreIn-refl : (m : Fields) → IsMap m → AreIn m m
unfolding get
AreIn-refl end h = tt
AreIn-refl (field k v m) (fresh, hv, hm) = (rw ==_refl, AreIn-field m m k v fresh (AreIn-refl m hm))

mutual
  unfolding deep_equal

  deep_equal_refl : (v : Value) → HasUniqueKeys v → deep_equal v v ≡ true
  deep_equal_refl null h = refl
  deep_equal_refl (bool true) h = refl
  deep_equal_refl (bool false) h = refl
  deep_equal_refl (number t d) h = rw (==_refl t, ==_refl d)
  deep_equal_refl (text a) h = ==_refl a
  deep_equal_refl (array xs) h = deep_equal_items_refl xs h
  deep_equal_refl (object m) h = rw (==_refl (size m)) (deep_equal_fields_of m m h (AreIn-refl m h))

  deep_equal_items_refl : (xs : Items) → HasUniqueKeysItems xs → deep_equal_items xs xs ≡ true
  deep_equal_items_refl nil h = refl
  deep_equal_items_refl (cons x xs) (hx, hxs) =
      rw (deep_equal_refl x hx) (deep_equal_items_refl xs hxs)

  deep_equal_fields_of : (m n : Fields) → IsMap m → AreIn m n → deep_equal_fields m n ≡ true
  deep_equal_fields_of end n h e = refl
  deep_equal_fields_of (field k v m) n (fresh, hv, hm) (at, e) =
      rw (at, deep_equal_refl v hv) (deep_equal_fields_of m n hm e)

-- Values with unique keys equal themselves, so an unchanged bundle is seen as unchanged.
pub equal_map_values_refl :
    (o : Option Fields) → ((m : Fields) → o ≡ some m → IsMap m) → equal_map_values o o ≡ true
unfolding equal_map_values deep_equal
equal_map_values_refl none h = refl
equal_map_values_refl (some m) h = ground (arith, deep_equal_refl (object m) (h m refl))

abbrev pub is_scalar : Value → Bool
is_scalar (array xs) = false
is_scalar (object m) = false
is_scalar v = true

get-deep_equal_fields :
    (k : String) (m n : Fields) (v : Value)
    → deep_equal_fields m n ≡ true
    → get k m ≡ some v
    → (w : Value) × (get k n ≡ some w) × (deep_equal v w ≡ true)
unfolding get deep_equal_fields
get-deep_equal_fields k end n v h e = cc
get-deep_equal_fields k (field j x m) n v h e = elim (Bool-cases (j == k)) [
  | inl same ↦ elim (Option-cases (get j n)) [
    | inl absent ↦ cc (rw absent at h)
    | inr (w, present) ↦ (w, ground (arith, ==_iff j k), ground arith)
  ]
  | inr other ↦ get-deep_equal_fields k m n v (ground arith) (rw other at e)
]

bool_equal-eq : (a b : Bool) → bool_equal a b ≡ true → a ≡ b
bool_equal-eq true b h = ground arith
bool_equal-eq false true h = cc
bool_equal-eq false false h = refl

scalar-deep_equal : (v w : Value) → deep_equal v w ≡ true → is_scalar v ≡ true → v ≡ w
unfolding deep_equal
scalar-deep_equal null null h s = refl
scalar-deep_equal (bool a) (bool b) h s = ap bool (bool_equal-eq a b h)
scalar-deep_equal (number t d) (number u e) h s = ground (arith, ==_iff t u, ==_iff d e)
scalar-deep_equal (text a) (text b) h s = ground (arith, ==_iff a b)
scalar-deep_equal (array xs) w h s = cc
scalar-deep_equal (object m) w h s = cc
scalar-deep_equal v w h s = cc

get_path-deep_equal :
    (path : List String) (v w s : Value)
    → deep_equal v w ≡ true
    → is_scalar s ≡ true
    → get_path path (some v) ≡ some s
    → get_path path (some w) ≡ some s
unfolding get_path deep_equal
get_path-deep_equal [] v w s h scalar e = ground (arith, scalar-deep_equal v w h)
get_path-deep_equal (k ∷ path) (object m) (object n) s h scalar e = elim (Option-cases (get k m)) [
  | inl absent ↦ absurd (ground (arith, get_path-none path))
  | inr (x, present) ↦
      let (y, found, same) = get-deep_equal_fields k m n x (ground arith) present in
      rw found (get_path-deep_equal path x y s same scalar (rw present at e))
]
get_path-deep_equal (k ∷ path) (object m) w s h scalar e = cc
get_path-deep_equal (k ∷ path) v w s h scalar e = cc

-- Maps that the test finds equal hold the same scalars at the same paths of keys.
pub equal_map_values_sound :
    (k : String) (path : List String) (m n : Fields) (s : Value)
    → equal_map_values (some m) (some n) ≡ true
    → is_scalar s ≡ true
    → get_path (k ∷ path) (some (object m)) ≡ some s
    → get_path (k ∷ path) (some (object n)) ≡ some s
unfolding equal_map_values get_path get
equal_map_values_sound k path end n s h scalar e = absurd (ground (arith, get_path-none path))
equal_map_values_sound k path (field j v m) n s h scalar e =
    get_path-deep_equal (k ∷ path) (object (field j v m)) (object n) s (ground arith) scalar e
