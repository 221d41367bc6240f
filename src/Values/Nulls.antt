-- ===== src/Values/Nulls.antt =====
-- `RemoveNulls`: null entries and the maps that are left empty go, at every depth of maps.
use bundle_controller.Base.{
  String, Bool, true, false, Option, none, some, List, [], ◌∷◌, ◌≡◌, ◌≢◌, ◌↔◌, refl, sym, ap, arith,
  ◌==◌, ==_iff, string_eq, if◌then◌else◌,
}
use bundle_controller.Values.Data.{
  Value, null, bool, number, text, array, object, Fields, end, field, get, IsMap, HasUniqueKeysAt,
  get-HasUniqueKeys, get_path, get_path-none, is_object,
}

-- What the loop does with one entry, after the call on its value: `delete(m, k)`, or nothing.
unfoldable pub keep_entry : String → Value → Fields → Fields
keep_entry k null rest = rest
keep_entry k (object end) rest = rest
keep_entry k v rest = field k v rest

unfoldable mutual
  pub remove_nulls : Value → Value
  remove_nulls (object m) = object (remove_null_fields m)
  remove_nulls v = v

  -- The loop over the entries of a map. It deletes the entry that it visits and no other.
  pub remove_null_fields : Fields → Fields
  remove_null_fields end = end
  remove_null_fields (field k v m) = keep_entry k (remove_nulls v) (remove_null_fields m)

-- Neither null nor an empty map.
abbrev pub is_kept : Value → Bool
is_kept null = false
is_kept (object end) = false
is_kept v = true

-- No entry of the map is null or an empty map, nor of the maps that it holds as values.
abbrev mutual
  pub IsCleanValue : Value → Type 0
  IsCleanValue null = Unit
  IsCleanValue (bool b) = Unit
  IsCleanValue (number t d) = Unit
  IsCleanValue (text s) = Unit
  IsCleanValue (array xs) = Unit
  IsCleanValue (object m) = IsClean m

  pub IsClean : Fields → Type 0
  IsClean end = Unit
  IsClean (field k v m) = (is_kept v ≡ true) × IsCleanValue v × IsClean m

keep_entry-IsClean :
    (k : String) (v : Value) (rest : Fields)
    → IsCleanValue v
    → IsClean rest
    → IsClean (keep_entry k v rest)
unfolding keep_entry
keep_entry-IsClean k null rest hv h = h
keep_entry-IsClean k (object end) rest hv h = h
keep_entry-IsClean k (object (field j w m)) rest hv h = (refl, hv, h)
keep_entry-IsClean k (bool b) rest hv h = (refl, hv, h)
keep_entry-IsClean k (number t d) rest hv h = (refl, hv, h)
keep_entry-IsClean k (text s) rest hv h = (refl, hv, h)
keep_entry-IsClean k (array xs) rest hv h = (refl, hv, h)

mutual
  unfolding remove_null_fields

  remove_nulls-IsClean : (v : Value) → IsCleanValue (remove_nulls v)
  remove_nulls-IsClean (object m) = remove_null_fields-IsClean_loop m
  remove_nulls-IsClean null = tt
  remove_nulls-IsClean (bool b) = tt
  remove_nulls-IsClean (number t d) = tt
  remove_nulls-IsClean (text s) = tt
  remove_nulls-IsClean (array xs) = tt

  remove_null_fields-IsClean_loop : (m : Fields) → IsClean (remove_null_fields m)
  remove_null_fields-IsClean_loop end = tt
  remove_null_fields-IsClean_loop (field k v m) =
      keep_entry-IsClean k (remove_nulls v) (remove_null_fields m) (remove_nulls-IsClean v)
        (remove_null_fields-IsClean_loop m)

-- After the call no map, at any depth of maps, has an entry that is null or an empty map.
pub remove_null_fields-IsClean : (m : Fields) → IsClean (remove_null_fields m)
remove_null_fields-IsClean m = remove_null_fields-IsClean_loop m

keep_entry_kept :
    (k : String) (v : Value) (rest : Fields)
    → is_kept v ≡ true
    → keep_entry k v rest ≡ field k v rest
unfolding keep_entry
keep_entry_kept k null rest h = cc
keep_entry_kept k (object end) rest h = cc
keep_entry_kept k v rest h = refl

mutual
  unfolding remove_null_fields

  remove_nulls_clean : (v : Value) → IsCleanValue v → remove_nulls v ≡ v
  remove_nulls_clean (object m) h = ap object (remove_null_fields_clean_loop m h)
  remove_nulls_clean v h = refl

  remove_null_fields_clean_loop : (m : Fields) → IsClean m → remove_null_fields m ≡ m
  remove_null_fields_clean_loop end h = refl
  remove_null_fields_clean_loop (field k v m) (kept, hv, hm) =
      rw (remove_nulls_clean v hv, remove_null_fields_clean_loop m hm) (keep_entry_kept k v m kept)

-- A map with nothing to remove is left as it is.
pub remove_null_fields_clean : (m : Fields) → IsClean m → remove_null_fields m ≡ m
remove_null_fields_clean m h = remove_null_fields_clean_loop m h

-- A second call of `RemoveNulls` changes nothing.
pub remove_null_fields_idem :
    (m : Fields) → remove_null_fields (remove_null_fields m) ≡ remove_null_fields m
remove_null_fields_idem m =
    remove_null_fields_clean (remove_null_fields m) (remove_null_fields-IsClean m)

abbrev kept_or_none : Value → Option Value
kept_or_none v = if is_kept v then some v else none

-- What a key holds after the call, from what it held before.
abbrev pub pruned : Option Value → Option Value
pruned none = none
pruned (some v) = kept_or_none (remove_nulls v)

get-keep_entry :
    (k j : String) (v : Value) (rest : Fields)
    → (k ≡ j → get j rest ≡ none)
    → get j (keep_entry k v rest) ≡ (if k == j then kept_or_none v else get j rest)
unfolding keep_entry get
get-keep_entry k j null rest h = ground (arith, ==_iff k j)
get-keep_entry k j (object end) rest h = ground (arith, ==_iff k j)
get-keep_entry k j (object (field i w m)) rest h = refl
get-keep_entry k j v rest h = refl

pub get-remove_null_fields :
    (j : String) (m : Fields) → IsMap m → get j (remove_null_fields m) ≡ pruned (get j m)
unfolding get remove_null_fields
get-remove_null_fields j end h = refl
get-remove_null_fields j (field k v m) (fresh, hv, hm) =
    rw
      (
        get-keep_entry k j (remove_nulls v) (remove_null_fields m)
            (λ e. rw (get-remove_null_fields j m hm, ← e, fresh)),
        get-remove_null_fields j m hm,
      )
      (ground arith)

kept_or_none-object_ne :
    (r : Fields) (v : Value) → is_object v ≡ false → kept_or_none (object r) ≢ some v
kept_or_none-object_ne end v leaf e = cc
kept_or_none-object_ne (field k w r) v leaf e = ground arith

get_path-kept_or_none :
    (k : String) (path : List String) (r : Fields)
    → get_path (k ∷ path) (kept_or_none (object r)) ≡ get_path path (get k r)
unfolding get_path get
get_path-kept_or_none k path end = sym (get_path-none path)
get_path-kept_or_none k path (field j w r) = refl

get_path-pruned :
    (path : List String) (o : Option Value) (v : Value)
    → HasUniqueKeysAt o
    → is_kept v ≡ true
    → is_object v ≡ false
    → (get_path path o ≡ some v) ↔ (get_path path (pruned o) ≡ some v)
unfolding get_path remove_null_fields
get_path-pruned path none v h kept leaf = ((λ e. e), (λ e. e))
get_path-pruned [] (some (object m)) v h kept leaf =
    ((λ e. ground arith), (λ e. absurd (kept_or_none-object_ne (remove_null_fields m) v leaf e)))
get_path-pruned (k ∷ path) (some (object m)) v h kept leaf =
    rw (get_path-kept_or_none k path (remove_null_fields m), get-remove_null_fields k m h)
      (get_path-pruned path (get k m) v (get-HasUniqueKeys k m h) kept leaf)
get_path-pruned [] (some w) v h kept leaf = ground arith
get_path-pruned (k ∷ path) (some w) v h kept leaf = ground arith

-- In a map with unique keys, a value that is neither null nor a map stands at the end of a path of
-- keys after `RemoveNulls` exactly when it stood there before: nothing else is lost, added or
-- moved.
pub get_path-remove_null_fields :
    (k : String) (path : List String) (m : Fields) (v : Value)
    → IsMap m
    → is_kept v ≡ true
    → is_object v ≡ false
    → (get_path (k ∷ path) (some (object m)) ≡ some v)
      ↔ (get_path (k ∷ path) (some (object (remove_null_fields m))) ≡ some v)
unfolding get_path
get_path-remove_null_fields k path m v h kept leaf =
    rw (get-remove_null_fields k m h)
      (get_path-pruned path (get k m) v (get-HasUniqueKeys k m h) kept leaf)
