-- ===== src/Values/Merge/Precedence.antt =====
-- Which of the two maps a merged value comes from, at every depth.
use bundle_controller.Base.{
  String, Bool, true, false, Option, none, some, List, [], ◌∷◌, ◌≡◌, refl, arith, ==_iff, string_eq,
}
use bundle_controller.Values.Data.{
  Value, object, Fields, end, field, get, put, IsMap, HasUniqueKeys, HasUniqueKeysAt, get-put,
  put-IsMap, get_path, get_path-none, is_object, get-HasUniqueKeys,
}
use bundle_controller.Values.Merge.{merge_maps, merge_value, merged}

-- After a merge each key holds its two values merged: the value of `b` alone where `out` lacks the
-- key or one of the two is no map, the two maps merged where both are maps, and the old value where
-- `b` lacks the key. So the order in which the loop visits `b` does not show.
pub get-merge_maps :
    (k : String) (b out : Fields)
    → IsMap b
    → get k (merge_maps out b) ≡ merged (get k out) (get k b)
unfolding merge_maps get
get-merge_maps k end out h = refl
get-merge_maps k (field j v b) out (fresh, hv, hb) =
    rw (get-merge_maps k b _ hb, get-put) (ground (arith, ==_iff j k))

mutual
  unfolding merge_maps

  merge_maps-IsMap_loop : (b out : Fields) → IsMap b → IsMap out → IsMap (merge_maps out b)
  merge_maps-IsMap_loop end out hb ho = ho
  merge_maps-IsMap_loop (field k v b) out (fresh, hv, hb) ho =
      merge_maps-IsMap_loop b (put k (merge_value v (get k out)) out) hb (
        put-IsMap k (merge_value v (get k out)) out
          (merge_value-HasUniqueKeys v (get k out) hv (get-HasUniqueKeys k out ho)) ho)

  merge_value-HasUniqueKeys :
      (v : Value) (old : Option Value)
      → HasUniqueKeys v
      → HasUniqueKeysAt old
      → HasUniqueKeys (merge_value v old)
  merge_value-HasUniqueKeys (object n) (some (object m)) hv ho = merge_maps-IsMap_loop n m hv ho
  merge_value-HasUniqueKeys v old hv ho = hv

-- A merge of two maps with unique keys, at every depth, is one again.
pub merge_maps-IsMap : (out b : Fields) → IsMap out → IsMap b → IsMap (merge_maps out b)
merge_maps-IsMap out b ho hb = merge_maps-IsMap_loop b out hb ho

get_path-merged :
    (path : List String) (old new : Option Value) (v : Value)
    → HasUniqueKeysAt new
    → is_object v ≡ false
    → get_path path new ≡ some v
    → get_path path (merged old new) ≡ some v
unfolding merge_maps get_path
get_path-merged [] (some (object m)) (some (object n)) v h leaf e = ground arith
get_path-merged (k ∷ path) (some (object m)) (some (object n)) v h leaf e =
    rw (get-merge_maps k n m h)
      (get_path-merged path (get k m) (get k n) v (get-HasUniqueKeys k n h) leaf e)
get_path-merged path old none v h leaf e = absurd (cc (get_path-none path))
get_path-merged [] old (some w) v h leaf e = ground arith
get_path-merged (k ∷ path) old (some w) v h leaf e = ground arith

-- What the merged-in map `b` holds at the end of a path, other than a map, is what the result
-- holds there: `b` overrides at every depth. The keys of `b` are unique.
pub get_path-merge_maps_override :
    (path : List String) (out b : Fields) (v : Value)
    → IsMap b
    → is_object v ≡ false
    → get_path path (some (object b)) ≡ some v
    → get_path path (some (object (merge_maps out b))) ≡ some v
unfolding merge_maps
get_path-merge_maps_override path out b v hb leaf e =
    get_path-merged path (some (object out)) (some (object b)) v hb leaf e

-- Something stands at the path, or something other than a map on the way to it.
abbrev pub reaches : List String → Option Value → Bool
reaches path none = false
reaches [] (some v) = true
reaches (k ∷ path) (some (object n)) = reaches path (get k n)
reaches (k ∷ path) (some v) = true

merged-none : (new : Option Value) → merged none new ≡ new
unfolding merge_maps
merged-none none = refl
merged-none (some (object n)) = refl
merged-none (some v) = refl

get_path-merged_keep :
    (path : List String) (old new : Option Value)
    → HasUniqueKeysAt new
    → reaches path new ≡ false
    → get_path path (merged old new) ≡ get_path path old
unfolding get_path merge_maps
get_path-merged_keep path old none h e = refl
get_path-merged_keep [] old (some v) h e = cc
get_path-merged_keep (k ∷ path) (some (object m)) (some (object n)) h e =
    rw (get-merge_maps k n m h)
      (get_path-merged_keep path (get k m) (get k n) (get-HasUniqueKeys k n h) e)
get_path-merged_keep (k ∷ path) old (some (object n)) h e = ground (
  arith,
  get_path-none path,
  get_path-merged_keep path none (get k n) (get-HasUniqueKeys k n h) e,
  merged-none (get k n),
)
get_path-merged_keep (k ∷ path) old (some v) h e = cc

-- Where the merged-in map `b`, whose keys are unique, does not reach, the result holds what the
-- first map held.
pub get_path-merge_maps_keep :
    (path : List String) (out b : Fields)
    → IsMap b
    → reaches path (some (object b)) ≡ false
    → get_path path (some (object (merge_maps out b))) ≡ get_path path (some (object out))
unfolding merge_maps
get_path-merge_maps_keep path out b hb e =
    get_path-merged_keep path (some (object out)) (some (object b)) hb e
