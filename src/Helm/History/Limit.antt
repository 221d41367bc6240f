-- ===== src/Helm/History/Limit.antt =====
-- Which revisions `removeHistories` deletes.
use bundle_controller.Base.{
  ℕ, zero, suc, ◌+◌, ◌-◌, ◌≤◌, ◌<◌, Bool, true, false, not, ◌&&◌, List, [], ◌∷◌, ◌++◌, length, ◌==◌,
  nat_eq, string_eq, if◌then◌else◌, ◌≡◌, refl, sym, ap, ◌∙◌, arith, length-append, Bool-cases, inl,
  inr,
}
use mathlib.Core.List.{append_assoc, append-nil}
use bundle_controller.Helm.Sdk.{Release, is_deployed}
use bundle_controller.Helm.History.{collect, revisions_to_delete, effective_limit}

-- The first revisions of a list.
abbrev pub take : ℕ → List Release → List Release
take zero l = []
take (suc n) [] = []
take (suc n) (r ∷ l) = r ∷ take n l

-- All revisions but the first that is deployed.
abbrev pub without_last_deployed : List Release → List Release
without_last_deployed [] = []
without_last_deployed (r ∷ l) = if is_deployed r then l else r ∷ without_last_deployed l

-- The revisions that the loop has still to consider for deletion.
abbrev rest_of : Bool → List Release → List Release
rest_of true l = l
rest_of false l = without_last_deployed l

rest_of-considered :
    (seen : Bool) (r : Release) (l : List Release)
    → (is_deployed r && not seen) ≡ false
    → rest_of seen (r ∷ l) ≡ r ∷ rest_of seen l
rest_of-considered true r l h = refl
rest_of-considered false r l h = ground arith

rest_of-skipped :
    (seen : Bool) (r : Release) (l : List Release)
    → (is_deployed r && not seen) ≡ true
    → rest_of seen (r ∷ l) ≡ l
rest_of-skipped true r l h = absurd (ground arith)
rest_of-skipped false r l h = ground arith

-- `n` revisions are still to be collected before the loop stops.
collect-take :
    (n total max : ℕ) (l : List Release) (seen : Bool) (acc : List Release)
    → total ≡ n + max + length acc
    → collect total max l seen acc ≡ acc ++ take n (rest_of seen l)
unfolding collect
collect-take zero total max [] seen acc e = sym (append-nil acc)
collect-take (suc n) total max [] true acc e = sym (append-nil acc)
collect-take (suc n) total max [] false acc e = sym (append-nil acc)
collect-take zero total max (r ∷ l) seen acc e = elim (Bool-cases (is_deployed r && not seen)) [
  | inl skipped ↦ rw (skipped, collect) (collect-take zero total max l true acc e)
  | inr considered ↦ rw (considered, collect) (ground (arith, append-nil acc))
]
collect-take (suc n) total max (r ∷ l) seen acc e = elim (Bool-cases (is_deployed r && not seen)) [
  | inl skipped ↦
      rw (skipped, collect, rest_of-skipped seen r l skipped)
        (collect-take (suc n) total max l true acc e)
  | inr considered ↦
      let go_on : (total - length acc == max) ≡ false = ground arith in
      rw (considered, go_on, collect, rest_of-considered seen r l considered)
        (collect-take n total max l seen (acc ++ (r ∷ []))
            (omega (arith, length-append acc (r ∷ [])))
          ∙ append_assoc acc (r ∷ []) (take n (rest_of seen l)))
]

-- With fewer revisions than the limit the loop never stops early.
collect-all :
    (total max : ℕ) (l : List Release) (seen : Bool) (acc : List Release)
    → total < max
    → collect total max l seen acc ≡ acc ++ rest_of seen l
unfolding collect
collect-all total max [] true acc e = sym (append-nil acc)
collect-all total max [] false acc e = sym (append-nil acc)
collect-all total max (r ∷ l) seen acc e = elim (Bool-cases (is_deployed r && not seen)) [
  | inl skipped ↦
      rw (skipped, collect, rest_of-skipped seen r l skipped) (collect-all total max l true acc e)
  | inr considered ↦
      let go_on : (total - length acc == max) ≡ false = ground arith in
      rw (considered, go_on, collect, rest_of-considered seen r l considered)
        (collect-all total max l seen (acc ++ (r ∷ [])) e
          ∙ append_assoc acc (r ∷ []) (rest_of seen l))
]

length-take : (n : ℕ) (l : List Release) → n ≤ length l → length (take n l) ≡ n
length-take zero l h = refl
length-take (suc n) [] h = absurd (omega arith)
length-take (suc n) (r ∷ l) h = omega (arith, length-take n l)

length-without_last_deployed : (l : List Release) → length l ≤ length (without_last_deployed l) + 1
length-without_last_deployed [] = omega arith
length-without_last_deployed (r ∷ l) = ground (arith, length-without_last_deployed l)

-- Of at least as many revisions as the limit, given newest first, the newest ones are deleted, the
-- last deployed one excepted, until exactly the limit remains.
pub revisions_to_delete-newest :
    (max : ℕ) (rlss : List Release)
    → effective_limit max ≤ length rlss
    → (revisions_to_delete max rlss
        ≡ take (length rlss - effective_limit max) (without_last_deployed rlss))
      × (length (revisions_to_delete max rlss) + effective_limit max ≡ length rlss)
unfolding revisions_to_delete
revisions_to_delete-newest max rlss h =
    let n : ℕ = length rlss - effective_limit max in
    let same : revisions_to_delete max rlss ≡ take n (without_last_deployed rlss) =
      collect-take n (length rlss) (effective_limit max) rlss false [] (omega arith) in
    let positive : 1 ≤ effective_limit max = ground arith in
    (
      same,
      omega (
        arith,
        ap length same,
        length-take n (without_last_deployed rlss)
            (omega (arith, length-without_last_deployed rlss)),
      ),
    )

-- With fewer revisions than the limit, all are deleted but the last deployed one.
pub revisions_to_delete-few :
    (max : ℕ) (rlss : List Release)
    → length rlss < effective_limit max
    → revisions_to_delete max rlss ≡ without_last_deployed rlss
unfolding revisions_to_delete
revisions_to_delete-few max rlss h = collect-all (length rlss) (effective_limit max) rlss false [] h
