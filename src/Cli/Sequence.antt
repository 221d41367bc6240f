-- ===== src/Cli/Sequence.antt =====
-- The order of the paths and the first error.
use bundle_controller.Base.{
  String, true, false, string_eq, Option, none, some, List, [], ◌∷◌, ◌++◌, ◌≡◌, refl, ◌∙◌,
  Option-cases, inl, inr, ok,
}
use bundle_controller.Manifest.Filtered.{Scheme}
use bundle_controller.Cli.{
  Console, is_stdin, for_objects, for_pathes, for_path, for_bundle_in_pathes,
}

-- The second part is run where the first ends, unless the first fails.
abbrev pub then_run :
    {State : Type 0}
    → Option String × State
    → (State → Option String × State)
    → Option String × State
then_run (some message, s) next = (some message, s)
then_run (none, s) next = next s

then_run-same :
    {State : Type 0} (ended : Option String × State) (next other : State → Option String × State)
    → ((t : State) → next t ≡ other t)
    → then_run ended next ≡ then_run ended other
then_run-same (some message, s) next other same = refl
then_run-same (none, s) next other same = same s

is_stdin-append :
    (pathes more : List String)
    → is_stdin pathes ≡ false
    → is_stdin more ≡ false
    → is_stdin (pathes ++ more) ≡ false
is_stdin-append [] more first second = second
is_stdin-append (path ∷ []) [] first second = first
is_stdin-append (path ∷ []) (other ∷ more) first second = refl
is_stdin-append (path ∷ next ∷ pathes) more first second = refl

module _ {State T Object : Type 0} (fun : T → State → Option String × State)
    (scheme : Scheme Object T) (console : Console State) (read_dir : String → State → T) where
  -- The paths are worked on in order, and the first that fails ends the command: the paths of two
  -- lists one after the other are those of the first list, and, if these all succeed, those of the
  -- second from the state that they leave.
  pub for_pathes-append :
      (pathes more : List String) (s : State)
      → for_pathes fun scheme console read_dir (pathes ++ more) s
        ≡ then_run
            (for_pathes fun scheme console read_dir pathes s)
            (for_pathes fun scheme console read_dir more)
  unfolding for_pathes
  for_pathes-append [] more s = refl
  for_pathes-append (path ∷ pathes) more s =
      let (failure, t) = for_path fun scheme console read_dir path s in
      elim (Option-cases failure) [
        | inl fine ↦ rw (fine, for_pathes) (for_pathes-append pathes more t)
        | inr (message, failed) ↦ rw (failed, for_pathes) refl
      ]

  -- So it is for a command whose paths do not stand for the standard input.
  pub for_bundle_in_pathes-append :
      (pathes more : List String) (s : State)
      → is_stdin pathes ≡ false
      → is_stdin more ≡ false
      → for_bundle_in_pathes fun scheme console read_dir (pathes ++ more) s
        ≡ then_run
            (for_bundle_in_pathes fun scheme console read_dir pathes s)
            (for_bundle_in_pathes fun scheme console read_dir more)
  unfolding for_bundle_in_pathes
  for_bundle_in_pathes-append pathes more s named also =
      rw (is_stdin-append pathes more named also, named)
        (for_pathes-append pathes more s
          ∙ then_run-same (for_pathes fun scheme console read_dir pathes s)
              (for_pathes fun scheme console read_dir more)
              (for_bundle_in_pathes fun scheme console read_dir more) (λ t. rw also refl))

  -- A directory whose object `fun` fails on ends the command.
  pub for_pathes-directory :
      (dir message : String) (pathes : List String) (s t : State)
      → console.lstat dir s ≡ ok true
      → fun (read_dir dir s) s ≡ (some message, t)
      → for_pathes fun scheme console read_dir (dir ∷ pathes) s ≡ (some message, t)
  unfolding for_pathes for_objects
  for_pathes-directory dir message pathes s t is_dir failed =
      simp (for_pathes, for_path, is_dir, for_objects, failed)
