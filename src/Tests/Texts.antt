-- ===== src/Tests/Texts.antt =====
-- Go's functions on texts, on small ones.
use bundle_controller.Base.{
  true, [], ◌∷◌, ◌≡◌, refl, lower_equals, split_comma, join_lines, trim_prefix, has_suffix,
}

lower_secret : lower_equals "SeCret" "secret" ≡ true
unfolding lower_equals
lower_secret = refl

split_options : split_comma "OnUpdate,OnDelete" ≡ "OnUpdate" ∷ "OnDelete" ∷ []
unfolding split_comma
split_options = refl

join_two : join_lines ("a" ∷ "b" ∷ []) ≡ "a\nb"
unfolding join_lines
join_two = refl

trim_deploy : trim_prefix "deploy/b.yaml" "deploy/" ≡ "b.yaml"
unfolding trim_prefix
trim_deploy = refl

suffix_tgz : has_suffix "web.tar.gz" ".tar.gz" ≡ true
unfolding has_suffix
suffix_tgz = refl
