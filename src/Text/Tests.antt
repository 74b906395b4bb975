-- ===== src/Text/Tests.antt =====
-- Runs of the string and path functions.
use gopoke.Base.{◌≡◌, refl}
use gopoke.Text.Defs.{codes, trim_space}
use gopoke.Text.FilePath.{clean, join}

clean_dots : clean (codes "/a/./b/../../../c//d/") ≡ codes "/c/d"
unfolding clean
clean_dots = refl

clean_relative : clean (codes "a/../../b") ≡ codes "../b"
unfolding clean
clean_relative = refl

join_plain : join (codes "/root/state") (codes "state.json") ≡ codes "/root/state/state.json"
unfolding join
join_plain = refl

trim_both : trim_space (codes "  a b ") ≡ codes "a b"
unfolding trim_space
trim_both = refl
