-- ===== src/Text/FilePath.antt =====
-- What the program uses of package path/filepath, on a Unix system.
pub mod Laws
use gopoke.Base.{Bool, false, ◌||◌, not, List, [], ◌∷◌, ◌++◌, reverse, ◌==◌, if◌then◌else◌}
use gopoke.Text.Defs.{Text, codes, text_eq, is_empty, drop_while}
use gopoke.Text.Split.{split_on, join_on}

-- filepath.IsAbs
unfoldable pub is_abs : Text → Bool
is_abs [] = false
is_abs (c ∷ s) = c == b'/'

-- The element ".." met by Clean; the elements kept so far are in reverse.
abbrev pub go_up : Bool → List Text → Text → List Text
go_up rooted [] e = if rooted then [] else e ∷ []
go_up rooted (top ∷ below) e = if text_eq top (codes "..") then e ∷ top ∷ below else below

-- One element met by Clean.
unfoldable pub clean_element : Bool → List Text → Text → List Text
clean_element rooted out e =
    if is_empty e || text_eq e (codes ".")
    then out
    else if text_eq e (codes "..")
    then go_up rooted out e
    else e ∷ out

unfoldable pub clean_elements : Bool → List Text → List Text → List Text
unfolding clean_element
clean_elements rooted out [] = reverse out
clean_elements rooted out (e ∷ es) = clean_elements rooted (clean_element rooted out e) es

abbrev pub or_dot : Text → Text
or_dot [] = codes "."
or_dot (c ∷ s) = c ∷ s

-- The elements that are left of a path: none is empty or ".", and ".." stands only in front of a
-- path that is not rooted.
unfoldable pub parts : Text → List Text
unfolding split_on clean_elements is_abs text_eq
parts path = clean_elements (is_abs path) [] (split_on b'/' path)

-- filepath.Clean
unfoldable pub clean : Text → Text
unfolding parts join_on
clean path =
    let body = join_on b'/' (parts path) in if is_abs path then b'/' ∷ body else or_dot body

-- filepath.Join of two elements.
unfoldable pub join : Text → Text → Text
unfolding clean
join [] [] = []
join [] (c ∷ s) = clean (c ∷ s)
join (c ∷ s) [] = clean (c ∷ s)
join (c ∷ s) (d ∷ t) = clean ((c ∷ s) ++ b'/' ∷ d ∷ t)

-- What is left of two lists of elements past those that they have in common in front.
unfoldable pub strip_common : List Text → List Text → List Text × List Text
strip_common [] ts = ([], ts)
strip_common (b ∷ bs) [] = (b ∷ bs, [])
strip_common (b ∷ bs) (t ∷ ts) =
    let rest = strip_common bs ts in if text_eq b t then rest else (b ∷ bs, t ∷ ts)

abbrev pub ups : List Text → List Text
ups [] = []
ups (b ∷ bs) = codes ".." ∷ ups bs

-- filepath.Rel of two absolute paths: up from what is left of the base, and down to the target.
unfoldable pub rel : Text → Text → Text
unfolding parts join_on strip_common
rel base target =
    let (up, down) = strip_common (parts base) (parts target) in
    or_dot (join_on b'/' (ups up ++ down))

-- filepath.Dir
unfoldable pub dir_of : Text → Text
unfolding clean drop_while
dir_of path = clean (reverse (drop_while (λ c. not (c == b'/')) (reverse path)))
