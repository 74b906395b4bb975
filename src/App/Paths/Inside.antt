-- ===== src/App/Paths/Inside.antt =====
-- About resolveInputPath and resolveProjectWorkingDirectory of internal/app/app.go.
use gopoke.Base.{
  ◌≡◌, refl, subst, Bool, true, false, Option, none, some, List, [], ◌∷◌, ◌++◌, All, Result, ok,
  err, Bool-cases, inl, inr,
}
use gopoke.Text.{Text, is_empty, trim_space}
use gopoke.Text.FilePath.{is_abs, clean, join, parts, rel}
use gopoke.Text.FilePath.Laws.{goes_up, parts-of_rel, is_abs-clean, IsElement, parts-IsElement}
use gopoke.App.Paths.{
  System, Error, resolved, expanded, absolute, abs, resolve_input_path, checked, below,
  resolve_project_working_directory,
}

-- A directory of the project: an absolute path without "." and "..", whose elements are those of
-- the project and more.
pub record IsInside (sys : System) (project path : Text) : Type 0 where
  pub absolute : is_abs path ≡ true
  pub directory : sys.is_dir path ≡ some true
  pub under : (rest : List Text) × (parts path ≡ parts project ++ rest)
  pub plain : All IsElement (parts path)

abbrev accepted : Text → Result Error Text
accepted path = ok path

ok_inj : {a b : Text} → accepted a ≡ ok b → a ≡ b
ok_inj e = cc e

checked-IsInside :
    (sys : System) (project path r : Text) (o : Option Bool)
    → sys.is_dir path ≡ o
    → checked project path o ≡ ok r
    → IsInside sys project r
checked-IsInside sys project path r none e h = cc h
checked-IsInside sys project path r (some false) e h = cc h
checked-IsInside sys project path r (some true) e h = elim (Bool-cases (is_abs path)) [
  | inr relative ↦ cc (h, relative)
  | inl rooted ↦ elim (Bool-cases (goes_up (rel project path))) [
    | inl up ↦ cc (h, rooted, up)
    | inr down ↦
        let outcome : accepted path ≡ ok r = rw (rooted, down) at h in
        let same : path ≡ r = ok_inj outcome in
        rw (← same) (record {
          absolute = rooted;
          directory = e;
          under = parts-of_rel project path down;
          plain = parts-IsElement path rooted;
        })
  ]
]

-- A working directory that is accepted, in whatever form it is given, is a directory of the project:
-- its path is absolute, it has no "." or "..", and its elements are those of the project's path and
-- more.
pub resolve_project_working_directory-IsInside :
    (sys : System) (project given r : Text)
    → resolve_project_working_directory sys project given ≡ ok r
    → IsInside sys project r
unfolding resolve_project_working_directory
resolve_project_working_directory-IsInside sys project given r h =
    elim (Bool-cases (is_empty (trim_space given))) [
      | inl e ↦ cc (h, e)
      | inr e ↦
          let path = below project (trim_space given) in
          checked-IsInside sys project path r (sys.is_dir path) refl (rw e at h)
    ]

join-is_abs : (d path : Text) → is_abs d ≡ true → is_abs (join d path) ≡ true
unfolding join is_abs
join-is_abs [] path h = cc h
join-is_abs (c ∷ d) [] h = is_abs-clean (c ∷ d) h
join-is_abs (c ∷ d) (e ∷ path) h = is_abs-clean (c ∷ d ++ b'/' ∷ e ∷ path) h

abs_rooted : (sys : System) (path : Text) → is_abs path ≡ true → abs sys path ≡ some (clean path)
unfolding abs
abs_rooted sys path h = rw h

abs_relative :
    (sys : System) (d path : Text)
    → sys.working_directory ≡ some d
    → is_abs path ≡ false
    → abs sys path ≡ some (join d path)
unfolding abs
abs_relative sys d path e h = rw (h, e)

resolved-is_abs :
    (sys : System) (d path r : Text)
    → sys.working_directory ≡ some d
    → is_abs d ≡ true
    → resolved (abs sys path) ≡ ok r
    → is_abs r ≡ true
resolved-is_abs sys d path r e rooted h = elim (Bool-cases (is_abs path)) [
  | inl t ↦
      subst (λ p. is_abs p ≡ true) (ok_inj (rw (abs_rooted sys path t) at h)) (is_abs-clean path t)
  | inr f ↦
      subst (λ p. is_abs p ≡ true) (ok_inj (rw (abs_relative sys d path e f) at h))
        (join-is_abs d path rooted)
]

absolute-is_abs :
    (sys : System) (d r : Text) (given : Result Error Text)
    → sys.working_directory ≡ some d
    → is_abs d ≡ true
    → absolute sys given ≡ ok r
    → is_abs r ≡ true
absolute-is_abs sys d r (err x) e rooted h = cc h
absolute-is_abs sys d r (ok path) e rooted h = resolved-is_abs sys d path r e rooted h

-- A path that is accepted, in whatever form it is given, is absolute, where the process has an
-- absolute working directory.
pub resolve_input_path-is_abs :
    (sys : System) (d given r : Text)
    → sys.working_directory ≡ some d
    → is_abs d ≡ true
    → resolve_input_path sys given ≡ ok r
    → is_abs r ≡ true
unfolding resolve_input_path
resolve_input_path-is_abs sys d given r e rooted h =
    elim (Bool-cases (is_empty (trim_space given))) [
      | inl t ↦ cc (h, t)
      | inr f ↦ absolute-is_abs sys d r (expanded sys (trim_space given)) e rooted (rw f at h)
    ]
