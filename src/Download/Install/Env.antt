-- ===== src/Download/Install/Env.antt =====
-- About the environment of `go install` in internal/download/goinstall.go.
use gopoke.Base.{◌≡◌, refl, ap, Bool, true, not, List, [], ◌∷◌, ◌++◌, filter, Bool-cases, inl, inr}
use gopoke.Text.{Text, codes, has_prefix}
use gopoke.Text.FilePath.{clean}
use gopoke.Download.Install.{is_gobin, tool_environ}

filter-kept :
    (p : Text → Bool) (xs : List Text) (x : Text)
    → p x ≡ true
    → filter p (filter (λ e. not (p e)) xs ++ x ∷ []) ≡ x ∷ []
filter-kept p [] x h = rw h refl
filter-kept p (y ∷ xs) x h = elim (Bool-cases (p y)) [
  | inl e ↦ rw e (filter-kept p xs x h)
  | inr e ↦ rw e (rw e (filter-kept p xs x h))
]

filter-others :
    (p : Text → Bool) (xs : List Text) (x : Text)
    → p x ≡ true
    → filter (λ e. not (p e)) (filter (λ e. not (p e)) xs ++ x ∷ []) ≡ filter (λ e. not (p e)) xs
filter-others p [] x h = rw h refl
filter-others p (y ∷ xs) x h = elim (Bool-cases (p y)) [
  | inl e ↦ rw e (filter-others p xs x h)
  | inr e ↦ rw e (rw e (ap (λ r. y ∷ r) (filter-others p xs x h)))
]

-- The environment of `go install` has one GOBIN, the cleaned target directory, whatever GOBIN the
-- process has, and besides it exactly the entries of the process that are not a GOBIN.
pub tool_environ-is_gobin :
    (environ : List Text) (dir : Text)
    → (filter is_gobin (tool_environ environ dir) ≡ (codes "GOBIN=" ++ clean dir) ∷ [])
      × (filter (λ e. not (is_gobin e)) (tool_environ environ dir)
          ≡ filter (λ e. not (is_gobin e)) environ)
unfolding tool_environ
tool_environ-is_gobin environ dir =
    let own : is_gobin (codes "GOBIN=" ++ clean dir) ≡ true = unfold has_prefix in refl in
    (
      filter-kept is_gobin environ (codes "GOBIN=" ++ clean dir) own,
      filter-others is_gobin environ (codes "GOBIN=" ++ clean dir) own,
    )
