-- ===== src/Env.antt =====
-- internal/env/service.go: the variables of projects in memory. A map is a list with one entry for a
-- key, and the map of maps a list of projects with their variables.
pub mod Laws
mod Tests
use gopoke.Base.{
  Bool, not, Option, none, some, List, [], ◌∷◌, filter, Result, ok, err, CtxError, if◌then◌else◌,
}
use gopoke.Base.Sort.{sort}
use gopoke.Base.Update.{find}
use gopoke.Text.{Text, text_eq, text_lt, is_empty}

pub record Variable : Type 0 where
  pub key : Text
  pub value : Text
  pub masked : Bool

-- An entry of the map `values`.
pub record ProjectVars : Type 0 where
  pub project_id : Text
  pub vars : List Variable

abbrev pub Service : Type 0
Service = List ProjectVars

pub data Error : Type 0 where
  context : CtxError → Error
  project_id_required variable_key_required : Error

-- NewService
abbrev pub new_service : Service
new_service = []

abbrev pub of_project : Text → ProjectVars → Bool
of_project project_id e = text_eq e.project_id project_id

abbrev pub has_key : Text → Variable → Bool
has_key key v = text_eq v.key key

-- The map of a project, new if there is none.
abbrev pub vars_in : Option ProjectVars → List Variable
vars_in none = []
vars_in (some e) = e.vars

abbrev pub set_vars : Text → List Variable → Service → Service
set_vars project_id vs s =
    record { project_id = project_id; vars = vs } ∷ filter (λ e. not (of_project project_id e)) s

abbrev pub put : Variable → List Variable → List Variable
put v vs = v ∷ filter (λ w. not (has_key v.key w)) vs

-- Service.Upsert
unfoldable pub upsert :
    Option CtxError → Text → Variable → Service → Result Error (Unit {0}) × Service
unfolding find
upsert (some e) project_id v s = (err (context e), s)
upsert none project_id v s =
    if is_empty project_id
    then (err project_id_required, s)
    else if is_empty v.key
    then (err variable_key_required, s)
    else (ok tt, set_vars project_id (put v (vars_in (find (of_project project_id) s))) s)

abbrev pub delete_in : Option ProjectVars → Text → Service → Service
delete_in none key s = s
delete_in (some e) key s = set_vars e.project_id (filter (λ w. not (has_key key w)) e.vars) s

-- Service.Delete
unfoldable pub delete : Option CtxError → Text → Text → Service → Result Error (Unit {0}) × Service
unfolding find
delete (some e) project_id key s = (err (context e), s)
delete none project_id key s =
    if is_empty project_id
    then (err project_id_required, s)
    else if is_empty key
    then (err variable_key_required, s)
    else (ok tt, delete_in (find (of_project project_id) s) key s)

abbrev pub key_before : Variable → Variable → Bool
key_before a b = text_lt a.key b.key

-- Service.List; Go's nil is the empty list.
unfoldable pub list : Option CtxError → Text → Service → Result Error (List Variable)
unfolding find sort
list (some e) project_id s = err (context e)
list none project_id s =
    if is_empty project_id
    then err project_id_required
    else ok (sort key_before (vars_in (find (of_project project_id) s)))
