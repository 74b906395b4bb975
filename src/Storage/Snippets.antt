-- ===== src/Storage/Snippets.antt =====
-- The snippet methods of store.go. `lower` is the case table of package unicode, rune by rune.
use gopoke.Base.{
  ℕ, Bool, true, false, ◌&&◌, not, Option, none, some, List, [], ◌∷◌, ◌++◌, map, filter, any, ltb,
  if◌then◌else◌,
}
use gopoke.Base.Sort.{sort}
use gopoke.Base.Update.{find, update_first}
use gopoke.Text.{Text, codes, text_eq, text_lt, is_empty, trim_space}
use gopoke.Storage.Schema.{ProjectRecord, SnippetRecord, Snapshot, generate_id}
use gopoke.Storage.Monad.{
  project_id_required, snippet_name_required, snippet_content_required, snippet_id_required,
  project_not_found, snippet_not_found, snippet_project_mismatch, snippet_name_exists, Call, Action,
  pure, raise, ◌>>=◌, ◌>>◌, raise_if, check_context, require, require_nonblank,
}
use gopoke.Storage.Io.{load_locked, write_locked, assign_snippets, persist}

-- projectExists
unfoldable pub project_exists : List ProjectRecord → Text → Bool
project_exists projects project_id = any (λ p. text_eq p.id project_id) projects

abbrev pub has_id : Text → SnippetRecord → Bool
has_id id x = text_eq x.id id

-- Store.SnippetByID
unfoldable pub snippet_by_id : Call → Text → Action (Option SnippetRecord)
unfolding load_locked find
snippet_by_id c id = do
  check_context c.ctx
  require_nonblank id snippet_id_required
  d ← load_locked
  pure (find (has_id id) d.snippets)

abbrev pub delete_if : Bool → Call → Snapshot → Action (Unit {0})
delete_if true c d = persist c d
delete_if false c d = pure tt

-- Store.DeleteSnippet
unfoldable pub delete_snippet : Call → Text → Action (Unit {0})
unfolding load_locked write_locked
delete_snippet c snippet_id = do
  check_context c.ctx
  let id = trim_space snippet_id
  require id snippet_id_required
  d ← load_locked
  let filtered = filter (λ x. not (has_id id x)) d.snippets
  delete_if (any (has_id id) d.snippets) c (record d { snippets = filtered })

-- The comparison of ProjectSnippets: the later update first, then by name.
unfoldable pub updated_before : SnippetRecord → SnippetRecord → Bool
updated_before a b =
    if ltb b.updated_at a.updated_at
    then true
    else if ltb a.updated_at b.updated_at
    then false
    else text_lt a.name b.name

-- Store.ProjectSnippets
unfoldable pub project_snippets : Call → Text → Action (List SnippetRecord)
unfolding load_locked sort
project_snippets c project_id = do
  check_context c.ctx
  require project_id project_id_required
  d ← load_locked
  pure (sort updated_before (filter (λ x. text_eq x.project_id project_id) d.snippets))

module _ (lower : ℕ → ℕ) where
  -- strings.ToLower(strings.TrimSpace(name))
  abbrev pub normalized : Text → Text
  normalized name = map lower (trim_space name)

  -- The function that snippetNameExists hands to slices.ContainsFunc.
  abbrev pub clashes : Text → Text → Text → SnippetRecord → Bool
  clashes project_id exclude_id name x =
      text_eq x.project_id project_id
      && not (not (is_empty exclude_id) && text_eq x.id exclude_id)
      && text_eq (normalized x.name) (normalized name)

  -- snippetNameExists
  unfoldable pub name_exists : List SnippetRecord → Text → Text → Text → Bool
  name_exists snippets project_id exclude_id name =
      any (clashes project_id exclude_id name) snippets

  abbrev pub rewritten : ℕ → SnippetRecord → SnippetRecord → SnippetRecord
  rewritten now r x = record x { name = r.name; content = r.content; updated_at = now }

  abbrev pub created : Call → SnippetRecord → SnippetRecord
  created c r = record r {
    id = generate_id (codes "sn") c.random;
    created_at = c.now;
    updated_at = c.now;
  }

  abbrev pub insert_snippet : Call → SnippetRecord → Snapshot → Action SnippetRecord
  insert_snippet c r d = do
    raise_if (name_exists d.snippets r.project_id [] r.name) (snippet_name_exists r.name)
    persist c (record d { snippets = d.snippets ++ created c r ∷ [] })
    pure (created c r)

  -- The loop over the snippets, at the first that has the identifier of the record.
  abbrev pub update_snippet :
      Call → SnippetRecord → Snapshot → Option SnippetRecord → Action SnippetRecord
  update_snippet c r d none = raise snippet_not_found
  update_snippet c r d (some x) = do
    raise_if (not (text_eq x.project_id r.project_id)) snippet_project_mismatch
    raise_if (name_exists d.snippets r.project_id x.id r.name) (snippet_name_exists r.name)
    let xs = update_first (has_id r.id) (rewritten c.now r) d.snippets
    assign_snippets xs
    persist c (record d { snippets = xs })
    pure (rewritten c.now r x)

  abbrev pub insert_or_update : Call → SnippetRecord → Snapshot → Action SnippetRecord
  insert_or_update c r d =
      if is_empty r.id
      then insert_snippet c r d
      else update_snippet c r d (find (has_id r.id) d.snippets)

  -- Store.SaveSnippet
  unfoldable pub save_snippet : Call → SnippetRecord → Action SnippetRecord
  unfolding load_locked write_locked find update_first assign_snippets generate_id
  save_snippet c given = do
    check_context c.ctx
    require given.project_id project_id_required
    let r = record given { name = trim_space given.name }
    require r.name snippet_name_required
    require_nonblank r.content snippet_content_required
    d ← load_locked
    raise_if (not (project_exists d.projects r.project_id)) project_not_found
    insert_or_update c r d
