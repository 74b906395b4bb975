-- ===== src/Storage/Valid/Snippets.antt =====
-- About the methods of internal/storage/store.go in Storage/Snippets.antt.
use gopoke.Base.{
  ℕ, ◌≡◌, refl, Bool, true, false, ◌&&◌, not, Option, none, some, List, [], ◌∷◌, any, ok, arith, ap,
  Bool-cases, inl, inr,
}
use gopoke.Base.Update.{find}
use gopoke.Base.Distinct.{
  IsDistinct, IsDistinct-append, IsDistinct-filter, IsDistinct-update_first, IsDistinct-rewrite,
  AtMostOne, any_mono, find-matches,
}
use gopoke.Text.{Text, codes, text_eq, is_empty, trim_space, eq_of_text_eq, text_eq_sym}
use gopoke.Storage.Schema.{SnippetRecord, Snapshot, generate_id}
use gopoke.Storage.Monad.{Store, Call}
use gopoke.Storage.Io.{load_locked}
use gopoke.Storage.Snippets.{
  has_id, delete_if, delete_snippet, normalized, clashes, name_exists, rewritten, created,
  insert_snippet, update_snippet, insert_or_update, save_snippet,
}
use gopoke.Storage.Valid.{same_id, same_name, IsValid, StoreIsValid, Keeps}
use gopoke.Storage.Valid.Rules.{
  Keeps-pure, Keeps-raise, Keeps-raise_if, Keeps-check, Keeps-load, Keeps-write, Keeps-write_last,
  Keeps-assign_snippets, IsValid-snippets, IsValid-stamp, KeepsAt-check, KeepsAt-raise_if,
  KeepsAt-load,
}

has_id-AtMostOne :
    (id : Text) (xs : List SnippetRecord) → IsDistinct same_id xs → AtMostOne (has_id id) xs
has_id-AtMostOne id [] d = tt
has_id-AtMostOne id (x ∷ xs) d = (
  λ e.
      any_mono (has_id id) (same_id x) (λ y h. rw text_eq_sym (rw (← eq_of_text_eq x.id id e) h)) xs
        d.0,
  has_id-AtMostOne id xs d.1,
)

module _ (lower : ℕ → ℕ) where
  -- A snippet that does not clash with the new one is not the same by name.
  same_name-of_clashes :
      (c : Call) (r y : SnippetRecord)
      → clashes lower r.project_id [] r.name y ≡ false
      → same_name lower y (created lower c r) ≡ false
  same_name-of_clashes c r y h = ground arith

  -- Nor with the rewritten one, unless it is the snippet that is rewritten.
  outside-of_clashes :
      (now : ℕ) (r x y : SnippetRecord)
      → text_eq x.id r.id ≡ true
      → not (text_eq x.project_id r.project_id) ≡ false
      → is_empty r.id ≡ false
      → clashes lower r.project_id x.id r.name y ≡ false
      → (not (has_id r.id y) && same_name lower y (rewritten lower now r x)) ≡ false
  outside-of_clashes now r x y i o n h =
      let same = eq_of_text_eq x.id r.id i in
      ground (
        arith,
        same,
        eq_of_text_eq x.project_id r.project_id,
        ap is_empty same,
        ap (text_eq y.id) same,
        ap (text_eq y.project_id) (eq_of_text_eq x.project_id r.project_id (ground arith)),
      )

  outside_sym :
      (r z y : SnippetRecord)
      → (not (has_id r.id y) && same_name lower y z) ≡ false
      → (not (has_id r.id y) && same_name lower z y) ≡ false
  outside_sym r z y h = ground (
    arith,
    text_eq_sym y.project_id z.project_id,
    text_eq_sym (normalized lower y.name) (normalized lower z.name),
  )

  insert_snippet-Keeps :
      (c : Call) (r : SnippetRecord) (d : Snapshot)
      → any (has_id (generate_id (codes "sn") c.random)) d.snippets ≡ false
      → IsValid lower d
      → Keeps lower (insert_snippet lower c r d)
  unfolding name_exists
  insert_snippet-Keeps c r d fresh v = Keeps-raise_if lower _ _ _ (λ e.
      let i = IsDistinct-append same_id d.snippets (created lower c r) v.ids fresh in
      let n = IsDistinct-append (same_name lower) d.snippets (created lower c r) v.names (
        any_mono _ (clashes lower r.project_id [] r.name) (same_name-of_clashes c r) d.snippets
          e) in
      Keeps-write lower _ _ _ _ (IsValid-stamp lower _ _ (IsValid-snippets lower d _ i n v))
        (Keeps-pure lower _))

  update_snippet-Keeps :
      (c : Call) (r : SnippetRecord) (d : Snapshot) (o : Option SnippetRecord)
      → find (has_id r.id) d.snippets ≡ o
      → is_empty r.id ≡ false
      → IsValid lower d
      → Keeps lower (update_snippet lower c r d o)
  unfolding name_exists
  update_snippet-Keeps c r d none e named v = Keeps-raise lower _
  update_snippet-Keeps c r d (some x) e named v = Keeps-raise_if lower _ _ _ (λ owner.
      Keeps-raise_if lower _ _ _ (λ free.
        let i =
          IsDistinct-update_first same_id (has_id r.id) (rewritten lower c.now r) (λ x y. refl)
            (λ x y. refl) d.snippets v.ids in
        let free' =
          any_mono _ (clashes lower r.project_id x.id r.name)
            (λ y. outside-of_clashes c.now r x y (find-matches _ d.snippets e) owner named)
            d.snippets free in
        let n =
          IsDistinct-rewrite (same_name lower) (has_id r.id) (rewritten lower c.now r) d.snippets e
            (has_id-AtMostOne r.id d.snippets v.ids) free'
            (any_mono _ _ (outside_sym r (rewritten lower c.now r x)) d.snippets free') v.names in
        Keeps-assign_snippets lower _ _ i n (
          Keeps-write lower _ _ _ _ (IsValid-stamp lower _ _ (IsValid-snippets lower d _ i n v))
            (Keeps-pure lower _))))

  insert_or_update-Keeps :
      (c : Call) (r : SnippetRecord) (d : Snapshot)
      → (is_empty r.id ≡ true → any (has_id (generate_id (codes "sn") c.random)) d.snippets ≡ false)
      → IsValid lower d
      → Keeps lower (insert_or_update lower c r d)
  insert_or_update-Keeps c r d fresh v = elim (Bool-cases (is_empty r.id)) [
    | inl e ↦ rw e (insert_snippet-Keeps c r d (fresh e) v)
    | inr e ↦ rw e (update_snippet-Keeps c r d _ refl e v)
  ]

  -- The identifier that generateID makes for a new snippet is not in use in what the store loads.
  abbrev pub IsFresh : Call → SnippetRecord → Store → Type 0
  IsFresh c r s =
      (d : Snapshot)
      → (load_locked s).0 ≡ ok d
      → is_empty r.id ≡ true
      → any (has_id (generate_id (codes "sn") c.random)) d.snippets ≡ false

  pub save_snippet-IsValid :
      (c : Call) (r : SnippetRecord) (s : Store)
      → IsFresh c r s
      → StoreIsValid lower s
      → StoreIsValid lower (save_snippet lower c r s).1
  unfolding save_snippet
  save_snippet-IsValid c r s fresh = KeepsAt-check lower s _ _ (
      KeepsAt-raise_if lower s _ _ _ (λ _. KeepsAt-raise_if lower s _ _ _ (λ _.
        KeepsAt-raise_if lower s _ _ _ (λ _. KeepsAt-load lower s _ (λ d e v.
          Keeps-raise_if lower _ _ _ (λ _.
            insert_or_update-Keeps c (record r { name = trim_space r.name }) d (fresh d e) v))))))

  delete_if-Keeps :
      (b : Bool) (c : Call) (d : Snapshot) → IsValid lower d → Keeps lower (delete_if b c d)
  delete_if-Keeps true c d v = Keeps-write_last lower _ _ _ (IsValid-stamp lower _ _ v)
  delete_if-Keeps false c d v = Keeps-pure lower _

  pub delete_snippet-Keeps : (c : Call) (id : Text) → Keeps lower (delete_snippet c id)
  unfolding delete_snippet
  delete_snippet-Keeps c id = Keeps-check lower _ _ (
      Keeps-raise_if lower _ _ _ (λ _. Keeps-load lower _ (λ d v. delete_if-Keeps _ c _ (
        IsValid-snippets lower d _ (IsDistinct-filter same_id _ d.snippets v.ids)
          (IsDistinct-filter (same_name lower) _ d.snippets v.names) v))))
