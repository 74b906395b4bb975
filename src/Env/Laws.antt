-- ===== src/Env/Laws.antt =====
-- About Upsert and List of internal/env/service.go.
use gopoke.Base.{
  ◌+◌, ◌≡◌, refl, Bool, false, ◌&&◌, not, none, List, count, count-filter, ok, arith, if◌then◌else◌,
}
use gopoke.Base.Sort.{sort, count-sort, IsSorted, IsOrder, sort-IsSorted}
use gopoke.Base.Update.{find}
use gopoke.Text.{Text, is_empty, text_eq_refl, text_lt_asym, text_lt_weak}
use gopoke.Env.{Variable, Service, of_project, has_key, vars_in, put, key_before, upsert, list}

key_before-IsOrder : IsOrder key_before
key_before-IsOrder = record {
  asym = λ x y h. text_lt_asym x.key y.key h;
  weak = λ x y z h k. text_lt_weak x.key y.key z.key h k;
}

-- The list `new` is in the order of the keys, and holds the variable and, of `old`, the variables
-- with other keys, each as often as there.
pub record IsUpserted (v : Variable) (old new : List Variable) : Type 0 where
  pub order : IsSorted key_before new
  pub held :
      (p : Variable → Bool)
      → count p new ≡ (if p v then 1 else 0) + count (λ w. not (has_key v.key w) && p w) old

-- Upsert of a variable with a key, for a project with an identifier, succeeds; List then returns the
-- variables that it returned before, with this one in the place of any of its key, sorted by key.
pub upsert-list :
    (project_id : Text) (v : Variable) (s : Service)
    → is_empty project_id ≡ false
    → is_empty v.key ≡ false
    → let (r, s') = upsert none project_id v s in
      (r ≡ ok tt)
      × ((old : List Variable) × (new : List Variable) × (list none project_id s ≡ ok old)
          × (list none project_id s' ≡ ok new)
          × IsUpserted v old new)
unfolding upsert list find
upsert-list project_id v s owned named =
    let vs = vars_in (find (of_project project_id) s) in
    rw (owned, named)
      (
        refl,
        (
          sort key_before vs,
          sort key_before (put v vs),
          refl,
          rw (text_eq_refl project_id),
          record {
            order = sort-IsSorted key_before key_before-IsOrder (put v vs);
            held = λ p. ground (
              arith,
              count-sort key_before p (put v vs),
              count-sort key_before (λ w. not (has_key v.key w) && p w) vs,
              count-filter p (λ w. not (has_key v.key w)) vs,
            );
          },
        ),
      )
