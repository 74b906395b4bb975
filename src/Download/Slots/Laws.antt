-- ===== src/Download/Slots/Laws.antt =====
-- About startDownload, finishDownload and CancelDownload of internal/download/manager.go.
use gopoke.Base.{
  ◌≡◌, refl, sym, ap, ◌∙◌, Bool, true, false, ◌||◌, not, Option, none, some, List, [], ◌∷◌, ◌++◌,
  filter, any, ok, arith,
}
use gopoke.Base.Update.{find}
use gopoke.Base.Distinct.{IsDistinct, IsDistinct-append, any-append, any_mono, filter-eq_of_any}
use gopoke.Text.{Text, text_eq_refl, text_eq_sym}
use gopoke.Download.Slots.{
  Slot, Manager, new_manager, of_tool, start_download, finish_download, cancel_slot,
  cancel_download, end_download,
}

abbrev pub same_tool : Slot → Slot → Bool
same_tool x y = of_tool x.tool y

-- The installations that run, and the managers that starts, cancellations and ends of installations
-- lead to, in any order.
pub data Reach : List Slot → Manager → Type 0 where
  fresh : Reach [] new_manager
  started :
      {rs : List Slot} {m : Manager} (s : Slot)
      → (start_download s.tool s.cancel m).0 ≡ ok tt
      → Reach rs m
      → Reach (rs ++ s ∷ []) (start_download s.tool s.cancel m).1
  refused :
      {rs : List Slot} {m : Manager} (s : Slot)
      → any (of_tool s.tool) m.downloading ≡ true
      → Reach rs m
      → Reach rs (start_download s.tool s.cancel m).1
  canceled :
      {rs : List Slot} {m : Manager} (tool : Text) → Reach rs m → Reach rs (cancel_download tool m)
  ended :
      {m : Manager} (before after : List Slot) (s : Slot)
      → Reach (before ++ s ∷ after) m
      → Reach (before ++ after) (end_download s.tool s.cancel m)

-- The slots are those of the installations that run, and no tool has two.
pub record IsManaged (rs : List Slot) (m : Manager) : Type 0 where
  pub slots : m.downloading ≡ rs
  pub tools : IsDistinct same_tool rs

other_tool :
    (x s : Slot) (before after : List Slot)
    → any (same_tool x) (before ++ s ∷ after) ≡ false
    → (of_tool s.tool x ≡ false) × (any (same_tool x) (before ++ after) ≡ false)
other_tool x s before after h =
    let split : (any (same_tool x) before || any (same_tool x) (s ∷ after)) ≡ false =
      sym (any-append (same_tool x) before (s ∷ after)) ∙ h in
    (text_eq_sym x.tool s.tool ∙ ground arith, any-append (same_tool x) before after ∙ ground arith)

remove_one :
    (s : Slot) (before after : List Slot)
    → IsDistinct same_tool (before ++ s ∷ after)
    → (filter (λ x. not (of_tool s.tool x)) (before ++ s ∷ after) ≡ before ++ after)
      × (find (of_tool s.tool) (before ++ s ∷ after) ≡ some s)
      × IsDistinct same_tool (before ++ after)
unfolding find
remove_one s [] after d = (
  rw (text_eq_refl s.tool) (filter-eq_of_any (of_tool s.tool) after d.0),
  rw (text_eq_refl s.tool),
  d.1,
)
remove_one s (x ∷ before) after d =
    let (kept, found, distinct) = remove_one s before after d.1 in
    let (other, alone) = other_tool x s before after d.0 in
    (rw other (ap (λ r. x ∷ r) kept), rw other found, (alone, distinct))

start-IsManaged :
    (s : Slot) (rs : List Slot) (m : Manager) (b : Bool)
    → any (of_tool s.tool) m.downloading ≡ b
    → (start_download s.tool s.cancel m).0 ≡ ok tt
    → IsManaged rs m
    → IsManaged (rs ++ s ∷ []) (start_download s.tool s.cancel m).1
unfolding start_download
start-IsManaged s rs m true e h v = cc (h, e)
start-IsManaged s rs m false e h v = rw e (record {
  slots = ap (λ l. l ++ s ∷ []) v.slots;
  tools = IsDistinct-append same_tool rs s v.tools (
      any_mono (λ y. same_tool y s) (of_tool s.tool) (λ y k. text_eq_sym s.tool y.tool ∙ k) rs
        (ap (any (of_tool s.tool)) (sym v.slots) ∙ e));
})

cancel-slots : (o : Option Slot) (m : Manager) → (cancel_slot o m).downloading ≡ m.downloading
cancel-slots none m = refl
cancel-slots (some s) m = refl

-- Whatever installations are started, refused, canceled and ended, in any order: the slots are
-- exactly the installations that run, and no tool is installed twice at a time.
pub Reach-IsManaged : {rs : List Slot} {m : Manager} → Reach rs m → IsManaged rs m
unfolding start_download end_download finish_download cancel_download
Reach-IsManaged fresh = record { slots = refl; tools = tt }
Reach-IsManaged (started {rs} {m} s e r) = start-IsManaged s rs m _ refl e (Reach-IsManaged r)
Reach-IsManaged (refused {rs} {m} s e r) = rw e (Reach-IsManaged r)
Reach-IsManaged (canceled {rs} {m} tool r) = record {
  slots = cancel-slots (find (of_tool tool) m.downloading) m ∙ (Reach-IsManaged r).slots;
  tools = (Reach-IsManaged r).tools;
}
Reach-IsManaged (ended {m} before after s r) =
    let v = Reach-IsManaged r in
    let (kept, found, distinct) = remove_one s before after v.tools in
    record { slots = ap (filter (λ x. not (of_tool s.tool x))) v.slots ∙ kept; tools = distinct }

-- As long as an installation runs, CancelDownload of its tool calls its cancel function and no
-- other, whatever was started, canceled and ended before.
pub cancel_download_running :
    (m : Manager) (before after : List Slot) (s : Slot)
    → Reach (before ++ s ∷ after) m
    → (cancel_download s.tool m).canceled ≡ s.cancel ∷ m.canceled
unfolding cancel_download
cancel_download_running m before after s r =
    let v = Reach-IsManaged r in
    let (kept, found, distinct) = remove_one s before after v.tools in
    ap (λ o. (cancel_slot o m).canceled) (ap (find (of_tool s.tool)) v.slots ∙ found)
