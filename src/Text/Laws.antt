-- ===== src/Text/Laws.antt =====
-- Equality of texts decides equality, and their order is total.
use gopoke.Base.{◌≡◌, refl, ◌↔◌, true, false, [], ◌∷◌, arith}
use gopoke.Text.Defs.{Text, text_eq, text_lt}

pub text_eq_refl : (a : Text) → text_eq a a ≡ true
unfolding text_eq
text_eq_refl [] = refl
text_eq_refl (x ∷ xs) = ground (arith, text_eq_refl xs)

pub eq_of_text_eq : (a b : Text) → text_eq a b ≡ true → a ≡ b
unfolding text_eq
eq_of_text_eq [] [] h = refl
eq_of_text_eq [] (y ∷ ys) h = cc
eq_of_text_eq (x ∷ xs) [] h = cc
eq_of_text_eq (x ∷ xs) (y ∷ ys) h = ground (arith, eq_of_text_eq xs ys)

pub text_eq_iff : (a b : Text) → (text_eq a b ≡ true) ↔ (a ≡ b)
text_eq_iff a b = (eq_of_text_eq a b, λ e. rw e (text_eq_refl b))

pub text_lt_asym : (a b : Text) → text_lt a b ≡ true → text_lt b a ≡ false
unfolding text_lt
text_lt_asym [] [] h = refl
text_lt_asym [] (y ∷ ys) h = refl
text_lt_asym (x ∷ xs) [] h = cc
text_lt_asym (x ∷ xs) (y ∷ ys) h = ground (arith, text_lt_asym xs ys)

pub text_lt_weak : (a b c : Text) → text_lt b a ≡ false → text_lt c b ≡ false → text_lt c a ≡ false
unfolding text_lt
text_lt_weak [] [] c h k = k
text_lt_weak [] (y ∷ ys) [] h k = refl
text_lt_weak [] (y ∷ ys) (z ∷ zs) h k = refl
text_lt_weak (x ∷ xs) [] c h k = cc
text_lt_weak (x ∷ xs) (y ∷ ys) [] h k = cc
text_lt_weak (x ∷ xs) (y ∷ ys) (z ∷ zs) h k = ground (arith, text_lt_weak xs ys zs)

pub text_eq_sym : (a b : Text) → text_eq a b ≡ text_eq b a
unfolding text_eq
text_eq_sym [] [] = refl
text_eq_sym [] (y ∷ ys) = refl
text_eq_sym (x ∷ xs) [] = refl
text_eq_sym (x ∷ xs) (y ∷ ys) = ground (arith, text_eq_sym xs ys)
