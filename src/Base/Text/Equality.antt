-- ===== src/Base/Text/Equality.antt =====
-- The Boolean equality of texts decides equality.
use sipdemo.Base.{◌≡◌, ◌↔◌, true, [], ◌∷◌, arith}
use sipdemo.Base.Text.{Text, text_eq}

pub text_eq_iff : (a b : Text) → (text_eq a b ≡ true) ↔ (a ≡ b)
unfolding text_eq
text_eq_iff [] [] = ground arith
text_eq_iff [] (y ∷ b) = ground arith
text_eq_iff (x ∷ a) [] = ground arith
text_eq_iff (x ∷ a) (y ∷ b) = ground (arith, text_eq_iff a b)
