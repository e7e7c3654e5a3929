-- ===== src/Sip/Message/Headers.antt =====
-- The header operations of `SipMessage` (src/sip/SipParser.cpp) as laws of one list.
use mathlib.Core.List.{append-nil}
use sipdemo.Base.{
  ◌≡◌, refl, sym, ap, ◌∙◌, true, Bool-cases, inl, inr, List, [], ◌∷◌, ◌++◌, Option, none, some,
  arith, if◌then◌else◌, length,
}
use sipdemo.Base.Text.{Text}
use sipdemo.Sip.Message.{
  Header, SipMessage, iequals, same_letters, get_in, get_all_in, remove_in, get, get_all, set,
}

same_letters_refl : (a : Text) → same_letters a a ≡ true
unfolding same_letters
same_letters_refl [] = refl
same_letters_refl (c ∷ a) = ground (arith, same_letters_refl a)

same_letters_sym : (a b : Text) → length a ≡ length b → same_letters a b ≡ same_letters b a
unfolding same_letters
same_letters_sym [] [] h = refl
same_letters_sym [] (d ∷ b) h = absurd (omega arith)
same_letters_sym (c ∷ a) [] h = absurd (omega arith)
same_letters_sym (c ∷ a) (d ∷ b) h = ground (arith, same_letters_sym a b (omega arith))

same_letters_trans :
    (a b c : Text)
    → length a ≡ length b
    → length b ≡ length c
    → same_letters a b ≡ true
    → same_letters b c ≡ true
    → same_letters a c ≡ true
unfolding same_letters
same_letters_trans [] b c h k p q = refl
same_letters_trans (x ∷ a) [] c h k p q = absurd (omega arith)
same_letters_trans (x ∷ a) (y ∷ b) [] h k p q = absurd (omega arith)
same_letters_trans (x ∷ a) (y ∷ b) (z ∷ c) h k p q =
    let ih = same_letters_trans a b c (omega arith) (omega arith) in ground (arith, ih)

-- `iequals` is an equivalence.
pub iequals_refl : (a : Text) → iequals a a ≡ true
unfolding iequals
iequals_refl a = ground (arith, same_letters_refl a)

pub iequals_sym : (a b : Text) → iequals a b ≡ true → iequals b a ≡ true
unfolding iequals
iequals_sym a b h =
    let same : length a ≡ length b = ground arith in ground (arith, same_letters_sym a b same)

pub iequals_trans : (a b c : Text) → iequals a b ≡ true → iequals b c ≡ true → iequals a c ≡ true
unfolding iequals
iequals_trans a b c h k =
    let same : length a ≡ length b = ground arith in
    let same' : length b ≡ length c = ground arith in
    ground (arith, same_letters_trans a b c same same')

-- The first of two optional values.
abbrev pub first : Option Text → Option Text → Option Text
first none b = b
first (some a) b = some a

pub first-none : (a : Option Text) → first a none ≡ a
first-none none = refl
first-none (some a) = refl

-- Two names that are equal to a third agree on every name.
iequals_cong : (a b c : Text) → iequals a b ≡ true → iequals a c ≡ iequals b c
iequals_cong a b c h = elim (Bool-cases (iequals a c)) [
  | inl ac ↦ ac ∙ sym (iequals_trans b a c (iequals_sym a b h) ac)
  | inr ac ↦ elim (Bool-cases (iequals b c)) [
    | inl bc ↦ absurd (let ac' = iequals_trans a b c h bc in cc)
    | inr bc ↦ ac ∙ sym bc
  ]
]

pub get_in-append :
    (hs ks : List Header) (n : Text) → get_in (hs ++ ks) n ≡ first (get_in hs n) (get_in ks n)
unfolding get_in
get_in-append [] ks n = refl
get_in-append ((m, v) ∷ hs) ks n = elim (Bool-cases (iequals m n)) [
  | inl same ↦ rw same
  | inr other ↦ rw other (get_in-append hs ks n)
]

pub get_all_in-append :
    (hs ks : List Header) (n : Text) → get_all_in (hs ++ ks) n ≡ get_all_in hs n ++ get_all_in ks n
unfolding get_all_in
get_all_in-append [] ks n = refl
get_all_in-append ((m, v) ∷ hs) ks n = elim (Bool-cases (iequals m n)) [
  | inl same ↦ rw same (ap (◌∷◌ v) (get_all_in-append hs ks n))
  | inr other ↦ rw other (get_all_in-append hs ks n)
]

pub get_in-remove_in :
    (hs : List Header) (n k : Text)
    → get_in (remove_in hs n) k ≡ (if iequals n k then none else get_in hs k)
unfolding get_in remove_in
get_in-remove_in [] n k = ground arith
get_in-remove_in ((m, v) ∷ hs) n k = elim (Bool-cases (iequals m n)) [
  | inl same ↦ rw (same, iequals_cong m n k same) (get_in-remove_in hs n k ∙ ground arith)
  | inr other ↦ rw other (elim (Bool-cases (iequals m k)) [
    | inr not_k ↦ rw not_k (get_in-remove_in hs n k)
    | inl is_k ↦ elim (Bool-cases (iequals n k)) [
      | inr differ ↦ rw (is_k, differ)
      | inl n_is_k ↦ absurd (let wrong = iequals_trans m k n is_k (iequals_sym n k n_is_k) in cc)
    ]
  ])
]

get_all_in-remove_in :
    (hs : List Header) (n k : Text)
    → get_all_in (remove_in hs n) k ≡ (if iequals n k then [] else get_all_in hs k)
unfolding get_all_in remove_in
get_all_in-remove_in [] n k = ground arith
get_all_in-remove_in ((m, v) ∷ hs) n k = elim (Bool-cases (iequals m n)) [
  | inl same ↦ rw (same, iequals_cong m n k same) (get_all_in-remove_in hs n k ∙ ground arith)
  | inr other ↦ rw other (elim (Bool-cases (iequals m k)) [
    | inr not_k ↦ rw not_k (get_all_in-remove_in hs n k)
    | inl is_k ↦ elim (Bool-cases (iequals n k)) [
      | inr differ ↦ rw (is_k, differ) (ap (◌∷◌ v) (get_all_in-remove_in hs n k ∙ rw differ))
      | inl n_is_k ↦ absurd (let wrong = iequals_trans m k n is_k (iequals_sym n k n_is_k) in cc)
    ]
  ])
]

-- `set` leaves exactly one header of the name, whatever its case was and how many there were, and
-- keeps the values of every other name in their order.
pub get_all-set :
    (m : SipMessage) (n v k : Text)
    → get_all (set m n v) k ≡ (if iequals n k then v ∷ [] else get_all m k)
get_all-set m n v k =
    get_all_in-append (remove_in m.headers n) ((n, v) ∷ []) k
    ∙ (rw (get_all_in-remove_in m.headers n k) (elim (Bool-cases (iequals n k)) [
      | inl same ↦ unfold get_all_in in rw same
      | inr other ↦ unfold get_all_in in rw other (append-nil (get_all_in m.headers k))
    ]))

pub get-set :
    (m : SipMessage) (n v k : Text) → get (set m n v) k ≡ (if iequals n k then some v else get m k)
get-set m n v k =
    get_in-append (remove_in m.headers n) ((n, v) ∷ []) k
    ∙ (rw (get_in-remove_in m.headers n k) (elim (Bool-cases (iequals n k)) [
      | inl same ↦ unfold get_in in rw same
      | inr other ↦ unfold get_in in rw other (first-none (get_in m.headers k))
    ]))
