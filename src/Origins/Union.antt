-- ===== src/Origins/Union.antt =====
-- The list of all origins, as the Set of the code collects it.
use orbit_stream_backend.Common.{
  ◌≡◌, refl, sym, ap, ◌∙◌, inl, inr, Bool, true, false, ◌||◌, List, [], ◌∷◌, ◌++◌, any, arith,
  Bool-cases,
}
use orbit_stream_backend.Common.Text.{Text, text_eq, text_eq_iff}
use orbit_stream_backend.Merchants.{Merchant, Directory, or_empty}
use orbit_stream_backend.Origins.{contains, add_all, add_merchants, all_origins}

-- No text stands twice.
abbrev pub IsDistinct : List Text → Type 0
IsDistinct [] = Unit
IsDistinct (o ∷ os) = (contains os o ≡ false) × IsDistinct os

abbrev pub IsUnion : List Text → Directory → Type 0
IsUnion os d =
    ((o : Text) → contains os o ≡ any (λ m. contains (or_empty m.cors_origins) o) d.merchants)
    × IsDistinct os

pub any-append : (p : Text → Bool) (os xs : List Text) → any p (os ++ xs) ≡ any p os || any p xs
any-append p [] xs = refl
any-append p (y ∷ ys) xs = rw (any-append p ys xs) (ground arith)

any_contained :
    (p : Text → Bool) (os : List Text) (x : Text)
    → contains os x ≡ true
    → p x ≡ true
    → any p os ≡ true
any_contained p [] x has holds = has
any_contained p (y ∷ ys) x has holds = elim (Bool-cases (text_eq x y)) [
  | inl b ↦ ap (λ t. p t || any p ys) (sym ((text_eq_iff x y).0 b)) ∙ rw holds refl
  | inr b ↦ rw (any_contained p ys x (ground (arith, has, b)) holds) (ground arith)
]

or_contained :
    (p : Text → Bool) (os : List Text) (x : Text)
    → contains os x ≡ true
    → any p os ≡ any p os || p x
or_contained p os x has = elim (Bool-cases (p x)) [
  | inl b ↦ rw (b, any_contained p os x has b) refl
  | inr b ↦ rw b (ground arith)
]

or_assoc : (a b c : Bool) → (a || b) || c ≡ a || (b || c)
or_assoc a b c = ground arith

any-add_all : (p : Text → Bool) (xs os : List Text) → any p (add_all os xs) ≡ any p os || any p xs
any-add_all p [] os = ground arith
any-add_all p (x ∷ xs) os = elim (Bool-cases (contains os x)) [
  | inl b ↦
      rw (b, any-add_all p xs os)
        (ap (λ b'. b' || any p xs) (or_contained p os x b) ∙ or_assoc (any p os) (p x) (any p xs))
  | inr b ↦ rw (b, any-add_all p xs (os ++ x ∷ []), any-append p os (x ∷ [])) (ground arith)
]

any-add_merchants :
    (p : Text → Bool) (ms : List Merchant) (os : List Text)
    → any p (add_merchants os ms) ≡ any p os || any (λ m. any p (or_empty m.cors_origins)) ms
any-add_merchants p [] os = ground arith
any-add_merchants p (m ∷ ms) os =
    rw
      (
        any-add_merchants p ms (add_all os (or_empty m.cors_origins)),
        any-add_all p (or_empty m.cors_origins) os,
      )
      (ground arith)

-- A test holds for one of the origins exactly if it does for one of a merchant.
pub any-all_origins :
    (p : Text → Bool) (d : Directory)
    → any p (all_origins d) ≡ any (λ m. any p (or_empty m.cors_origins)) d.merchants
any-all_origins p d = any-add_merchants p d.merchants []

text_eq_comm : (a b : Text) → text_eq a b ≡ false → text_eq b a ≡ false
text_eq_comm a b differ = elim (Bool-cases (text_eq b a)) [
  | inl same ↦
      ap (λ t. text_eq t a) ((text_eq_iff b a).0 same)
      ∙ sym (ap (text_eq a) ((text_eq_iff b a).0 same))
      ∙ differ
  | inr other ↦ other
]

IsDistinct-append :
    (os : List Text) (x : Text) → IsDistinct os → contains os x ≡ false → IsDistinct (os ++ x ∷ [])
IsDistinct-append [] x h new = (refl, tt)
IsDistinct-append (y ∷ ys) x (first, rest) new = (
  any-append (text_eq y) ys (x ∷ []) ∙ rw (first, text_eq_comm x y (ground (arith, new))) refl,
  IsDistinct-append ys x rest (ground (arith, new)),
)

IsDistinct-add_all : (xs os : List Text) → IsDistinct os → IsDistinct (add_all os xs)
IsDistinct-add_all [] os h = h
IsDistinct-add_all (x ∷ xs) os h = elim (Bool-cases (contains os x)) [
  | inl b ↦ rw b (IsDistinct-add_all xs os h)
  | inr b ↦ rw b (IsDistinct-add_all xs (os ++ x ∷ []) (IsDistinct-append os x h b))
]

IsDistinct-add_merchants :
    (ms : List Merchant) (os : List Text) → IsDistinct os → IsDistinct (add_merchants os ms)
IsDistinct-add_merchants [] os h = h
IsDistinct-add_merchants (m ∷ ms) os h =
    IsDistinct-add_merchants ms (add_all os (or_empty m.cors_origins))
      (IsDistinct-add_all (or_empty m.cors_origins) os h)

-- The list of all origins has exactly the origins that some merchant has, and none of them twice.
pub all_origins-IsUnion : (d : Directory) → IsUnion (all_origins d) d
all_origins-IsUnion d =
    (λ o. any-all_origins (text_eq o) d, IsDistinct-add_merchants d.merchants [] tt)
