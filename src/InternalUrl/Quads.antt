-- ===== src/InternalUrl/Quads.antt =====
-- The validator on IPv4 addresses in dotted form.
use orbit_stream_backend.Common.{
  ℕ, ◌+◌, ◌-◌, ◌*◌, ◌==◌, ◌≡◌, refl, sym, ap, subst, append-nil, inl, inr, leb, Bool, true, false,
  ◌&&◌, ◌||◌, [], ◌∷◌, ◌++◌, All, arith, Bool-cases,
}
use orbit_stream_backend.Common.Text.{Text, codes, text_eq, starts_with}
use orbit_stream_backend.InternalUrl.{
  is_second_octet, test_after, in_private_range, to_lower, strip_last, strip_brackets,
  is_private_or_reserved_host,
}

abbrev pub is_digit : ℕ → Bool
is_digit c = leb 48 c && leb c 57

-- The digits of an octet.
abbrev pub IsOctet : Text → Type 0
IsOctet = All (λ c. is_digit c ≡ true)

abbrev pub quad : Text → Text → Text → Text → Text
quad a b c d = a ++ (46 ∷ (b ++ (46 ∷ (c ++ (46 ∷ d)))))

-- Two digits of a number from 16 to 31.
abbrev pub is_16_to_31 : Text → Bool
is_16_to_31 (x ∷ y ∷ []) = let n = 10 * (x - 48) + (y - 48) in leb 16 n && leb n 31
is_16_to_31 _ = false

-- Up to the first dot, both texts are without one.
starts_with_dot :
    (a p s q : Text)
    → IsOctet a
    → IsOctet p
    → starts_with (a ++ (46 ∷ s)) (p ++ (46 ∷ q)) ≡ text_eq a p && starts_with s q
starts_with_dot [] [] s q h k = refl
starts_with_dot [] (x ∷ p) s q h (d, k) = ground (arith, d)
starts_with_dot (x ∷ a) [] s q (d, h) k = ground (arith, d)
starts_with_dot (x ∷ a) (y ∷ p) s q (d, h) (e, k) = rw (starts_with_dot a p s q h k) (ground arith)

text_eq_dot :
    (a p s q : Text)
    → IsOctet a
    → IsOctet p
    → text_eq (a ++ (46 ∷ s)) (p ++ (46 ∷ q)) ≡ text_eq a p && text_eq s q
text_eq_dot [] [] s q h k = refl
text_eq_dot [] (x ∷ p) s q h (d, k) = ground (arith, d)
text_eq_dot (x ∷ a) [] s q (d, h) k = ground (arith, d)
text_eq_dot (x ∷ a) (y ∷ p) s q (d, h) (e, k) = rw (text_eq_dot a p s q h k) (ground arith)

both_true : (a b : Bool) → (a ≡ true → b ≡ true) → (b ≡ true → a ≡ true) → a ≡ b
both_true true b f g = sym (f refl)
both_true false true f g = g refl
both_true false false f g = refl

second_octet : (b s : Text) → IsOctet b → is_second_octet (b ++ (46 ∷ s)) ≡ is_16_to_31 b
second_octet [] [] h = refl
second_octet [] (c ∷ []) h = refl
second_octet [] (c ∷ e ∷ s) h = ground arith
second_octet (x ∷ []) [] h = refl
second_octet (x ∷ []) (c ∷ s) (d, h) = ground arith
second_octet (x ∷ y ∷ []) s (d, (e, h)) =
    both_true _ _ (λ t. ground (arith, d, e, t)) (λ t. ground (arith, d, e, t))
second_octet (x ∷ y ∷ z ∷ b) s (d, (e, (f, h))) = ground (arith, f)

after_dot :
    (a p s : Text) (test : Text → Bool)
    → IsOctet a
    → IsOctet p
    → test_after (p ++ (46 ∷ [])) test (a ++ (46 ∷ s)) ≡ text_eq a p && test s
after_dot [] [] s test h k = refl
after_dot [] (x ∷ p) s test h (d, k) = ground (arith, d)
after_dot (x ∷ a) [] s test (d, h) k = ground (arith, d)
after_dot (x ∷ a) (y ∷ p) s test (d, h) (e, k) = rw (after_dot a p s test h k) (ground arith)

-- Digits and dots.
abbrev is_plain : ℕ → Bool
is_plain c = leb 46 c && leb c 57

abbrev IsPlain : Text → Type 0
IsPlain = All (λ c. is_plain c ≡ true)

octet-IsPlain : (a s : Text) → IsOctet a → IsPlain s → IsPlain (a ++ s)
octet-IsPlain [] s h k = k
octet-IsPlain (x ∷ a) s (d, h) k = (ground (arith, d), octet-IsPlain a s h k)

to_lower-plain : (s : Text) → IsPlain s → to_lower s ≡ s
to_lower-plain [] h = refl
to_lower-plain (c ∷ s) (d, h) = rw (to_lower-plain s h) (ap (λ c'. c' ∷ s) (ground (arith, d)))

strip_last-plain : (s : Text) → IsPlain s → strip_last s ≡ s
strip_last-plain [] h = refl
strip_last-plain (c ∷ []) (d, h) = ground (arith, d)
strip_last-plain (c ∷ e ∷ s) (d, h) = ap (λ t. c ∷ t) (strip_last-plain (e ∷ s) h)

strip_brackets-plain : (s : Text) → IsPlain s → strip_brackets s ≡ s
strip_brackets-plain [] h = refl
strip_brackets-plain (c ∷ s) (d, h) = elim (Bool-cases (c == 91)) [
  | inl b ↦ absurd (ground (arith, d, b))
  | inr b ↦ rw b (strip_last-plain (c ∷ s) (d, h))
]

-- No plain text begins with another character.
not_equal : (s : Text) (x : ℕ) (t : Text) → IsPlain s → leb x 57 ≡ false → text_eq s (x ∷ t) ≡ false
not_equal [] x t h k = refl
not_equal (c ∷ s) x t (d, h) k = ground (arith, d, k)

not_begun :
    (s : Text) (x : ℕ) (t : Text) → IsPlain s → leb x 57 ≡ false → starts_with s (x ∷ t) ≡ false
not_begun [] x t h k = refl
not_begun (c ∷ s) x t (d, h) k = ground (arith, d, k)

abbrev pub is_quad : Text → Text → Text → Text → Text → Text → Text → Text → Bool
is_quad a b c d p q r t = text_eq a p && (text_eq b q && (text_eq c r && text_eq d t))

-- The addresses that are refused.
abbrev pub is_refused : Text → Text → Text → Text → Bool
is_refused a b c d =
    (is_quad a b c d (codes "127") (codes "0") (codes "0") (codes "1")
      || is_quad a b c d (codes "0") (codes "0") (codes "0") (codes "0"))
    || (text_eq a (codes "10")
        || ((text_eq a (codes "172") && is_16_to_31 b)
            || ((text_eq a (codes "192") && text_eq b (codes "168"))
                || (text_eq a (codes "169") && text_eq b (codes "254")))))

quad_lem :
    (a b c d p q r t : Text)
    → IsOctet a
    → IsOctet b
    → IsOctet c
    → IsOctet p
    → IsOctet q
    → IsOctet r
    → text_eq (quad a b c d) (quad p q r t) ≡ is_quad a b c d p q r t
quad_lem a b c d p q r t ha hb hc hp hq hr =
    rw
      (
        text_eq_dot a p (b ++ (46 ∷ (c ++ (46 ∷ d)))) (q ++ (46 ∷ (r ++ (46 ∷ t)))) ha hp,
        text_eq_dot b q (c ++ (46 ∷ d)) (r ++ (46 ∷ t)) hb hq,
        text_eq_dot c r d t hc hr,
      )
      refl

one_digit : (x : ℕ) → is_digit x ≡ true → IsOctet (x ∷ [])
one_digit x h = (h, tt)

three_digits :
    (x y z : ℕ)
    → is_digit x ≡ true
    → is_digit y ≡ true
    → is_digit z ≡ true
    → IsOctet (x ∷ y ∷ z ∷ [])
three_digits x y z h k l = (h, (k, (l, tt)))

or_of_ranges :
    (a b c d e f g : Bool)
    → (a && true || b && c || d && (e && true) || f && (g && true) || false || false)
      ≡ (a || ((b && c) || ((d && e) || (f && g))))
or_of_ranges a b c d e f g = ground arith

private_quad :
    (a b s : Text)
    → IsOctet a
    → IsOctet b
    → IsPlain (a ++ (46 ∷ (b ++ (46 ∷ s))))
    → in_private_range (a ++ (46 ∷ (b ++ (46 ∷ s))))
      ≡ text_eq a (codes "10")
        || ((text_eq a (codes "172") && is_16_to_31 b)
            || ((text_eq a (codes "192") && text_eq b (codes "168"))
                || (text_eq a (codes "169") && text_eq b (codes "254"))))
private_quad a b s ha hb plain =
    rw
      (
        starts_with_dot a (codes "10") (b ++ (46 ∷ s)) [] ha (refl, (refl, tt)),
        after_dot a (codes "172") (b ++ (46 ∷ s)) is_second_octet ha
            (three_digits 49 55 50 refl refl refl),
        second_octet b s hb,
        starts_with_dot a (codes "192") (b ++ (46 ∷ s)) (codes "168.") ha
            (three_digits 49 57 50 refl refl refl),
        starts_with_dot b (codes "168") s [] hb (three_digits 49 54 56 refl refl refl),
        starts_with_dot a (codes "169") (b ++ (46 ∷ s)) (codes "254.") ha
            (three_digits 49 54 57 refl refl refl),
        starts_with_dot b (codes "254") s [] hb (three_digits 50 53 52 refl refl refl),
        not_begun (a ++ (46 ∷ (b ++ (46 ∷ s)))) 102 (codes "c00:") plain refl,
        not_begun (a ++ (46 ∷ (b ++ (46 ∷ s)))) 102 (codes "e80:") plain refl,
      )
      (or_of_ranges (text_eq a (codes "10")) (text_eq a (codes "172")) (is_16_to_31 b)
        (text_eq a (codes "192")) (text_eq b (codes "168")) (text_eq a (codes "169"))
        (text_eq b (codes "254")))

or_of_hosts :
    (a b c : Bool) → (false || (a || (b || (false || (false || false))))) || c ≡ (a || b) || c
or_of_hosts a b c = ground arith

-- An IPv4 address in dotted form is refused exactly if it is 127.0.0.1 or 0.0.0.0 or lies in 10/8, in
-- 172.16/12, in 192.168/16 or in 169.254/16.
pub is_private_or_reserved_host-quad :
    (a b c d : Text)
    → IsOctet a
    → IsOctet b
    → IsOctet c
    → IsOctet d
    → is_private_or_reserved_host (quad a b c d) ≡ is_refused a b c d
unfolding is_private_or_reserved_host
is_private_or_reserved_host-quad a b c d ha hb hc hd =
    rw
      (
        to_lower-plain (quad a b c d) plain,
        strip_brackets-plain (quad a b c d) plain,
        not_equal (quad a b c d) 108 (codes "ocalhost") plain refl,
        quad_lem a b c d (codes "127") (codes "0") (codes "0") (codes "1") ha hb hc
            (three_digits 49 50 55 refl refl refl) (one_digit 48 refl) (one_digit 48 refl),
        quad_lem a b c d (codes "0") (codes "0") (codes "0") (codes "0") ha hb hc
            (one_digit 48 refl) (one_digit 48 refl) (one_digit 48 refl),
        not_equal (quad a b c d) 58 (codes ":1") plain refl,
        not_equal (quad a b c d) 109 (codes "etadata.google.internal") plain refl,
        private_quad a b (c ++ (46 ∷ d)) ha hb plain,
      )
      (or_of_hosts (is_quad a b c d (codes "127") (codes "0") (codes "0") (codes "1"))
        (is_quad a b c d (codes "0") (codes "0") (codes "0") (codes "0")) _)
  where
    end : IsPlain d
    end = subst IsPlain (append-nil d) (octet-IsPlain d [] hd tt)

    plain : IsPlain (quad a b c d)
    plain =
        octet-IsPlain a _ ha (refl, octet-IsPlain b _ hb (refl, octet-IsPlain c _ hc (refl, end)))
