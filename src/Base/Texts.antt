-- ===== src/Base/Texts.antt =====
-- Texts as lists of characters, compared as `std::string_view` does.
use Prim.Native.Char.{code}
use Prim.Native.Nat.{ℕ, zero, suc, ◌-◌}
use Prim.Native.String.{String}
use mathlib.Core.Path.{◌≡◌, refl, ap}
use mathlib.Core.Bool.{Bool, true, false, ◌&&◌, ◌||◌}
use mathlib.Core.List.{List, [], ◌∷◌, ◌++◌}
use native.Mathlib.Omega.{arith}
use function_patcher_module.Base.Tests.{◌==◌}
use function_patcher_module.Base.Lists.{length, length-append}

abbrev pub Text : Type 0
Text = List ℕ

-- The text of a literal.
abbrev pub text : String → Text
text String.[] = []
text (String.◌∷◌ c s) = code c ∷ text s

unfoldable pub text_eq : Text → Text → Bool
text_eq [] [] = true
text_eq [] (d ∷ t) = false
text_eq (c ∷ s) [] = false
text_eq (c ∷ s) (d ∷ t) = c == d && text_eq s t

pub text_eq_self : (s : Text) → text_eq s s ≡ true
unfolding text_eq
text_eq_self [] = refl
text_eq_self (c ∷ s) = ground (arith, text_eq_self s)

pub text_eq-eq : (s t : Text) → text_eq s t ≡ true → s ≡ t
unfolding text_eq
text_eq-eq [] [] h = refl
text_eq-eq [] (d ∷ t) h = cc
text_eq-eq (c ∷ s) [] h = cc
text_eq-eq (c ∷ s) (d ∷ t) h = ground (arith, text_eq-eq s t)

unfoldable pub ends_with : Text → Text → Bool
unfolding text_eq
ends_with [] s = text_eq [] s
ends_with (c ∷ t) s = text_eq (c ∷ t) s || ends_with t s

pub ends_with-append : (stem s : Text) → ends_with (stem ++ s) s ≡ true
unfolding ends_with
ends_with-append [] [] = refl
ends_with-append [] (c ∷ s) = ground (arith, text_eq_self (c ∷ s))
ends_with-append (c ∷ stem) s = ground (arith, ends_with-append stem s)

-- `s.substr(0, n)`.
abbrev pub take : ℕ → Text → Text
take zero s = []
take (suc n) [] = []
take (suc n) (c ∷ s) = c ∷ take n s

take-append : (s t : Text) → take (length s) (s ++ t) ≡ s
take-append [] t = refl
take-append (c ∷ s) t = ap (◌∷◌ c) (take-append s t)

-- Cutting off the length of the end gives the stem back.
pub take-stem : (s t : Text) → take (length (s ++ t) - length t) (s ++ t) ≡ s
take-stem s t =
    let e : length (s ++ t) - length t ≡ length s = omega (arith, length-append {0} s t) in
    rw e (take-append s t)
