-- ===== src/Prelude/Texts.antt =====
-- Rust's `String` and `&str` as their UTF-8 bytes. `text` spells an ASCII literal.
use Prim.Native.Char.{code}
use Prim.Native.Nat.{ℕ}
use Prim.Native.String.{String}
use mathlib.Core.Bool.{Bool, true, false, ◌&&◌}
use mathlib.Core.Path.{◌≡◌, refl}
use mathlib.Core.List.{List, [], ◌∷◌, ◌++◌}
use native.Mathlib.Omega.{arith}
use axon_task.Prelude.Tests.{◌==◌}
use axon_task.Prelude.Lists.{length}

abbrev pub Text : Type 0
Text = List ℕ

unfoldable pub text : String → Text
text String.[] = []
text (String.◌∷◌ c s) = code c ∷ text s

-- `a == b` on strings.
unfoldable pub text_eq : Text → Text → Bool
text_eq [] [] = true
text_eq [] (y ∷ ys) = false
text_eq (x ∷ xs) [] = false
text_eq (x ∷ xs) (y ∷ ys) = x == y && text_eq xs ys

-- `text.starts_with(prefix)`
unfoldable pub starts_with : Text → Text → Bool
starts_with s [] = true
starts_with [] (p ∷ ps) = false
starts_with (x ∷ xs) (p ∷ ps) = x == p && starts_with xs ps

pub eq_of_text_eq : (a b : Text) → text_eq a b ≡ true → a ≡ b
unfolding text_eq
eq_of_text_eq [] [] h = refl
eq_of_text_eq [] (y ∷ ys) h = ground arith
eq_of_text_eq (x ∷ xs) [] h = ground arith
eq_of_text_eq (x ∷ xs) (y ∷ ys) h = ground (arith, eq_of_text_eq xs ys)

pub text_eq_refl : (a : Text) → text_eq a a ≡ true
unfolding text_eq
text_eq_refl [] = refl
text_eq_refl (x ∷ xs) = ground (arith, text_eq_refl xs)

pub text_eq_of_eq : (a b : Text) → a ≡ b → text_eq a b ≡ true
text_eq_of_eq a b h = rw h (text_eq_refl b)

pub append-cancel_left : (p a b : Text) → p ++ a ≡ p ++ b → a ≡ b
append-cancel_left [] a b h = h
append-cancel_left (x ∷ p) a b h = append-cancel_left p a b (ground arith)

-- Two lists that begin with parts of one length are equal part by part.
pub append-cancel : (a b x y : Text) → length a ≡ length b → a ++ x ≡ b ++ y → (a ≡ b) × (x ≡ y)
append-cancel [] [] x y l h = (refl, h)
append-cancel [] (v ∷ b) x y l h = absurd (omega arith)
append-cancel (u ∷ a) [] x y l h = absurd (omega arith)
append-cancel (u ∷ a) (v ∷ b) x y l h =
    let (p, q) = append-cancel a b x y (omega arith) (ground arith) in (ground arith, q)
