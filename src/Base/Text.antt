-- ===== src/Base/Text.antt =====
-- Strings as the lists of their UTF-16 code units, with the operations on them that the scripts use.
use certguard.Base.Tests.{ltb, ◌==◌}
use native.Mathlib.Omega.{arith}
use mathlib.Core.Path.{◌≡◌, refl}
use Prim.Native.Nat.{ℕ}
use mathlib.Core.Bool.{Bool, true, false, ◌&&◌, ◌||◌}
use mathlib.Core.List.{List, [], ◌∷◌, ◌++◌}

abbrev pub Text : Type 0
Text = List ℕ

-- `s === t`
abbrev pub same : Text → Text → Bool
same [] [] = true
same [] (_ ∷ _) = false
same (_ ∷ _) [] = false
same (x ∷ xs) (y ∷ ys) = (x == y) && same xs ys

-- `s < t`
abbrev pub before : Text → Text → Bool
before [] [] = false
before [] (_ ∷ _) = true
before (_ ∷ _) [] = false
before (x ∷ xs) (y ∷ ys) = ltb x y || ((x == y) && before xs ys)

-- `s.startsWith(t)`, the prefix first
abbrev pub starts : Text → Text → Bool
starts [] s = true
starts (_ ∷ _) [] = false
starts (x ∷ xs) (y ∷ ys) = (x == y) && starts xs ys

-- `s.includes(t)`
abbrev pub includes : Text → Text → Bool
includes [] t = starts t []
includes (x ∷ xs) t = starts t (x ∷ xs) || includes xs t

-- A string in a test is truthy when it is not empty.
abbrev pub is_set : Text → Bool
is_set [] = false
is_set (_ ∷ _) = true

-- `xs.join(sep)`
abbrev pub join : Text → List Text → Text
join sep [] = []
join sep (x ∷ []) = x
join sep (x ∷ y ∷ ys) = x ++ (sep ++ join sep (y ∷ ys))

pub same_refl : (s : Text) → same s s ≡ true
same_refl [] = refl
same_refl (x ∷ xs) = let ih = same_refl xs in ground arith

pub same-sym : (s t : Text) → same s t ≡ same t s
same-sym [] [] = refl
same-sym [] (_ ∷ _) = refl
same-sym (_ ∷ _) [] = refl
same-sym (x ∷ xs) (y ∷ ys) = let ih = same-sym xs ys in ground (arith, ih)

pub same→≡ : (s t : Text) → same s t ≡ true → s ≡ t
same→≡ [] [] h = refl
same→≡ [] (_ ∷ _) h = absurd cc
same→≡ (_ ∷ _) [] h = absurd cc
same→≡ (x ∷ xs) (y ∷ ys) h = ap2 (heads h) (same→≡ xs ys (ground arith))
  where
    heads : same (x ∷ xs) (y ∷ ys) ≡ true → x ≡ y
    heads h = ground arith

    ap2 : {x y : ℕ} {xs ys : Text} → x ≡ y → xs ≡ ys → x ∷ xs ≡ y ∷ ys
    ap2 p q = cc
