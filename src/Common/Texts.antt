-- ===== src/Common/Texts.antt =====
-- Texts as lists of UTF-16 code units: equality, `split`, and string literals.
use Prim.Native.Nat.{ℕ}
use Prim.Native.Char.{code}
use Prim.Native.String.{String}
use mathlib.Core.Path.{◌≡◌, refl}
use mathlib.Core.Logic.{◌↔◌}
use mathlib.Core.Bool.{Bool, true, false, ◌&&◌, ◌||◌}
use mathlib.Core.List.{List, [], ◌∷◌, ◌++◌}
use native.Mathlib.Omega.{arith}
use towerdesk_backend.Common.Tests.{if◌then◌else◌, Eq, nat_beq, leb}
use towerdesk_backend.Common.Lists.{any, is_empty}

-- The code units of a literal in ASCII.
abbrev pub codes : String → List ℕ
codes String.[] = []
codes (String.◌∷◌ c s) = code c ∷ codes s

abbrev pub text_beq : List ℕ → List ℕ → Bool
text_beq [] [] = true
text_beq [] (y ∷ ys) = false
text_beq (x ∷ xs) [] = false
text_beq (x ∷ xs) (y ∷ ys) = nat_beq x y && text_beq xs ys

pub text_beq_iff : (s t : List ℕ) → (text_beq s t ≡ true) ↔ (s ≡ t)
text_beq_iff [] [] = ground arith
text_beq_iff [] (y ∷ ys) = ground arith
text_beq_iff (x ∷ xs) [] = ground arith
text_beq_iff (x ∷ xs) (y ∷ ys) = ground (arith, text_beq_iff xs ys)

instance abbrev pub text_eq : Eq (List ℕ)
text_eq = record { beq = text_beq; beq_iff = text_beq_iff }

-- The first part grows by a code unit.
abbrev extend : ℕ → List (List ℕ) → List (List ℕ)
extend c [] = (c ∷ []) ∷ []
extend c (part ∷ parts) = (c ∷ part) ∷ parts

-- `text.split(separator)`, for a separator of one code unit
unfoldable pub split_on : ℕ → List ℕ → List (List ℕ)
split_on separator [] = [] ∷ []
split_on separator (c ∷ cs) =
    let parts = split_on separator cs in if nat_beq c separator then [] ∷ parts else extend c parts

-- The text does not have the code unit.
abbrev pub Lacks : ℕ → List ℕ → Type 0
Lacks c text = any (λ x. nat_beq x c) text ≡ false

pub split_on_whole : (c : ℕ) (s : List ℕ) → Lacks c s → split_on c s ≡ s ∷ []
unfolding split_on any
split_on_whole c [] h = refl
split_on_whole c (x ∷ s) h = ground (arith, split_on_whole c s)

-- Two parts without the separator, joined by it, are split again.
pub split_on_joined :
    (c : ℕ) (s t : List ℕ) → Lacks c s → Lacks c t → split_on c (s ++ c ∷ t) ≡ s ∷ t ∷ []
unfolding split_on any
split_on_joined c [] t h k = ground (arith, split_on_whole c t k)
split_on_joined c (x ∷ s) t h k = ground (arith, split_on_joined c s t)

-- White space and line terminators, as `trim` takes them.
abbrev pub is_space : ℕ → Bool
is_space c =
    (leb 9 c && leb c 13)
    || (nat_beq c 32
        || (nat_beq c 160
            || (nat_beq c 5760
                || ((leb 8192 c && leb c 8202)
                    || (nat_beq c 8232
                        || (nat_beq c 8233
                            || (nat_beq c 8239
                                || (nat_beq c 8287 || (nat_beq c 12288 || nat_beq c 65279)))))))))

unfoldable pub trim_start : List ℕ → List ℕ
trim_start [] = []
trim_start (c ∷ cs) = let rest = trim_start cs in if is_space c then rest else c ∷ cs

unfoldable pub trim_end : List ℕ → List ℕ
trim_end [] = []
trim_end (c ∷ cs) = let rest = trim_end cs in if is_space c && is_empty rest then [] else c ∷ rest

-- `text.trim()`
unfoldable pub trim : List ℕ → List ℕ
unfolding trim_start trim_end
trim text = trim_end (trim_start text)
