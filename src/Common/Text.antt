-- ===== src/Common/Text.antt =====
-- Go's strings.TrimSpace, and strings.EqualFold against a text of the letters p, u and l, which fold
-- with ASCII letters only.
use Prim.Native.Char.{code}
use Prim.Native.String as Str
use Prim.Native.String.{String}
use mathlib.Core.List.{List, [], ◌∷◌}
use Prim.Native.Nat.{ℕ, ◌+◌}
use llama_labels.Common.Tests.{leb, nat_eq, if◌then◌else◌}
use mathlib.Core.Bool.{Bool, true, false, ◌&&◌, ◌||◌}
use mathlib.Core.Path.{◌≡◌, refl}
use text.Mathlib.Text.{◌==◌}

-- The code points of unicode.White_Space, as ranges.
abbrev white_space : List (ℕ × ℕ)
white_space =
    (9, 13)
    ∷ (32, 32)
    ∷ (133, 133)
    ∷ (160, 160)
    ∷ (5760, 5760)
    ∷ (8192, 8202)
    ∷ (8232, 8233)
    ∷ (8239, 8239)
    ∷ (8287, 8287)
    ∷ (12288, 12288)
    ∷ []

within : List (ℕ × ℕ) → ℕ → Bool
within [] n = false
within ((lo, hi) ∷ rest) n = (leb lo n && leb n hi) || within rest n

-- strings.TrimLeftFunc and TrimRightFunc with unicode.IsSpace.
trim_left_func : String → String
unfolding within
trim_left_func Str.[] = ""
trim_left_func (Str.◌∷◌ c s) = if within white_space (code c) then trim_left_func s else Str.◌∷◌ c s

trim_right_func : String → String
unfolding within
trim_right_func Str.[] = ""
trim_right_func (Str.◌∷◌ c s) =
    let kept = trim_right_func s in
    if kept == "" && within white_space (code c) then "" else Str.◌∷◌ c kept

unfoldable pub trim_space : String → String
unfolding trim_left_func trim_right_func
trim_space s = trim_right_func (trim_left_func s)

-- Whether the character is the ASCII letter, in either case.
abbrev same_letter : ℕ → ℕ → Bool
same_letter c l = nat_eq c l || nat_eq (c + 32) l

pub folds_to : String → String → Bool
folds_to Str.[] Str.[] = true
folds_to (Str.◌∷◌ c s) (Str.◌∷◌ l t) = same_letter (code c) (code l) && folds_to s t
folds_to _ _ = false

-- strings.EqualFold(s, "pull")
unfoldable pub is_pull : String → Bool
unfolding folds_to
is_pull s = folds_to s "pull"

trim_tabs : trim_space " \ta b\n " ≡ "a b"
unfolding trim_space
trim_tabs = refl

folds_case : is_pull "PuLL" ≡ true
unfolding is_pull
folds_case = refl
