-- ===== src/Prelude/Texts.antt =====
-- Tests of texts, and their parts put together.
use Prim.Native.Nat.{ℕ, zero, suc, ◌/◌, ◌%◌}
use Prim.Native.Char.{code}
use Prim.Native.String
use Prim.Native.String.{String}
use mathlib.Core.Bool.{Bool, true, false, ◌&&◌, ◌||◌}
use mathlib.Core.List.{List, [], ◌∷◌}
use mathlib.Core.Path.{◌≡◌, refl}
use mathlib.Core.Option.{Option, none, some}
use text.Mathlib.Text.{◌==◌}
use text.Mathlib.TextEquality.{eq_iff}
use open_graph_memory.Prelude.Tests.{ltb, eqb, if◌then◌else◌}

-- the code points of a text
abbrev pub codes : String → List ℕ
codes String.[] = []
codes (String.◌∷◌ c s) = code c ∷ codes s

abbrev pub codes_eq : List ℕ → List ℕ → Bool
codes_eq [] [] = true
codes_eq (a ∷ xs) (b ∷ ys) = eqb a b && codes_eq xs ys
codes_eq _ _ = false

-- `ys.startswith(xs)`
abbrev pub starts_codes : List ℕ → List ℕ → Bool
starts_codes [] ys = true
starts_codes (x ∷ xs) [] = false
starts_codes (x ∷ xs) (y ∷ ys) = eqb x y && starts_codes xs ys

-- `bool(s)`: an empty text is false
abbrev pub is_text : String → Bool
is_text String.[] = false
is_text (String.◌∷◌ c s) = true

-- `bool(s)` for `str | None`
abbrev pub is_given : Option String → Bool
is_given none = false
is_given (some s) = is_text s

-- `o == t` for `str | None`
abbrev pub opt_eq : Option String → String → Bool
opt_eq none t = false
opt_eq (some s) t = s == t

-- `s in xs`
abbrev pub contains : List String → String → Bool
contains [] s = false
contains (x ∷ xs) s = x == s || contains xs s

-- the texts of a formatted literal, one after the other
abbrev pub join : List String → String
join [] = ""
join (s ∷ ss) = String.◌++◌ s (join ss)

abbrev digit : ℕ → String
digit zero = "0"
digit (suc zero) = "1"
digit (suc (suc zero)) = "2"
digit (suc (suc (suc zero))) = "3"
digit (suc (suc (suc (suc zero)))) = "4"
digit (suc (suc (suc (suc (suc zero))))) = "5"
digit (suc (suc (suc (suc (suc (suc zero)))))) = "6"
digit (suc (suc (suc (suc (suc (suc (suc zero))))))) = "7"
digit (suc (suc (suc (suc (suc (suc (suc (suc zero)))))))) = "8"
digit (suc (suc (suc (suc (suc (suc (suc (suc (suc n))))))))) = "9"

decimal_from : ℕ → ℕ → String
decimal_from zero n = ""
decimal_from (suc fuel) n =
    let rest = decimal_from fuel (n / 10) in
    if ltb n 10 then digit n else String.◌++◌ rest (digit (n % 10))

-- `str(n)`: a number has at most n + 1 digits.
unfoldable pub decimal : ℕ → String
unfolding decimal_from
decimal n = decimal_from (suc n) n

pub ==_refl : (s : String) → (s == s) ≡ true
==_refl s = (eq_iff s s).1 refl

decimal-1024 : decimal 1024 ≡ "1024"
unfolding decimal
decimal-1024 = refl
