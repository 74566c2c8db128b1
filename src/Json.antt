-- ===== src/Json.antt =====
-- JSON values as the API receives them: a dict is an association list in insertion order, and a
-- float is its mantissa and its binary exponent.
use open_graph_memory.Prelude.{
  ℕ, String, Bool, true, false, not, Option, none, some, ◌==◌, is_text, eqb, if◌then◌else◌,
}
use open_graph_memory.Prelude.Int.{ℤ, pos, negsuc}

mutual
  pub data Json : Type 0 where
    null : Json
    boolean : Bool → Json
    int : ℤ → Json
    float : ℤ → ℤ → Json
    text : String → Json
    list : Items → Json
    dict : Fields → Json

  pub data Items : Type 0 where
    nil : Items
    cons : Json → Items → Items

  pub data Fields : Type 0 where
    end : Fields
    field : String → Json → Fields → Fields

-- `d.get(k)`; a dict has each key once, so the first entry is the only one
abbrev pub get : Fields → String → Option Json
get end k = none
get (field j v fs) k = if j == k then some v else get fs k

-- `k in d`
abbrev pub has_key : Fields → String → Bool
has_key end k = false
has_key (field j v fs) k = if j == k then true else has_key fs k

abbrev pub is_empty : Fields → Bool
is_empty end = true
is_empty (field j v fs) = false

-- `bool(d)` for `dict | None`
abbrev pub is_filled : Option Fields → Bool
is_filled none = false
is_filled (some fs) = not (is_empty fs)

abbrev pub items_length : Items → ℕ
items_length nil = 0
items_length (cons v vs) = Prim.Native.Nat.suc (items_length vs)

abbrev nonzero : ℤ → Bool
nonzero (pos n) = not (eqb n 0)
nonzero (negsuc n) = true

-- `bool(v)`
abbrev pub is_true : Json → Bool
is_true null = false
is_true (boolean b) = b
is_true (int n) = nonzero n
is_true (float m e) = nonzero m
is_true (text s) = is_text s
is_true (list nil) = false
is_true (list (cons v vs)) = true
is_true (dict fs) = not (is_empty fs)

-- `bool(d.get(k))`
abbrev pub is_true_at : Fields → String → Bool
is_true_at fs k = elim (get fs k) [ none ↦ false | some v ↦ is_true v ]
