-- ===== src/Text.antt =====
-- What the program uses of Python's `str`: `strip()` as a truth value, and `endswith`.
pub mod Strip
use Prim.Native.Char.{code}
use Prim.Native.Nat.{zero, suc, ◌%◌, ◌/◌}
use Prim.Native.String.{[], ◌∷◌, ◌++◌}
use eval_ops.Prelude.{
  ℕ, String, Bool, true, false, ◌&&◌, ◌||◌, ◌==◌, leb, nat_eq, string_eq, if◌then◌else◌,
}

-- `str.isspace`, by code point
abbrev pub is_space : ℕ → Bool
is_space c =
    (leb 9 c && leb c 13)
    || (leb 28 c && leb c 32)
    || c == 133
    || c == 160
    || c == 5760
    || (leb 8192 c && leb c 8202)
    || c == 8232
    || c == 8233
    || c == 8239
    || c == 8287
    || c == 12288

-- `not s.strip()`
unfoldable pub is_blank : String → Bool
is_blank [] = true
is_blank (c ∷ s) = is_space (code c) && is_blank s

unfoldable pub ends_with : String → String → Bool
ends_with [] t = "" == t
ends_with (c ∷ s) t = (c ∷ s) == t || ends_with s t

unfoldable pub starts_with : String → String → Bool
starts_with s [] = true
starts_with [] (c ∷ t) = false
starts_with (c ∷ s) (e ∷ t) = code c == code e && starts_with s t

-- `str(n)`, with the number of digits still allowed
digit : ℕ → String
digit n =
    if n == 0
    then "0"
    else if n == 1
    then "1"
    else if n == 2
    then "2"
    else if n == 3
    then "3"
    else if n == 4
    then "4"
    else if n == 5
    then "5"
    else if n == 6
    then "6"
    else if n == 7
    then "7"
    else if n == 8
    then "8"
    else "9"

digits_from : ℕ → ℕ → String → String
unfolding digit
digits_from zero n acc = acc
digits_from (suc fuel) n acc =
    let acc' = digit (n % 10) ++ acc in
    let rest = digits_from fuel (n / 10) acc' in if n / 10 == 0 then acc' else rest

unfoldable pub show_nat : ℕ → String
unfolding digits_from
show_nat n = digits_from (suc n) n ""

-- `s.lstrip()`, `s.rstrip()` and `s.strip()`
unfoldable pub lstrip : String → String
lstrip [] = []
lstrip (c ∷ s) = let rest = lstrip s in if is_space (code c) then rest else c ∷ s

unfoldable pub rstrip : String → String
rstrip [] = []
rstrip (c ∷ s) = let rest = rstrip s in if rest == "" && is_space (code c) then [] else c ∷ rest

unfoldable pub strip : String → String
unfolding lstrip rstrip
strip s = lstrip (rstrip s)
