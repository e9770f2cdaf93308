-- ===== src/Prelude/Strings.antt =====
-- Python's order on text: by code point, the shorter first where one starts the other.
use Prim.Native.Char.{Char, code}
use Prim.Native.String.{String, [], ◌∷◌}
use mathlib.Core.Path.{◌≡◌, refl, ap₂}
use mathlib.Core.Bool.{Bool, true, false, ◌&&◌}
use native.Mathlib.Omega.{arith}
use text.Mathlib.TextEquality.{codes_equal, eq_iff}
use text.Mathlib.Text.{◌==◌}
use data_platform_ops.Prelude.Tests.{ltb, eqb, if◌then◌else◌}

-- s <= t
unfoldable pub str_leb : String → String → Bool
str_leb [] t = true
str_leb (c ∷ s) [] = false
str_leb (c ∷ s) (d ∷ t) =
    let rest = str_leb s t in
    if ltb (code c) (code d) then true else if ltb (code d) (code c) then false else rest

-- s < t
unfoldable pub str_ltb : String → String → Bool
unfolding str_leb
str_ltb s t = if str_leb t s then false else true

-- s.startswith(prefix)
unfoldable pub startswith : String → String → Bool
startswith s [] = true
startswith [] (d ∷ t) = false
startswith (c ∷ s) (d ∷ t) = eqb (code c) (code d) && startswith s t

code_injective : (c d : Char) → code c ≡ code d → c ≡ d
code_injective c d h = codes_equal c d (ground arith)

pub str_leb_refl : (s : String) → str_leb s s ≡ true
unfolding str_leb
str_leb_refl [] = refl
str_leb_refl (c ∷ s) = ground (arith, str_leb_refl s)

pub str_leb_total : (s t : String) → str_leb s t ≡ false → str_leb t s ≡ true
unfolding str_leb
str_leb_total [] t h = ground arith
str_leb_total (c ∷ s) [] h = refl
str_leb_total (c ∷ s) (d ∷ t) h = ground (arith, str_leb_total s t)

pub str_leb_trans : (s t u : String) → str_leb s t ≡ true → str_leb t u ≡ true → str_leb s u ≡ true
unfolding str_leb
str_leb_trans [] t u h k = refl
str_leb_trans (c ∷ s) [] u h k = ground arith
str_leb_trans (c ∷ s) (d ∷ t) [] h k = ground arith
str_leb_trans (c ∷ s) (d ∷ t) (e ∷ u) h k = ground (arith, str_leb_trans s t u)

pub str_leb_antisym : (s t : String) → str_leb s t ≡ true → str_leb t s ≡ true → s ≡ t
unfolding str_leb
str_leb_antisym [] [] h k = refl
str_leb_antisym [] (d ∷ t) h k = ground arith
str_leb_antisym (c ∷ s) [] h k = ground arith
str_leb_antisym (c ∷ s) (d ∷ t) h k =
    let e : code c ≡ code d = ground arith in
    let r : (str_leb s t ≡ true) × (str_leb t s ≡ true) = (ground arith, ground arith) in
    ap₂ (λ x y. x ∷ y) (code_injective c d e) (str_leb_antisym s t r.0 r.1)

pub eq_self : (s : String) → (s == s) ≡ true
eq_self s = (eq_iff s s).1 refl

pub eq→path : (s t : String) → (s == t) ≡ true → s ≡ t
eq→path s t h = (eq_iff s t).0 h

-- s + t
unfoldable pub add_text : String → String → String
add_text [] t = t
add_text (c ∷ s) t = c ∷ add_text s t

pub startswith-add_text :
    (a s t : String) → startswith (add_text a s) (add_text a t) ≡ startswith s t
unfolding startswith add_text
startswith-add_text [] s t = refl
startswith-add_text (c ∷ a) s t = ground (arith, startswith-add_text a s t)
