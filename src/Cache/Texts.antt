-- ===== src/Cache/Texts.antt =====
-- Lists of texts as one text, as a concrete format of the cache: what a codec stands for has one.
use dashscan.Prelude.{
  ℕ, zero, suc, ◌≡◌, refl, ap, ◌∙◌, Bool, String, List, [], ◌∷◌, map, ◌==◌, if◌then◌else◌, arith,
}
use mathlib.Core.Path.{ap₂}
use Prim.Native.String as Text
use text.Mathlib.TextLemmas.{length-append}
use Prim.Native.Char.{Char, code}
use text.Mathlib.TextBridge.{to_list, of_list, to_list-of_list, of_list-to_list}

-- Each character is marked, and each text has a mark at its end.
abbrev is_end : Char → Bool
is_end c = code c == b'.'

unfoldable write_text : List Char → List Char → List Char
write_text [] rest = "." ∷ rest
write_text (c ∷ cs) rest = "-" ∷ c ∷ write_text cs rest

unfoldable write : List (List Char) → List Char
unfolding write_text
write [] = []
write (t ∷ ts) = write_text t (write ts)

abbrev push : Char → List (List Char) → List (List Char)
push c [] = (c ∷ []) ∷ []
push c (t ∷ ts) = (c ∷ t) ∷ ts

unfoldable read : List Char → List (List Char)
read [] = []
read (x ∷ []) = if is_end x then [] ∷ [] else []
read (x ∷ c ∷ rest) =
    let after_end = read (c ∷ rest) in
    let after_char = read rest in if is_end x then [] ∷ after_end else push c after_char

read-write_text : (t rest : List Char) → read (write_text t rest) ≡ t ∷ read rest
unfolding read write_text
read-write_text [] [] = refl
read-write_text [] (c ∷ rest) = refl
read-write_text (c ∷ cs) rest = ap (push c) (read-write_text cs rest)

read-write : (ts : List (List Char)) → read (write ts) ≡ ts
unfolding read write
read-write [] = refl
read-write (t ∷ ts) = read-write_text t (write ts) ∙ ap (λ us. t ∷ us) (read-write ts)

-- The texts as strings.
unfoldable pub join : List String → String
unfolding write
join texts = of_list (write (map to_list texts))

unfoldable pub split : String → List String
unfolding read
split text = map of_list (read (to_list text))

map-texts : (texts : List String) → map of_list (map to_list texts) ≡ texts
map-texts [] = refl
map-texts (t ∷ ts) = ap₂ (λ u us. u ∷ us) (of_list-to_list t) (map-texts ts)

pub split-join : (texts : List String) → split (join texts) ≡ texts
unfolding split join
split-join texts =
    ap (λ cs. map of_list (read cs)) (to_list-of_list (write (map to_list texts)))
    ∙ ap (map of_list) (read-write (map to_list texts))
    ∙ map-texts texts

-- A number as that many strokes.
abbrev pub strokes : ℕ → String
strokes zero = ""
strokes (suc n) = Text.◌++◌ "|" (strokes n)

pub count-strokes : (n : ℕ) → Text.count (strokes n) ≡ n
count-strokes zero = refl
count-strokes (suc n) =
    let one = length-append "|" (strokes n) in
    let rest = count-strokes n in omega (arith, one, rest)
