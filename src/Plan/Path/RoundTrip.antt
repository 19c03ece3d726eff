-- ===== src/Plan/Path/RoundTrip.antt =====
-- parseFieldPath reads back a path that is written with dots.
use Prim.Native.Char.{code}
use text.Mathlib.TextLemmas.{nil-append, cons-append, append-nil, append_assoc, append-eq-nil_iff}
use virt_advisor_operator.Base.{
  String, true, false, List, [], ◌∷◌, ◌≡◌, ◌≢◌, refl, sym, ap, ◌∙◌, arith, All, ◌==◌, ◌!=◌, if_true,
  if_false, string_eq, nat_eq, ◌⊕◌,
}
use virt_advisor_operator.Plan.Path.{split_from, split_path, nonempty, parse_field_path}

-- A text without a dot.
abbrev pub Undotted : String → Type 0
Undotted String.[] = Unit
Undotted (String.◌∷◌ c s) = ((code c == b'.') ≡ false) × Undotted s

-- The name of a field.
abbrev pub IsName : String → Type 0
IsName s = (s ≢ "") × Undotted s

-- The names joined by dots.
abbrev pub path_text : List String → String
path_text [] = ""
path_text (f ∷ []) = f
path_text (f ∷ (g ∷ fs)) = f ⊕ ("." ⊕ path_text (g ∷ fs))

split_from-Undotted :
    (f rest current : String)
    → Undotted f
    → split_from current (f ⊕ rest) ≡ split_from (current ⊕ f) rest
unfolding split_from
split_from-Undotted String.[] rest current u = rw (append-nil current, nil-append rest) refl
split_from-Undotted (String.◌∷◌ c f) rest current u =
    ap (split_from current) (cons-append c f rest)
    ∙ if_false _ _ u.0
    ∙ split_from-Undotted f rest (current ⊕ String.◌∷◌ c String.[]) u.1
    ∙ ap (λ s. split_from s rest)
        (append_assoc current (String.◌∷◌ c String.[]) f
          ∙ ap (λ s. current ⊕ s) (cons-append c String.[] f ∙ ap (String.◌∷◌ c) (nil-append f)))

not_empty : (s : String) → s ≢ "" → (s != "") ≡ true
not_empty s n = ground (arith, string_eq.equal_iff s "")

is_not_empty : (s : String) → s ≢ "" → (s == "") ≡ false
is_not_empty s n = ground (arith, string_eq.equal_iff s "")

split_from-path_text :
    (f : String) (fs : List String)
    → All IsName (f ∷ fs)
    → split_from "" (path_text (f ∷ fs)) ≡ f ∷ fs
unfolding split_from
split_from-path_text f [] h =
    ap (split_from "") (sym (append-nil f))
    ∙ split_from-Undotted f "" "" h.0.1
    ∙ ap (λ s. split_from s "") (nil-append f)
    ∙ if_true _ _ (not_empty f h.0.0)
split_from-path_text f (g ∷ fs) h =
    split_from-Undotted f ("." ⊕ path_text (g ∷ fs)) "" h.0.1
    ∙ ap (λ s. split_from s ("." ⊕ path_text (g ∷ fs))) (nil-append f)
    ∙ ap (split_from f) (cons-append _ String.[] (path_text (g ∷ fs)))
    ∙ ap (λ p. f ∷ split_from "" p) (nil-append (path_text (g ∷ fs)))
    ∙ ap (λ l. f ∷ l) (split_from-path_text g fs h.1)

nonempty-names : (fs : List String) → All IsName fs → nonempty fs ≡ fs
unfolding nonempty
nonempty-names [] h = refl
nonempty-names (f ∷ fs) h =
    if_true _ _ (not_empty f h.0.0) ∙ ap (λ l. f ∷ l) (nonempty-names fs h.1)

empty_path : (f : String) (fs : List String) → IsName f → path_text (f ∷ fs) ≢ ""
empty_path f [] h e = h.0 e
empty_path f (g ∷ fs) h e = h.0 (append-eq-nil_iff.0 e).0

-- Names joined by dots are read back by parseFieldPath, if none is empty or has a dot in it.
pub parse_field_path-path_text :
    (fs : List String) → All IsName fs → parse_field_path (path_text fs) ≡ fs
unfolding parse_field_path split_path
parse_field_path-path_text [] h = refl
parse_field_path-path_text (f ∷ fs) h =
    if_false _ _ (is_not_empty _ (empty_path f fs h.0))
    ∙ ap nonempty (split_from-path_text f fs h)
    ∙ nonempty-names (f ∷ fs) h
