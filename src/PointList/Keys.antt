-- ===== src/PointList/Keys.antt =====
-- When two addresses have one key.
use Prim.Native.Char.{Char, code, nul}
use Prim.Native.String.{◌++◌}
use Prim.Native.String.append
use text.Mathlib.TextLemmas.{cons-eq-cons}
use nexus_gateway.Prelude.{String, ◌≡◌, ◌≢◌, refl, ap, sym, ◌∙◌}
use nexus_gateway.PointList.{key}

-- No character of the text is NUL.
abbrev pub NulFree : String → Type 0
NulFree String.[] = Unit {0}
NulFree (String.◌∷◌ c s) = (code c ≢ 0) × NulFree s

key_nil : (l : String) → key "" l ≡ String.◌∷◌ nul l
unfolding key
key_nil l = append.nil ("\0" ++ l) ∙ (append.cons nul "" l ∙ ap (String.◌∷◌ nul) (append.nil l))

key_cons : (x : Char) (c l : String) → key (String.◌∷◌ x c) l ≡ String.◌∷◌ x (key c l)
unfolding key
key_cons x c l = append.cons x c ("\0" ++ l)

-- Connector ids without NUL keep the two parts of a key apart.
pub key-injective :
    (c d l m : String) → NulFree c → NulFree d → key c l ≡ key d m → (c ≡ d) × (l ≡ m)
key-injective String.[] String.[] l m hc hd e =
    (refl, (cons-eq-cons.0 (sym (key_nil l) ∙ (e ∙ key_nil m))).1)
key-injective String.[] (String.◌∷◌ y d) l m hc hd e =
    absurd (hd.0 (sym (ap code (cons-eq-cons.0 (sym (key_nil l) ∙ (e ∙ key_cons y d m))).0)))
key-injective (String.◌∷◌ x c) String.[] l m hc hd e =
    absurd (hc.0 (ap code (cons-eq-cons.0 (sym (key_cons x c l) ∙ (e ∙ key_nil m))).0))
key-injective (String.◌∷◌ x c) (String.◌∷◌ y d) l m hc hd e =
    let (same, rest) = cons-eq-cons.0 (sym (key_cons x c l) ∙ (e ∙ key_cons y d m)) in
    let (ids, locals) = key-injective c d l m hc.1 hd.1 rest in (cons-eq-cons.1 (same, ids), locals)
