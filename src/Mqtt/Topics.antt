-- ===== src/Mqtt/Topics.antt =====
-- connector/mqtt/topicmatch.go: whether a topic filter covers a topic. Levels are texts between
-- slashes; texts are split character by character, which is what strings.Split does at one byte.
use Prim.Native.Char.{Char, code}
use Prim.Native.String as Text
use text.Mathlib.Text.{starts_with}
use nexus_gateway.Prelude.{
  String, Bool, true, false, not, ◌&&◌, ◌||◌, List, [], ◌∷◌, ◌==◌, str_eq, if◌then◌else◌,
}

-- A character in front of the first level.
abbrev pub push : Char → List String → List String
push k [] = (Text.◌∷◌ k Text.[]) ∷ []
push k (s ∷ ss) = (Text.◌∷◌ k s) ∷ ss

-- strings.Split(s, "/")
unfoldable pub split : String → List String
split Text.[] = Text.[] ∷ []
split (Text.◌∷◌ k s) = let rest = split s in if code k == 47 then Text.[] ∷ rest else push k rest

abbrev pub is_empty : List String → Bool
is_empty [] = true
is_empty (s ∷ ss) = false

-- strings.HasPrefix(levels[0], "$")
abbrev pub is_dollar : List String → Bool
is_dollar [] = false
is_dollar (s ∷ ss) = starts_with s "$"

-- The loop of filterMatches over the levels that are left of the filter and the topic.
unfoldable pub levels_match : List String → List String → Bool
levels_match [] ts = is_empty ts
levels_match (f ∷ fs) [] = str_eq f "#" && is_empty fs
levels_match (f ∷ fs) (t ∷ ts) =
    let rest = levels_match fs ts in
    if str_eq f "#"
    then is_empty fs
    else (if not (str_eq f "+") && not (str_eq f t) then false else rest)

-- filterMatches
unfoldable pub filter_matches : String → String → Bool
unfolding split levels_match
filter_matches filter topic =
    if str_eq filter topic
    then true
    else (if is_dollar (split topic) && not (is_dollar (split filter))
        then false
        else levels_match (split filter) (split topic))

abbrev pub is_wild : String → Bool
is_wild level = str_eq level "+" || str_eq level "#"

abbrev pub any_wild : List String → Bool
any_wild [] = false
any_wild (l ∷ ls) = is_wild l || any_wild ls

-- hasWildcard
unfoldable pub has_wildcard : String → Bool
unfolding split
has_wildcard filter = any_wild (split filter)
