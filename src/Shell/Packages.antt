-- ===== src/Shell/Packages.antt =====
-- shell/src/pkg.rs: the repository index and the resolution of dependencies. Texts are lists of
-- characters, by code point.
pub mod Steps
pub mod Ends
pub mod Order
pub mod Errors
mod Tests
use rusty_penguin.Base.{
  ℕ, zero, suc, List, [], ◌∷◌, ◌++◌, Bool, true, false, not, ◌&&◌, ◌||◌, Option, none, some,
  if◌then◌else◌, ◌==◌, leb, length,
}
use rusty_penguin.Base.Texts.{name_eq}

abbrev pub Text : Type 0
Text = List ℕ

pub record RepoPkg : Type 0 where
  pub name : Text
  pub version : Text
  pub url : Text
  pub sha256 : Option Text
  pub deps : List Text

-- `char::is_whitespace`
unfoldable pub is_space : ℕ → Bool
is_space c =
    (leb 9 c && leb c 13)
    || ((c == 32)
        || ((c == 133)
            || ((c == 160)
                || ((c == 5760)
                    || ((leb 8192 c && leb c 8202)
                        || ((c == 8232)
                            || ((c == 8233) || ((c == 8239) || ((c == 8287) || (c == 12288))))))))))

-- The lines of a text, each without its line feed.
unfoldable pub split_lines : Text → Text → List Text
split_lines word [] = word ∷ []
split_lines word (c ∷ cs) =
    if c == 10 then word ∷ split_lines [] cs else split_lines (word ++ c ∷ []) cs

-- The words of a line; `word` is what was read of the word at hand.
unfoldable pub split_words : Text → Text → List Text
split_words [] [] = []
split_words (w ∷ ws) [] = (w ∷ ws) ∷ []
split_words [] (c ∷ cs) =
    let rest = split_words [] cs in
    let more = split_words (c ∷ []) cs in if is_space c then rest else more
split_words (w ∷ ws) (c ∷ cs) =
    let rest = split_words [] cs in
    let more = split_words ((w ∷ ws) ++ c ∷ []) cs in if is_space c then (w ∷ ws) ∷ rest else more

-- "@pkg"
abbrev pub marker : Text
marker = 64 ∷ 112 ∷ 107 ∷ 103 ∷ []

-- "0" and "-"
abbrev pub no_version : Text
no_version = 48 ∷ []

abbrev pub no_digest : Text
no_digest = 45 ∷ []

unfoldable pub digest_of : Text → Option Text
digest_of s = if name_eq s no_digest then none else some s

-- The package of a line, by its words. A comment starts with '#', so its first word is no marker.
unfoldable pub parse_words : List Text → Option RepoPkg
parse_words (m ∷ n ∷ v ∷ u ∷ s ∷ deps) =
    if name_eq m marker
    then some (record { name = n; version = v; url = u; sha256 = digest_of s; deps = deps })
    else none
parse_words (m ∷ n ∷ v ∷ u ∷ []) =
    if name_eq m marker
    then some (record { name = n; version = v; url = u; sha256 = none; deps = [] })
    else none
parse_words (m ∷ n ∷ v ∷ []) = none
parse_words (m ∷ n ∷ []) = none
parse_words (m ∷ []) = none
parse_words [] = none

unfoldable pub keep_some : List (Option RepoPkg) → List RepoPkg
keep_some [] = []
keep_some (none ∷ ps) = keep_some ps
keep_some (some p ∷ ps) = p ∷ keep_some ps

unfoldable pub parse_lines : List Text → List RepoPkg
parse_lines [] = []
parse_lines (l ∷ ls) = keep_some (parse_words (split_words [] l) ∷ []) ++ parse_lines ls

unfoldable pub parse : Text → List RepoPkg
parse text = parse_lines (split_lines [] text)

unfoldable pub get : List RepoPkg → Text → Option RepoPkg
get [] name = none
get (p ∷ ps) name = elim (name_eq p.name name) [ true ↦ some p | false ↦ get ps name ]

-- `names.iter().any(|n| n == name)`
unfoldable pub mem : Text → List Text → Bool
mem name [] = false
mem name (n ∷ ns) = name_eq n name || mem name ns

-- The outcome of a visit: the order so far, newest first, or the error and the name that it is about.
pub data Resolved : Type 0 where
  ok : List Text → Resolved
  cycle : Text → Resolved
  not_found : Text → Resolved
  out_of_fuel : Resolved

abbrev pub and_then : Resolved → (List Text → Resolved) → Resolved
and_then (ok order) f = f order
and_then (cycle n) f = cycle n
and_then (not_found n) f = not_found n
and_then out_of_fuel f = out_of_fuel

-- The loop over the dependencies.
unfoldable pub visit_each : (Text → List Text → Resolved) → List Text → List Text → Resolved
visit_each f [] order = ok order
visit_each f (d ∷ ds) order = and_then (f d order) (visit_each f ds)

module _ (pkgs : List RepoPkg) (is_installed : Text → Bool) where
  -- `visiting` is pushed before the dependencies and popped after, so a visit leaves it as it was; the
  -- last name pushed comes first. A visit goes one level deeper with each round of fuel.
  unfoldable pub visit : ℕ → List Text → Text → List Text → Resolved
  visit zero visiting name order = out_of_fuel
  visit (suc fuel) visiting name order =
      if mem name order
      then ok order
      else if is_installed name
      then ok order
      else if mem name visiting
      then cycle name
      else elim (get pkgs name) [
        | none ↦ not_found name
        | some p ↦
            and_then (visit_each (visit fuel (name ∷ visiting)) p.deps order) (λ o. ok (name ∷ o))
      ]

  -- Names on the way are distinct packages of the index, so its length bounds the depth.
  unfoldable pub resolve : Text → Resolved
  resolve name = visit (suc (length pkgs)) [] name []
