-- ===== src/Shell/Packages/Tests.antt =====
-- An index with an order, a cycle and a missing package.
use rusty_penguin.Base.{ℕ, ◌≡◌, ◌≢◌, refl, List, [], ◌∷◌, Bool, true, ◌||◌, none}
use rusty_penguin.Shell.Packages.{
  Text, RepoPkg, is_space, split_lines, split_words, digest_of, parse_words, keep_some, parse_lines,
  parse, get, mem, ok, cycle, not_found, out_of_fuel, visit_each, visit, resolve,
}
use rusty_penguin.Base.Texts.{name_eq}
use rusty_penguin.Shell.Packages.Ends.{resolve-ends}
use rusty_penguin.Shell.Packages.Order.{Good, resolve-Good}
use rusty_penguin.Shell.Packages.Errors.{Requires, Absent, resolve-cycle, resolve-not_found}

-- "a" needs "b" and "i", "b" needs "c"; "x" and "y" need each other; "m" needs "n", which is nowhere.
abbrev index : List RepoPkg
index =
    pkg 97 ((98 ∷ []) ∷ (105 ∷ []) ∷ [])
    ∷ pkg 98 ((99 ∷ []) ∷ [])
    ∷ pkg 99 []
    ∷ pkg 120 ((121 ∷ []) ∷ [])
    ∷ pkg 121 ((120 ∷ []) ∷ [])
    ∷ pkg 109 ((110 ∷ []) ∷ [])
    ∷ []
  where
    pkg : ℕ → List Text → RepoPkg
    pkg c deps = record {
      name = c ∷ [];
      version = 49 ∷ [];
      url = 117 ∷ [];
      sha256 = none;
      deps = deps;
    }

-- Only "i" is installed.
abbrev installed : Text → Bool
installed name = name_eq name (105 ∷ [])

resolve-ends_example : resolve index installed (120 ∷ []) ≢ out_of_fuel
resolve-ends_example = resolve-ends index installed (120 ∷ [])

resolve_a : resolve index installed (97 ∷ []) ≡ ok ((97 ∷ []) ∷ (98 ∷ []) ∷ (99 ∷ []) ∷ [])
unfolding resolve visit visit_each mem get name_eq
resolve_a = refl

resolve-Good_example :
    Good index installed ((97 ∷ []) ∷ (98 ∷ []) ∷ (99 ∷ []) ∷ [])
    × ((installed (97 ∷ []) || mem (97 ∷ []) ((97 ∷ []) ∷ (98 ∷ []) ∷ (99 ∷ []) ∷ [])) ≡ true)
resolve-Good_example =
    resolve-Good index installed (97 ∷ []) ((97 ∷ []) ∷ (98 ∷ []) ∷ (99 ∷ []) ∷ []) resolve_a

resolve_x : resolve index installed (120 ∷ []) ≡ cycle (120 ∷ [])
unfolding resolve visit visit_each mem get name_eq
resolve_x = refl

resolve-cycle_example : Requires index installed (120 ∷ []) (120 ∷ [])
resolve-cycle_example = resolve-cycle index installed (120 ∷ []) (120 ∷ []) resolve_x

resolve_m : resolve index installed (109 ∷ []) ≡ not_found (110 ∷ [])
unfolding resolve visit visit_each mem get name_eq
resolve_m = refl

resolve-not_found_example : Absent index installed (109 ∷ []) (110 ∷ [])
resolve-not_found_example = resolve-not_found index installed (109 ∷ []) (110 ∷ []) resolve_m

-- "@pkg a 1 u - b", after a comment.
parse_line :
    parse
      (35 ∷ 97 ∷ 10 ∷ 64 ∷ 112 ∷ 107 ∷ 103 ∷ 32 ∷ 97 ∷ 32 ∷ 49 ∷ 32 ∷ 117 ∷ 32 ∷ 45 ∷ 32 ∷ 98 ∷ [])
    ≡ record {
      name = 97 ∷ [];
      version = 49 ∷ [];
      url = 117 ∷ [];
      sha256 = none;
      deps = (98 ∷ []) ∷ [];
    }
      ∷ []
unfolding parse split_lines parse_lines split_words is_space parse_words keep_some digest_of name_eq
parse_line = refl
