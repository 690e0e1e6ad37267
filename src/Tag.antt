-- ===== src/Tag.antt =====
-- src/tag.c: a YAML tag, split at its first '-' into a name and a version.
mod Tests
use libasdf.Prelude.{
  ℕ, zero, suc, ◌+◌, ◌-◌, ◌*◌, ◌/◌, ◌%◌, ◌^◌, ◌≤◌, ◌<◌, min, max, ◌≡◌, refl, sym, ap, ap₂, ◌∙◌,
}
use libasdf.Prelude.{
  ◌≢◌, ◌↔◌, ◌⊎◌, inl, inr, Bool, true, false, not, ◌&&◌, ◌||◌, Option, none, some, arith,
}
use libasdf.Prelude.{
  List, [], ◌∷◌, ◌++◌, map, length, get_elem?, get_or, set, take, drop, replicate, All,
}
use libasdf.Prelude.{ltb, leb, ◌==◌, if◌then◌else◌, Bool-cases, Option-cases, tests}
use libasdf.Prelude.{
  length-append, length-take, length-drop, length-replicate, take-append, drop-append, drop-drop,
  drop-nil, drop_all, take-append-drop,
}
use libasdf.Prelude.{M, pure, fault, ◌>>=◌, ◌>>◌, get, gets, modify, read, assert, >>=-eq-some}
use libasdf.Version.{Version, version_parse}
use libasdf.Version.Parse.{version_parse-bounds}

-- `asdf_tag_t`; `none` is a NULL version.
pub record Tag : Type 0 where
  pub name : List ℕ
  pub version : Option Version

-- `strchr(tag, '-')`: what stands before the separator, and what after it.
split_dash : List ℕ → Option (List ℕ × List ℕ)
split_dash [] = none
split_dash (c ∷ cs) =
    let rest = split_dash cs in
    if c == b'-' then some ([], cs) else elim rest [ none ↦ none | some (n, v) ↦ some (c ∷ n, v) ]

-- The version, and the tag, once the separator is found.
with_version : List ℕ → Option Version → Option Tag
with_version name none = none
with_version name (some v) = some (record { name = name; version = some v })

parse_split : List ℕ → Option (List ℕ × List ℕ) → Option Tag
unfolding with_version
parse_split tag none = some (record { name = tag; version = none })
parse_split tag (some (name, rest)) = with_version name (version_parse (some rest))

-- `asdf_tag_parse`
unfoldable pub tag_parse : Option (List ℕ) → Option Tag
unfolding split_dash parse_split
tag_parse none = none
tag_parse (some tag) = parse_split tag (split_dash tag)

-- A tag written out.
abbrev pub tag_text : Tag → List ℕ
tag_text t = elim t.version [ none ↦ t.name | some v ↦ t.name ++ (b'-' ∷ v.version) ]

split_dash_found :
    (s name rest : List ℕ) → split_dash s ≡ some (name, rest) → name ++ (b'-' ∷ rest) ≡ s
unfolding split_dash
split_dash_found [] name rest h = cc
split_dash_found (c ∷ cs) name rest h = elim (Option-cases (split_dash cs)) [
  | inl e ↦ ground (arith, e)
  | inr ((n, v), e) ↦ ground (arith, e, split_dash_found cs n v e)
]

split_dash-append :
    (name rest : List ℕ)
    → All (λ c. c ≢ b'-') name
    → split_dash (name ++ (b'-' ∷ rest)) ≡ some (name, rest)
unfolding split_dash
split_dash-append [] rest h = refl
split_dash-append (c ∷ cs) rest (hc, h) = ground (arith, split_dash-append cs rest h)

parse_split_text :
    (s : List ℕ) (r : Option (List ℕ × List ℕ)) {t : Tag}
    → split_dash s ≡ r
    → parse_split s r ≡ some t
    → tag_text t ≡ s
unfolding parse_split
parse_split_text s none e h = ground arith
parse_split_text s (some (name, rest)) {t} e h = elim (Option-cases (version_parse (some rest))) [
  | inl x ↦ ground (arith, x)
  | inr (v, x) ↦ ground (arith, x, version_parse-bounds rest x, split_dash_found s name rest e)
]

-- No part of a tag is lost: the name and the version's text, with the '-' between them, are
-- again the tag that was parsed.
pub tag_text-tag_parse : (s : List ℕ) {t : Tag} → tag_parse (some s) ≡ some t → tag_text t ≡ s
unfolding tag_parse
tag_text-tag_parse s {t} h = parse_split_text s (split_dash s) refl h

-- A tag is split at its first '-': a name without one is read back with the version that the rest
-- parses to.
pub tag_parse-append :
    (name rest : List ℕ) {v : Version}
    → All (λ c. c ≢ b'-') name
    → version_parse (some rest) ≡ some v
    → tag_parse (some (name ++ (b'-' ∷ rest))) ≡ some (record { name = name; version = some v })
unfolding tag_parse
tag_parse-append name rest h e = ground (arith, split_dash-append name rest h, e)
