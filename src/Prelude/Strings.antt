-- ===== src/Prelude/Strings.antt =====
-- Go's `strings` functions on native texts.
pub mod Splits
use Prim.Native.Nat.{ℕ, ◌+◌}
use Prim.Native.Char.{code}
use Prim.Native.String
use Prim.Native.String.{String}
use mathlib.Core.Path.{◌≡◌, refl}
use mathlib.Core.Bool.{Bool, true, false, ◌&&◌, ◌||◌}
use mathlib.Core.Option.{none, some}
use mathlib.Core.List.{List, [], ◌∷◌, reverse}
use text.Mathlib.Text.{◌==◌, find?, starts_with}
use patterns_operator.Prelude.Tests.{nat_eq, leb, if◌then◌else◌}

-- `fmt.Sprintf` on texts is concatenation.
infixr 66 ◌^◌
abbrev pub ◌^◌ : String → String → String
s ^ t = String.◌++◌ s t

-- `strings.Split(s, sep)` for a separator of one character; `cur` is the part being read.
split_from : ℕ → String → String → List String
split_from sep cur String.[] = cur ∷ []
split_from sep cur (String.◌∷◌ c s) =
    let closed = cur ∷ split_from sep "" s in
    let longer = split_from sep (cur ^ String.◌∷◌ c "") s in
    if nat_eq (code c) sep then closed else longer

unfoldable pub split : String → ℕ → List String
unfolding split_from
split s sep = split_from sep "" s

-- `strings.Join(parts, sep)`.
unfoldable pub join : List String → String → String
join [] sep = ""
join (s ∷ []) sep = s
join (s ∷ t ∷ rest) sep = s ^ sep ^ join (t ∷ rest) sep

abbrev lower : ℕ → ℕ
lower c = if leb b'A' c && leb c b'Z' then c + 32 else c

-- `strings.EqualFold` on ASCII letters.
unfoldable pub equal_fold : String → String → Bool
equal_fold String.[] String.[] = true
equal_fold String.[] (String.◌∷◌ d t) = false
equal_fold (String.◌∷◌ c s) String.[] = false
equal_fold (String.◌∷◌ c s) (String.◌∷◌ d t) =
    nat_eq (lower (code c)) (lower (code d)) && equal_fold s t

-- `strings.Contains(s, t)`.
abbrev pub has_substring : String → String → Bool
has_substring s t = elim (find? s t) [ none ↦ false | some _ ↦ true ]

-- `unicode.IsSpace`.
abbrev is_space : ℕ → Bool
is_space c =
    (leb 9 c && leb c 13)
    || nat_eq c 32
    || nat_eq c 0x85
    || nat_eq c 0xa0
    || nat_eq c 0x1680
    || (leb 0x2000 c && leb c 0x200a)
    || nat_eq c 0x2028
    || nat_eq c 0x2029
    || nat_eq c 0x202f
    || nat_eq c 0x205f
    || nat_eq c 0x3000

trim_left : String → String
trim_left String.[] = ""
trim_left (String.◌∷◌ c s) = if is_space (code c) then trim_left s else String.◌∷◌ c s

trim_right : String → String
trim_right String.[] = ""
trim_right (String.◌∷◌ c s) =
    let rest = trim_right s in if rest == "" && is_space (code c) then "" else String.◌∷◌ c rest

-- `strings.TrimSpace(s)`.
unfoldable pub trim_space : String → String
unfolding trim_left trim_right
trim_space s = trim_right (trim_left s)

-- `strings.TrimPrefix(s, c)` for a prefix of one character.
unfoldable pub trim_prefix : String → ℕ → String
trim_prefix String.[] p = ""
trim_prefix (String.◌∷◌ c s) p = if nat_eq (code c) p then s else String.◌∷◌ c s

-- One element of a path in `filepath.Clean`; the stack has its top at the head.
resolve : Bool → List String → String → List String
resolve rooted [] part =
    if part == "" || part == "." then [] else if part == ".." && rooted then [] else part ∷ []
resolve rooted (top ∷ stack) part =
    if part == "" || part == "."
    then top ∷ stack
    else if part == ".."
    then (if top == ".." then part ∷ top ∷ stack else stack)
    else part ∷ top ∷ stack

resolve_all : Bool → List String → List String → List String
resolve_all rooted stack [] = reverse stack
resolve_all rooted stack (part ∷ parts) = resolve_all rooted (resolve rooted stack part) parts

-- `filepath.Clean(s)`.
unfoldable pub clean : String → String
unfolding resolve resolve_all split join
clean s =
    let rooted = starts_with s "/" in
    let path = join (resolve_all rooted [] (split s b'/')) "/" in
    if rooted then "/" ^ path else if path == "" then "." else path

-- `filepath.Join(elements...)`.
unfoldable pub join_path : List String → String
unfolding clean
join_path [] = ""
join_path (e ∷ es) = if e == "" then join_path es else clean (join (e ∷ es) "/")

join_path_example : join_path ("/tmp/vp/" ∷ "../vp" ∷ "" ∷ "x.git" ∷ []) ≡ "/tmp/vp/x.git"
unfolding join_path
join_path_example = refl

trim_space_example : trim_space " a b  " ≡ "a b"
unfolding trim_space
trim_space_example = refl

-- `strings.TrimSuffix(s, t)`.
unfoldable pub trim_suffix : String → String → String
trim_suffix String.[] t = ""
trim_suffix (String.◌∷◌ c s) t =
    let rest = trim_suffix s t in if String.◌∷◌ c s == t then "" else String.◌∷◌ c rest

last_of : String → List String → String
last_of s [] = s
last_of s (t ∷ ts) = last_of t ts

strip_slashes : String → String
strip_slashes String.[] = ""
strip_slashes (String.◌∷◌ c s) =
    let rest = strip_slashes s in
    if rest == "" && nat_eq (code c) b'/' then "" else String.◌∷◌ c rest

abbrev last_part : List String → String
last_part [] = ""
last_part (s ∷ ss) = last_of s ss

-- `path.Base(s)`.
unfoldable pub base_path : String → String
unfolding last_of strip_slashes split
base_path s =
    if s == ""
    then "."
    else let stripped = strip_slashes s in
      if stripped == "" then "/" else last_part (split stripped b'/')

-- `regexp.MustCompile("([/:])").ReplaceAllString(s, "_")`.
unfoldable pub replace_any : String → String
replace_any String.[] = ""
replace_any (String.◌∷◌ c s) =
    (if nat_eq (code c) b'/' || nat_eq (code c) b':' then "_" else String.◌∷◌ c "") ^ replace_any s

base_path_example :
    base_path (trim_suffix (trim_suffix "mbaldessari/common.git/" "/") ".git") ≡ "common"
unfolding base_path trim_suffix
base_path_example = refl
