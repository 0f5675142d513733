-- ===== src/Paths.antt =====
-- What the crates use of `std::path` on a Unix target, over paths as texts.
use Prim.Native.Char.{Char, code}
use Prim.Native.String.{◌++◌ as ◌<>◌, compare, slice, len}
use Prim.Native.Nat.{Ordering}
use text.Mathlib.Text.{starts_with}
use send_rs.Prelude.{
  ◌-◌, ◌≡◌, refl, Bool, true, false, ◌||◌, String, Option, none, some, List, [], ◌∷◌, ◌==◌, nat_eq,
  if◌then◌else◌,
}

-- Append a character to the first component of what follows.
onto : Char → List String → List String
onto c [] = (String.◌∷◌ c String.[]) ∷ []
onto c (t ∷ ts) = (String.◌∷◌ c t) ∷ ts

-- The pieces between the slashes, empty ones too.
split : String → List String
unfolding onto
split String.[] = "" ∷ []
split (String.◌∷◌ c s) =
    let rest = split s in if nat_eq (code c) b'/' then "" ∷ rest else onto c rest

named : List String → List String
named [] = []
named (t ∷ ts) = let rest = named ts in if t == "" || t == "." then rest else t ∷ rest

-- The names among `Path::components`.
unfoldable pub components : String → List String
unfolding split named
components path = named (split path)

last : List String → Option String
last [] = none
last (t ∷ []) = some t
last (t ∷ u ∷ ts) = last (u ∷ ts)

not_dots : String → Option String
not_dots t = if t == ".." then none else some t

or_none : Option String → Option String
unfolding not_dots
or_none none = none
or_none (some t) = not_dots t

-- `Path::file_name`
unfoldable pub file_name : String → Option String
unfolding components last or_none
file_name path = or_none (last (components path))

front : List String → List String
front [] = []
front (t ∷ []) = []
front (t ∷ u ∷ ts) = t ∷ front (u ∷ ts)

spell : List String → String
spell [] = ""
spell (t ∷ []) = t
spell (t ∷ u ∷ ts) = t <> ("/" <> spell (u ∷ ts))

parent_of : Bool → List String → Option String
unfolding front spell
parent_of absolute [] = none
parent_of absolute (t ∷ ts) =
    some (if absolute then "/" <> spell (front (t ∷ ts)) else spell (front (t ∷ ts)))

-- `Path::parent`: all but the root and the empty path have one.
unfoldable pub parent : String → Option String
unfolding components parent_of
parent path = parent_of (starts_with path "/") (components path)

ends_with_slash : String → Bool
ends_with_slash s = slice s (len s - 1) (len s) == "/"

-- `Path::join`: an absolute path replaces the base.
unfoldable pub join : String → String → String
unfolding ends_with_slash
join base path =
    if starts_with path "/"
    then path
    else if base == "" || ends_with_slash base
    then base <> path
    else base <> ("/" <> path)

-- `path.strip_prefix(root).unwrap_or(path)`, for a root without a slash at its end.
unfoldable pub strip_root : String → String → String
strip_root root path =
    let stem = root <> "/" in
    if starts_with path stem then slice path (len stem) (len path) else path

-- `.replace('\\', "/")`
unfoldable pub slashes : String → String
slashes String.[] = ""
slashes (String.◌∷◌ c s) =
    let rest = slashes s in
    if nat_eq (code c) 92 then "/" <> rest else (String.◌∷◌ c String.[]) <> rest

then_by : Ordering → Bool → Bool
then_by Ordering.lt rest = true
then_by Ordering.eq rest = rest
then_by Ordering.gt rest = false

-- `PathBuf`'s order: name by name.
names_leb : List String → List String → Bool
unfolding then_by
names_leb [] us = true
names_leb (t ∷ ts) [] = false
names_leb (t ∷ ts) (u ∷ us) = then_by (compare t u) (names_leb ts us)

unfoldable pub path_leb : String → String → Bool
unfolding components names_leb
path_leb p q = names_leb (components p) (components q)

insert_path : String → List String → List String
insert_path p [] = p ∷ []
insert_path p (q ∷ qs) =
    let rest = insert_path p qs in if path_leb p q then p ∷ q ∷ qs else q ∷ rest

-- `files.sort()`, which is stable.
unfoldable pub sort : List String → List String
unfolding insert_path path_leb
sort [] = []
sort (p ∷ ps) = insert_path p (sort ps)

joined : join "/out" "sub/b.txt" ≡ "/out/sub/b.txt"
unfolding join
joined = refl

sorted : sort ("/a/b" ∷ "/a-c" ∷ "/a" ∷ []) ≡ "/a" ∷ "/a/b" ∷ "/a-c" ∷ []
unfolding sort
sorted = refl

stripped : strip_root "/d" "/d/s\\b.txt" ≡ "s\\b.txt"
unfolding strip_root
stripped = refl

named_file : file_name "/d/b.txt/" ≡ some "b.txt"
unfolding file_name
named_file = refl

parent_folder : parent "/out/src/a.txt" ≡ some "/out/src"
unfolding parent
parent_folder = refl
