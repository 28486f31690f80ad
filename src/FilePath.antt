-- ===== src/FilePath.antt =====
-- The parts of Go's `path/filepath` (on Unix) that the program uses. A cleaned path is kept as its
-- parts: whether it is rooted, and its elements.
use tunwarden.Prelude.{
  String, Bool, true, false, ◌||◌, not, List, [], ◌∷◌, Option, none, some, if◌then◌else◌, ◌==◌,
  is_empty,
}
use mathlib.Core.List.{reverse}
use tunwarden.Text.{◌<>◌, join, split, has_prefix}

pub record Parts : Type 0 where
  pub rooted : Bool
  pub elements : List String

-- ".." pops an element; at the root it is dropped, and in front of a relative path it stays
pop_element : Bool → List String → List String
pop_element true [] = []
pop_element false [] = ".." ∷ []
pop_element rooted (top ∷ rest) = if top == ".." then ".." ∷ top ∷ rest else rest

-- the elements seen so far, the last one first
clean_from : Bool → List String → List String → List String
clean_from rooted stack [] = reverse stack
clean_from rooted stack (part ∷ parts) =
    clean_from rooted
      (if part == "" || part == "."
        then stack
        else if part == ".."
        then pop_element rooted stack
        else part ∷ stack)
      parts

unfoldable pub parts : String → Parts
unfolding clean_from pop_element
parts path =
    let rooted = has_prefix path "/" in
    record { rooted = rooted; elements = clean_from rooted [] (split b'/' path) }

unfoldable pub render : Parts → String
render p =
    if p.rooted
    then "/" <> join "/" p.elements
    else if is_empty p.elements
    then "."
    else join "/" p.elements

-- filepath.Clean
unfoldable pub clean : String → String
unfolding parts render
clean path = render (parts path)

without_empty : List String → List String
without_empty [] = []
without_empty (s ∷ rest) = if s == "" then without_empty rest else s ∷ without_empty rest

-- filepath.Join
unfoldable pub join_path : List String → String
unfolding without_empty
join_path elements =
    let present = without_empty elements in
    if is_empty present then "" else clean (join "/" present)

-- all elements but the last
but_last : List String → List String
but_last [] = []
but_last (s ∷ []) = []
but_last (s ∷ t ∷ rest) = s ∷ but_last (t ∷ rest)

-- filepath.Dir: the text up to the last separator, cleaned
unfoldable pub dir : String → String
unfolding but_last clean
dir path =
    let up_to = join "/" (but_last (split b'/' path)) in
    if has_prefix path "/" then clean ("/" <> up_to) else clean up_to

-- the elements of the second list behind those of the first
strip : List String → List String → Option (List String)
strip [] target = some target
strip (b ∷ base) [] = none
strip (b ∷ base) (t ∷ target) = if b == t then strip base target else none

same_root : Bool → Bool → Bool
same_root true b = b
same_root false b = not b

-- filepath.Rel, where the target lies below the base; `none` where it is an error or goes up by ".."
unfoldable pub rel_below : String → String → Option String
unfolding strip same_root
rel_below base target =
    let b = parts base in
    let t = parts target in
    if same_root b.rooted t.rooted
    then (elim (strip b.elements t.elements) [
      | none ↦ none
      | some [] ↦ some "."
      | some (e ∷ rest) ↦ some (join "/" (e ∷ rest))
    ])
    else none
