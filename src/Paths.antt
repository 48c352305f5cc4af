-- ===== src/Paths.antt =====
-- Slash-separated paths, as Go's packages `path` and `path/filepath` treat them on Linux.
use Prim.Native.Char.{Char, code}
use cluster_api_provider_ran.Prelude.{
  ℕ, ◌==◌, String, Bool, true, false, ◌||◌, List, [], ◌∷◌, ◌<>◌, str_eq, join, if◌then◌else◌,
}
use text.Mathlib.Text.{starts_with}

abbrev slash : ℕ
slash = 47

abbrev push_char : Char → List String → List String
push_char c [] = []
push_char c (s ∷ rest) = String.◌∷◌ c s ∷ rest

-- The segments between the slashes
unfoldable segments : String → List String
segments String.[] = "" ∷ []
segments (String.◌∷◌ c s) =
    let rest = segments s in if code c == slash then "" ∷ rest else push_char c rest

-- `..` takes the last segment away, at the root nothing.
unfoldable parent : Bool → List String → List String
parent true [] = []
parent false [] = ".." ∷ []
parent rooted (s ∷ kept) = if str_eq s ".." then ".." ∷ s ∷ kept else kept

unfoldable keep_segment : Bool → List String → String → List String
unfolding parent
keep_segment rooted kept s =
    if str_eq s "" || str_eq s "."
    then kept
    else if str_eq s ".."
    then parent rooted kept
    else s ∷ kept

-- The segments that stay, the last one first
unfoldable keep_segments : Bool → List String → List String → List String
keep_segments rooted kept [] = kept
keep_segments rooted kept (s ∷ rest) = keep_segments rooted (keep_segment rooted kept s) rest

abbrev reverse_onto : List String → List String → List String
reverse_onto acc [] = acc
reverse_onto acc (s ∷ rest) = reverse_onto (s ∷ acc) rest

-- path.Clean
unfoldable pub clean : String → String
unfolding segments parent keep_segment keep_segments
clean path =
    let rooted = starts_with path "/" in
    let kept = join "/" (reverse_onto [] (keep_segments rooted [] (segments path))) in
    let cleaned = if rooted then "/" <> kept else kept in if str_eq cleaned "" then "." else cleaned

-- path.Join of two elements; empty elements do not count.
unfoldable pub join_path : String → String → String
join_path a b =
    if str_eq a ""
    then if str_eq b "" then "" else clean b
    else if str_eq b ""
    then clean a
    else clean (a <> "/" <> b)

unfoldable has_slash : String → Bool
has_slash String.[] = false
has_slash (String.◌∷◌ c s) = code c == slash || has_slash s

-- What stands up to the last slash, which is included
unfoldable up_to_last_slash : String → String
unfolding has_slash
up_to_last_slash String.[] = ""
up_to_last_slash (String.◌∷◌ c s) =
    if code c == slash || has_slash s then String.◌∷◌ c (up_to_last_slash s) else ""

-- filepath.Dir
unfoldable pub dir : String → String
unfolding has_slash up_to_last_slash clean
dir path = clean (up_to_last_slash path)
