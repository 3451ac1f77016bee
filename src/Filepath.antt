-- ===== src/Filepath.antt =====
-- What the program uses of Go's path/filepath, with the separator of Unix.
pub mod Rooted
use mathlib.Core.List.{reverse}
use loca_agent.Base.{Text, List, [], ◌∷◌, Bool, false, ◌==◌, ◌||◌}
use loca_agent.Base.{text_eq, nat_eq, if◌then◌else◌, split, join}

abbrev pub slash : Text
slash = b'/' ∷ []

abbrev pub dot : Text
dot = b'.' ∷ []

abbrev pub dot_dot : Text
dot_dot = b'.' ∷ b'.' ∷ []

abbrev pub is_rooted : Text → Bool
is_rooted [] = false
is_rooted (c ∷ s) = c == b'/'

-- A ".." takes the last element away, if there is one that is no ".."; at the root it is dropped.
unfoldable pub back_up : Bool → List Text → List Text
back_up rooted [] = if rooted then [] else dot_dot ∷ []
back_up rooted (top ∷ stack) = if top == dot_dot then dot_dot ∷ top ∷ stack else stack

-- One element of the path; the stack has the last element at its head.
unfoldable pub push_element : Bool → List Text → Text → List Text
unfolding back_up
push_element rooted stack e =
    if e == [] || e == dot then stack else if e == dot_dot then back_up rooted stack else e ∷ stack

unfoldable pub push_elements : Bool → List Text → List Text → List Text
unfolding push_element
push_elements rooted stack [] = stack
push_elements rooted stack (e ∷ es) = push_elements rooted (push_element rooted stack e) es

-- The elements that Clean keeps, in order.
unfoldable pub clean_elements : Text → List Text
unfolding push_elements
clean_elements path = reverse (push_elements (is_rooted path) [] (split b'/' path))

-- filepath.Clean
unfoldable pub clean : Text → Text
unfolding clean_elements
clean path =
    if is_rooted path
    then b'/' ∷ join (clean_elements path) slash
    else let elements = join (clean_elements path) slash in if elements == [] then dot else elements

-- filepath.Join: leading empty elements are dropped.
unfoldable pub join_path : List Text → Text
unfolding clean
join_path [] = []
join_path (e ∷ es) =
    let rest = join_path es in if e == [] then rest else clean (join (e ∷ es) slash)

-- The path up to and with its last slash, and what follows.
unfoldable pub split_last : Text → Text × Text
split_last [] = ([], [])
split_last (c ∷ s) =
    let (dir, file) = split_last s in
    if dir == [] then (if c == b'/' then (c ∷ [], file) else ([], c ∷ file)) else (c ∷ dir, file)

-- filepath.Dir
unfoldable pub dir_name : Text → Text
unfolding split_last clean
dir_name path = clean (split_last path).0

-- A trailing run of slashes is dropped.
drop_slashes : Text → Text
drop_slashes [] = []
drop_slashes (c ∷ s) =
    let t = drop_slashes s in if c == b'/' then (if t == [] then [] else c ∷ t) else c ∷ t

-- filepath.Base
unfoldable pub base_name : Text → Text
unfolding split_last drop_slashes
base_name path =
    if path == []
    then dot
    else let name = (split_last (drop_slashes path)).1 in if name == [] then slash else name
