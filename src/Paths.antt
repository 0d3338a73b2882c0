-- ===== src/Paths.antt =====
-- What the program uses of `std::path` on Unix, over the text of a path, and `normalize_path` of
-- src/links.rs.
use package.markdown_vdb.Base.{
  Bool, true, false, List, [], ◌∷◌, ◌++◌, ◌||◌, if◌then◌else◌, Option, none, some, Text, text_eq,
  is_empty,
}
use package.markdown_vdb.Base.Strings.{codes, split, starts_with, ends_with}

-- `std::path::Component`, without the prefixes of Windows.
pub data Component : Type 0 where
  root_dir cur_dir parent_dir : Component
  normal : Text → Component

-- A piece between separators that is not the first.
abbrev inner_component : Text → List Component
inner_component piece =
    if is_empty piece || text_eq piece (codes ".")
    then []
    else if text_eq piece (codes "..")
    then parent_dir ∷ []
    else normal piece ∷ []

abbrev inner_components : List Text → List Component
inner_components [] = []
inner_components (p ∷ ps) = inner_component p ++ inner_components ps

-- The first piece: empty after a leading `/`, and kept if it is `.`.
first_component : Text → List Component
first_component piece =
    if is_empty piece
    then root_dir ∷ []
    else if text_eq piece (codes ".")
    then cur_dir ∷ []
    else inner_component piece

components_of : List Text → List Component
unfolding first_component
components_of [] = []
components_of (p ∷ ps) = first_component p ++ inner_components ps

-- `Path::components`.
unfoldable pub components : Text → List Component
unfolding components_of split
components path = if is_empty path then [] else components_of (split b'/' path)

-- `Component::as_os_str`.
unfoldable pub component_text : Component → Text
component_text root_dir = codes "/"
component_text cur_dir = codes "."
component_text parent_dir = codes ".."
component_text (normal name) = name

-- `PathBuf::push` and `Path::join`.
unfoldable pub path_join : Text → Text → Text
unfolding starts_with ends_with
path_join base path =
    if starts_with (codes "/") path
    then path
    else if is_empty base || ends_with (codes "/") base
    then base ++ path
    else base ++ (codes "/" ++ path)

collect_onto : Text → List Component → Text
unfolding path_join component_text
collect_onto buf [] = buf
collect_onto buf (c ∷ cs) = collect_onto (path_join buf (component_text c)) cs

-- `components.iter().collect::<PathBuf>()`.
unfoldable pub collect : List Component → Text
unfolding collect_onto
collect = collect_onto []

-- All but the last component, `Vec::pop` on components; nothing happens to an empty list.
unfoldable pub pop : List Component → List Component
pop [] = []
pop (c ∷ []) = []
pop (c ∷ d ∷ cs) = c ∷ pop (d ∷ cs)

last_is_root : List Component → Bool
last_is_root [] = true
last_is_root (root_dir ∷ []) = true
last_is_root (c ∷ []) = false
last_is_root (c ∷ d ∷ cs) = last_is_root (d ∷ cs)

-- `Path::parent`. The library keeps redundant separators of the text, which are dropped here;
-- the components are the same.
unfoldable pub parent : Text → Option Text
unfolding components collect pop last_is_root
parent path =
    if last_is_root (components path) then none else some (collect (pop (components path)))

-- One round of the loop of `normalize_path`.
pub normalize_step : List Component → Component → List Component
unfolding pop
normalize_step stack cur_dir = stack
normalize_step stack parent_dir = pop stack
normalize_step stack root_dir = stack ++ root_dir ∷ []
normalize_step stack (normal name) = stack ++ normal name ∷ []

pub normalize_loop : List Component → List Component → List Component
unfolding normalize_step
normalize_loop stack [] = stack
normalize_loop stack (c ∷ cs) = normalize_loop (normalize_step stack c) cs

unfoldable pub normalize_path : Text → Text
unfolding components normalize_loop collect
normalize_path path = collect (normalize_loop [] (components path))
