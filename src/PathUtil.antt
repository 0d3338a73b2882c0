-- ===== src/PathUtil.antt =====
-- src/path_util.rs: the canonical form of path strings, and the scope test.
pub mod Scope
pub mod Form
mod Tests
use package.markdown_vdb.Base.{Bool, true, false, ◌||◌, none, some, if◌then◌else◌}
use package.markdown_vdb.Base.{Text, text_eq, is_empty}
use package.markdown_vdb.Base.Strings.{
  codes, replace_char, contains_char, strip_prefix, starts_with, trim_end_matches,
}

-- `to_slash`, on the path's text, and `normalize_path_input`.
unfoldable pub to_slash : Text → Text
unfolding replace_char
to_slash = replace_char b'\\' b'/'

unfoldable pub normalize_path_input : Text → Text
unfolding replace_char
normalize_path_input = replace_char b'\\' b'/'

slash_normalized : Text → Text
slash_normalized value = if contains_char b'\\' value then replace_char b'\\' b'/' value else value

trim_relative_root : Text → Text
trim_relative_root value = elim (strip_prefix (codes "./") value) [ none ↦ value | some r ↦ r ]

-- The two lines that bring `path`, and then `scope`, to one form.
pub scope_form : Text → Text
unfolding slash_normalized trim_relative_root
scope_form value = trim_end_matches b'/' (trim_relative_root (slash_normalized value))

-- `path.strip_prefix(scope).is_some_and(|suffix| suffix.starts_with('/'))`
pub suffix_slash : Text → Text → Bool
suffix_slash scope path = elim (strip_prefix scope path) [
  | none ↦ false
  | some suffix ↦ starts_with (codes "/") suffix
]

-- The body behind these lines.
pub form_is_in_scope : Text → Text → Bool
form_is_in_scope path scope =
    if is_empty scope || text_eq scope (codes ".")
    then true
    else text_eq path scope || suffix_slash scope path

unfoldable pub path_is_in_scope : Text → Text → Bool
unfolding scope_form form_is_in_scope suffix_slash strip_prefix starts_with text_eq trim_end_matches
    replace_char contains_char
path_is_in_scope path scope = form_is_in_scope (scope_form path) (scope_form scope)
