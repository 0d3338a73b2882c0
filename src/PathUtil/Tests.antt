-- ===== src/PathUtil/Tests.antt =====
-- The scope test at the paths of its documentation.
use markdown_vdb.Base.{true, false, ◌≡◌, refl}
use markdown_vdb.Base.Strings.{codes}
use markdown_vdb.PathUtil.{path_is_in_scope}
use markdown_vdb.PathUtil.Scope.{path_is_in_scope_iff, Within}
use markdown_vdb.PathUtil.{scope_form}

inside : path_is_in_scope (codes "docs\\guide.md") (codes "./docs/") ≡ true
unfolding path_is_in_scope
inside = refl

sibling : path_is_in_scope (codes "docs-old/guide.md") (codes "docs") ≡ false
unfolding path_is_in_scope
sibling = refl

root : path_is_in_scope (codes "docs/guide.md") (codes "./") ≡ true
unfolding path_is_in_scope
root = refl

path_is_in_scope_iff_example :
    (path_is_in_scope (codes "a/b/c.md") (codes "a/b") ≡ true
      → Within (scope_form (codes "a/b/c.md")) (scope_form (codes "a/b")))
    × (Within (scope_form (codes "a/b/c.md")) (scope_form (codes "a/b"))
        → path_is_in_scope (codes "a/b/c.md") (codes "a/b") ≡ true)
path_is_in_scope_iff_example = path_is_in_scope_iff (codes "a/b/c.md") (codes "a/b")
