-- ===== src/Parser.antt =====
-- src/parser.rs: the data of a parsed file. The frontmatter value, which nothing here reads, and
-- the file's raw frontmatter texts are left out.
use package.markdown_vdb.Base.{ℕ, Bool, List, Text}

pub record Heading : Type 0 where
  pub level : ℕ
  pub text : Text
  pub line_number : ℕ

pub record RawLink : Type 0 where
  pub target : Text
  pub text : Text
  pub line_number : ℕ
  pub is_wikilink : Bool

pub record FrontmatterLink : Type 0 where
  pub field : Text
  pub raw : Text
  pub target : Text
  pub text : Text
  pub is_wikilink : Bool

pub record MarkdownFile : Type 0 where
  pub path : Text
  pub headings : List Heading
  pub body : Text
  pub content_hash : Text
  pub file_size : ℕ
  pub links : List RawLink
  pub modified_at : ℕ
  pub frontmatter_links : List FrontmatterLink
