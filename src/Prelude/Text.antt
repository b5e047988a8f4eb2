-- ===== src/Prelude/Text.antt =====
-- Go strings as lists of bytes, with what the program uses of package strings.
--
-- `trim_space` is strings.TrimSpace: it knows every space of unicode.IsSpace in its UTF-8 encoding.
-- `to_lower` is strings.ToLower: it maps ASCII text itself, and leaves other text to `wide`, which
-- stands for the tables of package unicode.
mod Defs
mod Spaces
mod Same
pub use Spaces.*
pub use Same.*
unfoldable pub use Defs.{
  text, same, is_blank, trim_left, trim_right, trim_space, trim_prefix, has_prefix, join, is_ascii,
  to_lower,
}
pub use Defs.{Text, to_lower_idem}
