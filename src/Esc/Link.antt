-- ===== src/Esc/Link.antt =====
-- src/esc.rs: `esc_link`, which unescapes a link's text and escapes it again.
use blackfriday_2_rust.Base.{Option, Bytes, ◌>>=◌}
use blackfriday_2_rust.Esc.{escape_html}
use blackfriday_2_rust.Unescape.{unescape_string}

unfoldable pub esc_link : Bytes → Bytes → Option Bytes
unfolding escape_html unescape_string
esc_link out text = unescape_string text >>= escape_html out
