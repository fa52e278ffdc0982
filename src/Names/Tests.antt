-- ===== src/Names/Tests.antt =====
-- Names as Surelog gives them.
use synlig.Common.{◌≡◌, refl}
use synlig.Common.Text.{codes}
use synlig.Names.{sanitize_symbol_name, strip_package_name, after_separator, has_at, after_at}

sanitize_work : sanitize_symbol_name (codes "work@dut") ≡ codes "\\dut"
unfolding sanitize_symbol_name after_at has_at
sanitize_work = refl

strip_word : strip_package_name (codes "pkg::word") ≡ codes "\\word"
unfolding strip_package_name after_separator
strip_word = refl
