-- ===== src/Version.antt =====
-- src/version.cpp: the text of the version. The build defines its three numbers, so they are an
-- argument.
use port_forward_x.Prelude.{ℕ, ◌++◌, Text, codes, to_text}

pub record Version : Type 0 where
  pub major : ℕ
  pub minor : ℕ
  pub patch : ℕ

unfoldable pub version_string : Version → Text
version_string v =
    to_text v.major ++ (codes "." ++ (to_text v.minor ++ (codes "." ++ to_text v.patch)))
