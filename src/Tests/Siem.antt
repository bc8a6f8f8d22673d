-- ===== src/Tests/Siem.antt =====
-- A CEF line of an alert whose title has a bar and a backslash.
use sentinel_pi.Prelude.{◌≡◌, refl, true, some, All, String-discrete}
use sentinel_pi.Models.{Alert, category_value}
use sentinel_pi.Text.{replace}
use sentinel_pi.Alerts.Siem.{
  escape_header, escape_ext, cef_severity, header_parts, extension, format_cef,
}
use sentinel_pi.Text.Show.{show}
use sentinel_pi.Alerts.Siem.Header.{has_no_break, read_fields, read_fields-format_cef}
use sentinel_pi.Tests.Response.{alert}

escaped : escape_header "a|b\\c" ≡ "a\\|b\\\\c"
unfolding escape_header replace
escaped = refl

escaped_value : escape_ext "x=1\ny\\" ≡ "x\\=1\\ny\\\\"
unfolding escape_ext replace
escaped_value = refl

abbrev barred : Alert
barred = record alert { title = "a|b\\c" }

one_line : All (λ p. has_no_break p ≡ true) (header_parts "1.0.0" barred)
unfolding header_parts show cef_severity category_value String-discrete
one_line = (refl, (refl, (refl, (refl, (refl, (refl, (refl, tt)))))))

read_fields-format_cef_example :
    read_fields 7 (format_cef "1.0.0" "2026-01-01T00:00:00" "0.9" "" barred)
    ≡ some (header_parts "1.0.0" barred, extension "2026-01-01T00:00:00" "0.9" "" barred)
read_fields-format_cef_example =
    read_fields-format_cef "1.0.0" "2026-01-01T00:00:00" "0.9" "" barred one_line
