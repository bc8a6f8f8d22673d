-- ===== src/Alerts/Siem.antt =====
-- alerts/siem.py: an alert as a CEF line and in a syslog frame. What Python prints of the time and of
-- the confidence, and the recommended action, which alerts here do not have, are arguments.
pub mod Header
use Prim.Native.String.{◌++◌}
use sentinel_pi.Prelude.{
  ℕ, ◌+◌, ◌*◌, String, Bool, true, false, ◌&&◌, ◌||◌, not, Option, none, some, List, [], ◌∷◌, map,
  eqb, string_key, if◌then◌else◌,
}
use mathlib.Core.List.{◌++◌ as append}
use sentinel_pi.Prelude.Dict.{Dict, get}
use sentinel_pi.Models.{
  Alert, AlertCategory, Severity, info, low, medium, high, critical, port_scan, lateral_movement,
  category_value,
}
use sentinel_pi.Text.{replace}
use sentinel_pi.Text.Show.{show}

-- `_ACTOR_IN_RELATED`
unfoldable pub actor_in_related : AlertCategory → Bool
actor_in_related port_scan = true
actor_in_related lateral_movement = true
actor_in_related _ = false

-- `_siem_source_dest`
unfoldable pub source_dest : Alert → String × String × String
unfolding actor_in_related
source_dest a =
    if actor_in_related a.category && not (eqb a.related_host "")
    then (a.related_host, "", a.affected_host)
    else (a.affected_host, a.affected_mac, a.related_host)

-- `SYSLOG_SEVERITY`
unfoldable pub syslog_severity : Severity → ℕ
syslog_severity info = 6
syslog_severity low = 5
syslog_severity medium = 4
syslog_severity high = 3
syslog_severity critical = 2

-- `CEF_SEVERITY`
unfoldable pub cef_severity : Severity → ℕ
cef_severity info = 1
cef_severity low = 3
cef_severity medium = 5
cef_severity high = 8
cef_severity critical = 10

-- `SYSLOG_FACILITIES`
unfoldable pub syslog_facilities : Dict String ℕ
syslog_facilities =
    ("user", 1)
    ∷ ("daemon", 3)
    ∷ ("local0", 16)
    ∷ ("local1", 17)
    ∷ ("local2", 18)
    ∷ ("local3", 19)
    ∷ ("local4", 20)
    ∷ ("local5", 21)
    ∷ ("local6", 22)
    ∷ ("local7", 23)
    ∷ []

-- `_cef_escape_header`
unfoldable pub escape_header : String → String
escape_header value = replace "|" "\\|" (replace "\\" "\\\\" value)

-- `_cef_escape_ext`
unfoldable pub escape_ext : String → String
escape_ext value =
    replace "\r" "\\n" (replace "\n" "\\n" (replace "=" "\\=" (replace "\\" "\\\\" value)))

-- `sep.join(parts)`
unfoldable pub join : String → List String → String
join sep [] = ""
join sep (part ∷ []) = part
join sep (part ∷ next ∷ parts) = part ++ (sep ++ join sep (next ∷ parts))

-- The parts of the header.
unfoldable pub header_parts : String → Alert → List String
header_parts product_version a =
    "CEF:0"
    ∷ "SentinelPi"
    ∷ "SentinelPi"
    ∷ product_version
    ∷ category_value a.category
    ∷ (if eqb a.title "" then category_value a.category else a.title)
    ∷ show (cef_severity a.severity)
    ∷ []

-- A pair, if its value is not empty.
pair_if : String → String → List (String × String)
pair_if key value = if eqb value "" then [] else (key, value) ∷ []

-- The pairs of the extension.
unfoldable pub pairs_of : String → String → String → Alert → List (String × String)
unfolding source_dest pair_if
pairs_of iso confidence action a =
    let ends = source_dest a in
    append (("externalId", a.alert_id) ∷ ("rt", iso) ∷ ("cat", category_value a.category) ∷ []) (
      append (pair_if "src" ends.0) (
        append (pair_if "smac" ends.1) (
          append (pair_if "dst" ends.2) (
            append (pair_if "msg" a.description) (
              append (("cn1", confidence) ∷ ("cn1Label", "confidence") ∷ []) (
                if eqb action ""
                then []
                else ("cs1", action) ∷ ("cs1Label", "recommendedAction") ∷ []))))))

unfoldable pub extension : String → String → String → Alert → String
unfolding pairs_of join escape_ext
extension iso confidence action a =
    join " " (
      map (λ (p : String × String). p.0 ++ "=" ++ escape_ext p.1)
        (pairs_of iso confidence action a))

-- `format_cef`
unfoldable pub format_cef : String → String → String → String → Alert → String
format_cef product_version iso confidence action a =
    join "|" (map escape_header (header_parts product_version a))
    ++ ("|" ++ extension iso confidence action a)

-- `format_syslog`, with the names that its caller gives.
unfoldable pub format_syslog :
    String → Severity → String → String → String → String → String → String
format_syslog payload severity iso hostname app_name facility procid =
    let fac : ℕ = elim (get facility syslog_facilities) [ none ↦ 16 | some n ↦ n ] in
    let pri = fac * 8 + syslog_severity severity in
    let host = if eqb hostname "" then "-" else hostname in
    "<"
    ++ show pri
    ++ ">1 "
    ++ iso
    ++ " "
    ++ host
    ++ " "
    ++ app_name
    ++ " "
    ++ procid
    ++ " - - "
    ++ payload
