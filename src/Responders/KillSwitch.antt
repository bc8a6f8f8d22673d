-- ===== src/Responders/KillSwitch.antt =====
-- responders/killswitch.py: run the operator's command, its placeholders filled in.
use Prim.Native.String.{◌++◌}
use sentinel_pi.Prelude.{
  String, Bool, true, false, ◌&&◌, ◌||◌, not, Option, none, some, List, [], ◌∷◌, map, string_key,
  eqb, if◌then◌else◌,
}
use sentinel_pi.Models.{Alert, category_value, severity_value}
use sentinel_pi.Responders.{ResponseConfig, Responder, new_action, run_commands, default_expire}
use sentinel_pi.Responders.Gates.{category_in, severity_at_least}
use sentinel_pi.Text.{replace}
use sentinel_pi.World.{ResponderAction, Trace, Env, ok}

unfoldable pub substitute : Alert → String → String
substitute alert token = replace "{severity}" (severity_value alert.severity) (
    replace "{category}" (category_value alert.category) (
      replace "{related}" alert.related_host
        (replace "{mac}" alert.affected_mac (replace "{ip}" alert.affected_host token))))

abbrev is_empty : List String → Bool
is_empty [] = true
is_empty (x ∷ xs) = false

-- `' '.join(words)`
unfoldable pub join_words : List String → String
join_words [] = ""
join_words (w ∷ []) = w
join_words (w ∷ v ∷ ws) = w ++ " " ++ join_words (v ∷ ws)

module _ (env : Env) (rc : ResponseConfig) where
  unfoldable pub can_handle : Alert → Bool
  can_handle alert =
      rc.killswitch_enabled
      && not (is_empty rc.killswitch_command)
      && not (is_empty rc.killswitch_categories)
      && category_in alert rc.killswitch_categories
      && severity_at_least alert rc.killswitch_min_severity
      && (not (eqb alert.affected_host "") || not (eqb alert.related_host ""))

  unfoldable pub plan : Alert → Trace → Option ResponderAction
  unfolding substitute join_words new_action
  plan alert t =
      let target = if eqb alert.affected_host "" then alert.related_host else alert.affected_host in
      let argv = map (substitute alert) rc.killswitch_command in
      if is_empty rc.killswitch_command
      then none
      else some (
          new_action env "KillSwitchResponder" target
            ("Run kill switch for " ++ target ++ ": " ++ join_words argv) (argv ∷ []) 0 t)

  unfoldable pub responder : Responder
  unfolding can_handle plan default_expire
  responder = record {
    name = "KillSwitchResponder";
    can_handle = λ alert. ok (can_handle alert);
    plan = λ alert t. ok (plan alert t);
    execute = λ action t.
        let (action', t') = run_commands env action.commands action t in (ok tt, action', t');
    expire = default_expire "KillSwitchResponder";
  }
