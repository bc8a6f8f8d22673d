-- ===== src/Capture/NetFlow/Fuel.antt =====
-- The loops over sets and over templates end: each round takes at least four bytes, so that the
-- fuel of capture/NetFlow, the number of bytes, is enough.
use sentinel_pi.Prelude.{
  ℕ, zero, suc, ◌≤◌, ◌≡◌, refl, Bool, [], length, length-drop, drop, take, ltb, ◌&&◌, nat_key,
  if◌then◌else◌, arith,
}
use sentinel_pi.Prelude.Dict.{put}
use sentinel_pi.Capture.Bytes.{Bytes}
use sentinel_pi.Capture.NetFlow.{
  Templates, Dialect, read_set, walk_sets, template_fields, templates_from, parse_template_fields,
  word_0, word_1,
}

length-template_fields :
    (ipfix : Bool) (n : ℕ) (rest : Bytes) → length (template_fields ipfix n rest).2 ≤ length rest
unfolding template_fields
length-template_fields ipfix zero rest = omega arith
length-template_fields ipfix (suc n) rest = ground (
  arith,
  length-drop 8 rest,
  length-drop 4 rest,
  length-template_fields ipfix n (drop 8 rest),
  length-template_fields ipfix n (drop 4 rest),
)

templates_from-fuel :
    (ipfix : Bool) (fuel fuel' : ℕ) (rest : Bytes) (ts : Templates)
    → length rest ≤ fuel
    → length rest ≤ fuel'
    → templates_from ipfix fuel rest ts ≡ templates_from ipfix fuel' rest ts
unfolding templates_from
templates_from-fuel ipfix zero zero rest ts h h' = refl
templates_from-fuel ipfix zero (suc fuel') rest ts h h' = ground arith
templates_from-fuel ipfix (suc fuel) zero rest ts h h' = ground arith
templates_from-fuel ipfix (suc fuel) (suc fuel') rest ts h h' =
    let r = template_fields ipfix (word_1 rest) (drop 4 rest) in
    let ts' = if r.0 && ltb 0 (word_1 rest) then put (word_0 rest) r.1 ts else ts in
    ground (
      arith,
      length-drop 4 rest,
      length-template_fields ipfix (word_1 rest) (drop 4 rest),
      templates_from-fuel ipfix fuel fuel' r.2 ts',
    )

-- Any fuel from the number of bytes on gives what the loop over templates gives.
templates_from-enough :
    (ipfix : Bool) (fuel : ℕ) (body : Bytes)
    → length body ≤ fuel
    → templates_from ipfix fuel body [] ≡ parse_template_fields body ipfix
unfolding parse_template_fields
templates_from-enough ipfix fuel body h =
    templates_from-fuel ipfix fuel (length body) body [] h (omega arith)

-- Two fuels that are enough give the same flows and templates.
pub walk_sets-fuel :
    (dialect : Dialect) (fuel fuel' : ℕ) (rest : Bytes) (seen : ℕ) (ts : Templates)
    → length rest ≤ fuel
    → length rest ≤ fuel'
    → walk_sets dialect fuel rest seen ts ≡ walk_sets dialect fuel' rest seen ts
unfolding walk_sets
walk_sets-fuel dialect zero zero rest seen ts h h' = refl
walk_sets-fuel dialect zero (suc fuel') rest seen ts h h' = ground arith
walk_sets-fuel dialect (suc fuel) zero rest seen ts h h' = ground arith
walk_sets-fuel dialect (suc fuel) (suc fuel') rest seen ts h h' =
    let r = read_set dialect (word_0 rest) (drop 4 (take (word_1 rest) rest)) seen ts in
    ground (
      arith,
      length-drop (word_1 rest) rest,
      walk_sets-fuel dialect fuel fuel' (drop (word_1 rest) rest) r.records_seen r.templates,
    )
