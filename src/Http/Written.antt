-- ===== src/Http/Written.antt =====
-- The answers of src/http.c whose body is JSON: the envelope of `response_json_body` (here), the texts
-- that the handlers write into it (Texts), the handlers (Modem, Radio, Commands, Network, Settings),
-- and the paths (Routes).
pub mod Texts
pub mod Modem
pub mod Radio
pub mod Commands
pub mod Network
pub mod Settings
pub mod Routes
use cellmgr.Base.{
  ℕ, Bool, true, false, [], ◌∷◌, ◌++◌, Option, none, some, if◌then◌else◌, Bytes, codes, subst,
  append_assoc,
}
use cellmgr.Base.Int.{pos, eqb_ℤ}
use cellmgr.Command.Capture.{CommandResult}
use cellmgr.Json.Escape.{escape_byte, escape_bytes, json_escape}
use cellmgr.Json.Grammar.{
  Json, object, null, truth, falsehood, first_member, next_member, json_escape-Json,
}
use cellmgr.Http.State.{
  or_text, response_raw, envelope, response_json_body, success, failure, command_answer,
}

-- An answer whose body is JSON.
pub data Written : Bytes → Type 0 where
  written :
      (status : ℕ) (body : Bytes)
      → Json body
      → Written (response_raw status (codes "application/json") body)

abbrev pub JsonIf : Bool → Bytes → Type 0
JsonIf true text = Json text
JsonIf false text = Unit

envelope-Json :
    (ok : Bool) (text : Bytes) (err : Option Bytes) → JsonIf ok text → Json (envelope ok text err)
unfolding envelope json_escape escape_bytes escape_byte
envelope-Json true text err h = subst Json (simp append_assoc) (
    object _ (
      next_member _ (codes "error") (codes "null")
        (next_member _ (codes "data") text (first_member (codes "ok") (codes "true") truth) h)
        null))
envelope-Json false text err h = object _ (
    next_member _ (codes "error") (json_escape (or_text err (codes "error")))
      (next_member _ (codes "data") (codes "null")
        (first_member (codes "ok") (codes "false") falsehood) null)
      (json_escape-Json (or_text err (codes "error"))))

pub response_json_body-Written :
    (ok : Bool) (text : Bytes) (err : Option Bytes)
    → JsonIf ok text
    → Written (response_json_body ok text err)
unfolding response_json_body
response_json_body-Written ok text err h =
    written (if ok then 200 else 500) (envelope ok text err) (envelope-Json ok text err h)

pub success-Written : (text : Bytes) → Json text → Written (success text)
success-Written text h = response_json_body-Written true text none h

pub failure-Written : (message : Bytes) → Written (failure message)
failure-Written message = response_json_body-Written false [] (some message) tt

always : (ok : Bool) (text : Bytes) → Json text → JsonIf ok text
always true text h = h
always false text h = tt

pub json_body-Written :
    (ok : Bool) (text : Bytes) (err : Option Bytes)
    → Json text
    → Written (response_json_body ok text err)
json_body-Written ok text err h = response_json_body-Written ok text err (always ok text h)

pub command_answer-Written :
    (res : CommandResult) (text : Bytes) → Json text → Written (command_answer res text)
command_answer-Written res text h = json_body-Written (eqb_ℤ res.exit_code (pos 0)) text res.err h

-- A choice, of what is written or of that together with the rest.
pub choice-Written :
    {S : Type 0} (b : Bool) (r s : Bytes × S)
    → Written r.0
    → Written s.0
    → Written (if b then r else s).0
choice-Written true r s p q = p
choice-Written false r s p q = q

pub either-Written : (b : Bool) (r s : Bytes) → Written r → Written s → Written (if b then r else s)
either-Written true r s p q = p
either-Written false r s p q = q
