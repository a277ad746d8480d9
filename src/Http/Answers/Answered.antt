-- ===== src/Http/Answers/Answered.antt =====
-- The forms of the answers of src/http.c, and what a choice between two of them gives.
use cellmgr.Base.{Bool, true, false, [], Option, none, some, if◌then◌else◌, Bytes, codes}
use cellmgr.Http.State.{response_raw, response_json_body, list_answer}

-- The content types of the pages.
pub data Page : Type 0 where
  html css script icon : Page

abbrev pub content_type : Page → Bytes
content_type html = codes "text/html"
content_type css = codes "text/css"
content_type script = codes "application/javascript"
content_type icon = codes "image/x-icon"

pub data Answered : Bytes → Type 0 where
  json : (ok : Bool) (text : Bytes) (err : Option Bytes) → Answered (response_json_body ok text err)
  page : (p : Page) (body : Bytes) → Answered (response_raw 200 (content_type p) body)
  bad_request : Answered (response_raw 400 (codes "text/plain") (codes "bad request"))

pub answered_list : (o : Option Bytes) (message : Bytes) → Answered (list_answer o message)
answered_list none message = json false [] (some message)
answered_list (some text) message = json true text none

-- A choice, of what is written or of that together with the rest.
pub answered_if :
    {S : Type 0} (b : Bool) (r s : Bytes × S)
    → Answered r.0
    → Answered s.0
    → Answered (if b then r else s).0
answered_if true r s p q = p
answered_if false r s p q = q

pub answered_either :
    (b : Bool) (r s : Bytes) → Answered r → Answered s → Answered (if b then r else s)
answered_either true r s p q = p
answered_either false r s p q = q
