-- ===== src/Http/Answers/Reading.antt =====
-- How a client of HTTP/1.1 reads what src/http.c writes.
use cellmgr.Base.{
  ℕ, Bool, true, false, [], ◌∷◌, ◌++◌, Option, none, some, ◌≡◌, refl, ap, ◌∙◌, arith, ◌==◌,
  if◌then◌else◌, Bytes, codes, length, drop, All, All-map, append_assoc,
}
use cellmgr.Libc.Text.{has_prefix, strstr, isdigit}
use cellmgr.Libc.Search.{strstr-append}
use cellmgr.Libc.Number.{digits, value, show_nat, value-show_nat, show_nat-All}
use cellmgr.Http.State.{reason, response_head, response_raw, envelope, response_json_body}
use cellmgr.Http.Answers.Answered.{
  Page, html, css, script, icon, content_type, Answered, json, page, bad_request,
}

abbrev length_field : Bytes
length_field = codes "\r\nContent-Length: "

-- The status, and the body behind the empty line, which has as many bytes as the head says.
unfoldable pub read_response : Bytes → Option (ℕ × Bytes)
unfolding has_prefix strstr value
read_response answer =
    if has_prefix (codes "HTTP/1.1 ") answer
    then (elim (strstr answer length_field) [
      | none ↦ none
      | some field ↦ elim (strstr answer (codes "\r\n\r\n")) [
        | none ↦ none
        | some ends ↦
            if length (drop 4 ends) == value 0 (drop 18 field)
            then some (value 0 (drop 9 answer), drop 4 ends)
            else none
      ]
    ])
    else none

-- The head behind the length, and the body.
abbrev behind : Bytes → Bytes
behind body = codes "\r\nConnection: close\r\nCache-Control: no-store\r\n\r\n" ++ body

-- The head in front of the line with the length.
record IsFront (front : Bytes) (status : ℕ) : Type 0 where
  starts : (t : Bytes) → has_prefix (codes "HTTP/1.1 ") (front ++ t) ≡ true
  reads : (t : Bytes) → value 0 (drop 9 (front ++ t)) ≡ status
  finds :
      (t : Bytes) → strstr (front ++ (length_field ++ t)) length_field ≡ some (length_field ++ t)
  steps :
      (t : Bytes)
      → strstr (front ++ (length_field ++ t)) (codes "\r\n\r\n") ≡ strstr t (codes "\r\n\r\n")

read_response_lem :
    (answer field ends : Bytes)
    → has_prefix (codes "HTTP/1.1 ") answer ≡ true
    → strstr answer length_field ≡ some field
    → strstr answer (codes "\r\n\r\n") ≡ some ends
    → (length (drop 4 ends) == value 0 (drop 18 field)) ≡ true
    → read_response answer ≡ some (value 0 (drop 9 answer), drop 4 ends)
unfolding read_response
read_response_lem answer field ends e1 e2 e3 e4 = rw (e1, e2, e3, e4)

no_return : (n : ℕ) → All (λ c. (13 == c) ≡ false) (show_nat n)
no_return n = All-map _ _ (λ c h. digit c h) (show_nat n) (show_nat-All n)
  where
    digit : (c : ℕ) → isdigit c ≡ true → (13 == c) ≡ false
    digit c h = unfold isdigit in (ground arith)

empty_line :
    (n : ℕ) (body : Bytes)
    → strstr (show_nat n ++ behind body) (codes "\r\n\r\n") ≡ some (codes "\r\n\r\n" ++ body)
empty_line n body =
    strstr-append 13 (10 ∷ 13 ∷ 10 ∷ []) (show_nat n) (behind body) (no_return n)
    ∙ (unfold strstr has_prefix in refl)

read_front :
    (front body : Bytes) (status : ℕ)
    → IsFront front status
    → read_response (front ++ (length_field ++ (show_nat (length body) ++ behind body)))
      ≡ some (status, body)
read_front front body status f =
    let t = show_nat (length body) ++ behind body in
    let same : value 0 t ≡ length body =
      value-show_nat (length body) (behind body) (unfold isdigit in refl) in
    read_response_lem (front ++ (length_field ++ t)) (length_field ++ t) (codes "\r\n\r\n" ++ body)
      (f.starts (length_field ++ t)) (f.finds t) (f.steps t ∙ empty_line (length body) body)
      (rw same (ground arith))
    ∙ ap (λ s. some (s, body)) (f.reads (length_field ++ t))

abbrev front : ℕ → Bytes → Bytes
front status ctype =
    codes "HTTP/1.1 "
    ++ show_nat status
    ++ codes " "
    ++ reason status
    ++ codes "\r\nContent-Type: "
    ++ ctype
    ++ codes "; charset=utf-8"

page-IsFront : (p : Page) → IsFront (front 200 (content_type p)) 200
unfolding show_nat digits reason has_prefix value isdigit strstr
page-IsFront html = record {
  starts = λ t. refl;
  reads = λ t. refl;
  finds = λ t. refl;
  steps = λ t. refl;
}
page-IsFront css = record {
  starts = λ t. refl;
  reads = λ t. refl;
  finds = λ t. refl;
  steps = λ t. refl;
}
page-IsFront script = record {
  starts = λ t. refl;
  reads = λ t. refl;
  finds = λ t. refl;
  steps = λ t. refl;
}
page-IsFront icon = record {
  starts = λ t. refl;
  reads = λ t. refl;
  finds = λ t. refl;
  steps = λ t. refl;
}

json-IsFront :
    (ok : Bool)
    → IsFront (front (if ok then 200 else 500) (codes "application/json")) (if ok then 200 else 500)
unfolding show_nat digits reason has_prefix value isdigit strstr
json-IsFront true = record {
  starts = λ t. refl;
  reads = λ t. refl;
  finds = λ t. refl;
  steps = λ t. refl;
}
json-IsFront false = record {
  starts = λ t. refl;
  reads = λ t. refl;
  finds = λ t. refl;
  steps = λ t. refl;
}

bad-IsFront : IsFront (front 400 (codes "text/plain")) 400
unfolding show_nat digits reason has_prefix value isdigit strstr
bad-IsFront = record { starts = λ t. refl; reads = λ t. refl; finds = λ t. refl; steps = λ t. refl }

response_raw_shape :
    (status : ℕ) (ctype body : Bytes)
    → response_raw status ctype body
      ≡ front status ctype ++ (length_field ++ (show_nat (length body) ++ behind body))
unfolding response_raw response_head
response_raw_shape status ctype body = simp append_assoc

read_raw :
    (status : ℕ) (ctype body : Bytes)
    → IsFront (front status ctype) status
    → read_response (response_raw status ctype body) ≡ some (status, body)
read_raw status ctype body f =
    ap read_response (response_raw_shape status ctype body)
    ∙ read_front (front status ctype) body status f

-- Read by a client, an answer has a status and a body, whose length its head announces.
abbrev pub IsReadable : Bytes → Type 0
IsReadable answer = (status : ℕ) × (body : Bytes) × (read_response answer ≡ some (status, body))

pub answered-IsReadable : (answer : Bytes) → Answered answer → IsReadable answer
answered-IsReadable _ (json ok text err) =
    unfold response_json_body in (_, (envelope ok text err), read_raw _ _ _ (json-IsFront ok))
answered-IsReadable _ (page p body) =
    (200, body, read_raw 200 (content_type p) body (page-IsFront p))
answered-IsReadable _ bad_request =
    (400, codes "bad request", read_raw 400 (codes "text/plain") (codes "bad request") bad-IsFront)
