-- ===== src/Parsers/Bands/Syntax.antt =====
-- What the parser of bands writes is JSON, whatever the modem answers.
use cellmgr.Base.{
  List, [], ◌∷◌, ◌++◌, map, inl, inr, arith, subst, Bytes, codes, All, All-append, append_assoc,
  Option-cases,
}
use cellmgr.Base.Int.{ℤ, pos, leb_ℤ, ◌-ℤ◌}
use cellmgr.Libc.Text.{str_eq}
use cellmgr.Libc.Occurrences.{occurrences}
use cellmgr.Json.Escape.{escape_byte, escape_bytes, json_escape}
use cellmgr.Json.Grammar.{
  Json, object, first_string, next_int, next_member, json_escape-Json, lettered-Json, on_if,
}
use cellmgr.Parsers.Quoted.{normalized_at_payload}
use cellmgr.Parsers.Syntax.{comma_separated-Json, listed_raw-Json, All-items}
use cellmgr.Parsers.Bands.{
  band_item, band_word, word_code, word_label, word_items, note_code, numbers, code_item, new_codes,
  append_fibocom_band_items, parse_gtact,
}

band_item-Json :
    (rat : Bytes) (code band : ℤ) (label : Bytes)
    → Json label
    → Json (band_item rat code band label)
unfolding band_item json_escape escape_bytes escape_byte
band_item-Json rat code band label h = subst Json (simp append_assoc) (
    object _ (
      next_member _ (codes "label") label
        (next_int _ (codes "band") band
          (next_int _ (codes "code") code (first_string (codes "rat") rat)))
        h))

word_label-Json : (rat : Bytes) (band : ℤ) (p : Bytes) → Json (word_label rat band p)
unfolding word_label
word_label-Json rat band p =
    on_if Json (str_eq rat (codes "LTE")) _ _
      (λ e. lettered-Json b'B' band (omega arith) (omega arith))
      (λ e.
        on_if Json (str_eq rat (codes "NR")) _ _
          (λ k. lettered-Json b'n' band (omega arith) (omega arith)) (λ k. json_escape-Json p))

code_item-Json : (code : ℤ) → Json (code_item code)
unfolding code_item
code_item-Json code =
    on_if Json (leb_ℤ (pos 5000) code) _ _
      (λ e.
        band_item-Json (codes "NR") code (code -ℤ pos 5000) _
          (lettered-Json b'n' (code -ℤ pos 5000) (omega arith) (omega arith)))
      (λ e.
        band_item-Json (codes "LTE") code (code -ℤ pos 100) _
          (lettered-Json b'B' (code -ℤ pos 100) (omega arith) (omega arith)))

word_items-Json : (places : List Bytes) (seen : List ℤ) → All Json (word_items places seen).0
unfolding word_items
word_items-Json [] seen = tt
word_items-Json (p ∷ places) seen = elim (Option-cases (band_word p)) [
  | inl e ↦ rw (word_items, e) (word_items-Json places seen)
  | inr ((rat, band), e) ↦
      rw (word_items, e)
        (
          band_item-Json rat (word_code rat band) band _ (word_label-Json rat band p),
          word_items-Json places (note_code seen (word_code rat band)),
        )
]

append_fibocom_band_items-Json : (raw : Bytes) → Json (append_fibocom_band_items raw)
unfolding append_fibocom_band_items
append_fibocom_band_items-Json raw =
    let (words, seen) = word_items (occurrences 5 (codes "BAND_") raw) [] in
    let rest = map code_item (new_codes (numbers raw) seen) in
    comma_separated-Json (words ++ rest) (
      All-append Json words rest (word_items-Json (occurrences 5 (codes "BAND_") raw) [])
        (All-items code_item code_item-Json (new_codes (numbers raw) seen)))

pub parse_gtact-Json : (raw : Bytes) → Json (parse_gtact raw)
unfolding parse_gtact json_escape escape_bytes escape_byte
parse_gtact-Json raw =
    let payload = normalized_at_payload raw in
    subst Json (simp append_assoc) (
      listed_raw-Json (codes "bands") (append_fibocom_band_items payload) payload
        (append_fibocom_band_items-Json payload))
