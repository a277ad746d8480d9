-- ===== src/Ofono/Resolve.antt =====
-- `ofono_resolve_modem_path` of src/ofono.c: the configured path if the modem answers there, otherwise
-- the best of the paths that the manager lists.
pub mod Best
use cellmgr.Base.{
  ℕ, zero, suc, ◌+◌, ◌-◌, Bool, true, false, not, ◌&&◌, ◌||◌, List, [], ◌∷◌, ◌++◌, Option, none,
  some, ◌==◌, leb, ltb, if◌then◌else◌, Bytes, codes, length, take, drop,
}
use cellmgr.Base.Int.{ℤ, pos, negsuc, eqb_ℤ}
use cellmgr.Command.Call.{Runner}
use cellmgr.Command.Capture.{CommandResult}
use cellmgr.Config.Fields.{AppConfig}
use cellmgr.Libc.Occurrences.{occurrences}
use cellmgr.Libc.Text.{strstr, strchr, take_while, truncate}
use cellmgr.Ofono.Send.{ofono_get_modem_properties, ofono_get_modems}

abbrev points : ℕ → Bytes → Bytes → ℕ
points n block needle = elim (strstr block needle) [ none ↦ 0 | some p ↦ n ]

unfoldable pub path_supported_score : Bytes → ℕ
path_supported_score block =
    points 4 block (codes "org.ofono.NetworkRegistration")
    + points 4 block (codes "org.ofono.MessageManager")
    + points 2 block (codes "org.ofono.SimManager")
    + points 2 block (codes "org.ofono.Modem")
    + points 1 block (codes "org.ofono.RadioSettings")

abbrev pub object_path : Bytes
object_path = codes "object path "

abbrev non_empty : Bytes → Option Bytes
non_empty [] = none
non_empty (c ∷ s) = some (c ∷ s)

abbrev quoted : ℕ → Option Bytes → Option Bytes
quoted out_sz none = none
quoted out_sz (some q) = non_empty (truncate out_sz (take_while (λ c. not (c == b'"')) (drop 1 q)))

-- `none` where -1 is returned.
unfoldable pub extract_path : ℕ → Bytes → Option Bytes
extract_path out_sz line = elim (strstr line object_path) [
  | none ↦ none
  | some p ↦ quoted out_sz (strchr p b'"')
]

-- The block of one path ends before the next one, and is cut at 2047 bytes.
unfoldable pub path_block : Bytes → Bytes
path_block p =
    let len : ℕ = elim (strstr (drop 11 p) object_path) [
      | none ↦ length p
      | some block_end ↦ length p - length block_end
    ] in
    take (if leb 2048 len then 2047 else len) p

-- A listed path with its score.
unfoldable pub candidate : Bytes → Option (Bytes × ℕ)
unfolding extract_path path_block path_supported_score
candidate p = elim (extract_path 128 p) [
  | none ↦ none
  | some path ↦ some (path, path_supported_score (path_block p))
]

-- `score > best_score`, where -1 stands for no path yet.
abbrev pub is_better : ℕ → Option (Bytes × ℕ) → Bool
is_better score none = true
is_better score (some (path, best)) = ltb best score

-- The body of the loop behind the path and the score.
abbrev pub take_candidate : Option (Bytes × ℕ) → Option (Bytes × ℕ) → Option (Bytes × ℕ)
take_candidate best none = best
take_candidate best (some (path, score)) =
    if is_better score best then some (truncate 128 path, score) else best

unfoldable pub pick : Option (Bytes × ℕ) → List Bytes → Option (Bytes × ℕ)
unfolding candidate
pick best [] = best
pick best (p ∷ ps) = pick (take_candidate best (candidate p)) ps

-- The loop over the answer of the manager.
unfoldable pub choose_path : Bytes → Option (Bytes × ℕ)
unfolding pick occurrences
choose_path out = pick none (occurrences 11 object_path out)

-- The path that is written, if 0 is returned, and the result that is handed out.
abbrev Resolved : Type 0
Resolved = Option Bytes × Option CommandResult

abbrev resolved : ℕ → Option (Bytes × ℕ) → CommandResult → Resolved
resolved out_sz none modems = (none, some modems)
resolved out_sz (some (path, score)) modems = (some (truncate out_sz path), some modems)

abbrev answered : ℤ → CommandResult → Bool
answered rc res = eqb_ℤ rc (pos 0) && eqb_ℤ res.exit_code (pos 0)

abbrev from_listing : ℕ → ℤ → CommandResult → Option Bytes → Resolved
from_listing out_sz rc modems none = (none, some modems)
from_listing out_sz rc modems (some out) =
    if answered rc modems then resolved out_sz (choose_path out) modems else (none, some modems)

module _ {World : Type 0} (run_capture : Runner World) where
  unfoldable pub ofono_resolve_modem_path : AppConfig → ℕ → World → Resolved × World
  unfolding choose_path
  ofono_resolve_modem_path cfg out_sz w =
      let (probe, w1) = ofono_get_modem_properties run_capture cfg w in
      let (modems, w2) = ofono_get_modems run_capture cfg w1 in
      if answered probe.0 probe.1
      then ((some (truncate out_sz cfg.ofono_modem_path), none), w1)
      else (from_listing out_sz modems.0 modems.1 modems.1.out, w2)
