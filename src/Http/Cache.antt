-- ===== src/Http/Cache.antt =====
-- The cache of bands in src/http.c: what `api_network_bands` answers behind a discovery.
use cellmgr.Base.{true, some, Bytes, codes}
use cellmgr.Base.Int.{ℤ, pos, ◌+ℤ◌}
use cellmgr.Config.Fields.{AppConfig}
use cellmgr.Command.Capture.{CommandResult}
use cellmgr.Parsers.Dispatch.{parse_at_response_json}
use cellmgr.System.{System}
use cellmgr.Db.Lawful.{Tables}
use cellmgr.Profile.Capability.{profile_get_capability_ttl}
use cellmgr.Profile.Import.{profile_get_active_json}
use cellmgr.Http.State.{out_text, send_at}

abbrev bands : Bytes
bands = codes "network.band"

abbrev pub parsed_bands : CommandResult → Bytes
parsed_bands res = parse_at_response_json (some (codes "gtact")) (out_text res)

module _ {World : Type 0} (sys : System World) where
  -- What the discovery asks, by the profile and the command in it.
  abbrev pub asked : AppConfig → Bytes → World → CommandResult × World
  asked cfg cmd w = send_at sys cfg cmd true (profile_get_active_json sys cfg w).1

  abbrev pub last_second : AppConfig → Bytes → Bytes → World → ℤ
  last_second cfg json cmd w =
      sys.now_unix (asked cfg cmd w).1 +ℤ profile_get_capability_ttl json bands (pos 86_400)
