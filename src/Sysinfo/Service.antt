-- ===== src/Sysinfo/Service.antt =====
-- What src/sysinfo.c gives to the handlers of src/http.c: its static variables stand beside the world.
use cellmgr.Base.{ℕ, Option, Bytes}
use cellmgr.System.{System, Prog}
use cellmgr.Http.State.{Services}
use cellmgr.Sysinfo.Kernel.{Kernel, Doubles}
use cellmgr.Sysinfo.Cpu.{CpuSample}
use cellmgr.Sysinfo.Report.{sysinfo_json, sysinfo_drop_caches}

-- A system that leaves what stands beside the world as it is.
abbrev beside : {World S A : Type 0} → Prog World A → Prog (World × S) A
beside prog (w, s) = let (a, w1) = prog w in (a, (w1, s))

pub beside_system : {World : Type 0} (S : Type 0) → System World → System (World × S)
beside_system S sys = record {
  run_capture = λ argv timeout limit. beside (sys.run_capture argv timeout limit);
  sql = λ text values. beside (sys.sql text values);
  now_unix = λ w. sys.now_unix w.0;
  read_text_file = λ path limit w. sys.read_text_file path limit w.0;
  write_text_file = λ path contents. beside (sys.write_text_file path contents);
  connect_tcp = λ host port. beside (sys.connect_tcp host port);
  close = λ sent w. (sys.close sent w.0, w.1);
}

-- The pages are constants of src/web_assets.c.
abbrev pub services_of :
    {World F : Type 0}
    → Kernel World
    → Doubles F
    → ℕ
    → Bytes
    → Bytes
    → Bytes
    → Services (World × Option CpuSample)
services_of kernel doubles unset index style script = record {
  web_index_html = index;
  web_style_css = style;
  web_app_js = script;
  sysinfo_json = λ iface w.
      let (text, prev) = sysinfo_json kernel doubles unset iface w.1 w.0 in (text, (w.0, prev));
  sysinfo_drop_caches = beside (sysinfo_drop_caches kernel);
}
