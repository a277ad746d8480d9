-- ===== src/Sysinfo.antt =====
-- src/sysinfo.c: the state of the device as JSON. What the files of the kernel hold, the size of the
-- file system and the arithmetic of doubles are parameters (Kernel); each reading is a function of the
-- text of its file (Cpu, Memory, Net), and `sysinfo_json` puts them together (Report).
pub mod Kernel
pub mod Cpu
pub mod Memory
pub mod Net
pub mod Report
pub mod Service
