-- ===== src/Machine.antt =====
-- src/common/utils.cpp: collect_system_info as it is compiled for Linux, and the variants for
-- Windows and macOS. What the system calls give is a record for each system, and a text is its
-- bytes.
use Prim.Native.String.{◌++◌ as str_append}
use distributed_integration.Base.{
  String, ℕ, ◌*◌, ◌/◌, ◌≡◌, refl, Bool, true, false, ◌&&◌, ◌||◌, Option, none, some, List, [], ◌∷◌,
  ◌==◌, if◌then◌else◌, Outcome, ok,
}
use distributed_integration.Base.Words.{u64}
use distributed_integration.InputHandler.{codes}
use distributed_integration.Messages.{
  SystemInfo, OsType, Architecture, os_to_string, architecture_to_string,
}
pub mod Collected

-- What `uname`, `hardware_concurrency` and `sysinfo` give; `none` is a return value other than 0.
pub record Machine : Type 0 where
  pub uname : Option (List ℕ)  -- the field `machine`
  pub hardware_concurrency : ℕ  -- unsigned int
  pub sysinfo : Option (ℕ × ℕ)  -- `totalram` and `mem_unit`

starts_with : List ℕ → List ℕ → Bool
starts_with [] s = true
starts_with (p ∷ ps) [] = false
starts_with (p ∷ ps) (c ∷ s) = p == c && starts_with ps s

-- `s.find(p) != std::string::npos`
unfoldable pub contains : List ℕ → List ℕ → Bool
unfolding starts_with
contains p [] = starts_with p []
contains p (c ∷ s) = starts_with p (c ∷ s) || contains p s

unfoldable pub architecture_named : List ℕ → Architecture
unfolding contains
architecture_named arch =
    if contains (codes "x86_64") arch
    then Architecture.x64
    else if contains (codes "i386") arch || contains (codes "i686") arch
    then Architecture.x86
    else if contains (codes "arm") arch || contains (codes "aarch64") arch
    then (if contains (codes "64") arch then Architecture.arm64 else Architecture.arm)
    else Architecture.unknown

-- the test of `info.cpu_cores`
unfoldable pub at_least_one : ℕ → ℕ
at_least_one n = if n == 0 then 1 else n

-- `sys_utils::collect_system_info`
unfoldable pub collect_system_info : Machine → SystemInfo
unfolding architecture_named at_least_one
collect_system_info m = record {
  os_type = OsType.linux;
  architecture = elim m.uname [ none ↦ Architecture.unknown | some arch ↦ architecture_named arch ];
  cpu_cores = at_least_one m.hardware_concurrency;
  total_ram_mb = elim m.sysinfo [
    | none ↦ 0
    | some (totalram, mem_unit) ↦ u64 (totalram * mem_unit) / (1024 * 1024)
  ];
}

-- What `GetSystemInfo`, `hardware_concurrency` and `GlobalMemoryStatusEx` give.
pub record WindowsMachine : Type 0 where
  pub is_amd64 : Bool  -- `wProcessorArchitecture` is PROCESSOR_ARCHITECTURE_AMD64
  pub hardware_concurrency : ℕ
  pub total_phys : ℕ  -- `ullTotalPhys`

unfoldable pub collect_windows : WindowsMachine → SystemInfo
unfolding at_least_one
collect_windows m = record {
  os_type = OsType.windows;
  architecture = if m.is_amd64 then Architecture.x64 else Architecture.x86;
  cpu_cores = at_least_one m.hardware_concurrency;
  total_ram_mb = m.total_phys / (1024 * 1024);
}

-- The macros of the compiler, `hardware_concurrency`, and what `sysctlbyname` leaves in `mem_size`.
pub record AppleMachine : Type 0 where
  pub is_arm64 : Bool
  pub hardware_concurrency : ℕ
  pub mem_size : ℕ  -- uint64_t

unfoldable pub collect_apple : AppleMachine → SystemInfo
unfolding at_least_one
collect_apple m = record {
  os_type = OsType.mac_os;
  architecture = if m.is_arm64 then Architecture.arm64 else Architecture.x64;
  cpu_cores = at_least_one m.hardware_concurrency;
  total_ram_mb = m.mem_size / (1024 * 1024);
}

-- `SystemInfo::to_string`, over `std::to_string`
unfoldable pub system_info_to_string : (to_string : ℕ → String) → SystemInfo → String
unfolding os_to_string architecture_to_string
system_info_to_string to_string i = str_append "OS: " (
    str_append (os_to_string i.os_type) (
      str_append "\nArchitecture: " (
        str_append (architecture_to_string i.architecture) (
          str_append " \nCPU Cores: " (
            str_append (to_string i.cpu_cores)
              (str_append "\nRAM: " (str_append (to_string i.total_ram_mb) " MB\n")))))))
