-- ===== src/Monitor.antt =====
-- The metrics of system_monitor.go. Package gopsutil and the numbers of type float64 are parameters.
pub mod Processes
pub mod Gone
mod Tests
use vxapigateway.Prelude.{
  ℕ, zero, suc, Bool, List, [], ◌∷◌, ◌++◌, Option, none, some, length, ltb, if◌then◌else◌,
}
use vxapigateway.Prelude.Bytes.{Bytes}
use vxapigateway.Prelude.Word.{slt}

-- The slice `xs[:n]`, of a list that is long enough.
abbrev pub take {ℓ} : {A : Type ℓ} → ℕ → List A → List A
take zero xs = []
take (suc n) [] = []
take (suc n) (x ∷ xs) = x ∷ take n xs

-- Numbers of type float64: `greater` is `>`, and `fraction` divides by 100.
pub record Floats : Type 1 where
  pub Float : Type 0
  pub zero_float : Float
  pub greater : Float → Float → Bool
  pub fraction : Float → Float

module _ (floats : Floats) where
  open floats use {Float, zero_float, greater, fraction}

  pub record CpuMetrics : Type 0 where
    pub usage_percent : Float
    pub cores : ℕ
    pub model_name : Bytes
    pub frequency : Float
    pub load_average : List Float
    pub core_usage : List Float

  pub record MemoryMetrics : Type 0 where
    pub total : ℕ
    pub available : ℕ
    pub used : ℕ
    pub used_percent : Float
    pub free : ℕ
    pub buffers : ℕ
    pub cached : ℕ

  pub record SwapMetrics : Type 0 where
    pub total : ℕ
    pub used : ℕ
    pub used_percent : Float
    pub free : ℕ

  -- The GPU memory of a process is never set.
  pub record ProcessInfo : Type 0 where
    pub pid : ℕ
    pub name : Bytes
    pub cpu_percent : Float
    pub memory_percent : Float
    pub memory_rss : ℕ
    pub status : Bytes
    pub create_time : ℕ
    pub cmdline : Bytes

  pub record SystemInfo : Type 0 where
    pub hostname : Bytes
    pub os : Bytes
    pub platform : Bytes
    pub platform_version : Bytes
    pub uptime : ℕ
    pub boot_time : ℕ
    pub procs : ℕ

  -- The GPU metrics are never set. The metrics that are left at their zero value are `none`.
  pub record SystemMetrics : Type 0 where
    pub timestamp : ℕ
    pub cpu : CpuMetrics
    pub memory : Option MemoryMetrics
    pub swap : Option SwapMetrics
    pub processes : List ProcessInfo
    pub system_info : Option SystemInfo

  -- What a process answers, its number as a 64-bit pattern; the zero value where it returns an error. `rss` is `none` where
  -- MemoryInfo returns nil.
  pub record Process : Type 0 where
    pub pid : ℕ
    pub name : Bytes
    pub cpu_percent : Float
    pub memory_percent : Float
    pub rss : Option ℕ
    pub status : List Bytes
    pub create_time : ℕ
    pub cmdline : Bytes

  abbrev first_status : List Bytes → Bytes
  first_status [] = []
  first_status (s ∷ rest) = s

  abbrev process_info : Process → ℕ → ProcessInfo
  process_info p rss = record {
    pid = p.pid;
    name = p.name;
    cpu_percent = p.cpu_percent;
    memory_percent = p.memory_percent;
    memory_rss = rss;
    status = first_status p.status;
    create_time = p.create_time;
    cmdline = p.cmdline;
  }

  -- The loop over the processes; `none` is the panic at the field of a nil pointer.
  unfoldable pub process_list : List Process → Option (List ProcessInfo)
  process_list [] = some []
  process_list (p ∷ processes) =
      let rest = process_list processes in
      if slt 0 p.pid
      then elim p.rss [
        | none ↦ none
        | some rss ↦ elim rest [ none ↦ none | some infos ↦ some (process_info p rss ∷ infos) ]
      ]
      else rest

  -- The function given to sort.Slice.
  abbrev pub uses_more : ProcessInfo → ProcessInfo → Bool
  uses_more a b = greater a.cpu_percent b.cpu_percent

  -- `sort` is sort.Slice, which may put equals in any order.
  unfoldable pub top_processes :
      ((ProcessInfo → ProcessInfo → Bool) → List ProcessInfo → List ProcessInfo)
      → List ProcessInfo
      → List ProcessInfo
  top_processes sort infos =
      let sorted = sort uses_more infos in if ltb 20 (length sorted) then take 20 sorted else sorted

  -- What package gopsutil answers; `none` is an error.
  pub record System : Type 0 where
    pub now : ℕ
    pub cpu_percent : Option (List Float)
    pub core_percent : List Float
    pub cpu_info : Option (List (Bytes × Float))
    pub num_cpu : ℕ
    pub later_percent : Option (List Float)
    pub virtual_memory : Option MemoryMetrics
    pub swap_memory : Option SwapMetrics
    pub processes : Option (List Process)
    pub host_info : Option SystemInfo

  -- Both branches of the test on the system do the same. `none` is an error.
  unfoldable pub load_average_of : System → Option (List Float)
  load_average_of s = elim s.host_info [
    | none ↦ none
    | some info ↦ elim s.later_percent [
      | none ↦ some (zero_float ∷ zero_float ∷ zero_float ∷ [])
      | some [] ↦ some (zero_float ∷ zero_float ∷ zero_float ∷ [])
      | some (percent ∷ rest) ↦ let load = fraction percent in some (load ∷ load ∷ load ∷ [])
    ]
  ]

  abbrev first_or : Float → Option (List Float) → Float
  first_or z none = z
  first_or z (some []) = z
  first_or z (some (x ∷ rest)) = x

  abbrev first_info : Option (List (Bytes × Float)) → Bytes × Float
  first_info none = ([], zero_float)
  first_info (some []) = ([], zero_float)
  first_info (some (x ∷ rest)) = x

  abbrev or_nil : Option (List Float) → List Float
  or_nil none = []
  or_nil (some xs) = xs

  -- `none` is a panic.
  abbrev listed :
      ((ProcessInfo → ProcessInfo → Bool) → List ProcessInfo → List ProcessInfo)
      → Option (List Process)
      → Option (List ProcessInfo)
  unfolding process_list top_processes
  listed sort none = some []
  listed sort (some processes) = elim (process_list processes) [
    | none ↦ none
    | some infos ↦ some (top_processes sort infos)
  ]

  unfoldable pub get_system_metrics :
      ((ProcessInfo → ProcessInfo → Bool) → List ProcessInfo → List ProcessInfo)
      → System
      → Option SystemMetrics
  unfolding load_average_of process_list top_processes
  get_system_metrics sort s = elim (listed sort s.processes) [
    | none ↦ none
    | some infos ↦ some (record {
      timestamp = s.now;
      cpu = record {
        usage_percent = first_or zero_float s.cpu_percent;
        cores = s.num_cpu;
        model_name = (first_info s.cpu_info).0;
        frequency = (first_info s.cpu_info).1;
        load_average = or_nil (load_average_of s);
        core_usage = s.core_percent;
      };
      memory = s.virtual_memory;
      swap = s.swap_memory;
      processes = infos;
      system_info = s.host_info;
    })
  ]
